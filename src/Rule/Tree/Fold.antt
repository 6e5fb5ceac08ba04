-- ===== src/Rule/Tree/Fold.antt =====
-- What a condition tree comes to when its contacts are given values: a series and a parallel each
-- join the values of their children from left to right, and a group with no child has the neutral
-- one. The contacts from left to right are such a fold, and so is the truth value.
use iot_saas.Prelude.{String, ◌≡◌, refl, sym, ap, ◌∙◌, Option, none, some, Bool-cases, inl, inr}
use iot_saas.Rule.Draft.{
  Combinator, same_op, ContactDraft, DraftNode, Nodes, contact, group, nil, cons, append,
}
use iot_saas.Rule.Tree.{add_child, collapse, normalize_node, normalize_children, normalize}
use iot_saas.Rule.Tree.Normal.{same_op-eq}

pub record Interp (N X : Type 0) : Type 0 where
  pub leaf : ContactDraft N → X
  pub join : Combinator → X → X → X
  pub unit : X
  pub unit_join : (op : Combinator) (a : X) → join op unit a ≡ a
  pub join_unit : (op : Combinator) (a : X) → join op a unit ≡ a
  pub join_assoc : (op : Combinator) (a b c : X) → join op (join op a b) c ≡ join op a (join op b c)

unfoldable mutual
  pub fold : {N X : Type 0} → Interp N X → DraftNode N → X
  fold 𝓘 (contact c) = 𝓘.leaf c
  fold 𝓘 (group i op cs) = fold_all 𝓘 op cs

  pub fold_all : {N X : Type 0} → Interp N X → Combinator → Nodes N → X
  fold_all 𝓘 op nil = 𝓘.unit
  fold_all 𝓘 op (cons n ns) = 𝓘.join op (fold 𝓘 n) (fold_all 𝓘 op ns)

abbrev pub fold_tree : {N X : Type 0} → Interp N X → Option (DraftNode N) → X
fold_tree 𝓘 none = 𝓘.unit
fold_tree 𝓘 (some n) = fold 𝓘 n

module _ {N X : Type 0} (𝓘 : Interp N X) where
  pub fold-append :
      (op : Combinator) (xs ys : Nodes N)
      → fold_all 𝓘 op (append xs ys) ≡ 𝓘.join op (fold_all 𝓘 op xs) (fold_all 𝓘 op ys)
  unfolding fold_all
  fold-append op nil ys = sym (𝓘.unit_join op (fold_all 𝓘 op ys))
  fold-append op (cons x xs) ys =
      ap (𝓘.join op (fold 𝓘 x)) (fold-append op xs ys)
      ∙ sym (𝓘.join_assoc op (fold 𝓘 x) (fold_all 𝓘 op xs) (fold_all 𝓘 op ys))

  fold-add_child :
      (op : Combinator) (child : Option (DraftNode N)) (rest : Nodes N)
      → fold_all 𝓘 op (add_child op child rest) ≡ 𝓘.join op (fold_tree 𝓘 child) (fold_all 𝓘 op rest)
  unfolding add_child fold fold_all
  fold-add_child op none rest = sym (𝓘.unit_join op (fold_all 𝓘 op rest))
  fold-add_child op (some (contact c)) rest = refl
  fold-add_child op (some (group i o cs)) rest = elim (Bool-cases (same_op o op)) [
    | inl e ↦ rw (e, same_op-eq o op e) (fold-append op cs rest)
    | inr e ↦ rw e
  ]

  fold-collapse :
      (i : String) (op : Combinator) (cs : Nodes N)
      → fold_tree 𝓘 (collapse i op cs) ≡ fold_all 𝓘 op cs
  unfolding collapse fold fold_all
  fold-collapse i op nil = refl
  fold-collapse i op (cons n nil) = sym (𝓘.join_unit op (fold 𝓘 n))
  fold-collapse i op (cons n (cons m ns)) = refl

mutual
  unfolding normalize_node normalize_children fold fold_all

  normalize_node-keeps :
      {N X : Type 0} (𝓘 : Interp N X) (n : DraftNode N) → fold_tree 𝓘 (normalize_node n) ≡ fold 𝓘 n
  normalize_node-keeps 𝓘 (contact c) = refl
  normalize_node-keeps 𝓘 (group i op cs) =
      fold-collapse 𝓘 i op (normalize_children op cs) ∙ normalize_children-keeps 𝓘 op cs

  normalize_children-keeps :
      {N X : Type 0} (𝓘 : Interp N X) (op : Combinator) (cs : Nodes N)
      → fold_all 𝓘 op (normalize_children op cs) ≡ fold_all 𝓘 op cs
  normalize_children-keeps 𝓘 op nil = refl
  normalize_children-keeps 𝓘 op (cons n ns) =
      fold-add_child 𝓘 op (normalize_node n) (normalize_children op ns)
      ∙ rw (normalize_node-keeps 𝓘 n, normalize_children-keeps 𝓘 op ns)

module _ {N X : Type 0} (𝓘 : Interp N X) where
  pub fold-normalize_node : (n : DraftNode N) → fold_tree 𝓘 (normalize_node n) ≡ fold 𝓘 n
  fold-normalize_node n = normalize_node-keeps 𝓘 n

  -- Normalizing changes what no interpretation of the tree comes to: with neutral values for empty
  -- groups, and series and parallel associative.
  pub fold-normalize : (t : Option (DraftNode N)) → fold_tree 𝓘 (normalize t) ≡ fold_tree 𝓘 t
  unfolding normalize
  fold-normalize none = refl
  fold-normalize (some n) = normalize_node-keeps 𝓘 n
