-- ===== src/Rule/Tree/Normal.antt =====
-- The normal form that `normalize` reaches: no empty or single-child group, and no group directly
-- inside one with the same operator.
use iot_saas.Prelude.{
  String, true, false, ◌≡◌, refl, ap, ◌∙◌, Option, none, some, arith, Bool-cases, inl, inr,
}
use iot_saas.Rule.Draft.{Combinator, same_op, DraftNode, Nodes, contact, group, nil, cons, append}
use iot_saas.Rule.Tree.{add_child, collapse, normalize_node, normalize_children, normalize}

-- A child that may stand in a group with this operator.
abbrev pub FitsIn : {N : Type 0} → Combinator → DraftNode N → Type 0
FitsIn op (contact c) = Unit
FitsIn op (group i o cs) = same_op o op ≡ false

abbrev pub HasTwo : {N : Type 0} → Nodes N → Type 0
HasTwo nil = ⊥
HasTwo (cons n nil) = ⊥
HasTwo (cons n (cons m ns)) = Unit

unfoldable mutual
  pub IsNormal : {N : Type 0} → DraftNode N → Type 0
  IsNormal (contact c) = Unit
  IsNormal (group i op cs) = HasTwo cs × AreNormal op cs

  pub AreNormal : {N : Type 0} → Combinator → Nodes N → Type 0
  AreNormal op nil = Unit
  AreNormal op (cons n ns) = IsNormal n × FitsIn op n × AreNormal op ns

abbrev pub IsNormalTree : {N : Type 0} → Option (DraftNode N) → Type 0
IsNormalTree none = Unit
IsNormalTree (some n) = IsNormal n

pub same_op-eq : (o op : Combinator) → same_op o op ≡ true → o ≡ op
same_op-eq o op h = ground arith

module _ {N : Type 0} where
  AreNormal-append :
      (op : Combinator) (xs ys : Nodes N)
      → AreNormal op xs
      → AreNormal op ys
      → AreNormal op (append xs ys)
  unfolding IsNormal AreNormal
  AreNormal-append op nil ys h k = k
  AreNormal-append op (cons x xs) ys (n, f, h) k = (n, f, AreNormal-append op xs ys h k)

  add_child-AreNormal :
      (op : Combinator) (child : Option (DraftNode N)) (rest : Nodes N)
      → IsNormalTree child
      → AreNormal op rest
      → AreNormal op (add_child op child rest)
  unfolding add_child IsNormal AreNormal
  add_child-AreNormal op none rest h k = k
  add_child-AreNormal op (some (contact c)) rest h k = (tt, tt, k)
  add_child-AreNormal op (some (group i o cs)) rest h k = elim (Bool-cases (same_op o op)) [
    | inl e ↦ rw e (AreNormal-append op cs rest (rw (← same_op-eq o op e) h.1) k)
    | inr e ↦ rw e (h, e, k)
  ]

  collapse-IsNormal :
      (i : String) (op : Combinator) (cs : Nodes N)
      → AreNormal op cs
      → IsNormalTree (collapse i op cs)
  unfolding collapse IsNormal AreNormal
  collapse-IsNormal i op nil h = tt
  collapse-IsNormal i op (cons n nil) h = h.0
  collapse-IsNormal i op (cons n (cons m ns)) h = (tt, h)

mutual
  unfolding normalize_node normalize_children IsNormal AreNormal

  normalize_node-normal : {N : Type 0} (n : DraftNode N) → IsNormalTree (normalize_node n)
  normalize_node-normal (contact c) = tt
  normalize_node-normal (group i op cs) =
      collapse-IsNormal i op (normalize_children op cs) (normalize_children-normal op cs)

  normalize_children-normal :
      {N : Type 0} (op : Combinator) (cs : Nodes N) → AreNormal op (normalize_children op cs)
  normalize_children-normal op nil = tt
  normalize_children-normal op (cons n ns) =
      add_child-AreNormal op (normalize_node n) (normalize_children op ns) (normalize_node-normal n)
        (normalize_children-normal op ns)

module _ {N : Type 0} where
  add_child_of_FitsIn :
      (op : Combinator) (n : DraftNode N) (rest : Nodes N)
      → FitsIn op n
      → add_child op (some n) rest ≡ cons n rest
  unfolding add_child
  add_child_of_FitsIn op (contact c) rest h = refl
  add_child_of_FitsIn op (group i o cs) rest h = rw h

  collapse_of_HasTwo :
      (i : String) (op : Combinator) (cs : Nodes N)
      → HasTwo cs
      → collapse i op cs ≡ some (group i op cs)
  unfolding collapse
  collapse_of_HasTwo i op nil h = absurd h
  collapse_of_HasTwo i op (cons n nil) h = absurd h
  collapse_of_HasTwo i op (cons n (cons m ns)) h = refl

mutual
  unfolding normalize_node normalize_children IsNormal AreNormal

  normalize_node-same : {N : Type 0} (n : DraftNode N) → IsNormal n → normalize_node n ≡ some n
  normalize_node-same (contact c) h = refl
  normalize_node-same (group i op cs) h =
      rw (normalize_children-same op cs h.1) (collapse_of_HasTwo i op cs h.0)

  normalize_children-same :
      {N : Type 0} (op : Combinator) (cs : Nodes N)
      → AreNormal op cs
      → normalize_children op cs ≡ cs
  normalize_children-same op nil h = refl
  normalize_children-same op (cons n ns) (h, f, k) =
      ap (λ m. add_child op m (normalize_children op ns)) (normalize_node-same n h)
      ∙ (add_child_of_FitsIn op n (normalize_children op ns) f)
      ∙ ap (cons n) (normalize_children-same op ns k)

module _ {N : Type 0} where
  -- Whatever the tree, `normalize` returns null or a tree in normal form: every group has two or
  -- more children, and none of them is a group with its operator.
  pub normalize-IsNormal : (t : Option (DraftNode N)) → IsNormalTree (normalize t)
  unfolding normalize
  normalize-IsNormal none = tt
  normalize-IsNormal (some n) = normalize_node-normal n

  pub normalize_of_IsNormal : (n : DraftNode N) → IsNormal n → normalize_node n ≡ some n
  normalize_of_IsNormal n h = normalize_node-same n h

  normalize_of_IsNormalTree : (t : Option (DraftNode N)) → IsNormalTree t → normalize t ≡ t
  unfolding normalize
  normalize_of_IsNormalTree none h = refl
  normalize_of_IsNormalTree (some n) h = normalize_node-same n h

  -- Normalizing a second time changes nothing, whatever the tree.
  pub normalize_idem : (t : Option (DraftNode N)) → normalize (normalize t) ≡ normalize t
  normalize_idem t = normalize_of_IsNormalTree (normalize t) (normalize-IsNormal t)
