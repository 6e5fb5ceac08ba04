-- ===== src/Rule/Condition/Saving.antt =====
-- `conditionFromNode` normalizes again at every level; it saves the normalized tree, once.
use iot_saas.Prelude.{
  ℕ, zero, suc, ◌≤◌, ◌<◌, max, String, ◌≡◌, refl, Option, none, some, arith, Bool-cases, inl, inr,
}
use iot_saas.Prelude.Numbers.{Numbers}
use iot_saas.Rule.Draft.{Combinator, same_op, DraftNode, Nodes, contact, group, nil, cons, append}
use iot_saas.Rule.Tree.{normalize, normalize_node, normalize_children, add_child, collapse}
use iot_saas.Rule.Tree.Normal.{
  IsNormal, AreNormal, IsNormalTree, normalize-IsNormal, normalize_of_IsNormal,
}
use iot_saas.Rule.Condition.{
  ConditionNode, Conditions, leaf, all_of, end, more, leaf_from_contact, Saved, save_children,
  save_normal, condition_from,
}

-- The condition of a tree as it stands, with no normalizing.
unfoldable mutual
  pub condition_of : {N : Type 0} → Numbers N → DraftNode N → ConditionNode N
  condition_of 𝓝 (contact c) = leaf (leaf_from_contact 𝓝 c)
  condition_of 𝓝 (group i op cs) = all_of op (conditions_of 𝓝 cs)

  pub conditions_of : {N : Type 0} → Numbers N → Nodes N → Conditions N
  conditions_of 𝓝 nil = end
  conditions_of 𝓝 (cons c cs) = more (condition_of 𝓝 c) (conditions_of 𝓝 cs)

abbrev pub condition_of_tree :
    {N : Type 0} → Numbers N → Option (DraftNode N) → Option (ConditionNode N)
condition_of_tree 𝓝 none = none
condition_of_tree 𝓝 (some n) = some (condition_of 𝓝 n)

unfoldable mutual
  pub depth : {N : Type 0} → DraftNode N → ℕ
  depth (contact c) = 0
  depth (group i op cs) = suc (depth_all cs)

  pub depth_all : {N : Type 0} → Nodes N → ℕ
  depth_all nil = 0
  depth_all (cons c cs) = max (depth c) (depth_all cs)

abbrev pub depth_tree : {N : Type 0} → Option (DraftNode N) → ℕ
depth_tree none = 0
depth_tree (some n) = depth n

module _ {N : Type 0} where
  depth-append : (xs ys : Nodes N) → depth_all (append xs ys) ≡ max (depth_all xs) (depth_all ys)
  unfolding depth_all
  depth-append nil ys = omega arith
  depth-append (cons x xs) ys = omega (arith, depth-append xs ys)

  depth-add_child :
      (op : Combinator) (child : Option (DraftNode N)) (rest : Nodes N)
      → depth_all (add_child op child rest) ≤ max (depth_tree child) (depth_all rest)
  unfolding add_child depth depth_all
  depth-add_child op none rest = omega arith
  depth-add_child op (some (contact c)) rest = omega arith
  depth-add_child op (some (group i o cs)) rest = elim (Bool-cases (same_op o op)) [
    | inl e ↦ rw e (omega (arith, depth-append cs rest))
    | inr e ↦ rw e (omega arith)
  ]

  depth-collapse :
      (i : String) (op : Combinator) (cs : Nodes N)
      → depth_tree (collapse i op cs) ≤ suc (depth_all cs)
  unfolding collapse depth depth_all
  depth-collapse i op nil = omega arith
  depth-collapse i op (cons n nil) = omega arith
  depth-collapse i op (cons n (cons m ns)) = omega arith

mutual
  unfolding normalize_node normalize_children depth depth_all

  normalize_node-depth : {N : Type 0} (n : DraftNode N) → depth_tree (normalize_node n) ≤ depth n
  normalize_node-depth (contact c) = omega arith
  normalize_node-depth (group i op cs) =
      omega (arith, depth-collapse i op (normalize_children op cs), normalize_children_depth op cs)

  normalize_children_depth :
      {N : Type 0} (op : Combinator) (cs : Nodes N)
      → depth_all (normalize_children op cs) ≤ depth_all cs
  normalize_children_depth op nil = omega arith
  normalize_children_depth op (cons n ns) = omega (
    arith,
    depth-add_child op (normalize_node n) (normalize_children op ns),
    normalize_node-depth n,
    normalize_children_depth op ns,
  )

depth-normalize : {N : Type 0} (t : Option (DraftNode N)) → depth_tree (normalize t) ≤ depth_tree t
unfolding normalize
depth-normalize none = omega arith
depth-normalize (some n) = normalize_node-depth n

module _ {N : Type 0} (𝓝 : Numbers N) where
  -- A recursive call that saves every shallow normal tree as it stands.
  abbrev SavesBelow : ℕ → (DraftNode N → Saved N) → Type 0
  SavesBelow f save =
      (n : DraftNode N) → IsNormal n → depth n < f → save n ≡ some (some (condition_of 𝓝 n))

  save_children-eq :
      (f : ℕ) (save : DraftNode N → Saved N) (op : Combinator) (cs : Nodes N)
      → SavesBelow f save
      → AreNormal op cs
      → depth_all cs < f
      → save_children 𝓝 save cs ≡ some (conditions_of 𝓝 cs)
  unfolding save_children conditions_of depth_all IsNormal
  save_children-eq f save op nil ih h d = refl
  save_children-eq f save op (cons c cs) ih (h, _, k) d =
      rw (ih c h (omega arith), save_children-eq f save op cs ih k (omega arith))

  save_normal-eq :
      (f : ℕ) (save : DraftNode N → Saved N) (t : Option (DraftNode N))
      → SavesBelow f save
      → IsNormalTree t
      → depth_tree t ≤ f
      → save_normal 𝓝 save t ≡ some (condition_of_tree 𝓝 t)
  unfolding save_normal condition_of depth IsNormal
  save_normal-eq f save none ih h d = refl
  save_normal-eq f save (some (contact c)) ih h d = refl
  save_normal-eq f save (some (group i op cs)) ih h d = rw (save_children-eq f save op cs ih h.1 d)

  condition_from_of_IsNormal : (f : ℕ) → SavesBelow f (λ n. condition_from 𝓝 f (some n))
  unfolding condition_from normalize
  condition_from_of_IsNormal zero n h d = elim d [ ]
  condition_from_of_IsNormal (suc f) n h d = rw (normalize_of_IsNormal n h) (
      save_normal-eq f (λ c. condition_from 𝓝 f (some c)) (some n) (condition_from_of_IsNormal f) h
        (omega arith))

  -- With fuel beyond the depth of the tree, saving it gives null for a tree with no contact and
  -- else the condition of the normalized tree, leaf for contact and group for group; the casts
  -- inside let no null through.
  pub condition_from-normalize :
      (f : ℕ) (t : Option (DraftNode N))
      → depth_tree t < f
      → condition_from 𝓝 f t ≡ some (condition_of_tree 𝓝 (normalize t))
  unfolding condition_from
  condition_from-normalize zero t d = elim d [ ]
  condition_from-normalize (suc f) t d =
      save_normal-eq f (λ c. condition_from 𝓝 f (some c)) (normalize t)
        (condition_from_of_IsNormal f) (normalize-IsNormal t) (omega (arith, depth-normalize t))
