-- ===== src/Rule/Tree/Ids.antt =====
-- How often an id occurs in a condition tree, and trees in which every id occurs once.
use iot_saas.Prelude.{
  ℕ, zero, suc, ◌+◌, ◌≤◌, String, Bool, true, false, ◌≡◌, refl, Option, none, some, List, [], ◌∷◌,
  ◌++◌, arith, str_eq, eq_iff, if◌then◌else◌, Bool-cases, Option-cases, inl, inr,
}
use iot_saas.Rule.Draft.{DraftNode, Nodes, contact, group, nil, cons, node_id}
use iot_saas.Rule.Tree.{has_child, parent_of, parent_below, map_node, map_nodes}

unfoldable mutual
  pub ids : {N : Type 0} → DraftNode N → List String
  ids (contact c) = c.id ∷ []
  ids (group i op cs) = i ∷ ids_all cs

  pub ids_all : {N : Type 0} → Nodes N → List String
  ids_all nil = []
  ids_all (cons n ns) = ids n ++ ids_all ns

unfoldable pub count : String → List String → ℕ
count a [] = 0
count a (x ∷ xs) = (if str_eq x a then 1 else 0) + count a xs

unfoldable pub distinct : List String → Bool
unfolding count
distinct [] = true
distinct (x ∷ xs) = elim (count x xs) [ zero ↦ distinct xs | suc n ↦ false ]

abbrev pub HasDistinctIds : {N : Type 0} → DraftNode N → Type 0
HasDistinctIds n = distinct (ids n) ≡ true

pub count-append : (a : String) (xs ys : List String) → count a (xs ++ ys) ≡ count a xs + count a ys
unfolding count
count-append a [] ys = omega arith
count-append a (x ∷ xs) ys = omega (arith, count-append a xs ys)

pub count-distinct : (a : String) (xs : List String) → distinct xs ≡ true → count a xs ≤ 1
unfolding count distinct
count-distinct a [] h = omega arith
count-distinct a (x ∷ xs) h = elim (Bool-cases (str_eq x a)) [
  | inl e ↦ rw e (ground (arith, rw ((eq_iff x a).0 e) at h))
  | inr e ↦ rw e (ground (arith, count-distinct a xs))
]

-- How often an id occurs in a tree.
abbrev pub occurs : {N : Type 0} → String → DraftNode N → ℕ
occurs a n = count a (ids n)

abbrev pub occurs_all : {N : Type 0} → String → Nodes N → ℕ
occurs_all a ns = count a (ids_all ns)

module _ {N : Type 0} (a : String) where
  pub occurs-cons :
      (n : DraftNode N) (ns : Nodes N) → occurs_all a (cons n ns) ≡ occurs a n + occurs_all a ns
  unfolding ids_all
  occurs-cons n ns = count-append a (ids n) (ids_all ns)

  pub occurs_self : (n : DraftNode N) → str_eq (node_id n) a ≡ true → 1 ≤ occurs a n
  unfolding ids count
  occurs_self (contact c) e = rw e (omega arith)
  occurs_self (group i op cs) e = rw e (omega arith)

  pub occurs-has_child : (ns : Nodes N) → has_child a ns ≡ true → 1 ≤ occurs_all a ns
  unfolding has_child
  occurs-has_child nil h = cc
  occurs-has_child (cons n ns) h = elim (Bool-cases (str_eq (node_id n) a)) [
    | inl e ↦ omega (arith, occurs-cons n ns, occurs_self n e)
    | inr e ↦ omega (arith, occurs-cons n ns, occurs-has_child ns (rw e at h))
  ]

mutual
  unfolding parent_of parent_below map_node map_nodes ids ids_all count

  -- A node that has a parent stands in the tree.
  parent_of-occurs :
      {N : Type 0} (a : String) (n g : DraftNode N) → parent_of a n ≡ some g → 1 ≤ occurs a n
  parent_of-occurs a (contact c) g h = cc
  parent_of-occurs a (group i op cs) g h = elim (Bool-cases (has_child a cs)) [
    | inl e ↦ omega (arith, occurs-has_child a cs e)
    | inr e ↦ omega (arith, parent_below_occurs a cs g (rw e at h))
  ]

  parent_below_occurs :
      {N : Type 0} (a : String) (ns : Nodes N) (g : DraftNode N)
      → parent_below a ns ≡ some g
      → 1 ≤ occurs_all a ns
  parent_below_occurs a nil g h = cc
  parent_below_occurs a (cons n ns) g h = elim (Option-cases (parent_of a n)) [
    | inl e ↦ ground (arith, occurs-cons a n ns, parent_below_occurs a ns g)
    | inr (m, e) ↦ ground (arith, occurs-cons a n ns, parent_of-occurs a n m)
  ]

mutual
  unfolding parent_of parent_below ids ids_all count

  -- The parent that is found stands in the tree.
  parent_occurs :
      {N : Type 0} (a : String) (n g : DraftNode N)
      → parent_of a n ≡ some g
      → 1 ≤ occurs (node_id g) n
  parent_occurs a (contact c) g h = cc
  parent_occurs a (group i op cs) g h = elim (Bool-cases (has_child a cs)) [
    | inl e ↦ ground (arith, eq_iff i i, occurs_self (node_id g) (group i op cs))
    | inr e ↦ omega (arith, parent_all_occurs a cs g (rw e at h))
  ]

  parent_all_occurs :
      {N : Type 0} (a : String) (ns : Nodes N) (g : DraftNode N)
      → parent_below a ns ≡ some g
      → 1 ≤ occurs_all (node_id g) ns
  parent_all_occurs a nil g h = cc
  parent_all_occurs a (cons n ns) g h = elim (Option-cases (parent_of a n)) [
    | inl e ↦ ground (arith, occurs-cons (node_id g) n ns, parent_all_occurs a ns g)
    | inr (m, e) ↦ ground (arith, occurs-cons (node_id g) n ns, parent_occurs a n g)
  ]

mutual
  unfolding parent_of parent_below has_child ids ids_all count

  -- Where no parent is found, the id is the root's or occurs nowhere.
  no_parent_occurs :
      {N : Type 0} (a : String) (n : DraftNode N)
      → parent_of a n ≡ none
      → str_eq (node_id n) a ≡ false
      → occurs a n ≡ 0
  no_parent_occurs a (contact c) h e = rw e refl
  no_parent_occurs a (group i op cs) h e = elim (Bool-cases (has_child a cs)) [
    | inl k ↦ cc (rw k at h)
    | inr k ↦ rw e (omega (arith, none_below_occurs a cs (rw k at h) k))
  ]

  none_below_occurs :
      {N : Type 0} (a : String) (ns : Nodes N)
      → parent_below a ns ≡ none
      → has_child a ns ≡ false
      → occurs_all a ns ≡ 0
  none_below_occurs a nil h e = refl
  none_below_occurs a (cons n ns) h e =
      ground (arith, occurs-cons a n ns, no_parent_occurs a n, none_below_occurs a ns)

mutual
  unfolding map_node map_nodes ids ids_all count

  -- A callback that leaves every node but those with one id alone leaves a tree without it alone.
  map_node_absent :
      {N : Type 0} (a : String) (fn : DraftNode N → Option (DraftNode N))
      → ((n : DraftNode N) → str_eq (node_id n) a ≡ false → fn n ≡ none)
      → (n : DraftNode N) → occurs a n ≡ 0
      → map_node fn n ≡ n
  map_node_absent a fn still (contact c) h = ground (arith, still (contact c))
  map_node_absent a fn still (group i op cs) h =
      ground (arith, still (group i op cs), map_nodes_absent a fn still cs)

  map_nodes_absent :
      {N : Type 0} (a : String) (fn : DraftNode N → Option (DraftNode N))
      → ((n : DraftNode N) → str_eq (node_id n) a ≡ false → fn n ≡ none)
      → (ns : Nodes N) → occurs_all a ns ≡ 0
      → map_nodes fn ns ≡ ns
  map_nodes_absent a fn still nil h = refl
  map_nodes_absent a fn still (cons n ns) h =
      ground
        (arith, occurs-cons a n ns, map_node_absent a fn still n, map_nodes_absent a fn still ns)

module _ {N : Type 0} (a : String) where
  pub occurs-parent_of :
      (n g : DraftNode N) → parent_of a n ≡ some g → (1 ≤ occurs a n) × (1 ≤ occurs (node_id g) n)
  occurs-parent_of n g h = (parent_of-occurs a n g h, parent_occurs a n g h)

  pub occurs-parent_below :
      (ns : Nodes N) (g : DraftNode N)
      → parent_below a ns ≡ some g
      → (1 ≤ occurs_all a ns) × (1 ≤ occurs_all (node_id g) ns)
  occurs-parent_below ns g h = (parent_below_occurs a ns g h, parent_all_occurs a ns g h)

  pub occurs-no_parent :
      (n : DraftNode N) → parent_of a n ≡ none → str_eq (node_id n) a ≡ false → occurs a n ≡ 0
  occurs-no_parent n h e = no_parent_occurs a n h e

-- A callback that returns every node but those with one id itself: a tree without it stays.
module _ {N : Type 0} (a : String) (fn : DraftNode N → Option (DraftNode N)) where
  abbrev pub IsStill : Type 0
  IsStill = (n : DraftNode N) → str_eq (node_id n) a ≡ false → fn n ≡ none

  pub map_node_of_absent : IsStill → (n : DraftNode N) → occurs a n ≡ 0 → map_node fn n ≡ n
  map_node_of_absent still n h = map_node_absent a fn still n h

  pub map_nodes_of_absent : IsStill → (ns : Nodes N) → occurs_all a ns ≡ 0 → map_nodes fn ns ≡ ns
  map_nodes_of_absent still ns h = map_nodes_absent a fn still ns h
