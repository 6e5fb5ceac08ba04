-- ===== src/Rule/Tree/Remove.antt =====
-- `removeNode` against its description: the node with the id counts for nothing any more.
use iot_saas.Prelude.{
  ℕ, ◌+◌, ◌≤◌, String, Bool, ◌≡◌, refl, sym, ◌∙◌, Option, none, some, arith, str_eq, Bool-cases,
  Option-cases, inl, inr,
}
use iot_saas.Rule.Draft.{
  Combinator, and, ContactDraft, DraftNode, Nodes, contact, group, nil, cons, node_id, append,
}
use iot_saas.Rule.Tree.{
  map_node, map_nodes, prune, prune_all, remove_node, normalize_node, normalize_children, normalize,
  add_child, collapse, contacts, contacts_of, find_in, find_children, find_node,
}
use iot_saas.Rule.Tree.Normal.{IsNormal, IsNormalTree, normalize-IsNormal}
use iot_saas.Rule.Tree.Fold.{Interp, fold, fold_all, fold_tree, fold-normalize}
use iot_saas.Rule.Tree.Ids.{ids, ids_all, count, occurs, occurs_all, occurs-cons}
use iot_saas.Rule.Tree.Beside.{replace}
use iot_saas.Rule.Tree.Meaning.{truth, in_order, contacts-eq-fold, contacts_of-eq-fold}

-- Nothing in a node's place: a group with no child has no value and no contact.
abbrev pub emptied : {N : Type 0} → DraftNode N → DraftNode N
emptied n = group (node_id n) and nil

mutual
  unfolding prune prune_all map_node map_nodes fold fold_all

  prune_is_emptying :
      {N X : Type 0} (𝓘 : Interp N X) (id : String) (n : DraftNode N)
      → fold_tree 𝓘 (prune id n) ≡ fold 𝓘 (map_node (replace id emptied) n)
  prune_is_emptying 𝓘 id (contact c) = ground arith
  prune_is_emptying 𝓘 id (group i op cs) = elim (Bool-cases (str_eq i id)) [
    | inl e ↦ rw e
    | inr e ↦ rw e (prune_all_is_emptying 𝓘 id op cs)
  ]

  prune_all_is_emptying :
      {N X : Type 0} (𝓘 : Interp N X) (id : String) (op : Combinator) (cs : Nodes N)
      → fold_all 𝓘 op (prune_all id cs) ≡ fold_all 𝓘 op (map_nodes (replace id emptied) cs)
  prune_all_is_emptying 𝓘 id op nil = refl
  prune_all_is_emptying 𝓘 id op (cons n ns) = ground (
    arith,
    prune_is_emptying 𝓘 id n,
    prune_all_is_emptying 𝓘 id op ns,
    𝓘.unit_join op (fold_all 𝓘 op (prune_all id ns)),
  )

module _ {N X : Type 0} (𝓘 : Interp N X) where
  fold-normalize_pruned :
      (id : String) (root : DraftNode N)
      → fold_tree 𝓘 (normalize (prune id root)) ≡ fold 𝓘 (map_node (replace id emptied) root)
  fold-normalize_pruned id root = fold-normalize 𝓘 (prune id root) ∙ prune_is_emptying 𝓘 id root

  pub fold-remove_node :
      (root : DraftNode N) (id : String)
      → fold_tree 𝓘 (remove_node (some root) id) ≡ fold 𝓘 (map_node (replace id emptied) root)
  unfolding remove_node map_node fold fold_all
  fold-remove_node (contact c) id = ground arith
  fold-remove_node (group i op cs) id = ground (arith, fold-normalize_pruned id (group i op cs))

-- How often an id occurs in a tree that may be null.
abbrev pub occurs_tree : {N : Type 0} → String → Option (DraftNode N) → ℕ
occurs_tree a none = 0
occurs_tree a (some n) = occurs a n

module _ {N : Type 0} (a : String) where
  occurs-append :
      (xs ys : Nodes N) → occurs_all a (append xs ys) ≡ occurs_all a xs + occurs_all a ys
  unfolding ids_all count
  occurs-append nil ys = omega arith
  occurs-append (cons x xs) ys =
      omega (arith, occurs-cons a x xs, occurs-cons a x (append xs ys), occurs-append xs ys)

  occurs-add_child :
      (op : Combinator) (child : Option (DraftNode N)) (rest : Nodes N)
      → occurs_all a (add_child op child rest) ≤ occurs_tree a child + occurs_all a rest
  unfolding add_child ids count
  occurs-add_child op none rest = omega arith
  occurs-add_child op (some (contact c)) rest = omega (arith, occurs-cons a (contact c) rest)
  occurs-add_child op (some (group i o cs)) rest =
      ground (arith, occurs-append cs rest, occurs-cons a (group i o cs) rest)

  occurs-collapse :
      (i : String) (op : Combinator) (cs : Nodes N)
      → occurs_tree a (collapse i op cs) ≤ occurs a (group i op cs)
  unfolding collapse ids count
  occurs-collapse i op nil = omega arith
  occurs-collapse i op (cons n nil) = omega (arith, occurs-cons a n nil)
  occurs-collapse i op (cons n (cons m ns)) = omega arith

mutual
  unfolding normalize_node normalize_children ids ids_all count

  normalize_node-occurs :
      {N : Type 0} (a : String) (n : DraftNode N) → occurs_tree a (normalize_node n) ≤ occurs a n
  normalize_node-occurs a (contact c) = omega arith
  normalize_node-occurs a (group i op cs) =
      omega (
        arith,
        occurs-collapse a i op (normalize_children op cs),
        normalize_children_occurs a op cs,
      )

  normalize_children_occurs :
      {N : Type 0} (a : String) (op : Combinator) (cs : Nodes N)
      → occurs_all a (normalize_children op cs) ≤ occurs_all a cs
  normalize_children_occurs a op nil = omega arith
  normalize_children_occurs a op (cons n ns) = omega (
    arith,
    occurs-add_child a op (normalize_node n) (normalize_children op ns),
    occurs-cons a n ns,
    normalize_node-occurs a n,
    normalize_children_occurs a op ns,
  )

mutual
  unfolding prune prune_all ids ids_all count

  prune_occurs : {N : Type 0} (a : String) (n : DraftNode N) → occurs_tree a (prune a n) ≡ 0
  prune_occurs a (contact c) = ground arith
  prune_occurs a (group i op cs) = ground (arith, prune_all_occurs a cs)

  prune_all_occurs : {N : Type 0} (a : String) (cs : Nodes N) → occurs_all a (prune_all a cs) ≡ 0
  prune_all_occurs a nil = refl
  prune_all_occurs a (cons n ns) = elim (Option-cases (prune a n)) [
    | inl e ↦ ground (arith, prune_all_occurs a ns)
    | inr (m, e) ↦
        ground (arith, prune_occurs a n, prune_all_occurs a ns, occurs-cons a m (prune_all a ns))
  ]

mutual
  unfolding find_in find_children ids ids_all count

  find_in_absent : {N : Type 0} (a : String) (n : DraftNode N) → occurs a n ≡ 0 → find_in a n ≡ none
  find_in_absent a (contact c) h = ground arith
  find_in_absent a (group i op cs) h = ground (arith, find_children_absent a cs)

  find_children_absent :
      {N : Type 0} (a : String) (cs : Nodes N) → occurs_all a cs ≡ 0 → find_children a cs ≡ none
  find_children_absent a nil h = refl
  find_children_absent a (cons n ns) h =
      ground (arith, occurs-cons a n ns, find_in_absent a n, find_children_absent a ns)

module _ {N : Type 0} where
  occurs-normalize :
      (a : String) (t : Option (DraftNode N)) → occurs_tree a (normalize t) ≤ occurs_tree a t
  unfolding normalize
  occurs-normalize a none = omega arith
  occurs-normalize a (some n) = normalize_node-occurs a n

  occurs-remove_node :
      (id : String) (root : DraftNode N) → occurs_tree id (remove_node (some root) id) ≡ 0
  unfolding remove_node ids count
  occurs-remove_node id (contact c) = ground arith
  occurs-remove_node id (group i op cs) =
      ground
        (arith, occurs-normalize id (prune id (group i op cs)), prune_occurs id (group i op cs))

  find_node_of_absent :
      (a : String) (t : Option (DraftNode N)) → occurs_tree a t ≡ 0 → find_node t a ≡ none
  unfolding find_node
  find_node_of_absent a none h = refl
  find_node_of_absent a (some n) h = find_in_absent a n h

  remove_node-IsNormal :
      (root : DraftNode N) (id : String) → IsNormalTree (remove_node (some root) id)
  unfolding remove_node IsNormal
  remove_node-IsNormal (contact c) id = ground arith
  remove_node-IsNormal (group i op cs) id = elim (Bool-cases (str_eq i id)) [
    | inl e ↦ rw e tt
    | inr e ↦ rw e (normalize-IsNormal (prune id (group i op cs)))
  ]

  -- `removeNode` returns null or a tree in normal form in which no node has the id, and whose truth
  -- values, whatever the contacts read, and contacts from left to right are those of the tree with
  -- every node of that id emptied.
  pub remove_node_sound :
      (root : DraftNode N) (id : String)
      → IsNormalTree (remove_node (some root) id)
        × (find_node (remove_node (some root) id) id ≡ none)
        × ((ρ : ContactDraft N → Bool)
            → fold_tree (truth ρ) (remove_node (some root) id)
              ≡ fold (truth ρ) (map_node (replace id emptied) root))
        × (contacts (remove_node (some root) id) ≡ contacts_of (map_node (replace id emptied) root))
  remove_node_sound root id = (
    remove_node-IsNormal root id,
    find_node_of_absent id (remove_node (some root) id) (occurs-remove_node id root),
    λ ρ. fold-remove_node (truth ρ) root id,
    contacts-eq-fold (remove_node (some root) id)
        ∙ fold-remove_node in_order root id
        ∙ sym (contacts_of-eq-fold (map_node (replace id emptied) root)),
  )
