-- ===== src/Rule/Tree/Insert.antt =====
-- `insertBeside` against its description: the target becomes a block of itself and the addition.
use iot_saas.Prelude.{
  ◌≤◌, String, Bool, false, ◌≡◌, refl, sym, ap, ◌∙◌, Option, none, some, arith, str_eq, Bool-cases,
  Option-cases, inl, inr,
}
use iot_saas.Rule.Draft.{Combinator, DraftNode, Nodes, contact, group, nil, cons, node_id}
use iot_saas.Rule.Tree.{
  has_child, parent_of, parent_below, map_node, map_nodes, beside, insert_at_parent, insert_beside,
}
use iot_saas.Rule.Draft.{ContactDraft}
use iot_saas.Rule.Tree.{contacts, contacts_of}
use iot_saas.Rule.Tree.Meaning.{truth, in_order, contacts-eq-fold, contacts_of-eq-fold}
use iot_saas.Rule.Tree.Fold.{Interp, fold, fold_all, fold_tree, fold-normalize_node}
use iot_saas.Rule.Tree.Ids.{
  ids, count, count-distinct, HasDistinctIds, occurs, occurs_all, occurs-cons, occurs-parent_of,
  occurs-parent_below, occurs-no_parent, map_node_of_absent, map_nodes_of_absent,
}
use iot_saas.Rule.Tree.Beside.{
  replace, block, put, put-IsStill, beside-IsStill, map_node-put_hit, fold-beside_here,
}

module _ {N X : Type 0} (𝓘 : Interp N X) (fresh id : String) (added : DraftNode N)
    (op : Combinator) where
  abbrev edit : DraftNode N → DraftNode N → Option (DraftNode N)
  edit g = beside (node_id g) fresh op id added

  -- The place where the parent is found, below a node or among its children.
  abbrev EditIsPut : DraftNode N → Type 0
  EditIsPut n =
      (g : DraftNode N)
      → parent_of id n ≡ some g
      → str_eq (node_id n) id ≡ false
      → fold 𝓘 (map_node (edit g) n) ≡ fold 𝓘 (map_node (put 𝓘 fresh id added op) n)

  fold-edit_cons :
      (o : Combinator) (n : DraftNode N) (ns : Nodes N) (g : DraftNode N)
      → ((a : String) → occurs_all a (cons n ns) ≤ 1)
      → has_child id (cons n ns) ≡ false
      → parent_below id (cons n ns) ≡ some g
      → EditIsPut n
      → (parent_below id ns ≡ some g
          → fold_all 𝓘 o (map_nodes (edit g) ns)
            ≡ fold_all 𝓘 o (map_nodes (put 𝓘 fresh id added op) ns))
      → fold_all 𝓘 o (map_nodes (edit g) (cons n ns))
        ≡ fold_all 𝓘 o (map_nodes (put 𝓘 fresh id added op) (cons n ns))
  unfolding parent_below has_child map_nodes fold_all
  fold-edit_cons o n ns g u h p here later = elim (Option-cases (parent_of id n)) [
    | inl e ↦ ground (
      arith,
      later,
      u (node_id g),
      occurs-cons (node_id g) n ns,
      occurs-no_parent id n,
      occurs-parent_below id ns g,
      map_node_of_absent id (put 𝓘 fresh id added op) (put-IsStill 𝓘 fresh id added op) n,
      map_node_of_absent (node_id g) (edit g) (beside-IsStill 𝓘 fresh id added op (node_id g)) n,
    )
    | inr (m, e) ↦ ground (
      arith,
      here g,
      u (node_id g),
      u id,
      occurs-cons (node_id g) n ns,
      occurs-cons id n ns,
      occurs-parent_of id n g,
      map_nodes_of_absent id (put 𝓘 fresh id added op) (put-IsStill 𝓘 fresh id added op) ns,
      map_nodes_of_absent (node_id g) (edit g) (beside-IsStill 𝓘 fresh id added op (node_id g)) ns,
    )
  ]

  -- Where the parent is found deeper down, its group is left as it is.
  fold-edit_below :
      (i : String) (o : Combinator) (cs : Nodes N) (g : DraftNode N)
      → ((a : String) → occurs a (group i o cs) ≤ 1)
      → parent_below id cs ≡ some g
      → str_eq i id ≡ false
      → fold_all 𝓘 o (map_nodes (edit g) cs) ≡ fold_all 𝓘 o (map_nodes (put 𝓘 fresh id added op) cs)
      → fold 𝓘 (map_node (edit g) (group i o cs))
        ≡ fold 𝓘 (map_node (put 𝓘 fresh id added op) (group i o cs))
  unfolding map_node beside fold fold_all ids count
  fold-edit_below i o cs g u p e h = elim (Bool-cases (str_eq i (node_id g))) [
    | inl k ↦ absurd (ground (arith, u (node_id g), occurs-parent_below id cs g))
    | inr k ↦ rw (k, e) h
  ]

mutual
  unfolding parent_of has_child ids count

  edit_is_put :
      {N X : Type 0} (𝓘 : Interp N X) (fresh id : String) (added : DraftNode N) (op : Combinator)
      (n : DraftNode N)
      → ((a : String) → occurs a n ≤ 1)
      → EditIsPut 𝓘 fresh id added op n
  edit_is_put 𝓘 fresh id added op (contact c) u g p e = cc
  edit_is_put 𝓘 fresh id added op (group i o cs) u g p e = elim (Bool-cases (has_child id cs)) [
    | inl h ↦
        let here : group i o cs ≡ g = cc (rw h at p) in
        rw (← here) (fold-beside_here 𝓘 fresh id added op i o cs h (omega (arith, u id)) e)
    | inr h ↦
        let p' : parent_below id cs ≡ some g = rw h at p in
        fold-edit_below 𝓘 fresh id added op i o cs g u p' e
          (edit_is_put_all 𝓘 fresh id added op o cs (λ a. omega (arith, u a)) g h p')
  ]

  edit_is_put_all :
      {N X : Type 0} (𝓘 : Interp N X) (fresh id : String) (added : DraftNode N) (op : Combinator)
      (o : Combinator) (cs : Nodes N)
      → ((a : String) → occurs_all a cs ≤ 1)
      → (g : DraftNode N) → has_child id cs ≡ false
      → parent_below id cs ≡ some g
      → fold_all 𝓘 o (map_nodes (edit 𝓘 fresh id added op g) cs)
        ≡ fold_all 𝓘 o (map_nodes (put 𝓘 fresh id added op) cs)
  edit_is_put_all 𝓘 fresh id added op o nil u g h p = cc
  edit_is_put_all 𝓘 fresh id added op o (cons n ns) u g h p =
      fold-edit_cons 𝓘 fresh id added op o n ns g u h p
        (edit_is_put 𝓘 fresh id added op n (λ a. omega (arith, u a, occurs-cons a n ns)))
        (edit_is_put_all 𝓘 fresh id added op o ns (λ a. omega (arith, u a, occurs-cons a n ns)) g
          (ground arith))

module _ {N X : Type 0} (𝓘 : Interp N X) (fresh id : String) (added : DraftNode N)
    (op : Combinator) where
  at_parent :
      (root : DraftNode N) (found : Option (DraftNode N))
      → HasDistinctIds root
      → parent_of id root ≡ found
      → str_eq (node_id root) id ≡ false
      → fold_tree 𝓘 (insert_at_parent fresh root id added op found)
        ≡ fold 𝓘 (map_node (put 𝓘 fresh id added op) root)
  unfolding insert_at_parent
  at_parent root none h p e = ap (fold 𝓘) (
      sym (
        map_node_of_absent id (put 𝓘 fresh id added op) (put-IsStill 𝓘 fresh id added op) root
          (occurs-no_parent id root p e)))
  at_parent root (some g) h p e =
      fold-normalize_node 𝓘 (map_node (edit 𝓘 fresh id added op g) root)
      ∙ edit_is_put 𝓘 fresh id added op root (λ a. count-distinct a (ids root) h) g p e

  -- What `insertBeside` returns comes to what the tree comes to with the target replaced.
  pub fold-insert_beside :
      (root : DraftNode N)
      → HasDistinctIds root
      → fold_tree 𝓘 (insert_beside fresh (some root) id added op)
        ≡ fold 𝓘 (map_node (replace id (block fresh op added)) root)
  unfolding insert_beside
  fold-insert_beside root h = elim (Bool-cases (str_eq (node_id root) id)) [
    | inl e ↦ rw e (
        fold-normalize_node 𝓘 (block fresh op added root)
        ∙ ap (fold 𝓘) (sym (map_node-put_hit 𝓘 fresh id added op root e)))
    | inr e ↦ rw e (at_parent root (parent_of id root) h refl e)
  ]

module _ {N : Type 0} (fresh id : String) (added : DraftNode N) (op : Combinator) where
  -- In a tree whose ids are distinct, adding a node beside a target has the truth values, whatever
  -- the contacts read, and the contacts from left to right, of the tree in which a block of the
  -- target and the addition stands in the target's place; the target may be the root, a contact or
  -- a group, its parent may have the operator or the other one, and where no node has the id the
  -- tree stays.
  pub insert_beside_sound :
      (root : DraftNode N)
      → HasDistinctIds root
      → ((ρ : ContactDraft N → Bool)
          → fold_tree (truth ρ) (insert_beside fresh (some root) id added op)
            ≡ fold (truth ρ) (map_node (replace id (block fresh op added)) root))
        × (contacts (insert_beside fresh (some root) id added op)
            ≡ contacts_of (map_node (replace id (block fresh op added)) root))
  insert_beside_sound root h = (
    λ ρ. fold-insert_beside (truth ρ) fresh id added op root h,
    contacts-eq-fold (insert_beside fresh (some root) id added op)
        ∙ fold-insert_beside in_order fresh id added op root h
        ∙ sym (contacts_of-eq-fold (map_node (replace id (block fresh op added)) root)),
  )
