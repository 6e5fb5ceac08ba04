-- ===== src/Rule/Tree/Beside.antt =====
-- The callback of `insertBeside` against its description, at one parent.
use iot_saas.Prelude.{
  ◌≤◌, String, true, false, ◌≡◌, refl, ap, Option, none, some, arith, str_eq, eq_refl,
  if◌then◌else◌, Bool-cases, inl, inr,
}
use iot_saas.Rule.Draft.{Combinator, same_op, DraftNode, Nodes, contact, group, nil, cons, node_id}
use iot_saas.Rule.Tree.{has_child, map_node, map_nodes, splice_after, wrap_child, beside}
use iot_saas.Rule.Tree.Normal.{same_op-eq}
use iot_saas.Rule.Tree.Fold.{Interp, fold, fold_all}
use iot_saas.Rule.Tree.Ids.{
  occurs, occurs_all, occurs-cons, occurs_self, occurs-has_child, IsStill, map_node_of_absent,
  map_nodes_of_absent,
}

-- The callback that replaces the node of one id.
abbrev pub replace :
    {N : Type 0} → String → (DraftNode N → DraftNode N) → DraftNode N → Option (DraftNode N)
replace id f n = if str_eq (node_id n) id then some (f n) else none

abbrev pub block : {N : Type 0} → String → Combinator → DraftNode N → DraftNode N → DraftNode N
block fresh op added n = group fresh op (cons n (cons added nil))

module _ {N X : Type 0} (𝓘 : Interp N X) (fresh id : String) (added : DraftNode N)
    (op : Combinator) where
  abbrev pub put : DraftNode N → Option (DraftNode N)
  put = replace id (block fresh op added)

  pub put-IsStill : IsStill id put
  put-IsStill n h = rw h

  pub beside-IsStill : (p : String) → IsStill p (beside p fresh op id added)
  unfolding beside
  beside-IsStill p (contact c) h = refl
  beside-IsStill p (group i o cs) h = rw h

  pub map_node-put_hit :
      (n : DraftNode N) → str_eq (node_id n) id ≡ true → map_node put n ≡ block fresh op added n
  unfolding map_node
  map_node-put_hit (contact c) e = rw e
  map_node-put_hit (group i o cs) e = rw e

  -- Where the target stands directly under its parent, wrapping it there is the replacement.
  pub wrap_child-eq-put :
      (cs : Nodes N)
      → has_child id cs ≡ true
      → occurs_all id cs ≤ 1
      → wrap_child fresh op id added cs ≡ map_nodes put cs
  unfolding wrap_child has_child map_nodes
  wrap_child-eq-put nil h u = cc
  wrap_child-eq-put (cons n ns) h u = elim (Bool-cases (str_eq (node_id n) id)) [
    | inl e ↦ ground (
      arith,
      map_node-put_hit n,
      map_nodes_of_absent id put put-IsStill ns,
      occurs-cons id n ns,
      occurs_self id n,
    )
    | inr e ↦ ground (
      arith,
      wrap_child-eq-put ns,
      map_node_of_absent id put put-IsStill n,
      occurs-cons id n ns,
      occurs-has_child id ns,
    )
  ]

  -- So is splicing it in after the target, where the parent has the operator already.
  pub fold-splice_after :
      (cs : Nodes N)
      → has_child id cs ≡ true
      → occurs_all id cs ≤ 1
      → fold_all 𝓘 op (splice_after id added cs) ≡ fold_all 𝓘 op (map_nodes put cs)
  unfolding splice_after has_child map_nodes fold fold_all
  fold-splice_after nil h u = cc
  fold-splice_after (cons n ns) h u = elim (Bool-cases (str_eq (node_id n) id)) [
    | inl e ↦ ground (
      arith,
      map_node-put_hit n,
      map_nodes_of_absent id put put-IsStill ns,
      occurs-cons id n ns,
      occurs_self id n,
      𝓘.join_assoc op (fold 𝓘 n) (fold 𝓘 added) (fold_all 𝓘 op ns),
      𝓘.join_unit op (fold 𝓘 added),
    )
    | inr e ↦ ground (
      arith,
      fold-splice_after ns,
      map_node_of_absent id put put-IsStill n,
      occurs-cons id n ns,
      occurs-has_child id ns,
    )
  ]

  abbrev pub OccursOnce : DraftNode N → Type 0
  OccursOnce n = (a : String) → occurs a n ≤ 1

  -- At the parent itself.
  pub fold-beside_here :
      (i : String) (o : Combinator) (cs : Nodes N)
      → has_child id cs ≡ true
      → occurs_all id cs ≤ 1
      → str_eq i id ≡ false
      → fold 𝓘 (map_node (beside i fresh op id added) (group i o cs))
        ≡ fold 𝓘 (map_node put (group i o cs))
  unfolding map_node beside fold fold_all
  fold-beside_here i o cs h u e = elim (Bool-cases (same_op o op)) [
    | inl same ↦ rw (eq_refl, same, e, h, same_op-eq o op same) (fold-splice_after cs h u)
    | inr other ↦ rw (eq_refl, other, e) (ap (fold_all 𝓘 o) (wrap_child-eq-put cs h u))
  ]
