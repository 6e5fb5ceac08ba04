-- ===== src/Rule/Tree.antt =====
-- The tree operations of frontend/src/lib/rule-draft.ts ("Tree operations"). A null tree is `none`.
-- `fresh` is what newId() returns.
pub mod Normal
pub mod Meaning
pub mod Fold
pub mod Ids
pub mod Beside
pub mod Insert
pub mod Remove
pub mod Change
mod Tests
use iot_saas.Prelude.{
  String, Bool, true, false, ◌||◌, Option, none, some, List, [], ◌∷◌, ◌++◌, str_eq, if◌then◌else◌,
  or_else,
}
use iot_saas.Rule.Draft.{
  Combinator, same_op, ContactDraft, DraftNode, Nodes, contact, group, nil, cons, node_id, append,
}
use iot_saas.Rule.Draft.{Patch, apply_patch, given}

unfoldable mutual
  pub contacts_of : {N : Type 0} → DraftNode N → List (ContactDraft N)
  contacts_of (contact c) = c ∷ []
  contacts_of (group i op cs) = contacts_all cs

  pub contacts_all : {N : Type 0} → Nodes N → List (ContactDraft N)
  contacts_all nil = []
  contacts_all (cons n ns) = contacts_of n ++ contacts_all ns

unfoldable mutual
  pub find_in : {N : Type 0} → String → DraftNode N → Option (DraftNode N)
  find_in id (contact c) = if str_eq c.id id then some (contact c) else none
  find_in id (group i op cs) =
      let inside = find_children id cs in if str_eq i id then some (group i op cs) else inside

  pub find_children : {N : Type 0} → String → Nodes N → Option (DraftNode N)
  find_children id nil = none
  find_children id (cons n ns) = or_else (find_in id n) (find_children id ns)

-- one round of the loop of `normalize`, over the child that it has normalized
unfoldable pub add_child : {N : Type 0} → Combinator → Option (DraftNode N) → Nodes N → Nodes N
add_child op none rest = rest
add_child op (some (contact c)) rest = cons (contact c) rest
add_child op (some (group i o cs)) rest =
    if same_op o op then append cs rest else cons (group i o cs) rest

-- the end of `normalize`, by the number of children left
unfoldable pub collapse : {N : Type 0} → String → Combinator → Nodes N → Option (DraftNode N)
collapse i op nil = none
collapse i op (cons n nil) = some n
collapse i op (cons n (cons m ns)) = some (group i op (cons n (cons m ns)))

unfoldable mutual
  pub normalize_node : {N : Type 0} → DraftNode N → Option (DraftNode N)
  normalize_node (contact c) = some (contact c)
  normalize_node (group i op cs) = collapse i op (normalize_children op cs)

  pub normalize_children : {N : Type 0} → Combinator → Nodes N → Nodes N
  normalize_children op nil = nil
  normalize_children op (cons n ns) = add_child op (normalize_node n) (normalize_children op ns)

-- `fn` returns `none` where the source's returns its argument itself (`next === node`).
unfoldable mutual
  pub map_node : {N : Type 0} → (DraftNode N → Option (DraftNode N)) → DraftNode N → DraftNode N
  map_node fn (contact c) = given (fn (contact c)) (contact c)
  map_node fn (group i op cs) = given (fn (group i op cs)) (group i op (map_nodes fn cs))

  pub map_nodes : {N : Type 0} → (DraftNode N → Option (DraftNode N)) → Nodes N → Nodes N
  map_nodes fn nil = nil
  map_nodes fn (cons n ns) = cons (map_node fn n) (map_nodes fn ns)

-- `children.some((c) => c.id === id)`
unfoldable pub has_child : {N : Type 0} → String → Nodes N → Bool
has_child id nil = false
has_child id (cons n ns) = str_eq (node_id n) id || has_child id ns

unfoldable mutual
  pub parent_of : {N : Type 0} → String → DraftNode N → Option (DraftNode N)
  parent_of id (contact c) = none
  parent_of id (group i op cs) =
      let deeper = parent_below id cs in if has_child id cs then some (group i op cs) else deeper

  pub parent_below : {N : Type 0} → String → Nodes N → Option (DraftNode N)
  parent_below id nil = none
  parent_below id (cons n ns) = or_else (parent_of id n) (parent_below id ns)

module _ {N : Type 0} where
  unfoldable pub normalize : Option (DraftNode N) → Option (DraftNode N)
  normalize none = none
  normalize (some n) = normalize_node n

  unfoldable pub contacts : Option (DraftNode N) → List (ContactDraft N)
  contacts none = []
  contacts (some n) = contacts_of n

  unfoldable pub find_node : Option (DraftNode N) → String → Option (DraftNode N)
  find_node none id = none
  find_node (some n) id = find_in id n

  -- `children.splice(at + 1, 0, added)`, where `at` is the first child's with this id
  pub splice_after : String → DraftNode N → Nodes N → Nodes N
  splice_after id added nil = nil
  splice_after id added (cons n ns) =
      if str_eq (node_id n) id then cons n (cons added ns) else cons n (splice_after id added ns)

  -- an `at` of -1 splices at the front
  pub splice_children : String → DraftNode N → Nodes N → Nodes N
  unfolding has_child splice_after
  splice_children id added cs = if has_child id cs then splice_after id added cs else cons added cs

  -- the first child with this id becomes a new group of it and `added`
  pub wrap_child : String → Combinator → String → DraftNode N → Nodes N → Nodes N
  wrap_child fresh op id added nil = nil
  wrap_child fresh op id added (cons n ns) =
      if str_eq (node_id n) id
      then cons (group fresh op (cons n (cons added nil))) ns
      else cons n (wrap_child fresh op id added ns)

  -- the callback of `insertBeside`
  pub beside :
      String → String → Combinator → String → DraftNode N → DraftNode N → Option (DraftNode N)
  unfolding splice_children wrap_child
  beside parent fresh op id added (contact c) = none
  beside parent fresh op id added (group i o cs) =
      if str_eq i parent
      then (if same_op o op
          then some (group i o (splice_children id added cs))
          else some (group i o (wrap_child fresh op id added cs)))
      else none

  pub insert_at_parent :
      String
      → DraftNode N
      → String
      → DraftNode N
      → Combinator
      → Option (DraftNode N)
      → Option (DraftNode N)
  unfolding beside
  insert_at_parent fresh root id added op none = some root
  insert_at_parent fresh root id added op (some parent) =
      normalize_node (map_node (beside (node_id parent) fresh op id added) root)

  unfoldable pub insert_beside :
      String → Option (DraftNode N) → String → DraftNode N → Combinator → Option (DraftNode N)
  unfolding insert_at_parent
  insert_beside fresh none id added op = some added
  insert_beside fresh (some root) id added op =
      if str_eq (node_id root) id
      then normalize_node (group fresh op (cons root (cons added nil)))
      else insert_at_parent fresh root id added op (parent_of id root)

  pub add_pruned : Option (DraftNode N) → Nodes N → Nodes N
  add_pruned none ns = ns
  add_pruned (some n) ns = cons n ns

unfoldable mutual
  unfolding add_pruned

  pub prune : {N : Type 0} → String → DraftNode N → Option (DraftNode N)
  prune id (contact c) = if str_eq c.id id then none else some (contact c)
  prune id (group i op cs) =
      let kept = some (group i op (prune_all id cs)) in if str_eq i id then none else kept

  pub prune_all : {N : Type 0} → String → Nodes N → Nodes N
  prune_all id nil = nil
  prune_all id (cons n ns) = add_pruned (prune id n) (prune_all id ns)

module _ {N : Type 0} where
  pub remove_below : DraftNode N → String → Option (DraftNode N)
  remove_below (contact c) id = some (contact c)
  remove_below (group i op cs) id = normalize (prune id (group i op cs))

  unfoldable pub remove_node : Option (DraftNode N) → String → Option (DraftNode N)
  unfolding remove_below
  remove_node none id = none
  remove_node (some root) id = if str_eq (node_id root) id then none else remove_below root id

  pub patch_contact : String → Patch N → DraftNode N → Option (DraftNode N)
  patch_contact id patch (contact c) =
      if str_eq c.id id then some (contact (apply_patch patch c)) else none
  patch_contact id patch (group i op cs) = none

  unfoldable pub update_contact : Option (DraftNode N) → String → Patch N → Option (DraftNode N)
  unfolding patch_contact
  update_contact none id patch = none
  update_contact (some root) id patch = some (map_node (patch_contact id patch) root)

  pub change_op : String → Combinator → DraftNode N → Option (DraftNode N)
  change_op id op (contact c) = none
  change_op id op (group i o cs) = if str_eq i id then some (group i op cs) else none

  unfoldable pub set_group_op : Option (DraftNode N) → String → Combinator → Option (DraftNode N)
  unfolding change_op
  set_group_op none id op = none
  set_group_op (some root) id op = normalize_node (map_node (change_op id op) root)
