-- ===== src/Rule/Tree/Change.antt =====
-- `updateContact` and `setGroupOp`: what they change, and that the editors' trees stay normal.
use iot_saas.Prelude.{
  String, ◌≡◌, refl, sym, ◌∙◌, Option, none, some, arith, str_eq, if◌then◌else◌, map, map-append,
  Bool, Bool-cases, inl, inr,
}
use iot_saas.Rule.Draft.{
  Combinator, ContactDraft, DraftNode, Nodes, contact, group, nil, cons, Patch, apply_patch,
}
use iot_saas.Rule.Tree.{
  map_node, map_nodes, normalize, contacts, contacts_of, contacts_all, patch_contact,
  update_contact, change_op, set_group_op,
}
use iot_saas.Rule.Tree.Normal.{
  IsNormal, AreNormal, FitsIn, HasTwo, IsNormalTree, normalize-IsNormal,
}
use iot_saas.Rule.Tree.Meaning.{normalize_sound, truth, combine}
use iot_saas.Rule.Tree.Fold.{fold, fold_all, fold_tree}

module _ {N : Type 0} (id : String) (patch : Patch N) where
  -- The contact with the id takes the patch, and every other one stays.
  abbrev pub patched : ContactDraft N → ContactDraft N
  patched c = if str_eq c.id id then apply_patch patch c else c

mutual
  unfolding map_node map_nodes patch_contact contacts_of contacts_all

  patch_contacts :
      {N : Type 0} (id : String) (patch : Patch N) (n : DraftNode N)
      → contacts_of (map_node (patch_contact id patch) n) ≡ map (patched id patch) (contacts_of n)
  patch_contacts id patch (contact c) = ground arith
  patch_contacts id patch (group i op cs) = patch_all_contacts id patch cs

  patch_all_contacts :
      {N : Type 0} (id : String) (patch : Patch N) (cs : Nodes N)
      → contacts_all (map_nodes (patch_contact id patch) cs)
        ≡ map (patched id patch) (contacts_all cs)
  patch_all_contacts id patch nil = refl
  patch_all_contacts id patch (cons n ns) =
      rw (patch_contacts id patch n, patch_all_contacts id patch ns)
        (sym (map-append (patched id patch) (contacts_of n) (contacts_all ns)))

module _ {N : Type 0} (id : String) (patch : Patch N) where
  fits :
      (op : Combinator) (n : DraftNode N)
      → FitsIn op n
      → FitsIn op (map_node (patch_contact id patch) n)
  unfolding map_node patch_contact
  fits op (contact c) h = ground arith
  fits op (group i o cs) h = h

  two : (cs : Nodes N) → HasTwo cs → HasTwo (map_nodes (patch_contact id patch) cs)
  unfolding map_nodes
  two nil h = h
  two (cons n nil) h = h
  two (cons n (cons m ns)) h = tt

mutual
  unfolding map_node map_nodes patch_contact IsNormal AreNormal

  patch-IsNormal :
      {N : Type 0} (id : String) (patch : Patch N) (n : DraftNode N)
      → IsNormal n
      → IsNormal (map_node (patch_contact id patch) n)
  patch-IsNormal id patch (contact c) h = ground arith
  patch-IsNormal id patch (group i op cs) h =
      (two id patch cs h.0, patch_all_normal id patch op cs h.1)

  patch_all_normal :
      {N : Type 0} (id : String) (patch : Patch N) (op : Combinator) (cs : Nodes N)
      → AreNormal op cs
      → AreNormal op (map_nodes (patch_contact id patch) cs)
  patch_all_normal id patch op nil h = tt
  patch_all_normal id patch op (cons n ns) (h, f, k) =
      (patch-IsNormal id patch n h, fits id patch op n f, patch_all_normal id patch op ns k)

module _ {N : Type 0} (id : String) (patch : Patch N) where
  -- `updateContact` patches the contacts with the id and keeps the others, all in their places.
  pub contacts-update_contact :
      (t : Option (DraftNode N))
      → contacts (update_contact t id patch) ≡ map (patched id patch) (contacts t)
  unfolding update_contact contacts
  contacts-update_contact none = refl
  contacts-update_contact (some n) = patch_contacts id patch n

  -- A tree in normal form stays in normal form when a contact is updated, which normalizes nothing.
  pub update_contact-IsNormal :
      (t : Option (DraftNode N)) → IsNormalTree t → IsNormalTree (update_contact t id patch)
  unfolding update_contact
  update_contact-IsNormal none h = h
  update_contact-IsNormal (some n) h = patch-IsNormal id patch n h

mutual
  unfolding map_node map_nodes change_op contacts_of contacts_all

  change_contacts :
      {N : Type 0} (id : String) (op : Combinator) (n : DraftNode N)
      → contacts_of (map_node (change_op id op) n) ≡ contacts_of n
  change_contacts id op (contact c) = refl
  change_contacts id op (group i o cs) = ground (arith, change_all_contacts id op cs)

  change_all_contacts :
      {N : Type 0} (id : String) (op : Combinator) (cs : Nodes N)
      → contacts_all (map_nodes (change_op id op) cs) ≡ contacts_all cs
  change_all_contacts id op nil = refl
  change_all_contacts id op (cons n ns) = rw (change_contacts id op n, change_all_contacts id op ns)

-- The truth value of a condition in which the group with the id, and no other, has an operator of its own.
unfoldable mutual
  pub truth_with :
      {N : Type 0} → String → Combinator → (ContactDraft N → Bool) → DraftNode N → Option Bool
  truth_with id op ρ (contact c) = some (ρ c)
  truth_with id op ρ (group i o cs) =
      let changed = fold_all (truth ρ) op cs in
      let kept = truth_with_all id op ρ o cs in if str_eq i id then changed else kept

  pub truth_with_all :
      {N : Type 0}
      → String
      → Combinator
      → (ContactDraft N → Bool)
      → Combinator
      → Nodes N
      → Option Bool
  truth_with_all id op ρ o nil = none
  truth_with_all id op ρ o (cons n ns) =
      combine o (truth_with id op ρ n) (truth_with_all id op ρ o ns)

abbrev pub truth_of_tree :
    {N : Type 0}
    → String
    → Combinator
    → (ContactDraft N → Bool)
    → Option (DraftNode N)
    → Option Bool
truth_of_tree id op ρ none = none
truth_of_tree id op ρ (some n) = truth_with id op ρ n

mutual
  unfolding map_node map_nodes change_op fold fold_all truth_with truth_with_all

  change_truth :
      {N : Type 0} (id : String) (op : Combinator) (ρ : ContactDraft N → Bool) (n : DraftNode N)
      → fold (truth ρ) (map_node (change_op id op) n) ≡ truth_with id op ρ n
  change_truth id op ρ (contact c) = refl
  change_truth id op ρ (group i o cs) = elim (Bool-cases (str_eq i id)) [
    | inl e ↦ rw e refl
    | inr e ↦ rw e (change_all_truth id op ρ o cs)
  ]

  change_all_truth :
      {N : Type 0} (id : String) (op : Combinator) (ρ : ContactDraft N → Bool) (o : Combinator)
      (cs : Nodes N)
      → fold_all (truth ρ) o (map_nodes (change_op id op) cs) ≡ truth_with_all id op ρ o cs
  change_all_truth id op ρ o nil = refl
  change_all_truth id op ρ o (cons n ns) =
      rw (change_truth id op ρ n, change_all_truth id op ρ o ns) refl

module _ {N : Type 0} (id : String) (op : Combinator) where
  -- `setGroupOp` returns a tree in normal form with the same contacts in the same order, whose truth values
  -- are those of the tree in which the group with the id has the new operator and every other its own.
  pub set_group_op_sound :
      (t : Option (DraftNode N))
      → ((ρ : ContactDraft N → Bool)
          → fold_tree (truth ρ) (set_group_op t id op) ≡ truth_of_tree id op ρ t)
        × (contacts (set_group_op t id op) ≡ contacts t)
        × IsNormalTree (set_group_op t id op)
  unfolding set_group_op contacts normalize
  set_group_op_sound none = (λ ρ. refl, refl, tt)
  set_group_op_sound (some n) =
      let (values, kept) = normalize_sound (some (map_node (change_op id op) n)) in
      (
        λ ρ. values ρ ∙ change_truth id op ρ n,
        kept ∙ change_contacts id op n,
        normalize-IsNormal (some (map_node (change_op id op) n)),
      )
