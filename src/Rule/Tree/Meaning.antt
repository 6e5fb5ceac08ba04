-- ===== src/Rule/Tree/Meaning.antt =====
-- The two folds of a condition tree that the editors rely on: its contacts from left to right, and
-- its truth value, with AND in series and OR in parallel. A group with nothing in it has no value
-- and counts for nothing in the group around it.
use iot_saas.Prelude.{
  Bool, ◌&&◌, ◌||◌, ◌≡◌, refl, sym, ◌∙◌, Option, none, some, List, [], ◌∷◌, ◌++◌, append-nil,
  append_assoc, arith,
}
use iot_saas.Rule.Draft.{
  Combinator, and, or, ContactDraft, DraftNode, Nodes, contact, group, nil, cons,
}
use iot_saas.Rule.Tree.{contacts_of, contacts_all, contacts, normalize}
use iot_saas.Rule.Tree.Fold.{Interp, fold, fold_all, fold_tree, fold-normalize}

abbrev pub apply_op : Combinator → Bool → Bool → Bool
apply_op and a b = a && b
apply_op or a b = a || b

abbrev pub combine : Combinator → Option Bool → Option Bool → Option Bool
combine op none b = b
combine op (some a) none = some a
combine op (some a) (some b) = some (apply_op op a b)

pub combine-none : (op : Combinator) (a : Option Bool) → combine op a none ≡ a
combine-none op none = refl
combine-none op (some a) = refl

pub combine_assoc :
    (op : Combinator) (a b c : Option Bool)
    → combine op (combine op a b) c ≡ combine op a (combine op b c)
combine_assoc op none b c = refl
combine_assoc op (some a) none c = refl
combine_assoc op (some a) (some b) none = refl
combine_assoc op (some a) (some b) (some c) = ground arith

-- The truth value of a tree whose contacts read `ρ`.
abbrev pub truth : {N : Type 0} → (ContactDraft N → Bool) → Interp N (Option Bool)
truth ρ = record {
  leaf = λ c. some (ρ c);
  join = combine;
  unit = none;
  unit_join = λ op a. refl;
  join_unit = combine-none;
  join_assoc = combine_assoc;
}

-- The contacts of a tree from left to right.
abbrev pub in_order : {N : Type 0} → Interp N (List (ContactDraft N))
in_order = record {
  leaf = λ c. c ∷ [];
  join = λ op xs ys. xs ++ ys;
  unit = [];
  unit_join = λ op xs. refl;
  join_unit = λ op xs. append-nil xs;
  join_assoc = λ op xs ys zs. append_assoc xs ys zs;
}

mutual
  unfolding contacts_of contacts_all fold fold_all

  contacts_of-fold : {N : Type 0} (n : DraftNode N) → contacts_of n ≡ fold in_order n
  contacts_of-fold (contact c) = refl
  contacts_of-fold (group i op cs) = contacts_all-fold op cs

  contacts_all-fold :
      {N : Type 0} (op : Combinator) (ns : Nodes N) → contacts_all ns ≡ fold_all in_order op ns
  contacts_all-fold op nil = refl
  contacts_all-fold op (cons n ns) = rw (contacts_of-fold n, contacts_all-fold op ns)

module _ {N : Type 0} where
  pub contacts-eq-fold : (t : Option (DraftNode N)) → contacts t ≡ fold_tree in_order t
  unfolding contacts
  contacts-eq-fold none = refl
  contacts-eq-fold (some n) = contacts_of-fold n

  pub contacts_of-eq-fold : (n : DraftNode N) → contacts_of n ≡ fold in_order n
  contacts_of-eq-fold n = contacts_of-fold n

  -- Normalizing changes no truth value of a condition, whatever its contacts read, and keeps every
  -- contact in its place from left to right.
  pub normalize_sound :
      (t : Option (DraftNode N))
      → ((ρ : ContactDraft N → Bool) → fold_tree (truth ρ) (normalize t) ≡ fold_tree (truth ρ) t)
        × (contacts (normalize t) ≡ contacts t)
  normalize_sound t = (
    λ ρ. fold-normalize (truth ρ) t,
    contacts-eq-fold (normalize t) ∙ fold-normalize in_order t ∙ sym (contacts-eq-fold t),
  )
