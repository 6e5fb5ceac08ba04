-- ===== src/Units/Naming.antt =====
-- Which name a symbol that several units share is given.
use iot_saas.Prelude.{
  String, false, ◌≡◌, refl, sym, ◌∙◌, Option, none, some, List, [], ◌∷◌, ◌++◌, first_some, or_else,
  str_eq, eq_iff, Bool-cases, inl, inr, append-nil, append_assoc, if◌then◌else◌,
}
use iot_saas.Prelude.Text.{is_empty}
use iot_saas.Live.Maps.{lookup, store, lookup-store_same, lookup-store_other}
use iot_saas.Units.Catalog.{
  UnitCategory, reverse, entries_of, pairs_of, label_of, unit_label, label_if, map_onto,
  name_by_symbol,
}

-- The last entry of a symbol.
abbrev pub last_name : String → List (String × String) → Option String
last_name s [] = none
last_name s ((k, v) ∷ es) = or_else (last_name s es) (if str_eq k s then some v else none)

abbrev pub name_in : String → UnitCategory → Option String
name_in s c = last_name s (pairs_of c.units)

or_else-none : {A : Type 0} (a : Option A) → or_else a none ≡ a
or_else-none none = refl
or_else-none (some x) = refl

or_else_assoc : {A : Type 0} (a b c : Option A) → or_else (or_else a b) c ≡ or_else a (or_else b c)
or_else_assoc none b c = refl
or_else_assoc (some x) b c = refl

last_name-append :
    (s : String) (xs ys : List (String × String))
    → last_name s (xs ++ ys) ≡ or_else (last_name s ys) (last_name s xs)
last_name-append s [] ys = sym (or_else-none (last_name s ys))
last_name-append s ((k, v) ∷ xs) ys =
    rw (last_name-append s xs ys)
      (or_else_assoc (last_name s ys) (last_name s xs) (if str_eq k s then some v else none))

entries_of-append :
    (cs ds : List UnitCategory) → entries_of (cs ++ ds) ≡ entries_of cs ++ entries_of ds
entries_of-append [] ds = refl
entries_of-append (c ∷ cs) ds =
    rw (entries_of-append cs ds)
      (sym (append_assoc (pairs_of c.units) (entries_of cs) (entries_of ds)))

lookup-store :
    (k v s : String) (m : List (String × String))
    → lookup s (store k v m) ≡ or_else (if str_eq k s then some v else none) (lookup s m)
lookup-store k v s m = elim (Bool-cases (str_eq k s)) [
  | inl e ↦ rw (e, (eq_iff k s).0 e) (lookup-store_same s v m)
  | inr e ↦ rw e (lookup-store_other k s v m e)
]

lookup-map_onto :
    (s : String) (m es : List (String × String))
    → lookup s (map_onto m es) ≡ or_else (last_name s es) (lookup s m)
unfolding map_onto
lookup-map_onto s m [] = refl
lookup-map_onto s m ((k, v) ∷ es) =
    rw (lookup-map_onto s (store k v m) es, lookup-store k v s m)
      (sym (or_else_assoc (last_name s es) (if str_eq k s then some v else none) (lookup s m)))

last_name-reverse :
    (s : String) (cs : List UnitCategory)
    → last_name s (entries_of (reverse cs)) ≡ first_some (name_in s) cs
last_name-reverse s [] = refl
last_name-reverse s (c ∷ cs) =
    rw
      (
        entries_of-append (reverse cs) (c ∷ []),
        last_name-append s (entries_of (reverse cs)) (entries_of (c ∷ [])),
        append-nil (pairs_of c.units),
        last_name-reverse s cs,
      )
      refl

lookup-name_by_symbol :
    (cs : List UnitCategory) (s : String) → lookup s (name_by_symbol cs) ≡ first_some (name_in s) cs
unfolding name_by_symbol
lookup-name_by_symbol cs s =
    lookup-map_onto s [] (entries_of (reverse cs))
    ∙ or_else-none (last_name s (entries_of (reverse cs)))
    ∙ last_name-reverse s cs

-- A symbol that is not empty is labelled by the name that the first category to list it gives it last, and
-- stands alone where no category lists it or that name is empty.
pub unit_label_lem :
    (cs : List UnitCategory) (s : String)
    → is_empty s ≡ false
    → unit_label cs (some s) ≡ label_of s (first_some (name_in s) cs)
unfolding unit_label label_if
unit_label_lem cs s h = rw (h, lookup-name_by_symbol cs s) refl
