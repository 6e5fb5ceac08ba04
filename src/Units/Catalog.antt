-- ===== src/Units/Catalog.antt =====
-- The operations on a catalog of units (packages/shared/src/units.ts), over any catalog.
use Prim.Native.String
use Prim.Native.String.{String}
use text.Mathlib.Text.{starts_with}
use iot_saas.Prelude.{
  ◌++◌, Bool, ◌||◌, Option, none, some, List, [], ◌∷◌, map, keep, length, ltb, if◌then◌else◌,
}
use iot_saas.Prelude.Text.{trim, is_empty}
use iot_saas.Live.Maps.{lookup, store}

pub record CatalogUnit : Type 0 where
  pub symbol : String
  pub name : String

pub record UnitCategory : Type 0 where
  pub category : String
  pub units : List CatalogUnit

-- A row of the table.
abbrev pub units_of : List (String × String) → List CatalogUnit
units_of [] = []
units_of ((s, n) ∷ rows) = record { symbol = s; name = n } ∷ units_of rows

abbrev pub reverse : {A : Type 0} → List A → List A
reverse [] = []
reverse (x ∷ xs) = reverse xs ++ x ∷ []

-- `units.map((u) => [u.symbol, u.name])`
abbrev pub pairs_of : List CatalogUnit → List (String × String)
pairs_of us = map (λ u. (u.symbol, u.name)) us

-- `flatMap((c) => c.units.map((u) => [u.symbol, u.name]))`
abbrev pub entries_of : List UnitCategory → List (String × String)
entries_of [] = []
entries_of (c ∷ cs) = pairs_of c.units ++ entries_of cs

-- `new Map(entries)`, onto a map: a later entry of a key takes the place of an earlier one
unfoldable pub map_onto : List (String × String) → List (String × String) → List (String × String)
map_onto m [] = m
map_onto m ((k, v) ∷ es) = map_onto (store k v m) es

unfoldable pub name_by_symbol : List UnitCategory → List (String × String)
unfolding map_onto
name_by_symbol categories = map_onto [] (entries_of (reverse categories))

-- `name ? … : symbol`
abbrev pub label_of : String → Option String → String
label_of symbol none = symbol
label_of symbol (some name) =
    if is_empty name then symbol else String.◌++◌ symbol (String.◌++◌ " — " name)

unfoldable pub label_if : List UnitCategory → String → String
unfolding name_by_symbol
label_if categories symbol =
    if is_empty symbol then "" else label_of symbol (lookup symbol (name_by_symbol categories))

unfoldable pub unit_label : List UnitCategory → Option String → String
unit_label categories none = ""
unit_label categories (some symbol) = label_if categories symbol

-- `text.includes(q)`
unfoldable pub includes : String → String → Bool
includes String.[] q = is_empty q
includes (String.◌∷◌ c s) q = starts_with (String.◌∷◌ c s) q || includes s q

module _ (lower : String → String) where
  abbrev pub matches : String → CatalogUnit → Bool
  unfolding includes
  matches q u = includes (lower u.symbol) q || includes (lower u.name) q

  unfoldable pub search_in : String → List UnitCategory → List UnitCategory
  search_in q [] = []
  search_in q (c ∷ cs) =
      let units = keep (matches q) c.units in
      let rest = search_in q cs in
      if ltb 0 (length units) then record { category = c.category; units = units } ∷ rest else rest

  unfoldable pub search_units : List UnitCategory → String → List UnitCategory
  unfolding search_in
  search_units categories query =
      let q = lower (trim query) in if is_empty q then categories else search_in q categories
