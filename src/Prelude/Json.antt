-- ===== src/Prelude/Json.antt =====
-- JSON values, and an API object as its fields in order. Reading and printing JSON text is the
-- runtime's: a parameter of what uses it.
use Prim.Native.String.{String}
use mathlib.Core.Bool.{Bool, false}
use mathlib.Core.Option.{Option, none, some}
use mathlib.Core.List.{List, [], ◌∷◌}
use text.Mathlib.Text.{◌==◌}
use iot_saas.Prelude.Tests.{if◌then◌else◌}

mutual
  pub data Json (N : Type 0) : Type 0 where
    null : Json N
    bool : Bool → Json N
    num : N → Json N
    str : String → Json N
    arr : Elems N → Json N
    obj : Fields N → Json N

  pub data Elems (N : Type 0) : Type 0 where
    no_more : Elems N
    elem : Json N → Elems N → Elems N

  pub data Fields (N : Type 0) : Type 0 where
    end : Fields N
    field : String → Json N → Fields N → Fields N

-- Record<string, unknown>
abbrev pub JsonObject : Type 0 → Type 0
JsonObject N = List (String × Json N)

-- JSON.parse, which throws on `none`, JSON.stringify with an indent of 2, and String of a value
pub record JsonText (N : Type 0) : Type 0 where
  pub parse : String → Option (Json N)
  pub print : Json N → String
  pub show : Json N → String

module _ {N : Type 0} where
  -- `o.key`; undefined is `none`
  abbrev pub get : String → JsonObject N → Option (Json N)
  get k [] = none
  get k ((j, v) ∷ o) = let rest = get k o in if j == k then some v else rest

  -- `{ ...o, key: v }` where the key is there already
  abbrev pub set : String → Json N → JsonObject N → JsonObject N
  set k v [] = (k, v) ∷ []
  set k v ((j, w) ∷ o) = let rest = set k v o in if j == k then (j, v) ∷ o else (j, w) ∷ rest

  -- `v === "text"`
  abbrev pub is_text : String → Option (Json N) → Bool
  is_text t (some (str s)) = s == t
  is_text t _ = false

  -- `typeof v === "string" ? v : fallback`
  abbrev pub text_or : String → Option (Json N) → String
  text_or fallback (some (str s)) = s
  text_or fallback _ = fallback

  -- an array as a list, and anything else as the empty one
  abbrev pub items : Elems N → List (Json N)
  items no_more = []
  items (elem v vs) = v ∷ items vs

  abbrev pub from_list : List (Json N) → Elems N
  from_list [] = no_more
  from_list (v ∷ vs) = elem v (from_list vs)

  abbrev pub array_or_empty : Option (Json N) → List (Json N)
  array_or_empty (some (arr vs)) = items vs
  array_or_empty _ = []

  -- `o.key` of a parsed object, whose keys are distinct
  abbrev pub get_field : String → Fields N → Option (Json N)
  get_field k end = none
  get_field k (field j v o) = let rest = get_field k o in if j == k then some v else rest
