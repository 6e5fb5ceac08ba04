-- ===== src/Live/Maps.antt =====
-- JavaScript's Map with text keys, as its entries in insertion order.
use iot_saas.Prelude.{
  String, Bool, true, false, not, ◌≡◌, refl, Option, none, some, List, [], ◌∷◌, keep, str_eq,
  eq_iff, eq_refl, if◌then◌else◌, Bool-cases, inl, inr,
}

module _ {A : Type 0} where
  -- `map.get(k)`
  abbrev pub lookup : String → List (String × A) → Option A
  lookup k [] = none
  lookup k ((j, v) ∷ m) = let later = lookup k m in if str_eq j k then some v else later

  -- `map.set(k, v)`, which keeps the place of a key that is there
  abbrev pub store : String → A → List (String × A) → List (String × A)
  store k v [] = (k, v) ∷ []
  store k v ((j, w) ∷ m) =
      let rest = store k v m in if str_eq j k then (j, v) ∷ m else (j, w) ∷ rest

  -- `map.delete(k)`
  abbrev pub erase : String → List (String × A) → List (String × A)
  erase k m = keep (λ e. not (str_eq e.0 k)) m

  -- `map.has(k)`
  abbrev pub has : String → List (String × A) → Bool
  has k [] = false
  has k ((j, v) ∷ m) = let later = has k m in if str_eq j k then true else later

  pub lookup-store_same :
      (k : String) (v : A) (m : List (String × A)) → lookup k (store k v m) ≡ some v
  lookup-store_same k v [] = rw (eq_refl k)
  lookup-store_same k v ((j, w) ∷ m) = elim (Bool-cases (str_eq j k)) [
    | inl e ↦ rw (e, e)
    | inr e ↦ rw (e, e) (lookup-store_same k v m)
  ]

  pub lookup-store_other :
      (k i : String) (v : A) (m : List (String × A))
      → str_eq k i ≡ false
      → lookup i (store k v m) ≡ lookup i m
  lookup-store_other k i v [] h = rw h
  lookup-store_other k i v ((j, w) ∷ m) h = elim (Bool-cases (str_eq j k)) [
    | inl e ↦ rw (e, (eq_iff j k).0 e, h) refl
    | inr e ↦ rw e (rw (lookup-store_other k i v m h) refl)
  ]
