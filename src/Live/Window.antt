-- ===== src/Live/Window.antt =====
-- The drawn series of a chart: `reseed` and `appendToWindow` (frontend/src/lib/live-buffer.ts).
pub mod Search
pub mod Zip
pub mod Append
use iot_saas.Prelude.{
  ℕ, zero, suc, ◌+◌, ◌/◌, String, Bool, true, false, not, Option, none, some, List, [], ◌∷◌, ◌++◌,
  length, ltb, str_eq, if◌then◌else◌,
}
use iot_saas.Prelude.Numbers.{Numbers}
use iot_saas.Live.Buffer.{LivePoint}

pub record Series (N : Type 0) : Type 0 where
  pub id : String
  pub xs : List N
  pub ys : List N

-- Both columns, which the code changes in place.
pub record Columns (N : Type 0) : Type 0 where
  pub xs : List N
  pub ys : List N

abbrev pub last : {A : Type 0} → List A → Option A
last [] = none
last (x ∷ []) = some x
last (x ∷ y ∷ xs) = last (y ∷ xs)

-- `xs[i]`; undefined is `none`
abbrev pub get_elem? : {A : Type 0} → List A → ℕ → Option A
get_elem? [] i = none
get_elem? (x ∷ xs) zero = some x
get_elem? (x ∷ xs) (suc i) = get_elem? xs i

-- `xs.splice(0, n)`
abbrev pub drop : {A : Type 0} → ℕ → List A → List A
drop zero xs = xs
drop (suc n) [] = []
drop (suc n) (x ∷ xs) = drop n xs

-- The loop `while (lo < hi)`; a fuel of `hi - lo` is enough.
unfoldable pub first_inside : (ℕ → Bool) → ℕ → ℕ → ℕ → ℕ
first_inside older zero lo hi = lo
first_inside older (suc f) lo hi =
    let mid = (lo + hi) / 2 in
    let right = first_inside older f (mid + 1) hi in
    let left = first_inside older f lo mid in
    if ltb lo hi then (if older mid then right else left) else lo

module _ {N : Type 0} (𝓝 : Numbers N) where
  abbrev past_tip : Option N → N → Bool
  past_tip none t = true
  past_tip (some tip) t = 𝓝.lt tip t

  -- The live points of the old series that are newer than the tip of the fetch.
  abbrev pub add_newer : Option N → List N → List N → Columns N → Columns N
  add_newer tip (x ∷ xs) (y ∷ ys) c =
      if past_tip tip x
      then add_newer tip xs ys (record { xs = c.xs ++ x ∷ []; ys = c.ys ++ y ∷ [] })
      else add_newer tip xs ys c
  add_newer tip _ _ c = c

  unfoldable pub reseed : Series N → String → List N → List N → Series N
  reseed prev id xs ys =
      let c = add_newer (last xs) prev.xs prev.ys (record { xs = xs; ys = ys }) in
      if not (str_eq prev.id id)
      then (record { id = id; xs = xs; ys = ys })
      else record { id = id; xs = c.xs; ys = c.ys }

  abbrev pub at_or_before : N → Option N → Bool
  at_or_before t none = false
  at_or_before t (some tip) = 𝓝.le t tip

  -- a point that is skipped where the test holds
  abbrev pub add_unless : Bool → LivePoint N → Columns N → Columns N
  add_unless true p c = c
  add_unless false p c = record { xs = c.xs ++ p.t ∷ []; ys = c.ys ++ p.v ∷ [] }

  abbrev pub append_point : LivePoint N → Columns N → Columns N
  append_point p c = add_unless (at_or_before p.t (last c.xs)) p c

  unfoldable pub append_points : List (LivePoint N) → Columns N → Columns N
  append_points [] c = c
  append_points (p ∷ ps) c = append_points ps (append_point p c)

  -- `xs[i] < cutoff`
  abbrev pub older_than : List N → N → ℕ → Bool
  older_than xs cutoff i = elim (get_elem? xs i) [ none ↦ false | some x ↦ 𝓝.lt x cutoff ]

  abbrev pub slide : N → Columns N → Columns N
  slide cutoff c =
      let lo = first_inside (older_than c.xs cutoff) (length c.xs) 0 (length c.xs) in
      record { xs = drop lo c.xs; ys = drop lo c.ys }

  unfoldable pub append_to_window : Columns N → List (LivePoint N) → N → Columns N
  append_to_window c points cutoff = slide cutoff (append_points points c)
