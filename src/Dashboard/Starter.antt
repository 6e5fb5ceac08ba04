-- ===== src/Dashboard/Starter.antt =====
-- What the starter dashboard looks like on the grid.
use iot_saas.Prelude.{
  take, All-map, ap, ◌∙◌, ◌<◌, ℕ, zero, suc, ◌+◌, ◌%◌, ◌≤◌, max, String, Bool, ◌≡◌, refl, ◌⊎◌, inl,
  inr, List, [], ◌∷◌, ◌==◌, All, length, min, arith, Bool-cases,
}
use iot_saas.Dashboard.{
  top_of, height_before, CatalogEntry, Device, Widget, widget_at, height_for, first_reading,
  layout_from, starter_layout, starter_devices,
}

-- One of two widgets ends before the other begins, across or down the page.
abbrev pub IsApart : Widget → Widget → Type 0
IsApart a b = (a.x + a.w ≤ b.x) ⊎ ((b.x + b.w ≤ a.x) ⊎ ((a.y + a.h ≤ b.y) ⊎ (b.y + b.h ≤ a.y)))

abbrev pub AreApart : List Widget → Type 0
AreApart [] = Unit
AreApart (w ∷ ws) = All (IsApart w) ws × AreApart ws

-- Inside the twelve columns.
abbrev pub Fits : Widget → Type 0
Fits w = w.x + w.w ≤ 12

length-take : {A : Type 0} (n : ℕ) (xs : List A) → length (take n xs) ≡ min n (length xs)
length-take zero xs = omega arith
length-take (suc n) [] = omega arith
length-take (suc n) (x ∷ xs) = omega (arith, length-take n xs)

top_of-grows : (i y row : ℕ) → y ≤ top_of i y row
unfolding top_of
top_of-grows i y row = ground arith

top_of-even : (i y row : ℕ) → i % 2 ≡ 0 → 0 < i → top_of i y row ≡ y + row
unfolding top_of
top_of-even i y row h k = ground arith

top_of-odd : (i y row : ℕ) → i % 2 ≡ 1 → top_of i y row ≡ y
unfolding top_of
top_of-odd i y row h = ground arith

height_before-odd : (i row : ℕ) → i % 2 ≡ 1 → height_before i row ≡ row
unfolding height_before
height_before-odd i row h = ground arith

module _ (lower : String → String) (new_id : ℕ → String) (templates : List CatalogEntry) where
  abbrev from : ℕ → ℕ → ℕ → List Device → List Widget
  from i y row ds = layout_from lower new_id templates i y row ds

  place : ℕ → ℕ → Bool → Device → Widget
  place i y left d = widget_at lower new_id templates i y left d

  -- The page only grows downwards.
  below : (i y row : ℕ) (ds : List Device) (z : ℕ) → z ≤ y → All (λ w. z ≤ w.y) (from i y row ds)
  unfolding layout_from
  below i y row [] z h = tt
  below i y row (d ∷ ds) z h =
      let k = top_of-grows i y row in
      (
        omega arith,
        below (suc i) (top_of i y row)
            (max (height_before i row) (height_for (first_reading templates d))) ds z (omega arith),
      )

  -- Past the first row, what begins a row lies below the row above.
  below_row :
      (i y row : ℕ) (ds : List Device)
      → i % 2 ≡ 0
      → 0 < i
      → All (λ w. y + row ≤ w.y) (from i y row ds)
  unfolding layout_from
  below_row i y row [] h k = tt
  below_row i y row (d ∷ ds) h k = rw (top_of-even i y row h k) (
    omega arith,
    below (suc i) (y + row) (max (height_before i row) (height_for (first_reading templates d))) ds
        (y + row) (omega arith),
  )

  -- What follows the left widget of a row is on its right or below the row.
  beside :
      (i y row : ℕ) (ds : List Device)
      → i % 2 ≡ 1
      → All (λ w. (6 ≤ w.x) ⊎ (y + row ≤ w.y)) (from i y row ds)
  unfolding layout_from
  beside i y row [] h = tt
  beside i y row (d ∷ ds) h =
      rw (top_of-odd i y row h, height_before-odd i row h)
        (
          ground arith,
          All-map (λ w k. inr (omega arith))
              (from (suc i) y (max row (height_for (first_reading templates d))) ds)
              (below_row (suc i) y (max row (height_for (first_reading templates d))) ds
                (omega arith) (omega arith)),
        )

  layout_from-AreApart : (i y row : ℕ) (ds : List Device) → AreApart (from i y row ds)
  unfolding layout_from
  layout_from-AreApart i y row [] = tt
  layout_from-AreApart i y row (d ∷ ds) =
      let h = height_for (first_reading templates d) in
      let top = top_of i y row in
      let height = max (height_before i row) h in
      (
        elim (Bool-cases (i % 2 == 0)) [
          | inl e ↦ rw e (
              All-map
                (λ w k. elim k [
                  | inl a ↦ inl (omega arith)
                  | inr a ↦ inr (inr (inl (omega arith)))
                ])
                (from (suc i) top height ds) (beside (suc i) top height ds (ground arith)))
          | inr e ↦ rw e (
              All-map (λ w k. inr (inr (inl (omega arith)))) (from (suc i) top height ds)
                (below_row (suc i) top height ds (ground arith) (omega arith)))
        ],
        layout_from-AreApart (suc i) top height ds,
      )

  layout_from-Fits : (i y row : ℕ) (ds : List Device) → All Fits (from i y row ds)
  unfolding layout_from
  layout_from-Fits i y row [] = tt
  layout_from-Fits i y row (d ∷ ds) = (
    ground arith,
    layout_from-Fits (suc i) (top_of i y row)
        (max (height_before i row) (height_for (first_reading templates d))) ds,
  )

  length-layout_from : (i y row : ℕ) (ds : List Device) → length (from i y row ds) ≡ length ds
  unfolding layout_from
  length-layout_from i y row [] = refl
  length-layout_from i y row (d ∷ ds) = ap suc (
      length-layout_from (suc i) (top_of i y row)
        (max (height_before i row) (height_for (first_reading templates d))) ds)

  -- The starter dashboard has one widget for each of the first eight devices; each fits the twelve
  -- columns, and no two of them overlap.
  pub starter_layout-AreApart :
      (devices : List Device)
      → AreApart (starter_layout lower new_id templates devices)
        × All Fits (starter_layout lower new_id templates devices)
        × (length (starter_layout lower new_id templates devices) ≡ min 8 (length devices))
  unfolding starter_layout starter_devices
  starter_layout-AreApart devices = (
    layout_from-AreApart 0 0 0 (take 8 devices),
    layout_from-Fits 0 0 0 (take 8 devices),
    length-layout_from 0 0 0 (take 8 devices) ∙ length-take 8 devices,
  )
