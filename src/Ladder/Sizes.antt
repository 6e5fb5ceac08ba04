-- ===== src/Ladder/Sizes.antt =====
-- The size of a block of a tree in normal form, and what closes a parallel one.
use iot_saas.Prelude.{
  ℕ, ◌+◌, ◌≤◌, ◌<◌, List, [], ◌∷◌, ◌++◌, arith, All, All-append, ltb, Bool-cases, inl, inr,
}
use iot_saas.Rule.Draft.{Combinator, and, or, DraftNode, Nodes, contact, group, nil, cons}
use iot_saas.Rule.Tree.Normal.{IsNormal, AreNormal, HasTwo}
use iot_saas.Ladder.{
  Branch, place, place_series, place_parallel, branches, close_series, close_parallel, fillers,
  last_row, bus,
}
use iot_saas.Ladder.Bounds.{Area, WireIn}

abbrev pub IsFilled : {N : Type 0} → Nodes N → Type 0
IsFilled nil = ⊥
IsFilled (cons n ns) = Unit

pub HasTwo-IsFilled : {N : Type 0} (cs : Nodes N) → HasTwo cs → IsFilled cs
HasTwo-IsFilled nil h = h
HasTwo-IsFilled (cons n ns) h = tt

mutual
  unfolding place close_series close_parallel IsNormal AreNormal

  -- A block of a tree in normal form takes a cell or more.
  place_size :
      {N : Type 0} (n : DraftNode N) (x y : ℕ)
      → IsNormal n
      → (1 ≤ (place n x y).width) × (1 ≤ (place n x y).height)
  place_size (contact c) x y h = omega arith
  place_size (group i and cs) x y h = series_size cs and x y (HasTwo-IsFilled cs h.0) h.1
  place_size (group i or cs) x y h = parallel_size cs or x y (HasTwo-IsFilled cs h.0) h.1

  series_size :
      {N : Type 0} (cs : Nodes N) (op : Combinator) (x y : ℕ)
      → IsFilled cs
      → AreNormal op cs
      → (1 ≤ (place_series cs x y).width) × (1 ≤ (place_series cs x y).height)
  series_size nil op x y f h = absurd f
  series_size (cons n ns) op x y f h = omega (arith, place_size n x y h.0)

  pub parallel_size :
      {N : Type 0} (cs : Nodes N) (op : Combinator) (x y : ℕ)
      → IsFilled cs
      → AreNormal op cs
      → (1 ≤ (place_parallel cs x y).width) × (1 ≤ (place_parallel cs x y).height)
  parallel_size nil op x y f h = absurd f
  parallel_size (cons n ns) op x y f h = omega (arith, place_size n x y h.0)

-- The first rows of branches that lie between two rows.
abbrev pub RowsIn : ℕ → ℕ → List Branch → Type 0
RowsIn top end = All (λ b. (top ≤ b.row) × (b.row < end))

RowsIn-wider :
    (top top' end end' : ℕ) (bs : List Branch)
    → top' ≤ top
    → end ≤ end'
    → RowsIn top end bs
    → RowsIn top' end' bs
RowsIn-wider top top' end end' [] h k r = tt
RowsIn-wider top top' end end' (b ∷ bs) h k (r, rs) =
    (omega arith, RowsIn-wider top top' end end' bs h k rs)

pub RowsIn-branches :
    {N : Type 0} (cs : Nodes N) (op : Combinator) (x y : ℕ)
    → AreNormal op cs
    → RowsIn y (y + (place_parallel cs x y).height) (branches cs x y)
unfolding place IsNormal
RowsIn-branches nil op x y h = tt
RowsIn-branches (cons n ns) op x y h =
    let size = place n x y in
    let rest = place_parallel ns x (y + size.height) in
    (
      omega (arith, place_size n x y h.0),
      RowsIn-wider (y + size.height) y (y + size.height + rest.height)
          (y + (size.height + rest.height)) (branches ns x (y + size.height)) (omega arith)
          (omega arith) (RowsIn-branches ns op x (y + size.height) h.2),
    )

last_row_in :
    (top y end : ℕ) (bs : List Branch)
    → top ≤ y
    → y < end
    → RowsIn top end bs
    → (top ≤ last_row y bs) × (last_row y bs < end)
unfolding last_row
last_row_in top y end [] h k r = (h, k)
last_row_in top y end (b ∷ bs) h k ((l, m), rs) = last_row_in top b.row end bs l m rs

fillers_in :
    (a : Area) (bs : List Branch)
    → RowsIn a.y (a.y + a.height) bs
    → All (WireIn a) (fillers a.x a.width bs)
unfolding fillers
fillers_in a [] r = tt
fillers_in a (b ∷ bs) (r, rs) = elim (Bool-cases (ltb b.width a.width)) [
  | inl e ↦ rw e (ground arith, fillers_in a bs rs)
  | inr e ↦ rw e (fillers_in a bs rs)
]

-- What closes a parallel block lies inside it.
pub closing_in :
    (a : Area) (bs : List Branch)
    → 1 ≤ a.height
    → RowsIn a.y (a.y + a.height) bs
    → All (WireIn a) (
        fillers a.x a.width bs
        ++ bus a.x a.y (last_row a.y bs) ∷ bus (a.x + a.width) a.y (last_row a.y bs) ∷ [])
unfolding bus
closing_in a bs h r =
    let l = last_row_in a.y a.y (a.y + a.height) bs (omega arith) (omega arith) r in
    All-append (WireIn a) (fillers a.x a.width bs)
      (bus a.x a.y (last_row a.y bs) ∷ bus (a.x + a.width) a.y (last_row a.y bs) ∷ [])
      (fillers_in a bs r) (omega (arith, l), (omega (arith, l), tt))
