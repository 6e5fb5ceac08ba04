-- ===== src/Ladder/Cells.antt =====
-- What `layoutCondition` draws of a tree in normal form.
use iot_saas.Prelude.{
  ℕ, ◌+◌, ◌≤◌, String, false, ◌≡◌, refl, Option, none, some, List, [], ◌∷◌, ◌++◌, map, map-append,
  arith, All-append,
}
use iot_saas.Rule.Draft.{Combinator, and, or, DraftNode, Nodes, contact, group, nil, cons}
use iot_saas.Rule.Tree.{contacts, contacts_of, contacts_all}
use iot_saas.Rule.Tree.Normal.{IsNormal, AreNormal, IsNormalTree}
use iot_saas.Ladder.{
  LadderLayout, Branch, place, place_series, place_parallel, branches, close_series, close_parallel,
  fillers, last_row, bus, nothing, throws, throws_below, layout_condition,
}
use iot_saas.Ladder.Bounds.{WireIn, area_at, IsDrawn, IsDrawn-beside, IsDrawn-below}
use iot_saas.Ladder.Sizes.{HasTwo-IsFilled, parallel_size, RowsIn, RowsIn-branches, closing_in}

IsDrawn-nothing : (x y height : ℕ) → IsDrawn (area_at x y (nothing height)) (nothing height)
IsDrawn-nothing x y height = record { cells = tt; wires = tt; apart = tt }

IsDrawn-close_series :
    (i : String) (x y : ℕ) (l : LadderLayout)
    → IsDrawn (area_at x y l) l
    → IsDrawn (area_at x y (close_series i x y l)) (close_series i x y l)
unfolding close_series
IsDrawn-close_series i x y l h = record { cells = h.cells; wires = h.wires; apart = h.apart }

IsDrawn-close_parallel :
    (i : String) (x y : ℕ) (bs : List Branch) (l : LadderLayout)
    → 1 ≤ l.height
    → RowsIn y (y + l.height) bs
    → IsDrawn (area_at x y l) l
    → IsDrawn (area_at x y (close_parallel i x y bs l)) (close_parallel i x y bs l)
unfolding close_parallel
IsDrawn-close_parallel i x y bs l k r h = record {
  cells = h.cells;
  wires =
      All-append (WireIn (area_at x y l)) l.wires
        (fillers x l.width bs ++ bus x y (last_row y bs) ∷ bus (x + l.width) y (last_row y bs) ∷ [])
        h.wires (closing_in (area_at x y l) bs k r);
  apart = h.apart;
}

mutual
  unfolding place IsNormal AreNormal

  IsDrawn-place :
      {N : Type 0} (n : DraftNode N) (x y : ℕ)
      → IsNormal n
      → IsDrawn (area_at x y (place n x y)) (place n x y)
  IsDrawn-place (contact c) x y h = record {
    cells = (omega arith, tt);
    wires = tt;
    apart = (tt, tt);
  }
  IsDrawn-place (group i and cs) x y h =
      IsDrawn-close_series i x y (place_series cs x y) (IsDrawn-series cs and x y h.1)
  IsDrawn-place (group i or cs) x y h =
      IsDrawn-close_parallel i x y (branches cs x y) (place_parallel cs x y)
        (parallel_size cs or x y (HasTwo-IsFilled cs h.0) h.1).1 (RowsIn-branches cs or x y h.1)
        (IsDrawn-parallel cs or x y h.1)

  IsDrawn-series :
      {N : Type 0} (cs : Nodes N) (op : Combinator) (x y : ℕ)
      → AreNormal op cs
      → IsDrawn (area_at x y (place_series cs x y)) (place_series cs x y)
  IsDrawn-series nil op x y h = IsDrawn-nothing x y 0
  IsDrawn-series (cons n ns) op x y h =
      IsDrawn-beside x y (place n x y) (place_series ns (x + (place n x y).width) y)
        (IsDrawn-place n x y h.0) (IsDrawn-series ns op (x + (place n x y).width) y h.2)

  IsDrawn-parallel :
      {N : Type 0} (cs : Nodes N) (op : Combinator) (x y : ℕ)
      → AreNormal op cs
      → IsDrawn (area_at x y (place_parallel cs x y)) (place_parallel cs x y)
  IsDrawn-parallel nil op x y h = IsDrawn-nothing x y 0
  IsDrawn-parallel (cons n ns) op x y h =
      IsDrawn-below x y (place n x y) (place_parallel ns x (y + (place n x y).height))
        (IsDrawn-place n x y h.0) (IsDrawn-parallel ns op x (y + (place n x y).height) h.2)

mutual
  unfolding place close_series close_parallel contacts_of contacts_all

  -- The cells name the tree's contacts, in the tree's order.
  cell_ids :
      {N : Type 0} (n : DraftNode N) (x y : ℕ)
      → map (λ c. c.id) (place n x y).contacts ≡ map (λ c. c.id) (contacts_of n)
  cell_ids (contact c) x y = refl
  cell_ids (group i and cs) x y = series_ids cs x y
  cell_ids (group i or cs) x y = parallel_ids cs x y

  series_ids :
      {N : Type 0} (cs : Nodes N) (x y : ℕ)
      → map (λ c. c.id) (place_series cs x y).contacts ≡ map (λ c. c.id) (contacts_all cs)
  series_ids nil x y = refl
  series_ids (cons n ns) x y = rw (
    map-append (λ c. c.id) (place n x y).contacts
        (place_series ns (x + (place n x y).width) y).contacts,
    map-append (λ c. c.id) (contacts_of n) (contacts_all ns),
    cell_ids n x y,
    series_ids ns (x + (place n x y).width) y,
  )

  parallel_ids :
      {N : Type 0} (cs : Nodes N) (x y : ℕ)
      → map (λ c. c.id) (place_parallel cs x y).contacts ≡ map (λ c. c.id) (contacts_all cs)
  parallel_ids nil x y = refl
  parallel_ids (cons n ns) x y = rw (
    map-append (λ c. c.id) (place n x y).contacts
        (place_parallel ns x (y + (place n x y).height)).contacts,
    map-append (λ c. c.id) (contacts_of n) (contacts_all ns),
    cell_ids n x y,
    parallel_ids ns x (y + (place n x y).height),
  )

mutual
  unfolding throws IsNormal AreNormal

  -- No group of a tree in normal form is empty, so nothing is thrown.
  throws_of_IsNormal : {N : Type 0} (n : DraftNode N) → IsNormal n → throws n ≡ false
  throws_of_IsNormal (contact c) h = refl
  throws_of_IsNormal (group i and cs) h = throws_below_of_AreNormal cs and h.1
  throws_of_IsNormal (group i or nil) h = absurd h.0
  throws_of_IsNormal (group i or (cons n ns)) h = throws_below_of_AreNormal (cons n ns) or h.1

  throws_below_of_AreNormal :
      {N : Type 0} (cs : Nodes N) (op : Combinator) → AreNormal op cs → throws_below cs ≡ false
  throws_below_of_AreNormal nil op h = refl
  throws_below_of_AreNormal (cons n ns) op h =
      rw (throws_of_IsNormal n h.0) (throws_below_of_AreNormal ns op h.2)

-- What a drawing of a tree must be: all of it on the grid, no two contacts in one cell, one cell
-- for each contact in reading order.
pub record DrawsTree {N : Type 0} (root : Option (DraftNode N)) (l : LadderLayout) : Type 0 where
  pub drawn : IsDrawn (area_at 0 0 l) l
  pub named : map (λ c. c.id) l.contacts ≡ map (λ c. c.id) (contacts root)

-- The layout of a tree in normal form never throws, and it draws the tree: every cell and wire lies
-- on the grid of the reported width and height, no two contacts share a cell, and the cells name
-- the tree's contacts in order.
pub layout_condition_sound :
    {N : Type 0} (root : Option (DraftNode N))
    → IsNormalTree root
    → (l : LadderLayout) × (layout_condition root ≡ some l) × DrawsTree root l
unfolding layout_condition contacts
layout_condition_sound none h =
    (nothing 1, refl, record { drawn = IsDrawn-nothing 0 0 1; named = refl })
layout_condition_sound (some n) h = (
  place n 0 0,
  rw (throws_of_IsNormal n h) refl,
  record { drawn = IsDrawn-place n 0 0 h; named = cell_ids n 0 0 },
)
