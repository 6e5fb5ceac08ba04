-- ===== src/Ladder/Bounds.antt =====
-- The size of a ladder block, and that all it draws lies inside it.
use iot_saas.Prelude.{
  ℕ, ◌+◌, ◌≤◌, ◌<◌, List, [], ◌∷◌, ◌++◌, arith, All, All-append, inl, inr, ◌≢◌, ◌⊎◌,
}
use iot_saas.Ladder.{LadderContact, LadderWire, LadderLayout, beside, below}

-- A rectangle of the grid.
pub record Area : Type 0 where
  pub x : ℕ
  pub y : ℕ
  pub width : ℕ
  pub height : ℕ

pub record CellIn (a : Area) (c : LadderContact) : Type 0 where
  pub left : a.x ≤ c.x
  pub right : c.x < a.x + a.width
  pub top : a.y ≤ c.y
  pub bottom : c.y < a.y + a.height

-- A wire runs between the columns' edges, on the rows of the area.
pub record WireIn (a : Area) (w : LadderWire) : Type 0 where
  pub left : a.x ≤ w.x1
  pub forward : w.x1 ≤ w.x2
  pub right : w.x2 ≤ a.x + a.width
  pub top : a.y ≤ w.y1
  pub down : w.y1 ≤ w.y2
  pub bottom : w.y2 < a.y + a.height

abbrev pub area_at : ℕ → ℕ → LadderLayout → Area
area_at x y l = record { x = x; y = y; width = l.width; height = l.height }

-- One area holds another.
pub record Holds (b a : Area) : Type 0 where
  pub left : b.x ≤ a.x
  pub top : b.y ≤ a.y
  pub right : a.x + a.width ≤ b.x + b.width
  pub bottom : a.y + a.height ≤ b.y + b.height

cells_wider :
    (a b : Area) (cs : List LadderContact) → Holds b a → All (CellIn a) cs → All (CellIn b) cs
cells_wider a b [] h k = tt
cells_wider a b (c ∷ cs) h (k, ks) = (omega arith, cells_wider a b cs h ks)

wires_wider :
    (a b : Area) (ws : List LadderWire) → Holds b a → All (WireIn a) ws → All (WireIn b) ws
wires_wider a b [] h k = tt
wires_wider a b (w ∷ ws) h (k, ks) = (omega arith, wires_wider a b ws h ks)

-- No two cells share their place.
abbrev pub Apart : LadderContact → LadderContact → Type 0
Apart c d = (c.x ≢ d.x) ⊎ (c.y ≢ d.y)

abbrev pub AllApart : List LadderContact → Type 0
AllApart [] = Unit
AllApart (c ∷ cs) = All (Apart c) cs × AllApart cs

AllApart-append :
    (cs ds : List LadderContact)
    → AllApart cs
    → AllApart ds
    → All (λ c. All (Apart c) ds) cs
    → AllApart (cs ++ ds)
AllApart-append [] ds h k l = k
AllApart-append (c ∷ cs) ds (h, hs) k (l, ls) =
    (All-append (Apart c) cs ds h l, AllApart-append cs ds hs k ls)

-- Two areas side by side, or one above the other.
abbrev Separate : Area → Area → Type 0
Separate a b = (a.x + a.width ≤ b.x) ⊎ (a.y + a.height ≤ b.y)

Apart-CellIn :
    (a b : Area) (c : LadderContact) (ds : List LadderContact)
    → Separate a b
    → CellIn a c
    → All (CellIn b) ds
    → All (Apart c) ds
Apart-CellIn a b c [] s h k = tt
Apart-CellIn a b c (d ∷ ds) (inl s) h (k, ks) =
    (inl (omega arith), Apart-CellIn a b c ds (inl s) h ks)
Apart-CellIn a b c (d ∷ ds) (inr s) h (k, ks) =
    (inr (omega arith), Apart-CellIn a b c ds (inr s) h ks)

All-Apart :
    (a b : Area) (cs ds : List LadderContact)
    → Separate a b
    → All (CellIn a) cs
    → All (CellIn b) ds
    → All (λ c. All (Apart c) ds) cs
All-Apart a b [] ds s h k = tt
All-Apart a b (c ∷ cs) ds s (h, hs) k = (Apart-CellIn a b c ds s h k, All-Apart a b cs ds s hs k)

-- What a block draws lies in its area, and its cells do not overlap.
pub record IsDrawn (a : Area) (l : LadderLayout) : Type 0 where
  pub cells : All (CellIn a) l.contacts
  pub wires : All (WireIn a) l.wires
  pub apart : AllApart l.contacts

pub IsDrawn-beside :
    (x y : ℕ) (a b : LadderLayout)
    → IsDrawn (area_at x y a) a
    → IsDrawn (area_at (x + a.width) y b) b
    → IsDrawn (area_at x y (beside a b)) (beside a b)
IsDrawn-beside x y a b h k =
    let whole = area_at x y (beside a b) in
    let left = area_at x y a in
    let right = area_at (x + a.width) y b in
    let in_left : Holds whole left = omega arith in
    let in_right : Holds whole right = omega arith in
    record {
      cells =
          All-append (CellIn whole) a.contacts b.contacts
            (cells_wider left whole a.contacts in_left h.cells)
            (cells_wider right whole b.contacts in_right k.cells);
      wires =
          All-append (WireIn whole) a.wires b.wires (wires_wider left whole a.wires in_left h.wires)
            (wires_wider right whole b.wires in_right k.wires);
      apart =
          AllApart-append a.contacts b.contacts h.apart k.apart
            (All-Apart left right a.contacts b.contacts (inl (omega arith)) h.cells k.cells);
    }

pub IsDrawn-below :
    (x y : ℕ) (a b : LadderLayout)
    → IsDrawn (area_at x y a) a
    → IsDrawn (area_at x (y + a.height) b) b
    → IsDrawn (area_at x y (below a b)) (below a b)
IsDrawn-below x y a b h k =
    let whole = area_at x y (below a b) in
    let upper = area_at x y a in
    let lower = area_at x (y + a.height) b in
    let in_upper : Holds whole upper = omega arith in
    let in_lower : Holds whole lower = omega arith in
    record {
      cells =
          All-append (CellIn whole) a.contacts b.contacts
            (cells_wider upper whole a.contacts in_upper h.cells)
            (cells_wider lower whole b.contacts in_lower k.cells);
      wires =
          All-append (WireIn whole) a.wires b.wires
            (wires_wider upper whole a.wires in_upper h.wires)
            (wires_wider lower whole b.wires in_lower k.wires);
      apart =
          AllApart-append a.contacts b.contacts h.apart k.apart
            (All-Apart upper lower a.contacts b.contacts (inr (omega arith)) h.cells k.cells);
    }
