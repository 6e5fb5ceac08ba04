-- ===== src/Ladder.antt =====
-- The ladder drawing of a condition (frontend/src/lib/ladder-layout.ts), in grid units.
pub mod Bounds
pub mod Sizes
pub mod Cells
mod Tests
use iot_saas.Prelude.{
  ℕ, ◌+◌, max, String, Bool, true, false, ◌||◌, Option, none, some, List, [], ◌∷◌, ◌++◌, ltb,
  if◌then◌else◌, or_else, str_eq,
}
use iot_saas.Rule.Draft.{Combinator, and, or, DraftNode, Nodes, contact, group, nil, cons, node_id}

pub record LadderContact : Type 0 where
  pub id : String
  pub x : ℕ
  pub y : ℕ

pub record LadderBlock : Type 0 where
  pub id : String
  pub op : Combinator
  pub x : ℕ
  pub y : ℕ
  pub width : ℕ
  pub height : ℕ

pub record LadderWire : Type 0 where
  pub x1 : ℕ
  pub y1 : ℕ
  pub x2 : ℕ
  pub y2 : ℕ

pub record LadderLayout : Type 0 where
  pub width : ℕ
  pub height : ℕ
  pub contacts : List LadderContact
  pub blocks : List LadderBlock
  pub wires : List LadderWire

abbrev pub nothing : ℕ → LadderLayout
nothing height = record { width = 0; height = height; contacts = []; blocks = []; wires = [] }

-- A branch of a parallel block: its first row and its width.
pub record Branch : Type 0 where
  pub row : ℕ
  pub width : ℕ

-- What the loops over the children have pushed and measured.
abbrev pub beside : LadderLayout → LadderLayout → LadderLayout
beside a b = record {
  width = a.width + b.width;
  height = max a.height b.height;
  contacts = a.contacts ++ b.contacts;
  blocks = a.blocks ++ b.blocks;
  wires = a.wires ++ b.wires;
}

abbrev pub below : LadderLayout → LadderLayout → LadderLayout
below a b = record {
  width = max a.width b.width;
  height = a.height + b.height;
  contacts = a.contacts ++ b.contacts;
  blocks = a.blocks ++ b.blocks;
  wires = a.wires ++ b.wires;
}

-- The wires that extend the shorter branches to the right bus.
unfoldable pub fillers : ℕ → ℕ → List Branch → List LadderWire
fillers x width [] = []
fillers x width (b ∷ bs) =
    let rest = fillers x width bs in
    if ltb b.width width
    then record { x1 = x + b.width; y1 = b.row; x2 = x + width; y2 = b.row } ∷ rest
    else rest

-- `branches[branches.length - 1].row`; on no branch the source throws, see `throws`.
unfoldable pub last_row : ℕ → List Branch → ℕ
last_row y [] = y
last_row y (b ∷ bs) = last_row b.row bs

unfoldable pub bus : ℕ → ℕ → ℕ → LadderWire
bus x top bottom = record { x1 = x; y1 = top; x2 = x; y2 = bottom }

-- A series block once its children are placed.
unfoldable pub close_series : String → ℕ → ℕ → LadderLayout → LadderLayout
close_series i x y l = record l {
  blocks =
      l.blocks
      ++ record { id = i; op = and; x = x; y = y; width = l.width; height = l.height } ∷ [];
}

-- A parallel block once its branches are placed: the fillers and the two buses.
unfoldable pub close_parallel : String → ℕ → ℕ → List Branch → LadderLayout → LadderLayout
unfolding fillers last_row bus
close_parallel i x y bs l = record l {
  wires =
      l.wires
      ++ (fillers x l.width bs
          ++ bus x y (last_row y bs) ∷ bus (x + l.width) y (last_row y bs) ∷ []);
  blocks =
      l.blocks ++ record { id = i; op = or; x = x; y = y; width = l.width; height = l.height } ∷ [];
}

-- `place`, with what it pushes beside the size that it returns.
unfoldable mutual
  pub place : {N : Type 0} → DraftNode N → ℕ → ℕ → LadderLayout
  place (contact c) x y = record {
    width = 1;
    height = 1;
    contacts = record { id = c.id; x = x; y = y } ∷ [];
    blocks = [];
    wires = [];
  }
  place (group i and cs) x y = close_series i x y (place_series cs x y)
  place (group i or cs) x y = close_parallel i x y (branches cs x y) (place_parallel cs x y)

  pub place_series : {N : Type 0} → Nodes N → ℕ → ℕ → LadderLayout
  place_series nil x y = nothing 0
  place_series (cons n ns) x y =
      let size = place n x y in beside size (place_series ns (x + size.width) y)

  pub place_parallel : {N : Type 0} → Nodes N → ℕ → ℕ → LadderLayout
  place_parallel nil x y = nothing 0
  place_parallel (cons n ns) x y =
      let size = place n x y in below size (place_parallel ns x (y + size.height))

  pub branches : {N : Type 0} → Nodes N → ℕ → ℕ → List Branch
  branches nil x y = []
  branches (cons n ns) x y =
      let size = place n x y in
      record { row = y; width = size.width } ∷ branches ns x (y + size.height)

-- A parallel block with no branch has no last row: reading it is a TypeError.
unfoldable mutual
  pub throws : {N : Type 0} → DraftNode N → Bool
  throws (contact c) = false
  throws (group i and cs) = throws_below cs
  throws (group i or nil) = true
  throws (group i or (cons n ns)) = throws_below (cons n ns)

  pub throws_below : {N : Type 0} → Nodes N → Bool
  throws_below nil = false
  throws_below (cons n ns) = throws n || throws_below ns

module _ {N : Type 0} where
  -- `none` is that TypeError.
  unfoldable pub layout_condition : Option (DraftNode N) → Option LadderLayout
  layout_condition none = some (nothing 1)
  layout_condition (some n) = let l = place n 0 0 in if throws n then none else some l

-- `path.length > 0 ? [node, ...path] : …`
abbrev pub extend : {A : Type 0} → A → List A → List A
extend n [] = []
extend n (m ∷ path) = n ∷ m ∷ path

abbrev pub first_path : {A : Type 0} → List A → List A → List A
first_path [] later = later
first_path (n ∷ path) later = n ∷ path

-- `ancestry`, from the root down to the id, inclusive
unfoldable mutual
  pub ancestry_of : {N : Type 0} → String → DraftNode N → List (DraftNode N)
  ancestry_of id (contact c) = if str_eq c.id id then contact c ∷ [] else []
  ancestry_of id (group i op cs) =
      let path = ancestry_below id cs in
      if str_eq i id then group i op cs ∷ [] else extend (group i op cs) path

  pub ancestry_below : {N : Type 0} → String → Nodes N → List (DraftNode N)
  ancestry_below id nil = []
  ancestry_below id (cons n ns) = first_path (ancestry_of id n) (ancestry_below id ns)

unfoldable pub ancestry : {N : Type 0} → Option (DraftNode N) → String → List (DraftNode N)
ancestry none id = []
ancestry (some n) id = ancestry_of id n
