-- ===== src/Hardware/Moving.antt =====
-- `moveToBoard` (frontend/src/lib/hardware/hardware-draft.ts): the wiring on another board. What it moved
-- is told by slot, where the source words an owner for the screen.
pub mod Placed
use iot_saas.Prelude.{
  mem, ℕ, suc, String, Bool, true, false, not, ◌&&◌, Option, none, some, List, [], ◌∷◌, ◌++◌, map,
  any, find, str_eq, ◌==◌, if◌then◌else◌,
}
use iot_saas.Hardware.Pins.{PinNeed, BoardModel, I2cPins, PinProblem, resolve_model, pin_problem}
use iot_saas.Hardware.Catalog.{DriverPinSpec, DriverSpec, HardwareCatalog, find_driver, runs_on}
use iot_saas.Hardware.Draft.{
  BindingDraft, HardwareDraft, Side, Slot, sda, scl, role, uses_i2c, first_free, prepend_some,
}

pub record MovedPin : Type 0 where
  pub slot : Slot
  pub from : ℕ
  pub to : Option ℕ

-- A role of a binding, with the pin that it has and what it needs of one.
pub record Wanted : Type 0 where
  pub side : Side
  pub place : ℕ
  pub role_name : String
  pub pin : Option ℕ
  pub needs : PinNeed

-- What the loops over the roles carry: `taken`, `placed` and `moved`.
pub record Placing : Type 0 where
  pub taken : List ℕ
  pub placed : List (Wanted × Option ℕ)
  pub moved : List MovedPin

abbrev pub same_side : Side → Side → Bool
same_side Side.inputs Side.inputs = true
same_side Side.outputs Side.outputs = true
same_side _ _ = false

-- one key of `placed`, `${kind}.${i}.${role}`
abbrev pub same_role : Wanted → Wanted → Bool
same_role a b = same_side a.side b.side && (a.place == b.place) && str_eq a.role_name b.role_name

abbrev pub is_placed : Wanted → List (Wanted × Option ℕ) → Bool
is_placed r placed = any (λ e. same_role e.0 r) placed

abbrev no_problem : Option PinProblem → Bool
no_problem none = true
no_problem (some problem) = false

-- The pin that a role keeps: its own, where it is free and still suits.
unfoldable pub kept_pin : BoardModel → PinNeed → List ℕ → Option ℕ → Option ℕ
kept_pin model needs taken none = none
kept_pin model needs taken (some p) =
    if not (mem p taken) && no_problem (pin_problem model needs p) then some p else none

abbrev keep_at : Wanted → Option ℕ → Placing → Placing
keep_at r none st = st
keep_at r (some p) st = record st { taken = p ∷ st.taken; placed = (r, some p) ∷ st.placed }

unfoldable pub keep_role : BoardModel → Wanted → Placing → Placing
unfolding kept_pin
keep_role model r st = keep_at r (kept_pin model r.needs st.taken r.pin) st

unfoldable pub keep_roles : BoardModel → List Wanted → Placing → Placing
unfolding keep_role
keep_roles model [] st = st
keep_roles model (r ∷ rs) st = keep_roles model rs (keep_role model r st)

abbrev moved_from : Wanted → Option ℕ → List MovedPin → List MovedPin
moved_from r to moved = elim r.pin [
  | none ↦ moved
  | some p ↦ moved ++ record { slot = role r.side r.place r.role_name; from = p; to = to } ∷ []
]

abbrev place_at : Wanted → Option ℕ → Placing → Placing
place_at r to st = record {
  taken = prepend_some to st.taken;
  placed = (r, to) ∷ st.placed;
  moved = moved_from r to st.moved;
}

unfoldable pub place_role : BoardModel → Wanted → Placing → Placing
place_role model r st =
    if is_placed r st.placed then st else place_at r (first_free (some model) r.needs st.taken) st

unfoldable pub place_rest : BoardModel → List Wanted → Placing → Placing
unfolding place_role
place_rest model [] st = st
place_rest model (r ∷ rs) st = place_rest model rs (place_role model r st)

-- Both loops: keep what still fits, then place the rest.
unfoldable pub place_roles : BoardModel → List Wanted → Placing → Placing
place_roles model rs st = place_rest model rs (keep_roles model rs st)

abbrev bus_taken : Option I2cPins → List ℕ
bus_taken none = []
bus_taken (some b) = b.sda ∷ b.scl ∷ []

abbrev line_moved : Slot → ℕ → ℕ → List MovedPin
line_moved slot old new =
    if old == new then [] else record { slot = slot; from = old; to = some new } ∷ []

abbrev bus_moved : Option I2cPins → Option I2cPins → List MovedPin
bus_moved (some old) (some new) = line_moved sda old.sda new.sda ++ line_moved scl old.scl new.scl
bus_moved _ _ = []

-- `new Set(texts)`, in order
unfoldable pub unique : List String → List String → List String
unique seen [] = []
unique seen (t ∷ ts) =
    let skipped = unique seen ts in
    let kept = unique (t ∷ seen) ts in if any (λ s. str_eq s t) seen then skipped else t ∷ kept

abbrev need_or_input : Option DriverPinSpec → PinNeed
need_or_input none = PinNeed.input
need_or_input (some p) = p.needs

abbrev placed_pin : Wanted → List (Wanted × Option ℕ) → Option ℕ
placed_pin r placed = elim (find (λ e. same_role e.0 r) placed) [ none ↦ none | some e ↦ e.1 ]

abbrev roles_of : List DriverPinSpec → Side → ℕ → List (String × Option ℕ) → List Wanted
roles_of specs side i [] = []
roles_of specs side i ((r, pin) ∷ pins) =
    record {
      side = side;
      place = i;
      role_name = r;
      pin = pin;
      needs = need_or_input (find (λ p. str_eq p.role r) specs);
    }
    ∷ roles_of specs side i pins

abbrev rebind_pins : List (Wanted × Option ℕ) → List Wanted → List (String × Option ℕ)
rebind_pins placed [] = []
rebind_pins placed (r ∷ rs) = (r.role_name, placed_pin r placed) ∷ rebind_pins placed rs

abbrev new_bus : Bool → Option I2cPins → Option I2cPins
new_bus uses own = if uses then own else none

pub record Move (N : Type 0) : Type 0 where
  pub hardware : HardwareDraft N
  pub moved : List MovedPin
  pub unsupported : List String

module _ {N : Type 0} where
  abbrev specs_of : Option (DriverSpec N) → List DriverPinSpec
  specs_of none = []
  specs_of (some spec) = spec.pins

  unfoldable pub roles : List (DriverSpec N) → Side → ℕ → List (BindingDraft N) → List Wanted
  roles drivers side i [] = []
  roles drivers side i (b ∷ bs) =
      roles_of (specs_of (find_driver drivers b.driver)) side i b.pins
      ++ roles drivers side (suc i) bs

  abbrev unsupported_label : BoardModel → Option (DriverSpec N) → Option String
  unsupported_label model none = none
  unsupported_label model (some spec) = if runs_on spec (some model) then none else some spec.label

  abbrev unsupported_labels : BoardModel → List (DriverSpec N) → List (BindingDraft N) → List String
  unsupported_labels model drivers [] = []
  unsupported_labels model drivers (b ∷ bs) =
      prepend_some (unsupported_label model (find_driver drivers b.driver))
        (unsupported_labels model drivers bs)

  unfoldable pub rebind :
      List (DriverSpec N)
      → List (Wanted × Option ℕ)
      → Side
      → ℕ
      → List (BindingDraft N)
      → List (BindingDraft N)
  rebind drivers placed side i [] = []
  rebind drivers placed side i (b ∷ bs) =
      record b {
        pins =
            rebind_pins placed (roles_of (specs_of (find_driver drivers b.driver)) side i b.pins);
      }
      ∷ rebind drivers placed side (suc i) bs

  unfoldable pub move_to : HardwareDraft N → BoardModel → List (DriverSpec N) → Move N
  unfolding place_roles rebind unique
  move_to h model drivers =
      let i2c = new_bus (uses_i2c h drivers) model.i2c in
      let start : Placing = record {
        taken = bus_taken i2c;
        placed = [];
        moved = bus_moved h.i2c i2c;
      } in
      let wanted = roles drivers Side.inputs 0 h.inputs ++ roles drivers Side.outputs 0 h.outputs in
      let end = place_roles model wanted start in
      record {
        hardware = record {
          board = model.id;
          i2c = i2c;
          inputs = rebind drivers end.placed Side.inputs 0 h.inputs;
          outputs = rebind drivers end.placed Side.outputs 0 h.outputs;
        };
        moved = end.moved;
        unsupported = unique [] (unsupported_labels model drivers (h.inputs ++ h.outputs));
      }

  unfoldable pub move_to_board : HardwareDraft N → String → HardwareCatalog N → Move N
  unfolding move_to
  move_to_board h board catalog = elim (resolve_model catalog.models board) [
    | none ↦ record {
      hardware = record h { board = board; i2c = none };
      moved = [];
      unsupported = [];
    }
    | some model ↦ move_to h model catalog.drivers
  ]
