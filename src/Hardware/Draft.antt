-- ===== src/Hardware/Draft.antt =====
-- The wiring that the template editor holds (frontend/src/lib/hardware/hardware-draft.ts). A path of a
-- field is a value of Slot, and texts for the screen are left out.
pub mod Bus
pub mod Sync
use iot_saas.Prelude.{
  mem, ℕ, suc, String, Bool, true, false, not, ◌&&◌, ◌||◌, Option, none, some, List, [], ◌∷◌, ◌++◌,
  map, any, keep, find, str_eq, ◌==◌, if◌then◌else◌,
}
use iot_saas.Hardware.Pins.{PinNeed, BoardModel, I2cPins, resolve_model, preferred_pins}
use iot_saas.Hardware.Catalog.{ParamValue, DriverPinSpec, DriverSpec, HardwareCatalog, find_driver}

-- Record<string, …> as its entries in order
pub record BindingDraft (N : Type 0) : Type 0 where
  pub uid : String
  pub driver : String
  pub pins : List (String × Option ℕ)
  pub params : List (String × ParamValue N)
  pub channels : List (String × String)
  pub proposed : Option (List (String × String))

pub record HardwareDraft (N : Type 0) : Type 0 where
  pub board : String
  pub i2c : Option I2cPins
  pub inputs : List (BindingDraft N)
  pub outputs : List (BindingDraft N)

pub data Side : Type 0 where
  inputs outputs : Side

-- What holds a pin: a line of the bus, or a role of the binding at a place.
pub data Slot : Type 0 where
  sda scl : Slot
  role : Side → ℕ → String → Slot

pub record UsedPin : Type 0 where
  pub pin : ℕ
  pub slot : Slot

abbrev pub prepend_some : {A : Type 0} → Option A → List A → List A
prepend_some none xs = xs
prepend_some (some x) xs = x ∷ xs

abbrev used_by : Slot → Option ℕ → Option UsedPin
used_by slot none = none
used_by slot (some pin) = some (record { pin = pin; slot = slot })

abbrev role_pins : Side → ℕ → List (String × Option ℕ) → List UsedPin
role_pins side i [] = []
role_pins side i ((r, pin) ∷ pins) =
    prepend_some (used_by (role side i r) pin) (role_pins side i pins)

abbrev bus_pins : Option I2cPins → List UsedPin
bus_pins none = []
bus_pins (some b) = record { pin = b.sda; slot = sda } ∷ record { pin = b.scl; slot = scl } ∷ []

-- The board's own lines where both are free.
abbrev pub default_lines : Option I2cPins → List ℕ → Option I2cPins
default_lines none taken = none
default_lines (some b) taken =
    if not (mem b.sda taken) && not (mem b.scl taken) then some b else none

abbrev pub first_two : List ℕ → Option I2cPins
first_two [] = none
first_two (p ∷ []) = none
first_two (p ∷ q ∷ ps) = some (record { sda = p; scl = q })

abbrev lines_or : Option I2cPins → Option I2cPins → Option I2cPins
lines_or (some b) later = some b
lines_or none later = later

abbrev pub has_lines : Option I2cPins → Bool
has_lines none = false
has_lines (some b) = true

-- The loop over a driver's roles: the first free pin of each, in the board's preferred order.
unfoldable pub first_free : Option BoardModel → PinNeed → List ℕ → Option ℕ
first_free none needs taken = none
first_free (some model) needs taken = find (λ n. not (mem n taken)) (preferred_pins model needs)

unfoldable pub pick_pins :
    Option BoardModel → List DriverPinSpec → List ℕ → List (String × Option ℕ)
unfolding first_free
pick_pins model [] taken = []
pick_pins model (p ∷ ps) taken =
    let free = first_free model p.needs taken in
    (p.role, free) ∷ pick_pins model ps (prepend_some free taken)

module _ {N : Type 0} where
  unfoldable pub blank_hardware : String → HardwareDraft N
  blank_hardware board = record { board = board; i2c = none; inputs = []; outputs = [] }

  abbrev binding_pins : Side → ℕ → List (BindingDraft N) → List UsedPin
  binding_pins side i [] = []
  binding_pins side i (b ∷ bs) = role_pins side i b.pins ++ binding_pins side (suc i) bs

  unfoldable pub used_pins : HardwareDraft N → List UsedPin
  used_pins h =
      bus_pins h.i2c
      ++ (binding_pins Side.inputs 0 h.inputs ++ binding_pins Side.outputs 0 h.outputs)

  -- `new Set(usedPins(h).map((u) => u.pin))`
  abbrev pub taken_pins : HardwareDraft N → List ℕ
  taken_pins h = map (λ u. u.pin) (used_pins h)

  abbrev pub on_bus : Option (DriverSpec N) → Bool
  on_bus none = false
  on_bus (some spec) = spec.on_i2c

  unfoldable pub uses_i2c : HardwareDraft N → List (DriverSpec N) → Bool
  uses_i2c h drivers = any (λ b. on_bus (find_driver drivers b.driver)) (h.inputs ++ h.outputs)

  -- The lines that a draft with none gets on a board.
  unfoldable pub new_lines : HardwareDraft N → Option BoardModel → Option I2cPins
  new_lines h none = none
  new_lines h (some model) =
      lines_or (default_lines model.i2c (taken_pins h))
        (first_two (keep (λ p. not (mem p (taken_pins h))) (preferred_pins model PinNeed.bus)))

  unfoldable pub sync_i2c : HardwareDraft N → HardwareCatalog N → HardwareDraft N
  unfolding new_lines
  sync_i2c h catalog =
      if not (uses_i2c h catalog.drivers)
      then record h { i2c = none }
      else if has_lines h.i2c
      then h
      else record h { i2c = new_lines h (resolve_model catalog.models h.board) }

  unfoldable pub blank_binding :
      String → DriverSpec N → HardwareDraft N → HardwareCatalog N → BindingDraft N
  unfolding pick_pins
  blank_binding uid spec h catalog = record {
    uid = uid;
    driver = spec.id;
    pins = pick_pins (resolve_model catalog.models h.board) spec.pins (taken_pins h);
    params = map (λ p. (p.key, p.default)) spec.params;
    channels = map (λ c. (c.key, "")) spec.channels;
    proposed = none;
  }
