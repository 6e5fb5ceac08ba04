-- ===== src/Hardware/Checks/Wiring.antt =====
-- The pins, the bus and the addresses of `validateHardware`.
use Prim.Native.String.{◌++◌}
use iot_saas.Prelude.{
  ℕ, suc, String, true, false, Option, none, some, List, [], ◌∷◌, find, ◌==◌, str_eq, or_else,
  if◌then◌else◌,
}
use iot_saas.Prelude.Numbers.{Numbers}
use iot_saas.Live.Maps.{store, lookup}
use iot_saas.Hardware.Pins.{BoardModel, I2cPins, PinNeed, pin_problem}
use iot_saas.Hardware.Catalog.{DriverSpec, ParamValue, number, switch, text, find_driver}
use iot_saas.Hardware.Draft.{Side, Slot, sda, scl, UsedPin, BindingDraft}
use iot_saas.Hardware.Checks.{Errors, HardwareProblem, slot_path, put_new, binding_path}

-- `seen.get(u.pin)`
abbrev pub owner_of : ℕ → List (ℕ × Slot) → Option Slot
owner_of pin [] = none
owner_of pin ((p, s) ∷ seen) = let later = owner_of pin seen in if p == pin then some s else later

abbrev pub see_pin : Option Slot → UsedPin → List (ℕ × Slot) → List (ℕ × Slot)
see_pin none u seen = (u.pin, u.slot) ∷ seen
see_pin (some other) u seen = seen

abbrev pub put_owner : Option Slot → UsedPin → Errors → Errors
put_owner none u e = e
put_owner (some other) u e = store (slot_path u.slot) (HardwareProblem.also_used u.pin other) e

-- The loop over the used pins.
unfoldable pub check_pins : List UsedPin → List (ℕ × Slot) → Errors → Errors
check_pins [] seen e = e
check_pins (u ∷ us) seen e =
    let other = owner_of u.pin seen in check_pins us (see_pin other u seen) (put_owner other u e)

-- The lines of the bus on the board.
abbrev pub check_lines : Option I2cPins → Option BoardModel → Errors → Errors
check_lines (some b) (some model) e =
    put_new (slot_path scl) (pin_problem model PinNeed.bus b.scl)
      (put_new (slot_path sda) (pin_problem model PinNeed.bus b.sda) e)
check_lines _ _ e = e

module _ {N : Type 0} (𝓝 : Numbers N) where
  -- `String(value)`
  abbrev value_text : ParamValue N → String
  value_text (number n) = 𝓝.to_text n
  value_text (switch true) = "true"
  value_text (switch false) = "false"
  value_text (text t) = t

  abbrev text_of_value : Option (ParamValue N) → String
  text_of_value none = ""
  text_of_value (some v) = value_text v

  abbrev default_of : DriverSpec N → Option (ParamValue N)
  default_of spec = elim (find (λ p. str_eq p.key "address") spec.params) [
    | none ↦ none
    | some p ↦ some p.default
  ]

  unfoldable pub i2c_address : BindingDraft N → DriverSpec N → String
  i2c_address b spec = text_of_value (or_else (lookup "address" b.params) (default_of spec))

  abbrev address_with : BindingDraft N → Option (DriverSpec N) → Option String
  address_with b none = none
  address_with b (some spec) = if spec.on_i2c then some (i2c_address b spec) else none

  -- The address of a binding on the bus; none where its driver is not an I2C one.
  unfoldable pub bus_address : List (DriverSpec N) → BindingDraft N → Option String
  unfolding i2c_address
  bus_address drivers b = address_with b (find_driver drivers b.driver)

-- The addresses met, each with its binding, and the errors.
abbrev pub Met : Type 0
Met = List (String × (Side × ℕ)) × Errors

abbrev pub put_address : Option (Side × ℕ) → String → Side → ℕ → Met → Met
put_address none address side i m = (store address (side, i) m.0, m.1)
put_address (some other) address side i m = (
  m.0,
  store (binding_path side i ++ "params.address")
      (HardwareProblem.address_used address other.0 other.1) m.1,
)

abbrev pub meet : Option String → Side → ℕ → Met → Met
meet none side i m = m
meet (some address) side i m = put_address (lookup address m.0) address side i m

module _ {N : Type 0} (𝓝 : Numbers N) where
  -- The loop over a list of bindings.
  unfoldable pub check_addresses :
      List (DriverSpec N) → Side → ℕ → List (BindingDraft N) → Met → Met
  unfolding bus_address
  check_addresses drivers side i [] m = m
  check_addresses drivers side i (b ∷ bs) m =
      check_addresses drivers side (suc i) bs (meet (bus_address 𝓝 drivers b) side i m)
