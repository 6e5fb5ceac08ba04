-- ===== src/Hardware/Checks/Whole.antt =====
-- `validateHardware` as a whole.
use iot_saas.Prelude.{
  ℕ, suc, String, Bool, true, false, not, ◌&&◌, Option, none, some, List, [], ◌∷◌,
}
use iot_saas.Prelude.Numbers.{Numbers}
use iot_saas.Hardware.Pins.{BoardModel, resolve_model}
use iot_saas.Hardware.Catalog.{DriverSpec, HardwareCatalog, find_driver}
use iot_saas.Hardware.Draft.{Side, sda, BindingDraft, HardwareDraft, uses_i2c, has_lines, used_pins}
use iot_saas.Hardware.Saving.{KeyedRow, Rows}
use iot_saas.Hardware.Checks.{Errors, Warnings, HardwareProblem, put_if, slot_path}
use iot_saas.Hardware.Checks.Wiring.{check_pins, check_lines, check_addresses}
use iot_saas.Hardware.Checks.Channels.{Fed}
use iot_saas.Hardware.Checks.Binding.{check_binding}

module _ {N : Type 0} where
  -- `catalog?.drivers`, where a lookup in none finds none
  abbrev pub drivers_of : Option (HardwareCatalog N) → List (DriverSpec N)
  drivers_of none = []
  drivers_of (some c) = c.drivers

  abbrev pub model_of : Option (HardwareCatalog N) → String → Option BoardModel
  model_of none board = none
  model_of (some c) board = resolve_model c.models board

  abbrev pub board_missing : Option (HardwareCatalog N) → Option BoardModel → Bool
  board_missing (some c) none = true
  board_missing _ _ = false

module _ {N : Type 0} (𝓝 : Numbers N) (is_finite is_integer : N → Bool) where
  -- The loop over the bindings of one kind.
  unfoldable pub check_bindings :
      Option (HardwareCatalog N)
      → Option BoardModel
      → Side
      → List KeyedRow
      → ℕ
      → List (BindingDraft N)
      → Fed
      → Fed
  unfolding check_binding
  check_bindings catalog model side rows i [] f = f
  check_bindings catalog model side rows i (b ∷ bs) f =
      check_bindings catalog model side rows (suc i) bs (
        check_binding 𝓝 is_finite is_integer catalog model side rows i b
          (find_driver (drivers_of catalog) b.driver) f)

  -- The checks before those of each binding.
  unfoldable pub check_wiring :
      Option (HardwareCatalog N) → Option BoardModel → HardwareDraft N → Errors
  unfolding check_pins check_addresses
  check_wiring catalog model h =
      let board =
        put_if (board_missing catalog model) "hardware.board" (HardwareProblem.no_board h.board)
          [] in
      let pins = check_pins (used_pins h) [] board in
      let bus =
        put_if (uses_i2c h (drivers_of catalog) && not (has_lines h.i2c)) (slot_path sda)
          HardwareProblem.no_bus pins in
      let lines = check_lines h.i2c model bus in
      (check_addresses 𝓝 (drivers_of catalog) Side.outputs 0 h.outputs
        (check_addresses 𝓝 (drivers_of catalog) Side.inputs 0 h.inputs ([], lines))).1

  abbrev pub check_sides :
      Option (HardwareCatalog N) → Option BoardModel → Rows → HardwareDraft N → Errors → Fed
  check_sides catalog model rows h e =
      let ins =
        check_bindings catalog model Side.inputs rows.metrics 0 h.inputs
          (record { fed = []; errors = e; warnings = [] }) in
      check_bindings catalog model Side.outputs rows.actuators 0 h.outputs
        (record { fed = []; errors = ins.errors; warnings = ins.warnings })

  unfoldable pub validate_hardware :
      Option (HardwareDraft N) → Rows → Option (HardwareCatalog N) → Errors × Warnings
  unfolding check_wiring check_bindings
  validate_hardware none rows catalog = ([], [])
  validate_hardware (some h) rows catalog =
      let model = model_of catalog h.board in
      let f = check_sides catalog model rows h (check_wiring catalog model h) in
      (f.errors, f.warnings)
