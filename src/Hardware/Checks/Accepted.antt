-- ===== src/Hardware/Checks/Accepted.antt =====
-- Wiring that `validateHardware` accepts.
use iot_saas.Hardware.Checks.Safe.{
  check_driver-empty, check_roles-empty, check_pull-empty, check_channels-empty, RoleSuits,
  meet-empty, put_problem-empty, DriverFits,
}
use Prim.Native.String
use iot_saas.Prelude.{ℕ, suc, String, Bool, false, not, ◌&&◌, ◌≡◌, Option, some, List, [], ◌∷◌, All}
use iot_saas.Prelude.Numbers.{Numbers}
use iot_saas.Live.Maps.{lookup}
use iot_saas.Schedule.Sets.{HasNoRepeat}
use iot_saas.Hardware.Pins.{BoardModel}
use iot_saas.Hardware.Catalog.{DriverSpec, DriverParamSpec, HardwareCatalog, find_driver}
use iot_saas.Hardware.Draft.{
  Side, Slot, BindingDraft, HardwareDraft, uses_i2c, has_lines, used_pins, taken_pins,
}
use iot_saas.Hardware.Saving.{KeyedRow, Rows}
use iot_saas.Hardware.Checks.{Errors, HardwareProblem, put_if, slot_path, binding_path}
use iot_saas.Hardware.Checks.Wiring.{
  check_pins, check_lines, check_addresses, bus_address, Met, meet,
}
use iot_saas.Hardware.Checks.Channels.{Fed}
use iot_saas.Hardware.Checks.Binding.{
  check_binding, check_driver, check_roles, check_params, check_pull, put_problem, param_problem,
  params_spec, channels_of, no_channels, pin_of, pins_spec, warn_idle, idle_channel,
}
use iot_saas.Hardware.Checks.Whole.{
  validate_hardware, check_wiring, check_bindings, drivers_of, model_of, board_missing,
}
use iot_saas.Hardware.Checks.Pins.{
  put_if-empty, check_pins-empty, AreNew-HasNoRepeat, check_lines-empty, BusSuits,
}

module _ {N : Type 0} (𝓝 : Numbers N) (is_finite is_integer : N → Bool) where
  check_params-empty :
      (path : String) (b : BindingDraft N) (ps : List (DriverParamSpec N)) (e : Errors)
      → check_params 𝓝 is_finite is_integer path b ps e ≡ []
      → e ≡ []
  unfolding check_params
  check_params-empty path b [] e h = h
  check_params-empty path b (p ∷ ps) e h =
      let at = String.◌++◌ path (String.◌++◌ "params." p.key) in
      let problem = param_problem 𝓝 is_finite is_integer p (lookup p.key b.params) in
      put_problem-empty at problem e (check_params-empty path b ps (put_problem at problem e) h)

  -- What an accepted binding is like: its driver fits, and each role has a pin that suits it.
  abbrev pub BindingFits :
      Option (HardwareCatalog N) → Option BoardModel → Side → BindingDraft N → Type 0
  BindingFits catalog model side b =
      let spec = find_driver (drivers_of catalog) b.driver in
      DriverFits catalog spec model side × All (RoleSuits model b.pins) (pins_spec spec)

  check_binding-empty :
      (catalog : Option (HardwareCatalog N)) (model : Option BoardModel) (side : Side)
      (rows : List KeyedRow) (i : ℕ) (b : BindingDraft N) (spec : Option (DriverSpec N)) (f : Fed)
      → (check_binding 𝓝 is_finite is_integer catalog model side rows i b spec f).errors ≡ []
      → (DriverFits catalog spec model side × All (RoleSuits model b.pins) (pins_spec spec))
        × (f.errors ≡ [])
  unfolding check_binding
  check_binding-empty catalog model side rows i b spec f h =
      let path = binding_path side i in
      let driver =
        check_driver catalog spec model side b.driver (String.◌++◌ path "driver") f.errors in
      let roles = check_roles model path b.pins (pins_spec spec) driver in
      let params = check_params 𝓝 is_finite is_integer path b (params_spec spec) roles in
      let pull = check_pull model b path (pin_of "pin" b.pins) params in
      let chosen =
        put_if (no_channels side b) (String.◌++◌ path "channels.value") HardwareProblem.no_actuator
          pull in
      let cs = channels_of spec b in
      let g : Fed = record f {
        errors = chosen;
        warnings = warn_idle (idle_channel side cs b) path f.warnings;
      } in
      let q1 = check_channels-empty side i rows b cs g h in
      let q2 =
        (put_if-empty (no_channels side b) (String.◌++◌ path "channels.value")
          HardwareProblem.no_actuator pull q1).1 in
      let q3 = check_pull-empty model b path (pin_of "pin" b.pins) params q2 in
      let q4 = check_params-empty path b (params_spec spec) roles q3 in
      let (rs, q5) = check_roles-empty model path b.pins (pins_spec spec) driver q4 in
      let (d, q6) =
        check_driver-empty catalog spec model side b.driver (String.◌++◌ path "driver") f.errors
          q5 in
      ((d, rs), q6)

  check_bindings-empty :
      (catalog : Option (HardwareCatalog N)) (model : Option BoardModel) (side : Side)
      (rows : List KeyedRow) (i : ℕ) (bs : List (BindingDraft N)) (f : Fed)
      → (check_bindings 𝓝 is_finite is_integer catalog model side rows i bs f).errors ≡ []
      → All (BindingFits catalog model side) bs × (f.errors ≡ [])
  unfolding check_bindings
  check_bindings-empty catalog model side rows i [] f h = (tt, h)
  check_bindings-empty catalog model side rows i (b ∷ bs) f h =
      let spec = find_driver (drivers_of catalog) b.driver in
      let g = check_binding 𝓝 is_finite is_integer catalog model side rows i b spec f in
      let (ks, q) = check_bindings-empty catalog model side rows (suc i) bs g h in
      let (k, r) = check_binding-empty catalog model side rows i b spec f q in ((k, ks), r)

  check_addresses-empty :
      (drivers : List (DriverSpec N)) (side : Side) (i : ℕ) (bs : List (BindingDraft N)) (m : Met)
      → (check_addresses 𝓝 drivers side i bs m).1 ≡ []
      → m.1 ≡ []
  unfolding check_addresses
  check_addresses-empty drivers side i [] m h = h
  check_addresses-empty drivers side i (b ∷ bs) m h =
      meet-empty (bus_address 𝓝 drivers b) side i m
        (check_addresses-empty drivers side (suc i) bs (meet (bus_address 𝓝 drivers b) side i m) h)

  -- What accepted wiring is like, for the models and drivers of a release.
  pub record IsSafe (catalog : Option (HardwareCatalog N)) (h : HardwareDraft N) : Type 0 where
    -- no pin is used twice, the lines of the bus included
    pub distinct : HasNoRepeat (taken_pins h)
    -- the board is one of the release, where there is one
    pub known_board : board_missing catalog (model_of catalog h.board) ≡ false
    -- an I2C driver has its bus
    pub has_bus : (uses_i2c h (drivers_of catalog) && not (has_lines h.i2c)) ≡ false
    pub bus_suits : BusSuits h.i2c (model_of catalog h.board)
    pub inputs_fit : All (BindingFits catalog (model_of catalog h.board) Side.inputs) h.inputs
    pub outputs_fit : All (BindingFits catalog (model_of catalog h.board) Side.outputs) h.outputs

  -- Wiring that validateHardware finds no error in uses each pin once, with the bus's; its board and
  -- its drivers are of the release, each driver of its kind and in the board's firmware; an I2C driver
  -- has a bus on pins that carry one, and each role has a pin that suits it.
  pub validate_hardware-IsSafe :
      (h : HardwareDraft N) (rows : Rows) (catalog : Option (HardwareCatalog N))
      → (validate_hardware 𝓝 is_finite is_integer (some h) rows catalog).0 ≡ []
      → IsSafe catalog h
  unfolding validate_hardware check_wiring
  validate_hardware-IsSafe h rows catalog z =
      let model = model_of catalog h.board in
      let drivers = drivers_of catalog in
      let e = check_wiring 𝓝 is_finite is_integer catalog model h in
      let ins =
        check_bindings 𝓝 is_finite is_integer catalog model Side.inputs rows.metrics 0 h.inputs
          (record { fed = []; errors = e; warnings = [] }) in
      let (outs, q1) =
        check_bindings-empty catalog model Side.outputs rows.actuators 0 h.outputs
          (record { fed = []; errors = ins.errors; warnings = ins.warnings }) z in
      let (inps, q2) =
        check_bindings-empty catalog model Side.inputs rows.metrics 0 h.inputs
          (record { fed = []; errors = e; warnings = [] }) q1 in
      let no_model = board_missing catalog model in
      let board = put_if no_model "hardware.board" (HardwareProblem.no_board h.board) [] in
      let pins = check_pins (used_pins h) [] board in
      let lacks = uses_i2c h drivers && not (has_lines h.i2c) in
      let bus = put_if lacks (slot_path Slot.sda) HardwareProblem.no_bus pins in
      let lines = check_lines h.i2c model bus in
      let q3 =
        check_addresses-empty drivers Side.outputs 0 h.outputs
          (check_addresses 𝓝 drivers Side.inputs 0 h.inputs ([], lines)) q2 in
      let q4 = check_addresses-empty drivers Side.inputs 0 h.inputs ([], lines) q3 in
      let (suits, q5) = check_lines-empty h.i2c model bus q4 in
      let (bused, q6) = put_if-empty lacks (slot_path Slot.sda) HardwareProblem.no_bus pins q5 in
      let (new, q7) = check_pins-empty (used_pins h) [] board q6 in
      let (known, q8) =
        put_if-empty no_model "hardware.board" (HardwareProblem.no_board h.board) [] q7 in
      record {
        distinct = AreNew-HasNoRepeat (used_pins h) [] new;
        known_board = known;
        has_bus = bused;
        bus_suits = suits;
        inputs_fit = inps;
        outputs_fit = outs;
      }
