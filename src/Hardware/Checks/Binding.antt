-- ===== src/Hardware/Checks/Binding.antt =====
-- What `validateHardware` checks of one binding.
use iot_saas.Hardware.Checks.Channels.{channel_of, Fed, check_channels}
use Prim.Native.String.{◌++◌}
use iot_saas.Prelude.{
  ℕ, String, Bool, true, false, not, ◌&&◌, ◌||◌, Option, none, some, List, [], ◌∷◌, map, any,
  str_eq, if◌then◌else◌,
}
use iot_saas.Prelude.Numbers.{Numbers}
use iot_saas.Prelude.Text.{is_empty}
use iot_saas.Live.Maps.{store, lookup}
use iot_saas.Hardware.Pins.{BoardModel, pin_problem, has_internal_pull}
use iot_saas.Hardware.Catalog.{
  DriverSpec, DriverKind, DriverPinSpec, DriverParamSpec, DriverChannelSpec, ParamType, ParamValue,
  number, switch, text, runs_on, HardwareCatalog,
}
use iot_saas.Hardware.Draft.{Side, inputs, outputs, BindingDraft}
use iot_saas.Hardware.Saving.{KeyedRow}
use iot_saas.Hardware.Checks.{
  Errors, Warnings, HardwareProblem, HardwareWarning, put_if, put_new, binding_path,
}

-- `spec.kind !== (kind === "inputs" ? "input" : "output")`
abbrev pub wrong_side : Side → DriverKind → Bool
wrong_side inputs DriverKind.input = false
wrong_side outputs DriverKind.output = false
wrong_side _ _ = true

-- `b.pins[role]`; a missing one is null
abbrev pub pin_of : String → List (String × Option ℕ) → Option ℕ
pin_of r pins = elim (lookup r pins) [ none ↦ none | some pin ↦ pin ]

abbrev pub check_pin : Option BoardModel → DriverPinSpec → String → Option ℕ → Errors → Errors
check_pin model p path none e = store path HardwareProblem.no_pin e
check_pin none p path (some pin) e = e
check_pin (some model) p path (some pin) e = put_new path (pin_problem model p.needs pin) e

-- The loop over the roles of the driver.
unfoldable pub check_roles :
    Option BoardModel → String → List (String × Option ℕ) → List DriverPinSpec → Errors → Errors
check_roles model path pins [] e = e
check_roles model path pins (p ∷ ps) e =
    check_roles model path pins ps
      (check_pin model p (path ++ ("pins." ++ p.role)) (pin_of p.role pins) e)

abbrev pub warn_idle : Option String → String → Warnings → Warnings
warn_idle none path w = w
warn_idle (some key) path w = store (path ++ ("channels." ++ key)) HardwareWarning.feeds_nothing w

abbrev pub put_problem : String → Option HardwareProblem → Errors → Errors
put_problem path none e = e
put_problem path (some problem) e = store path problem e

module _ {N : Type 0} where
  -- The driver is there, of the right kind, and in the board's firmware.
  unfoldable pub check_driver :
      Option (HardwareCatalog N)
      → Option (DriverSpec N)
      → Option BoardModel
      → Side
      → String
      → String
      → Errors
      → Errors
  check_driver none none model side id path e = e
  check_driver (some catalog) none model side id path e =
      store path (HardwareProblem.no_driver id) e
  check_driver catalog (some spec) none side id path e =
      put_if (wrong_side side spec.kind) path (HardwareProblem.wrong_kind spec.label spec.kind) e
  check_driver catalog (some spec) (some model) side id path e =
      if wrong_side side spec.kind
      then store path (HardwareProblem.wrong_kind spec.label spec.kind) e
      else put_if (not (runs_on spec (some model))) path
          (HardwareProblem.not_in_firmware model.label spec.label) e

  -- `spec?.channels ?? Object.keys(b.channels).map(…)`
  abbrev pub channels_of : Option (DriverSpec N) → BindingDraft N → List DriverChannelSpec
  channels_of (some spec) b = spec.channels
  channels_of none b =
      map
        (λ c. record { key = c.0; label = c.0; data_type = none; value_type = none; common = none })
        b.channels

  abbrev pub no_channels : Side → BindingDraft N → Bool
  no_channels inputs b = false
  no_channels outputs b = is_empty (channel_of "value" b)

  -- the path of the first channel of an input none of whose channels feeds a row
  abbrev pub idle_channel : Side → List DriverChannelSpec → BindingDraft N → Option String
  idle_channel outputs cs b = none
  idle_channel inputs [] b = none
  idle_channel inputs (c ∷ cs) b =
      if any (λ ch. not (is_empty (channel_of ch.key b))) (c ∷ cs) then none else some c.key

  -- `b.params.pull !== undefined && b.params.pull !== "none"`
  abbrev pub is_pull : Option (ParamValue N) → Bool
  is_pull none = false
  is_pull (some (text t)) = not (str_eq t "none")
  is_pull (some v) = true

  abbrev pub check_pull : Option BoardModel → BindingDraft N → String → Option ℕ → Errors → Errors
  check_pull (some model) b path (some pin) e =
      put_if (is_pull (lookup "pull" b.params) && not (has_internal_pull model.chip pin))
        (path ++ "params.pull") (HardwareProblem.no_pull pin) e
  check_pull _ b path _ e = e

  abbrev pub pins_spec : Option (DriverSpec N) → List DriverPinSpec
  pins_spec none = []
  pins_spec (some spec) = spec.pins

  abbrev pub params_spec : Option (DriverSpec N) → List (DriverParamSpec N)
  params_spec none = []
  params_spec (some spec) = spec.params

  -- `is_finite` and `is_integer` are Number's tests.
  module _ (𝓝 : Numbers N) (is_finite is_integer : N → Bool) where
    abbrev below : Option N → N → Bool
    below none n = false
    below (some low) n = 𝓝.lt n low

    abbrev beyond : Option N → N → Bool
    beyond none n = false
    beyond (some high) n = 𝓝.lt high n

    abbrev is_int : ParamType → Bool
    is_int ParamType.int = true
    is_int _ = false

    abbrev number_problem : DriverParamSpec N → N → Option HardwareProblem
    number_problem param n =
        if not (is_finite n)
        then some HardwareProblem.no_number
        else if is_int param.type && not (is_integer n)
        then some HardwareProblem.no_whole_number
        else if below param.min n || beyond param.max n
        then some HardwareProblem.out_of_range
        else none

    abbrev value_as_text : ParamValue N → String
    value_as_text (number n) = 𝓝.to_text n
    value_as_text (switch true) = "true"
    value_as_text (switch false) = "false"
    value_as_text (text t) = t

    -- `!param.options?.includes(String(raw))`
    abbrev option_problem : Option (List String) → ParamValue N → Option HardwareProblem
    option_problem none v = some HardwareProblem.no_option
    option_problem (some options) v =
        if any (λ o. str_eq o (value_as_text v)) options
        then none
        else some HardwareProblem.no_option

    abbrev as_number : DriverParamSpec N → ParamValue N → Option HardwareProblem
    as_number param (switch b) = some HardwareProblem.no_number
    as_number param (number n) = number_problem param n
    as_number param (text t) = number_problem param (𝓝.of_text t)

    abbrev is_blank : ParamValue N → Bool
    is_blank (text t) = is_empty t
    is_blank _ = false

    abbrev problem_by_type : ParamType → DriverParamSpec N → ParamValue N → Option HardwareProblem
    problem_by_type ParamType.enum param v = option_problem param.options v
    problem_by_type ParamType.bool param v = none
    problem_by_type _ param v = as_number param v

    unfoldable pub param_problem :
        DriverParamSpec N → Option (ParamValue N) → Option HardwareProblem
    param_problem param none = none
    param_problem param (some v) = if is_blank v then none else problem_by_type param.type param v

    unfoldable pub check_params :
        String → BindingDraft N → List (DriverParamSpec N) → Errors → Errors
    unfolding param_problem
    check_params path b [] e = e
    check_params path b (p ∷ ps) e =
        check_params path b ps
          (put_problem (path ++ ("params." ++ p.key)) (param_problem p (lookup p.key b.params)) e)

    -- The body of the loop for one binding with its driver.
    unfoldable pub check_binding :
        Option (HardwareCatalog N)
        → Option BoardModel
        → Side
        → List KeyedRow
        → ℕ
        → BindingDraft N
        → Option (DriverSpec N)
        → Fed
        → Fed
    unfolding check_driver check_roles check_params check_channels
    check_binding catalog model side rows i b spec f =
        let path = binding_path side i in
        let driver = check_driver catalog spec model side b.driver (path ++ "driver") f.errors in
        let roles = check_roles model path b.pins (pins_spec spec) driver in
        let params = check_params path b (params_spec spec) roles in
        let pull = check_pull model b path (pin_of "pin" b.pins) params in
        let chosen =
          put_if (no_channels side b) (path ++ "channels.value") HardwareProblem.no_actuator pull in
        let channels = channels_of spec b in
        check_channels side i rows b channels (record f {
          errors = chosen;
          warnings = warn_idle (idle_channel side channels b) path f.warnings;
        })
