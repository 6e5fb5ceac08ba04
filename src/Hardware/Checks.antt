-- ===== src/Hardware/Checks.antt =====
-- The validation of the wiring: `validateHardware` (frontend/src/lib/hardware/hardware-draft.ts). Its
-- texts are values of HardwareProblem and HardwareWarning; the paths of the fields are texts.
pub mod Wiring
pub mod Channels
pub mod Binding
pub mod Whole
pub mod Pins
pub mod Safe
pub mod Accepted
use Prim.Native.String.{◌++◌}
use iot_saas.Prelude.{ℕ, suc, String, Bool, true, false, Option, none, some, List, if◌then◌else◌}
use iot_saas.Prelude.Digits.{decimal}
use iot_saas.Live.Maps.{store, has}
use iot_saas.Hardware.Pins.{PinProblem}
use iot_saas.Hardware.Catalog.{DriverKind}
use iot_saas.Hardware.Draft.{Side, inputs, outputs, Slot, sda, scl, role}

pub data HardwareProblem : Type 0 where
  no_board : String → HardwareProblem
  also_used : ℕ → Slot → HardwareProblem
  no_bus : HardwareProblem
  unsuitable : PinProblem → HardwareProblem
  address_used : String → Side → ℕ → HardwareProblem
  no_driver : String → HardwareProblem
  wrong_kind : String → DriverKind → HardwareProblem
  not_in_firmware : String → String → HardwareProblem
  no_pin : HardwareProblem
  no_number : HardwareProblem
  no_whole_number : HardwareProblem
  out_of_range : HardwareProblem
  no_option : HardwareProblem
  no_pull : ℕ → HardwareProblem
  no_actuator : HardwareProblem
  missing_key : String → Side → HardwareProblem
  row_removed : Side → HardwareProblem
  row_taken : String → Side → ℕ → HardwareProblem

pub data HardwareWarning : Type 0 where
  feeds_nothing : HardwareWarning
  reads_switch : String → HardwareWarning
  other_type : String → HardwareWarning

-- Record<string, string>
abbrev pub Errors : Type 0
Errors = List (String × HardwareProblem)

abbrev pub Warnings : Type 0
Warnings = List (String × HardwareWarning)

-- `if (test) errors[path] = problem`
abbrev pub put_if : {A : Type 0} → Bool → String → A → List (String × A) → List (String × A)
put_if b path problem e = if b then store path problem e else e

-- `if (problem && !errors[path]) errors[path] = problem`
abbrev pub put_new : String → Option PinProblem → Errors → Errors
put_new path none e = e
put_new path (some problem) e =
    if has path e then e else store path (HardwareProblem.unsuitable problem) e

abbrev pub side_name : Side → String
side_name inputs = "inputs"
side_name outputs = "outputs"

-- `hardware.${kind}.${i}.`
abbrev pub binding_path : Side → ℕ → String
binding_path side i = "hardware." ++ (side_name side ++ ("." ++ (decimal i ++ ".")))

abbrev pub slot_path : Slot → String
slot_path sda = "hardware.i2c.sda"
slot_path scl = "hardware.i2c.scl"
slot_path (role side i r) = binding_path side i ++ ("pins." ++ r)
