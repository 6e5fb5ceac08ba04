-- ===== src/Hardware/Catalog.antt =====
-- The driver catalog of a firmware release (frontend/src/lib/hardware/driver-catalog.ts).
use iot_saas.Prelude.{
  if◌then◌else◌, String, Bool, true, false, Option, none, some, List, [], ◌∷◌, any, keep, find,
  str_eq,
}
use iot_saas.Hardware.Chips.{SketchBoard, same_chip, chip_name, boards, chip_pins}
use iot_saas.Hardware.Pins.{gpio, PinNeed, BoardModel, BoardCapability, ble, rgb_led}

pub record DriverPinSpec : Type 0 where
  pub role : String
  pub label : String
  pub needs : PinNeed

pub data ParamType : Type 0 where
  int float bool enum : ParamType

-- number | boolean | string
pub data ParamValue (N : Type 0) : Type 0 where
  number : N → ParamValue N
  switch : Bool → ParamValue N
  text : String → ParamValue N

pub record DriverParamSpec (N : Type 0) : Type 0 where
  pub key : String
  pub label : String
  pub type : ParamType
  pub default : ParamValue N
  pub min : Option N
  pub max : Option N
  pub options : Option (List String)

pub data ValueType : Type 0 where
  float bool string : ValueType

pub record DriverChannelSpec : Type 0 where
  pub key : String
  pub label : String
  pub data_type : Option ValueType
  pub value_type : Option ValueType
  pub common : Option Bool

pub data DriverKind : Type 0 where
  input output : DriverKind

-- `on_i2c` is `bus === "i2c"`.
pub record DriverSpec (N : Type 0) : Type 0 where
  pub id : String
  pub kind : DriverKind
  pub label : String
  pub description : String
  pub pins : List DriverPinSpec
  pub params : List (DriverParamSpec N)
  pub channels : List DriverChannelSpec
  pub wiring : List String
  pub on_i2c : Bool
  pub addresses : Option (List String)
  pub chips : Option (List SketchBoard)

pub record HardwareCatalog (N : Type 0) : Type 0 where
  pub drivers : List (DriverSpec N)
  pub models : List BoardModel

-- The part of a release that says what it holds: its models, or the chips of its builds.
pub record Release : Type 0 where
  pub models : Option (List BoardModel)
  pub boards : List String

abbrev carries : Option (List SketchBoard) → SketchBoard → Bool
carries none chip = true
carries (some chips) chip = any (λ c. same_chip c chip) chips

module _ {N : Type 0} where
  unfoldable pub runs_on : DriverSpec N → Option BoardModel → Bool
  runs_on spec none = true
  runs_on spec (some model) = carries spec.chips model.chip

  unfoldable pub drivers_for : List (DriverSpec N) → Option BoardModel → List (DriverSpec N)
  drivers_for drivers model = keep (λ d. runs_on d model) drivers

  unfoldable pub find_driver : List (DriverSpec N) → String → Option (DriverSpec N)
  find_driver drivers id = find (λ d. str_eq d.id id) drivers

abbrev same_capability : BoardCapability → BoardCapability → Bool
same_capability ble ble = true
same_capability rgb_led rgb_led = true
same_capability _ _ = false

abbrev given_capabilities : Option (List BoardCapability) → List BoardCapability
given_capabilities none = ble ∷ []
given_capabilities (some cs) = cs

unfoldable pub has_capability : BoardModel → BoardCapability → Bool
has_capability model capability =
    any (λ c. same_capability c capability) (given_capabilities model.capabilities)

abbrev all_chips : List SketchBoard
all_chips =
    SketchBoard.esp32 ∷ SketchBoard.esp32c3 ∷ SketchBoard.esp32s3 ∷ SketchBoard.esp32c6
    ∷ SketchBoard.esp32s2 ∷ []

-- `legacyModels` of one chip
unfoldable pub legacy_model : SketchBoard → BoardModel
legacy_model chip = record {
  id = chip_name chip;
  chip = chip;
  label = (boards chip).label;
  description = "";
  pins = (chip_pins chip).usable;
  pin_labels = none;
  i2c = none;
  reset = record { pin = (boards chip).reset_pin; label = (boards chip).reset_button };
  led = record {
    type = some gpio;
    pin = if same_chip chip SketchBoard.esp32c3 then 8 else 2;
    active_low = same_chip chip SketchBoard.esp32c3;
  };
  capabilities = some (ble ∷ []);
  notes = none;
}

unfoldable pub legacy_models : List String → List BoardModel
unfolding legacy_model
legacy_models [] = []
legacy_models (name ∷ names) =
    let rest = legacy_models names in
    elim (find (λ c. str_eq (chip_name c) name) all_chips) [
      | none ↦ rest
      | some chip ↦ legacy_model chip ∷ rest
    ]

abbrev models_or : Option (List BoardModel) → List BoardModel → List BoardModel
models_or (some models) legacy = models
models_or none legacy = legacy

unfoldable pub board_models : Release → List BoardModel
board_models release = models_or release.models (legacy_models release.boards)
