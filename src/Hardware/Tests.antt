-- ===== src/Hardware/Tests.antt =====
-- The wiring operations run on a concrete board.
use iot_saas.Samples.{naturals}
use iot_saas.Hardware.Saving.{Rows}
use iot_saas.Hardware.Chips.{chip_pins, esp32}
use iot_saas.Hardware.Catalog.{find_driver, runs_on}
use iot_saas.Hardware.Draft.{uses_i2c, used_pins}
use iot_saas.Hardware.Checks.Whole.{validate_hardware}
use iot_saas.Hardware.Checks.Accepted.{validate_hardware-IsSafe}
use iot_saas.Hardware.Checks.Accepted as Accepted
use iot_saas.Prelude.{mem, ℕ, ◌≡◌, ◌↔◌, refl, true, false, none, some, [], ◌∷◌, All, List}
use iot_saas.Hardware.Pins.{
  PinNeed, BoardModel, pins_for, pin_problem, resolve_model, pin_problem-pins_for,
}
use iot_saas.Hardware.Catalog.{DriverSpec, DriverKind, HardwareCatalog}
use iot_saas.Hardware.Draft.{HardwareDraft, Side, blank_binding, taken_pins}
use iot_saas.Hardware.Draft.Bus.{Suit, Distinct, pin_values, blank_binding_sound}
use iot_saas.Hardware.Moving.{is_placed, Wanted, Placing, place_roles}
use iot_saas.Hardware.Moving.Placed.{IsSound, place_roles_lem}

abbrev dev_kit : BoardModel
dev_kit = record {
  id = "esp32-devkit-30";
  chip = esp32;
  label = "ESP32 DevKit";
  description = "";
  pins = 4 ∷ 13 ∷ 21 ∷ 22 ∷ 34 ∷ [];
  pin_labels = none;
  reset = record { pin = 19; label = "the button on GPIO 19" };
  led = record { type = none; pin = 2; active_low = false };
  notes = none;
  i2c = some (record { sda = 21; scl = 22 });
  capabilities = none;
}

abbrev relay : DriverSpec ℕ
relay = record {
  id = "relay";
  kind = DriverKind.output;
  label = "Relay";
  description = "";
  pins = record { role = "pin"; label = "Pin"; needs = PinNeed.output } ∷ [];
  params = [];
  channels = [];
  wiring = [];
  on_i2c = false;
  addresses = none;
  chips = none;
}

abbrev sensor : DriverSpec ℕ
sensor = record relay { id = "sensor"; kind = DriverKind.input; pins = []; on_i2c = true }

abbrev catalog : HardwareCatalog ℕ
catalog = record { drivers = relay ∷ sensor ∷ []; models = dev_kit ∷ [] }

abbrev wiring : HardwareDraft ℕ
wiring = record {
  board = "esp32-devkit-30";
  i2c = none;
  inputs =
      record {
        uid = "b1";
        driver = "sensor";
        pins = [];
        params = [];
        channels = [];
        proposed = none;
      }
      ∷ [];
  outputs =
      record {
        uid = "b2";
        driver = "relay";
        pins = ("pin", some 4) ∷ [];
        params = [];
        channels = [];
        proposed = none;
      }
      ∷ [];
}

abbrev two_relays : List Wanted
two_relays =
    record {
      side = Side.outputs;
      place = 0;
      role_name = "pin";
      pin = some 34;
      needs = PinNeed.output;
    }
    ∷ record {
      side = Side.outputs;
      place = 1;
      role_name = "pin";
      pin = some 4;
      needs = PinNeed.output;
    }
    ∷ []

found_board : resolve_model catalog.models wiring.board ≡ some dev_kit
unfolding resolve_model
found_board = refl

pin_problem-pins_for_example :
    (pin_problem dev_kit PinNeed.output 34 ≡ none)
    ↔ (mem 34 (pins_for dev_kit PinNeed.output) ≡ true)
pin_problem-pins_for_example = pin_problem-pins_for dev_kit PinNeed.output 34

blank_binding_sound_example :
    Suit dev_kit relay.pins (blank_binding "b3" relay wiring catalog).pins
    × All
        (λ p. mem p (taken_pins wiring) ≡ false)
        (pin_values (blank_binding "b3" relay wiring catalog).pins)
    × Distinct (pin_values (blank_binding "b3" relay wiring catalog).pins)
blank_binding_sound_example = blank_binding_sound "b3" relay wiring catalog dev_kit found_board

abbrev on_other_board : Placing
on_other_board =
    place_roles dev_kit two_relays (record { taken = 21 ∷ 22 ∷ []; placed = []; moved = [] })

place_roles_lem_example :
    IsSound dev_kit (21 ∷ 22 ∷ []) on_other_board
    × All (λ r. is_placed r on_other_board.placed ≡ true) two_relays
place_roles_lem_example = place_roles_lem dev_kit (21 ∷ 22 ∷ []) two_relays []

abbrev accepted : HardwareDraft ℕ
accepted = record wiring {
  i2c = some (record { sda = 21; scl = 22 });
  outputs =
      record {
        uid = "b2";
        driver = "relay";
        pins = ("pin", some 4) ∷ [];
        params = [];
        channels = ("value", "row") ∷ [];
        proposed = none;
      }
      ∷ [];
}

abbrev no_rows : Rows
no_rows = record { metrics = []; actuators = [] }

accepted_errors :
    (validate_hardware naturals (λ n. true) (λ n. true) (some accepted) no_rows (some catalog)).0
    ≡ []
unfolding validate_hardware find_driver resolve_model pin_problem chip_pins runs_on uses_i2c
    used_pins
accepted_errors = refl

validate_hardware-IsSafe_example :
    Accepted.IsSafe naturals (λ n. true) (λ n. true) (some catalog) accepted
validate_hardware-IsSafe_example =
    validate_hardware-IsSafe naturals (λ n. true) (λ n. true) accepted no_rows (some catalog)
      accepted_errors
