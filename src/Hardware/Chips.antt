-- ===== src/Hardware/Chips.antt =====
-- What differs by chip: `CHIPS` and `BOARDS` of frontend/src/lib/firmware-sketch.ts and `CHIP_PINS` of
-- frontend/src/lib/hardware/board-pins.ts.
use iot_saas.Prelude.{ℕ, String, Bool, true, false, List, [], ◌∷◌}

pub data SketchBoard : Type 0 where
  esp32 esp32c3 esp32s3 esp32c6 esp32s2 : SketchBoard

pub record BoardSettings : Type 0 where
  pub label : String
  pub blurb : String
  pub ble : Bool
  pub arduino_board : String
  pub pio_board : String
  pub ide_settings : List String
  pub reset_pin : ℕ
  pub reset_button : String
  pub ble_handler : String
  pub inputs : List ℕ
  pub outputs : List ℕ

-- Which pins the firmware accepts on a chip, and for what.
pub record ChipPins : Type 0 where
  pub usable : List ℕ
  pub adc1 : List ℕ
  pub input_only : List ℕ

-- `a === b` on chips
abbrev pub same_chip : SketchBoard → SketchBoard → Bool
same_chip SketchBoard.esp32 SketchBoard.esp32 = true
same_chip SketchBoard.esp32c3 SketchBoard.esp32c3 = true
same_chip SketchBoard.esp32s3 SketchBoard.esp32s3 = true
same_chip SketchBoard.esp32c6 SketchBoard.esp32c6 = true
same_chip SketchBoard.esp32s2 SketchBoard.esp32s2 = true
same_chip _ _ = false

unfoldable pub chip_name : SketchBoard → String
chip_name SketchBoard.esp32 = "esp32"
chip_name SketchBoard.esp32c3 = "esp32c3"
chip_name SketchBoard.esp32s3 = "esp32s3"
chip_name SketchBoard.esp32c6 = "esp32c6"
chip_name SketchBoard.esp32s2 = "esp32s2"

unfoldable pub boards : SketchBoard → BoardSettings
boards SketchBoard.esp32 = record {
  label = "ESP32 DevKit";
  blurb = "Classic ESP32, 30/38-pin dev boards.";
  ble = true;
  arduino_board = "ESP32 Dev Module";
  pio_board = "esp32dev";
  ide_settings = [];
  reset_pin = 19;
  reset_button = "the button on GPIO 19 (wired to GND)";
  ble_handler = "NETWORK_PROV_SCHEME_HANDLER_FREE_BTDM";
  inputs = 4 ∷ 13 ∷ 14 ∷ 16 ∷ 17 ∷ 18 ∷ [];
  outputs = 23 ∷ 27 ∷ 26 ∷ 25 ∷ 33 ∷ 32 ∷ 21 ∷ 22 ∷ [];
}
boards SketchBoard.esp32c3 = record {
  label = "ESP32-C3";
  blurb = "ESP32-C3 DevKitM, Super Mini and similar.";
  ble = true;
  arduino_board = "ESP32C3 Dev Module";
  pio_board = "esp32-c3-devkitm-1";
  ide_settings = "USB CDC On Boot: Enabled" ∷ "Flash Mode: DIO" ∷ [];
  reset_pin = 9;
  reset_button = "BOOT";
  ble_handler = "NETWORK_PROV_SCHEME_HANDLER_FREE_BLE";
  inputs = 4 ∷ 5 ∷ 6 ∷ 7 ∷ 10 ∷ [];
  outputs = 3 ∷ 1 ∷ 0 ∷ 20 ∷ 21 ∷ [];
}
boards SketchBoard.esp32s3 = record {
  label = "ESP32-S3";
  blurb = "ESP32-S3 DevKitC-1 and similar.";
  ble = true;
  arduino_board = "ESP32S3 Dev Module";
  pio_board = "esp32-s3-devkitc-1";
  ide_settings = [];
  reset_pin = 0;
  reset_button = "BOOT";
  ble_handler = "NETWORK_PROV_SCHEME_HANDLER_FREE_BLE";
  inputs = 4 ∷ 5 ∷ 6 ∷ 7 ∷ 15 ∷ 16 ∷ 17 ∷ 18 ∷ [];
  outputs = 10 ∷ 11 ∷ 12 ∷ 13 ∷ 14 ∷ 21 ∷ 47 ∷ 8 ∷ 9 ∷ [];
}
boards SketchBoard.esp32c6 = record {
  label = "ESP32-C6";
  blurb = "ESP32-C6 DevKitC-1 and similar.";
  ble = true;
  arduino_board = "ESP32C6 Dev Module";
  pio_board = "esp32-c6-devkitc-1";
  ide_settings = [];
  reset_pin = 9;
  reset_button = "BOOT";
  ble_handler = "NETWORK_PROV_SCHEME_HANDLER_FREE_BLE";
  inputs = 2 ∷ 3 ∷ 6 ∷ 7 ∷ 10 ∷ 11 ∷ [];
  outputs = 18 ∷ 19 ∷ 20 ∷ 21 ∷ 14 ∷ 0 ∷ 1 ∷ 23 ∷ 22 ∷ [];
}
boards SketchBoard.esp32s2 = record {
  label = "ESP32-S2";
  blurb = "Lolin S2 Mini and similar. No Bluetooth: Wi-Fi typed in.";
  ble = false;
  arduino_board = "LOLIN S2 Mini";
  pio_board = "lolin_s2_mini";
  ide_settings = "USB CDC On Boot: Enabled" ∷ [];
  reset_pin = 0;
  reset_button = "the 0 (BOOT) button";
  ble_handler = "";
  inputs = 3 ∷ 4 ∷ 5 ∷ 6 ∷ 7 ∷ 8 ∷ 9 ∷ 10 ∷ [];
  outputs = 11 ∷ 12 ∷ 13 ∷ 14 ∷ 16 ∷ 17 ∷ 18 ∷ 21 ∷ 33 ∷ 35 ∷ [];
}

unfoldable pub chip_pins : SketchBoard → ChipPins
chip_pins SketchBoard.esp32 = record {
  usable =
      4 ∷ 13 ∷ 14 ∷ 16 ∷ 17 ∷ 18 ∷ 21 ∷ 22 ∷ 23 ∷ 25 ∷ 26 ∷ 27 ∷ 32 ∷ 33 ∷ 34 ∷ 35 ∷ 36 ∷ 39 ∷ [];
  adc1 = 32 ∷ 33 ∷ 34 ∷ 35 ∷ 36 ∷ 39 ∷ [];
  input_only = 34 ∷ 35 ∷ 36 ∷ 39 ∷ [];
}
chip_pins SketchBoard.esp32c3 = record {
  usable = 0 ∷ 1 ∷ 3 ∷ 4 ∷ 5 ∷ 6 ∷ 7 ∷ 10 ∷ 20 ∷ 21 ∷ [];
  adc1 = 0 ∷ 1 ∷ 3 ∷ 4 ∷ [];
  input_only = [];
}
chip_pins SketchBoard.esp32s3 = record {
  usable =
      1 ∷ 2 ∷ 4 ∷ 5 ∷ 6 ∷ 7 ∷ 8 ∷ 9 ∷ 10 ∷ 11 ∷ 12 ∷ 13 ∷ 14 ∷ 15 ∷ 16 ∷ 17 ∷ 18 ∷ 21 ∷ 38 ∷ 39 ∷ 40
      ∷ 41 ∷ 42 ∷ 47 ∷ 48 ∷ [];
  adc1 = 1 ∷ 2 ∷ 4 ∷ 5 ∷ 6 ∷ 7 ∷ 8 ∷ 9 ∷ 10 ∷ [];
  input_only = [];
}
chip_pins SketchBoard.esp32c6 = record {
  usable = 0 ∷ 1 ∷ 2 ∷ 3 ∷ 6 ∷ 7 ∷ 10 ∷ 11 ∷ 14 ∷ 18 ∷ 19 ∷ 20 ∷ 21 ∷ 22 ∷ 23 ∷ [];
  adc1 = 0 ∷ 1 ∷ 2 ∷ 3 ∷ 6 ∷ [];
  input_only = [];
}
chip_pins SketchBoard.esp32s2 = record {
  usable =
      1 ∷ 2 ∷ 3 ∷ 4 ∷ 5 ∷ 6 ∷ 7 ∷ 8 ∷ 9 ∷ 10 ∷ 11 ∷ 12 ∷ 13 ∷ 14 ∷ 16 ∷ 17 ∷ 18 ∷ 21 ∷ 33 ∷ 34 ∷ 35
      ∷ 36 ∷ 37 ∷ 38 ∷ 39 ∷ 40 ∷ 41 ∷ 42 ∷ [];
  adc1 = 1 ∷ 2 ∷ 3 ∷ 4 ∷ 5 ∷ 6 ∷ 7 ∷ 8 ∷ 9 ∷ 10 ∷ [];
  input_only = [];
}
