-- ===== src/Hardware/Draft/Sync.antt =====
-- What `syncI2c` reaches (frontend/src/lib/hardware/hardware-draft.ts).
use iot_saas.Prelude.{
  keep, length, ◌≤◌, ◌⊎◌, mem, ℕ, true, false, not, ◌≡◌, Option, none, some, List,
}
use iot_saas.Hardware.Pins.{BoardModel, resolve_model, preferred_pins, pin_problem, PinNeed}
use iot_saas.Hardware.Catalog.{HardwareCatalog}
use iot_saas.Hardware.Draft.{I2cPins, HardwareDraft, uses_i2c, new_lines, taken_pins}

abbrev pub with_lines : {N : Type 0} → HardwareDraft N → Option I2cPins → HardwareDraft N
with_lines h b = record h { i2c = b }

module _ {N : Type 0} (catalog : HardwareCatalog N) where
  abbrev lines_for : HardwareDraft N → Option I2cPins
  lines_for h = new_lines h (resolve_model catalog.models h.board)

abbrev pub IsFree : List ℕ → I2cPins → Type 0
IsFree taken b = (mem b.sda taken ≡ false) × (mem b.scl taken ≡ false)

-- The board has no lines of its own, or one of them is taken.
abbrev pub OwnTaken : List ℕ → Option I2cPins → Type 0
OwnTaken taken own =
    (own ≡ none)
    ⊎ ((b : I2cPins) × (own ≡ some b) × ((mem b.sda taken ≡ true) ⊎ (mem b.scl taken ≡ true)))

-- The free pins for a bus, the preferred ones first.
abbrev pub free_bus_pins : BoardModel → List ℕ → List ℕ
free_bus_pins model taken = keep (λ p. not (mem p taken)) (preferred_pins model PinNeed.bus)

-- The lines of a new bus on a board where pins are taken: the board's own where both are free, else two
-- free pins that suit a bus, else none.
pub data IsNewBus (model : BoardModel) (taken : List ℕ) : Option I2cPins → Type 0 where
  own : (b : I2cPins) → model.i2c ≡ some b → IsFree taken b → IsNewBus model taken (some b)
  other :
      (b : I2cPins)
      → OwnTaken taken model.i2c
      → IsFree taken b
      → pin_problem model PinNeed.bus b.sda ≡ none
      → pin_problem model PinNeed.bus b.scl ≡ none
      → IsNewBus model taken (some b)
  too_few :
      OwnTaken taken model.i2c → length (free_bus_pins model taken) ≤ 1 → IsNewBus model taken none

-- The bus of a draft that was kept in step.
pub data IsBus {N : Type 0} (catalog : HardwareCatalog N) (h : HardwareDraft N)
    : Option I2cPins → Type 0 where
  unused : uses_i2c h catalog.drivers ≡ false → IsBus catalog h none
  kept : (b : I2cPins) → uses_i2c h catalog.drivers ≡ true → h.i2c ≡ some b → IsBus catalog h h.i2c
  no_board :
      uses_i2c h catalog.drivers ≡ true
      → h.i2c ≡ none
      → resolve_model catalog.models h.board ≡ none
      → IsBus catalog h none
  chosen :
      (model : BoardModel) (b : Option I2cPins)
      → uses_i2c h catalog.drivers ≡ true
      → h.i2c ≡ none
      → resolve_model catalog.models h.board ≡ some model
      → IsNewBus model (taken_pins h) b
      → IsBus catalog h b
