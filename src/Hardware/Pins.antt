-- ===== src/Hardware/Pins.antt =====
-- Which GPIOs a role may take on a board (frontend/src/lib/hardware/board-pins.ts). A problem is a value
-- with what its message names.
use iot_saas.Prelude.{
  mem, ◌∙◌, ℕ, String, Bool, true, false, not, ◌&&◌, ◌||◌, ◌≡◌, refl, ◌↔◌, Option, none, some, List,
  [], ◌∷◌, ◌++◌, ◌==◌, ==_iff, any-append, keep, find, or_else, str_eq, if◌then◌else◌, Bool-cases,
  inl, inr, arith, sym, ap,
}
use iot_saas.Hardware.Chips.{chip_name, SketchBoard, boards, chip_pins}

-- What a role needs of its pin.
pub data PinNeed : Type 0 where
  input output adc1 bus : PinNeed

pub record I2cPins : Type 0 where
  pub sda : ℕ
  pub scl : ℕ

pub data BoardCapability : Type 0 where
  ble rgb_led : BoardCapability

pub data LedType : Type 0 where
  gpio rgb no_led : LedType

pub record StatusLed : Type 0 where
  pub type : Option LedType
  pub pin : ℕ
  pub active_low : Bool

pub record ResetButton : Type 0 where
  pub pin : ℕ
  pub label : String

pub record BoardModel : Type 0 where
  pub id : String
  pub chip : SketchBoard
  pub label : String
  pub description : String
  pub pins : List ℕ
  pub pin_labels : Option (List (String × String))
  pub i2c : Option I2cPins
  pub reset : ResetButton
  pub led : StatusLed
  pub capabilities : Option (List BoardCapability)
  pub notes : Option (List String)

-- `pins.includes(p)`

-- The first model with this id, else the first of the chip that the id names.
unfoldable pub resolve_model : List BoardModel → String → Option BoardModel
resolve_model models id =
    or_else (find (λ m. str_eq m.id id) models) (find (λ m. str_eq (chip_name m.chip) id) models)

abbrev for_output : PinNeed → Bool
for_output PinNeed.output = true
for_output PinNeed.bus = true
for_output _ = false

abbrev for_analog : PinNeed → Bool
for_analog PinNeed.adc1 = true
for_analog _ = false

abbrev usable_pins : BoardModel → List ℕ
usable_pins model = keep (λ p. mem p (chip_pins model.chip).usable) model.pins

unfoldable pub pins_for : BoardModel → PinNeed → List ℕ
pins_for model needs =
    if for_analog needs
    then keep (λ p. mem p (chip_pins model.chip).adc1) (usable_pins model)
    else if for_output needs
    then keep (λ p. not (mem p (chip_pins model.chip).input_only)) (usable_pins model)
    else usable_pins model

unfoldable pub pool_for : BoardModel → PinNeed → List ℕ
pool_for model PinNeed.output = (boards model.chip).outputs
pool_for model PinNeed.bus = (boards model.chip).outputs
pool_for model PinNeed.input = (boards model.chip).inputs
pool_for model PinNeed.adc1 = []

unfoldable pub preferred_pins : BoardModel → PinNeed → List ℕ
preferred_pins model needs =
    let allowed = pins_for model needs in
    let pool = pool_for model needs in
    keep (λ p. mem p allowed) pool ++ keep (λ p. not (mem p pool)) allowed

-- The messages: the pin is not free on the board, cannot read analog, is input-only.
pub data PinProblem : Type 0 where
  not_free : ℕ → String → PinProblem
  not_analog : ℕ → PinProblem
  input_only : ℕ → PinProblem

unfoldable pub pin_problem : BoardModel → PinNeed → ℕ → Option PinProblem
pin_problem model needs pin =
    if not (mem pin model.pins) || not (mem pin (chip_pins model.chip).usable)
    then some (not_free pin model.label)
    else if for_analog needs && not (mem pin (chip_pins model.chip).adc1)
    then some (not_analog pin)
    else if for_output needs && mem pin (chip_pins model.chip).input_only
    then some (input_only pin)
    else none

unfoldable pub has_internal_pull : SketchBoard → ℕ → Bool
has_internal_pull chip pin = not (mem pin (chip_pins chip).input_only)

pub mem-keep : (f : ℕ → Bool) (p : ℕ) (xs : List ℕ) → mem p (keep f xs) ≡ (mem p xs && f p)
mem-keep f p [] = refl
mem-keep f p (x ∷ xs) =
    let rest = mem-keep f p xs in
    elim (Bool-cases (f x)) [
      | inl k ↦ elim (Bool-cases (x == p)) [
        | inl e ↦ rw (k, e, sym (ap f ((==_iff x p).0 e)) ∙ k)
        | inr e ↦ rw (k, e, rest)
      ]
      | inr k ↦ elim (Bool-cases (x == p)) [
        | inl e ↦ rw (k, rest, e, sym (ap f ((==_iff x p).0 e)) ∙ k) (ground arith)
        | inr e ↦ rw (k, e, rest)
      ]
    ]

-- `pinProblem` finds nothing wrong with exactly the pins that `pinsFor` offers, on every board and for
-- every need.
pub pin_problem-pins_for :
    (model : BoardModel) (needs : PinNeed) (pin : ℕ)
    → (pin_problem model needs pin ≡ none) ↔ (mem pin (pins_for model needs) ≡ true)
unfolding pin_problem pins_for
pin_problem-pins_for model PinNeed.input pin = simp mem-keep (ground arith)
pin_problem-pins_for model PinNeed.output pin = simp mem-keep (ground arith)
pin_problem-pins_for model PinNeed.adc1 pin = simp mem-keep (ground arith)
pin_problem-pins_for model PinNeed.bus pin = simp mem-keep (ground arith)

-- `preferredPins` offers exactly the pins of `pinsFor`, whatever the pools of the chip hold.
pub mem-preferred_pins :
    (model : BoardModel) (needs : PinNeed) (pin : ℕ)
    → mem pin (preferred_pins model needs) ≡ mem pin (pins_for model needs)
unfolding preferred_pins
mem-preferred_pins model needs pin = simp (any-append, mem-keep) (ground arith)
