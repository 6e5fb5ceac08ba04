-- ===== src/Hardware/Draft/Bus.antt =====
-- What `blankBinding` reaches.
use iot_saas.Prelude.{
  mem, Option-cases, ℕ, String, true, false, not, ◌≡◌, refl, sym, ◌∙◌, Option, none, some, List, [],
  ◌∷◌, find, arith, All, Bool-cases, inl, inr,
}
use iot_saas.Hardware.Pins.{
  BoardModel, resolve_model, preferred_pins, pin_problem, pin_problem-pins_for, mem-preferred_pins,
  PinNeed,
}
use iot_saas.Hardware.Catalog.{DriverPinSpec, DriverSpec, HardwareCatalog}
use iot_saas.Hardware.Draft.{
  prepend_some, HardwareDraft, first_free, pick_pins, blank_binding, taken_pins,
}

-- The pins of a list of roles that have one.
abbrev pub pin_values : List (String × Option ℕ) → List ℕ
pin_values [] = []
pin_values ((r, pin) ∷ pins) = prepend_some pin (pin_values pins)

abbrev pub Distinct : List ℕ → Type 0
Distinct [] = Unit
Distinct (p ∷ ps) = (mem p ps ≡ false) × Distinct ps

-- Each role with a pin has one that suits its need on the board.
abbrev pub Suit : BoardModel → List DriverPinSpec → List (String × Option ℕ) → Type 0
Suit model (s ∷ ss) ((r, some p) ∷ ps) = (pin_problem model s.needs p ≡ none) × Suit model ss ps
Suit model (s ∷ ss) ((r, none) ∷ ps) = Suit model ss ps
Suit model _ _ = Unit

find_free :
    (taken xs : List ℕ) (p : ℕ)
    → find (λ n. not (mem n taken)) xs ≡ some p
    → (mem p xs ≡ true) × (mem p taken ≡ false)
find_free taken [] p h = ground arith
find_free taken (x ∷ xs) p h = elim (Bool-cases (mem x taken)) [
  | inl e ↦ ground (arith, find_free taken xs p, rw e at h)
  | inr e ↦ ground (arith, rw e at h)
]

pub first_free_fits :
    (model : BoardModel) (needs : PinNeed) (taken : List ℕ) (p : ℕ)
    → first_free (some model) needs taken ≡ some p
    → (pin_problem model needs p ≡ none) × (mem p taken ≡ false)
unfolding first_free
first_free_fits model needs taken p h =
    let (m, f) = find_free taken (preferred_pins model needs) p h in
    ((pin_problem-pins_for model needs p).1 (sym (mem-preferred_pins model needs p) ∙ m), f)

-- Pins that are free beside one more taken pin are other pins than that one.
pub still_free :
    (p : ℕ) (taken vs : List ℕ)
    → All (λ q. mem q (p ∷ taken) ≡ false) vs
    → All (λ q. mem q taken ≡ false) vs × (mem p vs ≡ false)
still_free p taken [] h = (tt, refl)
still_free p taken (v ∷ vs) (h, hs) =
    let (rest, absent) = still_free p taken vs hs in ((ground arith, rest), ground arith)

module _ (model : BoardModel) where
  pick_pins-Suit :
      (specs : List DriverPinSpec) (taken : List ℕ)
      → Suit model specs (pick_pins (some model) specs taken)
  unfolding pick_pins
  pick_pins-Suit [] taken = tt
  pick_pins-Suit (s ∷ ss) taken = elim (Option-cases (first_free (some model) s.needs taken)) [
    | inl e ↦ rw e (pick_pins-Suit ss taken)
    | inr (p, e) ↦ rw e ((first_free_fits model s.needs taken p e).0, pick_pins-Suit ss (p ∷ taken))
  ]

  pick_pins_apart :
      (specs : List DriverPinSpec) (taken : List ℕ)
      → All (λ p. mem p taken ≡ false) (pin_values (pick_pins (some model) specs taken))
        × Distinct (pin_values (pick_pins (some model) specs taken))
  unfolding pick_pins
  pick_pins_apart [] taken = (tt, tt)
  pick_pins_apart (s ∷ ss) taken = elim (Option-cases (first_free (some model) s.needs taken)) [
    | inl e ↦ rw e (pick_pins_apart ss taken)
    | inr (p, e) ↦
        let (free, apart) = pick_pins_apart ss (p ∷ taken) in
        let (others, absent) =
          still_free p taken (pin_values (pick_pins (some model) ss (p ∷ taken))) free in
        rw e (((first_free_fits model s.needs taken p e).1, others), (absent, apart))
  ]

-- A new binding on a known board takes only pins that nothing uses, each once, and each suits the
-- need of its role.
pub blank_binding_sound :
    {N : Type 0} (uid : String) (spec : DriverSpec N) (h : HardwareDraft N)
    (catalog : HardwareCatalog N) (model : BoardModel)
    → resolve_model catalog.models h.board ≡ some model
    → Suit model spec.pins (blank_binding uid spec h catalog).pins
      × All (λ p. mem p (taken_pins h) ≡ false) (pin_values (blank_binding uid spec h catalog).pins)
      × Distinct (pin_values (blank_binding uid spec h catalog).pins)
unfolding blank_binding
blank_binding_sound uid spec h catalog model e =
    let (free, apart) = pick_pins_apart model spec.pins (taken_pins h) in
    rw e (pick_pins-Suit model spec.pins (taken_pins h), free, apart)
