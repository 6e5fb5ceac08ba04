-- ===== src/Hardware/Checks/Pins.antt =====
-- Pins and buses without errors.
use iot_saas.Prelude.{
  ◌≤◌, ℕ, String, Bool, true, false, ◌≡◌, refl, ap, Option, none, some, List, [], ◌∷◌, map, mem,
  ◌==◌, str_eq, if_both, arith, Bool-cases, inl, inr, length,
}
use iot_saas.Live.Maps.{store, has}
use iot_saas.Schedule.Sets.{HasNoRepeat}
use iot_saas.Hardware.Pins.{BoardModel, I2cPins, PinNeed, PinProblem, pin_problem}
use iot_saas.Hardware.Draft.{Slot, UsedPin}
use iot_saas.Hardware.Checks.{Errors, HardwareProblem, put_if, put_new, slot_path}
use iot_saas.Hardware.Checks.Wiring.{put_owner, see_pin, check_pins, check_lines, owner_of}

length-store : {A : Type 0} (k : String) (v : A) (m : List (String × A)) → 1 ≤ length (store k v m)
length-store k v [] = omega arith
length-store k v ((j, w) ∷ m) =
    if_both (λ o. 1 ≤ length o) (str_eq j k) ((j, v) ∷ m) ((j, w) ∷ store k v m) (λ e. omega arith)
      (λ e. omega arith)

pub no_store : {A P : Type 0} (k : String) (v : A) (m : List (String × A)) → store k v m ≡ [] → P
no_store k v m h = absurd (omega (arith, length-store k v m, ap length h))

pub put_if-empty :
    {A : Type 0} (b : Bool) (path : String) (problem : A) (e : List (String × A))
    → put_if b path problem e ≡ []
    → (b ≡ false) × (e ≡ [])
put_if-empty true path problem e h = no_store path problem e h
put_if-empty false path problem e h = (refl, h)

pub put_new-empty :
    (path : String) (o : Option PinProblem) (e : Errors)
    → put_new path o e ≡ []
    → (o ≡ none) × (e ≡ [])
put_new-empty path none e h = (refl, h)
put_new-empty path (some problem) [] h = no_store path (HardwareProblem.unsuitable problem) [] h
put_new-empty path (some problem) (x ∷ e) h =
    if_both (λ o. o ≡ [] → (some problem ≡ none) × (x ∷ e ≡ [])) (has path (x ∷ e)) (x ∷ e)
      (store path (HardwareProblem.unsuitable problem) (x ∷ e))
      (λ k q. absurd (omega (arith, ap length q)))
      (λ k q. no_store path (HardwareProblem.unsuitable problem) (x ∷ e) q) h

-- No pin is met that was met before.
abbrev pub AreNew : List UsedPin → List (ℕ × Slot) → Type 0
AreNew [] seen = Unit
AreNew (u ∷ us) seen = (owner_of u.pin seen ≡ none) × AreNew us ((u.pin, u.slot) ∷ seen)

put_owner-empty :
    (o : Option Slot) (u : UsedPin) (e : Errors) → put_owner o u e ≡ [] → (o ≡ none) × (e ≡ [])
put_owner-empty none u e h = (refl, h)
put_owner-empty (some other) u e h =
    no_store (slot_path u.slot) (HardwareProblem.also_used u.pin other) e h

pub check_pins-empty :
    (us : List UsedPin) (seen : List (ℕ × Slot)) (e : Errors)
    → check_pins us seen e ≡ []
    → AreNew us seen × (e ≡ [])
unfolding check_pins
check_pins-empty [] seen e h = (tt, h)
check_pins-empty (u ∷ us) seen e h =
    let o = owner_of u.pin seen in
    let (a, b) = check_pins-empty us (see_pin o u seen) (put_owner o u e) h in
    let (k, c) = put_owner-empty o u e b in ((k, rw k at a), c)

seen_pins : List (ℕ × Slot) → List ℕ
seen_pins [] = []
seen_pins ((p, s) ∷ seen) = p ∷ seen_pins seen

owner_of-none :
    (pin : ℕ) (seen : List (ℕ × Slot)) → owner_of pin seen ≡ none → mem pin (seen_pins seen) ≡ false
unfolding seen_pins
owner_of-none pin [] h = refl
owner_of-none pin ((p, s) ∷ seen) h =
    if_both (λ o. o ≡ none → mem pin (p ∷ seen_pins seen) ≡ false) (p == pin) (some s)
      (owner_of pin seen) (λ e q. absurd (ground arith))
      (λ e q. ground (arith, owner_of-none pin seen q)) h

-- Each pin is new to the ones met and to those after it.
AreNew-mem :
    (us : List UsedPin) (seen : List (ℕ × Slot)) (p : ℕ)
    → AreNew us seen
    → mem p (seen_pins seen) ≡ true
    → mem p (map (λ u. u.pin) us) ≡ false
unfolding seen_pins
AreNew-mem [] seen p h k = refl
AreNew-mem (u ∷ us) seen p (h, hs) k =
    let n = owner_of-none u.pin seen h in
    let rest = AreNew-mem us ((u.pin, u.slot) ∷ seen) p hs (ground arith) in
    elim (Bool-cases (u.pin == p)) [
      | inr e ↦ ground arith
      | inl e ↦ let q : u.pin ≡ p = ground arith in absurd (ground (arith, rw q at n))
    ]

pub AreNew-HasNoRepeat :
    (us : List UsedPin) (seen : List (ℕ × Slot))
    → AreNew us seen
    → HasNoRepeat (map (λ u. u.pin) us)
unfolding seen_pins
AreNew-HasNoRepeat [] seen h = tt
AreNew-HasNoRepeat (u ∷ us) seen (h, hs) = (
  AreNew-mem us ((u.pin, u.slot) ∷ seen) u.pin hs (ground arith),
  AreNew-HasNoRepeat us ((u.pin, u.slot) ∷ seen) hs,
)

-- Both lines of a bus suit the board.
abbrev pub BusSuits : Option I2cPins → Option BoardModel → Type 0
BusSuits (some b) (some model) =
    (pin_problem model PinNeed.bus b.sda ≡ none) × (pin_problem model PinNeed.bus b.scl ≡ none)
BusSuits _ _ = Unit

pub check_lines-empty :
    (b : Option I2cPins) (model : Option BoardModel) (e : Errors)
    → check_lines b model e ≡ []
    → BusSuits b model × (e ≡ [])
check_lines-empty none none e h = (tt, h)
check_lines-empty none (some model) e h = (tt, h)
check_lines-empty (some b) none e h = (tt, h)
check_lines-empty (some b) (some model) e h =
    let first = put_new (slot_path Slot.sda) (pin_problem model PinNeed.bus b.sda) e in
    let (k, q) = put_new-empty (slot_path Slot.scl) (pin_problem model PinNeed.bus b.scl) first h in
    let (l, r) = put_new-empty (slot_path Slot.sda) (pin_problem model PinNeed.bus b.sda) e q in
    ((l, k), r)
