-- ===== src/Prelude/Digits.antt =====
-- Numbers in texts: `/^\d+$/` with `Number`, and `String` of a natural number.
use Prim.Native.Char.{Char, code}
use Prim.Native.String.{String, [], ◌∷◌}
use Prim.Native.Nat.{ℕ, zero, suc, ◌+◌, ◌-◌, ◌*◌, ◌/◌, ◌%◌, ◌≤◌, ◌<◌}
use mathlib.Core.Path.{◌≡◌, refl, ap, ◌∙◌}
use mathlib.Core.Bool.{Bool, true, false, ◌&&◌}
use mathlib.Core.Option.{Option, none, some}
use native.Mathlib.Omega.{arith}
use iot_saas.Prelude.Tests.{leb, ltb, if◌then◌else◌, if_both}

-- `\d`
abbrev pub is_digit : ℕ → Bool
is_digit c = leb 48 c && leb c 57

-- The digits of a text read onto a number; `none` where another character stands among them.
unfoldable pub value_onto : ℕ → String → Option ℕ
value_onto n [] = some n
value_onto n (c ∷ s) =
    let rest = value_onto (n * 10 + (code c - 48)) s in if is_digit (code c) then rest else none

-- `/^\d+$/.test(s) ? Number(s) : null`
unfoldable pub number_of : String → Option ℕ
unfolding value_onto
number_of [] = none
number_of (c ∷ s) = value_onto 0 (c ∷ s)

abbrev nth_char : String → ℕ → Char
nth_char [] d = "9"
nth_char (c ∷ s) zero = c
nth_char (c ∷ s) (suc d) = nth_char s d

abbrev pub digit_char : ℕ → Char
digit_char d = nth_char "0123456789" d

-- The digits of a number before a text; a fuel beyond the number is enough.
unfoldable pub decimal_onto : ℕ → ℕ → String → String
decimal_onto zero n s = s
decimal_onto (suc f) n s =
    let front = decimal_onto f (n / 10) (digit_char (n % 10) ∷ s) in
    if ltb n 10 then digit_char n ∷ s else front

-- `String(n)`
unfoldable pub decimal : ℕ → String
unfolding decimal_onto
decimal n = decimal_onto (suc n) n []

pub code-digit_char : (d : ℕ) → d < 10 → code (digit_char d) ≡ 48 + d
code-digit_char zero h = refl
code-digit_char (suc zero) h = refl
code-digit_char (suc (suc zero)) h = refl
code-digit_char (suc (suc (suc zero))) h = refl
code-digit_char (suc (suc (suc (suc zero)))) h = refl
code-digit_char (suc (suc (suc (suc (suc zero))))) h = refl
code-digit_char (suc (suc (suc (suc (suc (suc zero)))))) h = refl
code-digit_char (suc (suc (suc (suc (suc (suc (suc zero))))))) h = refl
code-digit_char (suc (suc (suc (suc (suc (suc (suc (suc zero)))))))) h = refl
code-digit_char (suc (suc (suc (suc (suc (suc (suc (suc (suc zero))))))))) h = refl
code-digit_char (suc (suc (suc (suc (suc (suc (suc (suc (suc (suc d)))))))))) h =
    absurd (omega arith)

value_onto-digit :
    (n d : ℕ) (s : String) → d < 10 → value_onto n (digit_char d ∷ s) ≡ value_onto (n * 10 + d) s
unfolding value_onto
value_onto-digit n d s h = rw (code-digit_char d h) (
    if_both (λ o. o ≡ value_onto (n * 10 + d) s) (is_digit (48 + d))
      (value_onto (n * 10 + (48 + d - 48)) s) none
      (λ e. ap (λ k. value_onto (n * 10 + k) s) (omega arith)) (λ e. absurd (ground arith)))

value_onto-decimal_onto :
    (f n : ℕ) (s : String) → n < f → value_onto 0 (decimal_onto f n s) ≡ value_onto n s
unfolding decimal_onto
value_onto-decimal_onto zero n s h = absurd (omega arith)
value_onto-decimal_onto (suc f) n s h =
    if_both (λ t. value_onto 0 t ≡ value_onto n s) (ltb n 10) (digit_char n ∷ s)
      (decimal_onto f (n / 10) (digit_char (n % 10) ∷ s))
      (λ e. value_onto-digit 0 n s (ground arith) ∙ ap (λ m. value_onto m s) (omega arith))
      (λ e.
        let k : 10 ≤ n = ground arith in
        value_onto-decimal_onto f (n / 10) (digit_char (n % 10) ∷ s) (omega arith)
        ∙ (value_onto-digit (n / 10) (n % 10) s (omega arith)
            ∙ ap (λ m. value_onto m s) (omega arith)))

-- A text of digits only, at least one.
abbrev pub IsDigits : String → Type 0
IsDigits [] = Unit
IsDigits (c ∷ s) = (is_digit (code c) ≡ true) × IsDigits s

abbrev pub is_filled : String → Bool
is_filled [] = false
is_filled (c ∷ s) = true

decimal_onto-IsDigits :
    (f n : ℕ) (s : String)
    → n < f
    → IsDigits s
    → IsDigits (decimal_onto f n s) × (is_filled (decimal_onto f n s) ≡ true)
unfolding decimal_onto
decimal_onto-IsDigits zero n s h k = absurd (omega arith)
decimal_onto-IsDigits (suc f) n s h k =
    if_both (λ t. IsDigits t × (is_filled t ≡ true)) (ltb n 10) (digit_char n ∷ s)
      (decimal_onto f (n / 10) (digit_char (n % 10) ∷ s))
      (λ e. ((rw (code-digit_char n (ground arith)) (ground arith), k), refl))
      (λ e.
        let l : 10 ≤ n = ground arith in
        decimal_onto-IsDigits f (n / 10) (digit_char (n % 10) ∷ s) (omega arith)
          (rw (code-digit_char (n % 10) (omega arith)) (ground arith), k))

pub decimal-IsDigits : (n : ℕ) → IsDigits (decimal n) × (is_filled (decimal n) ≡ true)
unfolding decimal
decimal-IsDigits n = decimal_onto-IsDigits (suc n) n [] (omega arith) tt

number_of_filled : (s : String) → is_filled s ≡ true → number_of s ≡ value_onto 0 s
unfolding number_of
number_of_filled [] h = absurd (ground arith)
number_of_filled (c ∷ s) h = refl

-- A number reads back from its digits.
pub number_of-decimal : (n : ℕ) → number_of (decimal n) ≡ some n
unfolding decimal value_onto
number_of-decimal n =
    number_of_filled (decimal n) (decimal-IsDigits n).1
    ∙ value_onto-decimal_onto (suc n) n [] (omega arith)
