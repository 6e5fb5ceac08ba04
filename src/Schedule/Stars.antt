-- ===== src/Schedule/Stars.antt =====
-- The fields with a star: what they cover, and that they are fields of a line.

use Prim.Native.Char.{Char, code}
use Prim.Native.String.{[], ◌∷◌, ◌++◌}
use native.Mathlib.Nat.{zero-mod}
use text.Mathlib.TextLemmas.{nil-append, cons-append}
use mathlib.Core.List.{List}
use mathlib.Core.Path.{refl}
use iot_saas.Prelude.{
  Bool, sym, eq_iff, inl, inr, Bool-cases, false, str_eq, ℕ, ◌-◌, ◌%◌, ◌≤◌, ◌<◌, String, true, ◌≡◌,
  ap, ◌∙◌, ◌==◌, map, mem, arith, some,
}
use iot_saas.Prelude.Text.{join_more, is_space}
use iot_saas.Prelude.Digits.{
  IsDigits, is_digit, is_filled, decimal, decimal-IsDigits, number_of-decimal,
}
use iot_saas.Schedule.Fields.{
  Range, cut, read_head, read_part, values_of, add_all, sort, field_values, cron_field,
}
use iot_saas.Schedule.Sets.{mem-sort, mem-add_all}
use iot_saas.Schedule.Allowed.{mem-values_of}
use iot_saas.Schedule.Lines.{
  join_more-head, IsField, IsUnspaced, Lacks, split_on-Lacks, digits-Lacks, digits-IsUnspaced,
}

-- A field that cronField reads and that allows something.
abbrev pub IsRead : ℕ → ℕ → String → Type 0
IsRead lo hi field = (v : ℕ) × (vs : List ℕ) × (cron_field field lo hi ≡ some (List.◌∷◌ v vs))

pub nonempty_of_mem :
    (v : ℕ) (vs : List ℕ) → mem v vs ≡ true → (w : ℕ) × (ws : List ℕ) × (vs ≡ List.◌∷◌ w ws)
nonempty_of_mem v List.[] h = absurd (ground arith)
nonempty_of_mem v (List.◌∷◌ w ws) h = (w, ws, refl)

abbrev steps : ℕ → ℕ → ℕ → Range
steps lo hi n = record { from = lo; to = hi; step = n }

first_hit : (lo n : ℕ) → ((lo - lo) % n == 0) ≡ true
first_hit lo n =
    let k : lo - lo ≡ 0 = omega arith in
    let l : (lo - lo) % n ≡ 0 = ap (λ m. m % n) k ∙ zero-mod n in ground arith

mem-steps :
    (lo hi n : ℕ)
    → 1 ≤ n
    → lo ≤ hi
    → lo < 7
    → mem lo (sort (add_all (values_of hi (steps lo hi n)) List.[])) ≡ true
mem-steps lo hi n h k l =
    let r = steps lo hi n in
    rw
      (
        mem-sort lo (add_all (values_of hi r) List.[]),
        mem-add_all lo (values_of hi r) List.[],
        mem-values_of hi lo r h,
        first_hit lo n,
      )
      (ground arith)

steps-IsRead :
    (lo hi n : ℕ) (field : String)
    → 1 ≤ n
    → lo ≤ hi
    → lo < 7
    → Lacks b',' field
    → read_part lo hi field ≡ some (steps lo hi n)
    → IsRead lo hi field
unfolding cron_field field_values
steps-IsRead lo hi n field h k l q e =
    let (w, ws, g) =
      nonempty_of_mem lo (sort (add_all (values_of hi (steps lo hi n)) List.[]))
        (mem-steps lo hi n h k l) in
    (w, ws, rw (split_on-Lacks b',' field q) (rw e (ap some g)))

pub star-IsRead : (lo hi : ℕ) → lo ≤ hi → lo < 7 → IsRead lo hi "*"
unfolding read_part read_head cut
star-IsRead lo hi h k = steps-IsRead lo hi 1 "*" (omega arith) h k (refl, tt) (ground arith)

-- `*/n`
abbrev pub every_field : ℕ → String
every_field n = "*/" ++ decimal n

pub every-IsRead : (lo hi n : ℕ) → lo ≤ hi → lo < 7 → 1 ≤ n → IsRead lo hi (every_field n)
unfolding read_part read_head cut
every-IsRead lo hi n h k l =
    steps-IsRead lo hi n (every_field n) l h k
      (rw (cons-append, cons-append, nil-append)
        (refl, (refl, digits-Lacks b',' (decimal n) refl (decimal-IsDigits n).0)))
      (rw (cons-append, cons-append, nil-append, number_of-decimal n) (ground arith))

pub star-IsField : IsField "*"
unfolding is_space
star-IsField = (refl, (refl, tt))

pub decimal-IsField : (n : ℕ) → IsField (decimal n)
decimal-IsField n = let (d, f) = decimal-IsDigits n in (f, digits-IsUnspaced (decimal n) d)

pub every-IsField : (n : ℕ) → IsField (every_field n)
unfolding is_space
every-IsField n =
    rw (cons-append, cons-append, nil-append)
      (refl, (refl, (refl, digits-IsUnspaced (decimal n) (decimal-IsDigits n).0)))

append-IsUnspaced : (s t : String) → IsUnspaced s → IsUnspaced t → IsUnspaced (s ++ t)
append-IsUnspaced [] t h k = rw nil-append k
append-IsUnspaced (c ∷ s) t (h, hs) k = rw cons-append (h, append-IsUnspaced s t hs k)

filled-append : (s t : String) → is_filled s ≡ true → is_filled (s ++ t) ≡ true
filled-append [] t h = absurd (ground arith)
filled-append (c ∷ s) t h = rw cons-append refl

pub decimals-IsField : (n : ℕ) (ns : List ℕ) → IsField (join_more "," (decimal n) (map decimal ns))
unfolding join_more is_space
decimals-IsField n List.[] = decimal-IsField n
decimals-IsField n (List.◌∷◌ m ns) =
    let (f, u) = decimal-IsField n in
    let rest = join_more "," (decimal m) (map decimal ns) in
    (
      filled-append (decimal n) ("," ++ rest) f,
      append-IsUnspaced (decimal n) ("," ++ rest) u
          (append-IsUnspaced "," rest (refl, tt) (decimals-IsField m ns).1),
    )

abbrev starts_digit : String → Bool
starts_digit [] = false
starts_digit (c ∷ s) = is_digit (code c)

digit_star : (c : Char) (s : String) → is_digit (code c) ≡ true → str_eq (c ∷ s) "*" ≡ false
digit_star c s h = elim (Bool-cases (str_eq (c ∷ s) "*")) [
  | inr e ↦ e
  | inl e ↦ absurd (ground (arith, sym h ∙ ap starts_digit ((eq_iff (c ∷ s) "*").0 e)))
]

digits_star :
    (s : String) (ts : List String)
    → IsDigits s
    → is_filled s ≡ true
    → str_eq (join_more "," s ts) "*" ≡ false
digits_star [] ts d f = absurd (ground arith)
digits_star (c ∷ s) ts (d, ds) f = let (u, e) = join_more-head "," c s ts in rw e (digit_star c u d)

-- A text of digits and commas is no star.
pub decimals_star :
    (n : ℕ) (ns : List ℕ) → str_eq (join_more "," (decimal n) (map decimal ns)) "*" ≡ false
decimals_star n ns = let (d, f) = decimal-IsDigits n in digits_star (decimal n) (map decimal ns) d f
