-- ===== src/Schedule/Fields.antt =====
-- The fields of a cron line: `cronField` and `cronParts` (frontend/src/lib/schedule.ts).
use Prim.Native.Char.{code}
use Prim.Native.String.{[], ◌∷◌}
use Prim.Native.Nat.{ℕ, zero, suc, ◌+◌, ◌-◌}
use mathlib.Core.List.{List}
use mathlib.Core.List as List
use iot_saas.Prelude.{
  and_then, keep, String, Bool, true, false, not, ◌&&◌, ◌||◌, Option, none, some, map, mem, ltb,
  leb, ◌==◌, str_eq, if◌then◌else◌,
}
use iot_saas.Prelude.Text.{trim, is_empty, split_on, is_space, push_head}
use iot_saas.Prelude.Digits.{number_of}

-- the text before the first such character, and the text after it where there is one
unfoldable pub cut : ℕ → String → String × Option String
cut k [] = ([], none)
cut k (c ∷ s) =
    let (front, rest) = cut k s in if code c == k then ([], some s) else (c ∷ front, rest)

-- `s.split(/\s+/)`; the flag is on inside a run of white space
unfoldable pub split_spaces : Bool → String → List String
split_spaces run [] = List.◌∷◌ [] List.[]
split_spaces run (c ∷ s) =
    let inside = split_spaces true s in
    let outside = split_spaces false s in
    if is_space (code c) then (if run then inside else List.◌∷◌ [] inside) else push_head c outside

abbrev pub or_number : Option ℕ → ℕ → ℕ
or_number none n = n
or_number (some m) n = m

abbrev pub is_given : Option ℕ → Bool
is_given none = false
is_given (some n) = true

-- The first and the last value of a part, and its step.
pub record Range : Type 0 where
  pub from : ℕ
  pub to : ℕ
  pub step : ℕ

abbrev pub checked : ℕ → ℕ → Range → Option Range
checked lo hi r =
    if ltb r.from lo || ltb hi r.to || ltb r.to r.from || ltb r.step 1 then none else some r

abbrev pub range_of : ℕ → ℕ → Option (ℕ × Option ℕ) → Option (Option ℕ) → Option Range
range_of lo hi (some (a, b)) (some step) = checked lo hi (record {
  from = a;
  to = or_number b (if is_given step then hi else a);
  step = or_number step 1;
})
range_of lo hi _ _ = none

abbrev given_number : Option ℕ → Option (Option ℕ)
given_number none = none
given_number (some n) = some (some n)

abbrev pub optional_number : Option String → Option (Option ℕ)
optional_number none = some none
optional_number (some s) = given_number (number_of s)

abbrev pair_of : Option ℕ → Option (Option ℕ) → Option (ℕ × Option ℕ)
pair_of (some a) (some b) = some (a, b)
pair_of _ _ = none

-- `*`, a number or two with a dash
unfoldable pub read_head : ℕ → ℕ → String → Option (ℕ × Option ℕ)
unfolding cut
read_head lo hi s =
    if str_eq s "*"
    then some (lo, some hi)
    else pair_of (number_of (cut b'-' s).0) (optional_number (cut b'-' s).1)

-- A part of the field: `/^(\*|\d+(?:-\d+)?)(?:\/(\d+))?$/` and the checks on it.
unfoldable pub read_part : ℕ → ℕ → String → Option Range
unfolding read_head
read_part lo hi s = range_of lo hi (read_head lo hi (cut b'/' s).0) (optional_number (cut b'/' s).1)

-- `hi === 7 && v === 7 ? 0 : v`
abbrev pub fold_weekday : ℕ → ℕ → ℕ
fold_weekday hi v = if hi == 7 && v == 7 then 0 else v

-- `for (let v = a; v <= b; v += step)`; a fuel beyond `b - a` is enough.
unfoldable pub count_up : ℕ → ℕ → ℕ → ℕ → List ℕ
count_up zero v b step = List.[]
count_up (suc f) v b step =
    let rest = count_up f (v + step) b step in if leb v b then List.◌∷◌ v rest else List.[]

abbrev pub values_of : ℕ → Range → List ℕ
values_of hi r = map (fold_weekday hi) (count_up (suc (r.to - r.from)) r.from r.to r.step)

-- `out.add(v)` for each value
unfoldable pub add_all : List ℕ → List ℕ → List ℕ
add_all List.[] out = out
add_all (List.◌∷◌ v vs) out =
    add_all vs (if mem v out then out else List.◌++◌ out (List.◌∷◌ v List.[]))

unfoldable pub insert : ℕ → List ℕ → List ℕ
insert v List.[] = List.◌∷◌ v List.[]
insert v (List.◌∷◌ w ws) =
    let rest = insert v ws in if ltb w v then List.◌∷◌ w rest else List.◌∷◌ v (List.◌∷◌ w ws)

-- `sort((x, y) => x - y)`
unfoldable pub sort : List ℕ → List ℕ
unfolding insert
sort List.[] = List.[]
sort (List.◌∷◌ v vs) = insert v (sort vs)

-- The loop over the parts.
unfoldable pub field_values : ℕ → ℕ → List String → List ℕ → Option (List ℕ)
unfolding read_part add_all count_up
field_values lo hi List.[] out = some out
field_values lo hi (List.◌∷◌ part parts) out =
    and_then (read_part lo hi part) (λ r. field_values lo hi parts (add_all (values_of hi r) out))

abbrev sorted : Option (List ℕ) → Option (List ℕ)
sorted none = none
sorted (some vs) = some (sort vs)

unfoldable pub cron_field : String → ℕ → ℕ → Option (List ℕ)
unfolding field_values sort
cron_field field lo hi = sorted (field_values lo hi (split_on b',' field) List.[])

pub record CronParts : Type 0 where
  pub raw_minute : String
  pub raw_hour : String
  pub raw_dom : String
  pub raw_month : String
  pub raw_dow : String
  pub minutes : List ℕ
  pub hours : List ℕ
  pub dom : List ℕ
  pub months : List ℕ
  pub dow : List ℕ

-- `!x || x.length === 0`
abbrev pub usable : Option (List ℕ) → Option (List ℕ)
usable (some (List.◌∷◌ v vs)) = some (List.◌∷◌ v vs)
usable _ = none

abbrev pub parts_with :
    (raw_minute raw_hour raw_dom raw_month raw_dow : String)
    → (minutes hours dom months dow : Option (List ℕ)) → Option CronParts
parts_with mi h d mo w (some minutes) (some hours) (some dom) (some months) (some dow) =
    some (record {
      raw_minute = mi;
      raw_hour = h;
      raw_dom = d;
      raw_month = mo;
      raw_dow = w;
      minutes = minutes;
      hours = hours;
      dom = dom;
      months = months;
      dow = dow;
    })
parts_with mi h d mo w _ _ _ _ _ = none

abbrev pub parts_of : List String → Option CronParts
parts_of (List.◌∷◌ mi (List.◌∷◌ h (List.◌∷◌ d (List.◌∷◌ mo (List.◌∷◌ w List.[]))))) =
    parts_with mi h d mo w (usable (cron_field mi 0 59)) (usable (cron_field h 0 23))
      (usable (cron_field d 1 31)) (usable (cron_field mo 1 12)) (usable (cron_field w 0 7))
parts_of _ = none

unfoldable pub cron_parts : String → Option CronParts
unfolding cron_field split_spaces
cron_parts cron = parts_of (split_spaces false (trim cron))

pub data CronProblem : Type 0 where
  five_fields invalid_field : CronProblem

abbrev is_readable : Option CronParts → Bool
is_readable none = false
is_readable (some p) = true

abbrev has_five : List String → Bool
has_five (List.◌∷◌ a (List.◌∷◌ b (List.◌∷◌ c (List.◌∷◌ d (List.◌∷◌ e List.[]))))) = true
has_five _ = false

-- `validateCron`, its texts as CronProblem; `filter(Boolean)` drops the empty texts
unfoldable pub validate_cron : String → Option CronProblem
unfolding cron_parts
validate_cron cron =
    if not (has_five (keep (λ p. not (is_empty p)) (split_spaces false (trim cron))))
    then some five_fields
    else if not (is_readable (cron_parts cron))
    then some invalid_field
    else none
