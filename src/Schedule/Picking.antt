-- ===== src/Schedule/Picking.antt =====
-- What the picker reads from a line of readable fields.
use Prim.Native.Char.{code}
use Prim.Native.String.{[], ◌∷◌}
use text.Mathlib.TextLemmas.{cons-append}
use mathlib.Core.List.{List}
use mathlib.Core.Path.{refl}
use iot_saas.Prelude.{
  ℕ, ◌≤◌, String, true, false, ◌≡◌, ap, ◌∙◌, All, ◌==◌, str_eq, leb, arith, none, some,
}
use iot_saas.Prelude.Text.{join, drop_prefix, drop_prefix-append}
use iot_saas.Prelude.Digits.{
  IsDigits, decimal, decimal-IsDigits, number_of, number_of-decimal, value_onto,
}
use iot_saas.Schedule.Fields.{CronParts, cron_parts, cron_field, parts_of}
use iot_saas.Schedule.Picker.{
  repeat_of, RepeatUnit, Picked, time_text, pick, schedule_from_cron, line,
}
use iot_saas.Schedule.Lines.{IsField, split_spaces-join}
use iot_saas.Schedule.Singles.{star_false, cron_field-decimal}
use iot_saas.Schedule.Stars.{IsRead, star-IsRead, every_field, star-IsField}

-- The parts of a line of fields, every month, with the weekdays that it allows.
pub record IsLine (mi h d w : String) (days : List ℕ) (p : CronParts) : Type 0 where
  minute : p.raw_minute ≡ mi
  hour : p.raw_hour ≡ h
  dom : p.raw_dom ≡ d
  month : p.raw_month ≡ "*"
  dow : p.raw_dow ≡ w
  weekdays : p.dow ≡ days

-- What the picker shows for a line whose fields are readable.
pub shown :
    (mi h d w : String) (v : ℕ) (vs : List ℕ)
    → All IsField (List.◌∷◌ mi (List.◌∷◌ h (List.◌∷◌ d (List.◌∷◌ w List.[]))))
    → IsRead 0 59 mi
    → IsRead 0 23 h
    → IsRead 1 31 d
    → cron_field w 0 7 ≡ some (List.◌∷◌ v vs)
    → (p : CronParts) × (schedule_from_cron (line mi h d w) ≡ pick (some p))
      × IsLine mi h d w (List.◌∷◌ v vs) p
unfolding schedule_from_cron cron_parts join
shown mi h d w v vs (f, (g, (k, (l, z)))) (a, as1, e) (b, bs, q) (c, cs, r) t =
    let (o, os, u) = star-IsRead 1 12 (omega arith) (omega arith) in
    let fields = List.◌∷◌ h (List.◌∷◌ d (List.◌∷◌ "*" (List.◌∷◌ w List.[]))) in
    let p : CronParts = record {
      raw_minute = mi;
      raw_hour = h;
      raw_dom = d;
      raw_month = "*";
      raw_dow = w;
      minutes = List.◌∷◌ a as1;
      hours = List.◌∷◌ b bs;
      dom = List.◌∷◌ c cs;
      months = List.◌∷◌ o os;
      dow = List.◌∷◌ v vs;
    } in
    let made : parts_of (List.◌∷◌ mi fields) ≡ some p = rw (e, q, r, u, t) refl in
    (
      p,
      ap pick
          (ap parts_of (split_spaces-join mi fields f (g, (k, (star-IsField, (l, tt))))) ∙ made),
      record { minute = refl; hour = refl; dom = refl; month = refl; dow = refl; weekdays = refl },
    )

pub decimal-IsRead : (lo hi n : ℕ) → lo ≤ n → n ≤ hi → (hi == 7) ≡ false → IsRead lo hi (decimal n)
decimal-IsRead lo hi n h k e = (n, List.[], cron_field-decimal lo hi n (h, k, ground arith))

decimal_star : (n : ℕ) → str_eq (decimal n) "*" ≡ false
decimal_star n = let (d, f) = decimal-IsDigits n in star_false (decimal n) d f

pub pick_daily :
    (m h : ℕ) (vs : List ℕ) (p : CronParts)
    → IsLine (decimal m) (decimal h) "*" "*" vs p
    → pick (some p) ≡ Picked.daily (time_text h m)
pick_daily m h vs p i =
    rw (i.minute, i.hour, i.dom, i.month, i.dow, number_of-decimal m, number_of-decimal h) refl

pub pick_days :
    (m h : ℕ) (w : String) (vs : List ℕ) (p : CronParts)
    → str_eq w "*" ≡ false
    → IsLine (decimal m) (decimal h) "*" w vs p
    → pick (some p) ≡ Picked.days (time_text h m) vs
pick_days m h w vs p e i =
    rw
      (
        i.minute,
        i.hour,
        i.dom,
        i.month,
        i.dow,
        i.weekdays,
        number_of-decimal m,
        number_of-decimal h,
        e,
      )
      refl

pub pick_monthly :
    (m h d : ℕ) (vs : List ℕ) (p : CronParts)
    → d ≤ 28
    → IsLine (decimal m) (decimal h) (decimal d) "*" vs p
    → pick (some p) ≡ Picked.monthly (time_text h m) d
pick_monthly m h d vs p k i =
    let e : leb d 28 ≡ true = ground arith in
    rw
      (
        i.minute,
        i.hour,
        i.dom,
        i.month,
        i.dow,
        number_of-decimal m,
        number_of-decimal h,
        number_of-decimal d,
        decimal_star d,
        e,
      )
      refl

every_number : (n : ℕ) → number_of (every_field n) ≡ none
unfolding number_of value_onto
every_number n = rw (cons-append) refl

every_repeat : (n : ℕ) → repeat_of (every_field n) ≡ some n
every_repeat n = rw (drop_prefix-append "*/" (decimal n)) (number_of-decimal n)

no_prefix : (s : String) → IsDigits s → drop_prefix "*/" s ≡ none
unfolding drop_prefix
no_prefix [] h = refl
no_prefix (c ∷ s) (h, hs) = let e : (42 == code c) ≡ false = ground arith in rw e refl

decimal_repeat : (n : ℕ) → repeat_of (decimal n) ≡ none
decimal_repeat n = rw (no_prefix (decimal n) (decimal-IsDigits n).0) refl

pub pick_minutes :
    (n : ℕ) (vs : List ℕ) (p : CronParts)
    → IsLine (every_field n) "*" "*" "*" vs p
    → pick (some p) ≡ Picked.every n RepeatUnit.minutes none
pick_minutes n vs p i =
    rw (i.minute, i.hour, i.dom, i.month, i.dow, every_number n, every_repeat n) refl

pub pick_hours :
    (n at : ℕ) (vs : List ℕ) (p : CronParts)
    → IsLine (decimal at) (every_field n) "*" "*" vs p
    → pick (some p) ≡ Picked.every n RepeatUnit.hours (some at)
pick_hours n at vs p i =
    rw
      (
        i.minute,
        i.hour,
        i.dom,
        i.month,
        i.dow,
        number_of-decimal at,
        every_number n,
        every_repeat n,
        decimal_repeat at,
      )
      refl

pub pick_hourly :
    (at : ℕ) (vs : List ℕ) (p : CronParts)
    → IsLine (decimal at) "*" "*" "*" vs p
    → pick (some p) ≡ Picked.every 1 RepeatUnit.hours (some at)
unfolding number_of value_onto drop_prefix
pick_hourly at vs p i =
    rw (i.minute, i.hour, i.dom, i.month, i.dow, number_of-decimal at, decimal_repeat at) refl
