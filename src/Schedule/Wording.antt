-- ===== src/Schedule/Wording.antt =====
-- What `cronHuman` says of the lines that the picker writes (frontend/src/lib/schedule.ts).
use Prim.Native.String.{◌++◌}
use iot_saas.Prelude.{
  true, false, false, true, arith, max, min, ◌≤◌, Bool-cases, inl, inr, ℕ, ◌≡◌, refl, ap, ◌∙◌, ◌<◌,
  ◌^◌, String, Option, some, leb, ◌==◌, if◌then◌else◌,
}
use iot_saas.Prelude.Text.{split_on}
use iot_saas.Prelude.Digits.{decimal, number_of}
use iot_saas.Schedule.Fields.{CronParts, cron_parts}
use iot_saas.Schedule.Picker.{
  hour_of, minute_of, clamp_repeat, line_for, Picked, RepeatUnit, ScheduleMode, ScheduleModel, pad2,
  cron_from_schedule,
}
use iot_saas.Schedule.RoundTrip.{at_for, IsPickable, picked, schedule_from_cron-cron_from_schedule}
use iot_saas.Schedule.Days.{say_days, days_text-say_days}
use iot_saas.Schedule.Words.{ordinal, words_of, cron_human}

-- What the picker's schedule says, from the time and the numbers that the picker shows.
abbrev repeat_wording : RepeatUnit → ℕ → ℕ → String
repeat_wording RepeatUnit.minutes n at = "every " ++ (decimal (max 1 (min 59 n)) ++ " min")
repeat_wording RepeatUnit.hours n at =
    if leb n 1
    then "every hour at :" ++ pad2 at
    else "every " ++ (decimal (max 1 (min 23 n)) ++ (" hours at :" ++ pad2 at))

abbrev pub wording : ScheduleMode → ScheduleModel → String
wording ScheduleMode.daily s = "every day at " ++ s.time
wording ScheduleMode.days s = say_days s.days ++ (" at " ++ s.time)
wording ScheduleMode.monthly s = "on the " ++ (ordinal s.dom ++ (" of each month at " ++ s.time))
wording ScheduleMode.every s = repeat_wording s.unit s.n s.at
wording ScheduleMode.custom s = ""

limited : (top n : ℕ) → 1 ≤ top → max 1 (min top (if n == 0 then 1 else n)) ≡ max 1 (min top n)
limited top n h = ground arith

words_every :
    (n : ℕ) (unit : RepeatUnit) (at : ℕ) (p : Option CronParts)
    → words_of (Picked.every (clamp_repeat n unit) unit (at_for unit at)) p
      ≡ repeat_wording unit n at
unfolding words_of clamp_repeat
words_every n RepeatUnit.minutes at p =
    ap (λ k. "every " ++ (decimal k ++ " min")) (limited 59 n (omega arith))
words_every n RepeatUnit.hours at p = rw (limited 23 n (omega arith)) (elim (Bool-cases (leb n 1)) [
  | inl e ↦ let one : (max 1 (min 23 n) == 1) ≡ true = ground arith in rw (e, one) refl
  | inr e ↦ let more : (max 1 (min 23 n) == 1) ≡ false = ground arith in rw (e, more) refl
])

words_of-picked :
    (hour minute : ℕ) (mode : ScheduleMode) (s : ScheduleModel) (mm hh cron : String)
    (p : Option CronParts)
    → IsPickable hour minute s
    → line_for mode s mm hh ≡ some cron
    → words_of (picked mode s) p ≡ wording mode s
unfolding words_of
words_of-picked hour minute ScheduleMode.daily s mm hh cron p pick e = refl
words_of-picked hour minute ScheduleMode.days s mm hh cron p pick e =
    ap (λ t. t ++ (" at " ++ s.time))
      (days_text-say_days s.days pick.filled pick.weekdays pick.once)
words_of-picked hour minute ScheduleMode.monthly s mm hh cron p pick e = refl
words_of-picked hour minute ScheduleMode.every s mm hh cron p pick e = words_every s.n s.unit s.at p
words_of-picked hour minute ScheduleMode.custom s mm hh cron p pick e = absurd (ground arith)

-- A cron line that the picker writes for a schedule it can hold reads "every day at" the time, its days
-- "at" the time ("weekdays" for Monday to Friday, "weekends", "every day" for seven, else their names from
-- Monday on), "on the" ordinal "of each month at" the time, "every" so many "min", from 1
-- to 59, "every hour at" the minute or "every" so many "hours at" the minute, up to 23.
pub cron_human-cron_from_schedule :
    (number_text : String → String)
    → ((t : String) (n : ℕ) → number_of t ≡ some n → n < 2 ^ 53 → number_text t ≡ decimal n)
    → (hour minute : ℕ) (s : ScheduleModel) (cron : String) → IsPickable hour minute s
    → cron_from_schedule number_text s ≡ some cron
    → cron_human cron ≡ wording s.mode s
unfolding cron_human cron_from_schedule
cron_human-cron_from_schedule number_text reads hour minute s cron h e =
    let parts = split_on b':' s.time in
    ap (λ m. words_of m (cron_parts cron))
      (schedule_from_cron-cron_from_schedule number_text reads hour minute s cron h e)
    ∙ words_of-picked hour minute s.mode s (minute_of number_text parts) (hour_of number_text parts)
        cron (cron_parts cron) h e
