-- ===== src/Schedule/Tests.antt =====
-- Concrete cron lines and models of the picker.
use mathlib.Core.List.{[], ◌∷◌}
use iot_saas.Prelude.{
  false, ℕ, String, true, ◌≡◌, refl, ap, ◌<◌, ◌^◌, ◌≤◌, Option, none, some, any, mem, arith, take,
}
use iot_saas.Prelude.Text.{split_on, join}
use iot_saas.Prelude.Digits.{decimal, number_of}
use iot_saas.Schedule.Fields.{sort, cron_field, cron_parts}
use iot_saas.Schedule.Sets.{IsAscending}
use iot_saas.Schedule.Allowed.{part_allows, cron_field_lem}
use iot_saas.Schedule.Picker.{
  pad2, time_text, ScheduleMode, RepeatUnit, ScheduleModel, schedule_from_cron, cron_from_schedule,
}
use iot_saas.Schedule.RoundTrip.{IsPickable, picked, schedule_from_cron-cron_from_schedule}
use iot_saas.Schedule.Words.{cron_human}
use iot_saas.Schedule.Wording.{wording, cron_human-cron_from_schedule}
use iot_saas.Schedule.Runs.{Day, WallTime, next_runs}
use iot_saas.Schedule.Runs.Grid.{allowed_moments, next_runs-allowed_moments}
use iot_saas.Prelude.Text.{trim}
use iot_saas.Schedule.Fields.{split_spaces}

weekend_field : cron_field "5-7,1" 0 7 ≡ some (0 ∷ 1 ∷ 5 ∷ 6 ∷ [])
unfolding cron_field split_on number_of
weekend_field = refl

cron_field_lem_example :
    ((v : ℕ) → mem v (0 ∷ 1 ∷ 5 ∷ 6 ∷ []) ≡ any (part_allows 0 7 v) (split_on b',' "5-7,1"))
    × IsAscending (0 ∷ 1 ∷ 5 ∷ 6 ∷ [])
    × ((v : ℕ) → mem v (0 ∷ 1 ∷ 5 ∷ 6 ∷ []) ≡ true → (0 ≤ v) × (v ≤ 7))
cron_field_lem_example = cron_field_lem "5-7,1" 0 7 (0 ∷ 1 ∷ 5 ∷ 6 ∷ []) refl weekend_field

abbrev number_or_empty : Option ℕ → String
number_or_empty none = "NaN"
number_or_empty (some n) = decimal n

-- a conversion on texts of digits
abbrev number_text : String → String
number_text t = number_or_empty (number_of t)

number_text_reads :
    (t : String) (n : ℕ) → number_of t ≡ some n → n < 2 ^ 53 → number_text t ≡ decimal n
number_text_reads t n h k = ap number_or_empty h

abbrev evenings : ScheduleModel
evenings = record {
  mode = ScheduleMode.days;
  time = "07:30";
  days = 4 ∷ 2 ∷ [];
  dom = 1;
  n = 15;
  unit = RepeatUnit.minutes;
  at = 0;
}

evenings-IsPickable : IsPickable 7 30 evenings
unfolding time_text pad2 decimal
evenings-IsPickable = record {
  hours = omega arith;
  minutes = omega arith;
  time = refl;
  filled = omega arith;
  weekdays = (omega arith, (omega arith, tt));
  once = (refl, (refl, tt));
  dom_low = omega arith;
  dom_high = omega arith;
  past_hour = omega arith;
}

evenings_line : cron_from_schedule number_text evenings ≡ some "30 7 * * 2,4"
unfolding cron_from_schedule join split_on number_of decimal sort
evenings_line = refl

schedule_from_cron-cron_from_schedule_example :
    schedule_from_cron "30 7 * * 2,4" ≡ picked ScheduleMode.days evenings
schedule_from_cron-cron_from_schedule_example =
    schedule_from_cron-cron_from_schedule number_text number_text_reads 7 30 evenings "30 7 * * 2,4"
      evenings-IsPickable evenings_line

cron_human-cron_from_schedule_example :
    cron_human "30 7 * * 2,4" ≡ wording ScheduleMode.days evenings
cron_human-cron_from_schedule_example =
    cron_human-cron_from_schedule number_text number_text_reads 7 30 evenings "30 7 * * 2,4"
      evenings-IsPickable evenings_line

evenings_in_words : wording ScheduleMode.days evenings ≡ "Tue, Thu at 07:30"
unfolding join
evenings_in_words = refl

abbrev now : WallTime
now = record { date = record { year = 2026; month = 9; day = 28; dow = 1 }; hour = 21; minute = 15 }

abbrev same_week : ℕ → Day
same_week i = record { year = 2026; month = 9; day = 28; dow = i }

next_runs-allowed_moments_example :
    next_runs now same_week "0 22 * * *" 3
    ≡ take 3 (
        allowed_moments now same_week
          (split_spaces false (trim "0 22 * * *"))
          (cron_parts "0 22 * * *"))
next_runs-allowed_moments_example = next_runs-allowed_moments now same_week "0 22 * * *" 3
