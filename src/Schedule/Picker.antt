-- ===== src/Schedule/Picker.antt =====
-- The picker's model of a cron line (frontend/src/lib/schedule.ts): `scheduleFromCron`,
-- `cronFromSchedule` and `clampRepeat`. The numbers of a model are whole and not negative, and a
-- repeat is below 2^53, from where on `Number` rounds.
-- `number_text` is `String(Number(t))`; the half of a time that is missing prints as "undefined".

use Prim.Native.String.{[], ◌∷◌, ◌++◌}
use mathlib.Core.List.{List}
use iot_saas.Prelude.{
  and_then, ℕ, min, max, String, Bool, not, ◌&&◌, Option, none, some, map, or_else, leb, ◌==◌,
  str_eq, if◌then◌else◌,
}
use iot_saas.Prelude.Text.{join, split_on, drop_prefix}
use iot_saas.Prelude.Digits.{number_of, decimal}
use iot_saas.Schedule.Fields.{CronParts, cron_parts, sort}

pub data ScheduleMode : Type 0 where
  daily days every monthly custom : ScheduleMode

pub data RepeatUnit : Type 0 where
  minutes hours : RepeatUnit

pub record ScheduleModel : Type 0 where
  pub mode : ScheduleMode
  pub time : String
  pub days : List ℕ
  pub dom : ℕ
  pub n : ℕ
  pub unit : RepeatUnit
  pub at : ℕ

-- What `scheduleFromCron` returns: the mode with the fields that it sets.
pub data Picked : Type 0 where
  daily : String → Picked
  days : String → List ℕ → Picked
  monthly : String → ℕ → Picked
  every : ℕ → RepeatUnit → Option ℕ → Picked
  custom : Picked

unfoldable pub default_schedule : ScheduleModel
default_schedule = record {
  mode = ScheduleMode.daily;
  time = "08:00";
  days = List.◌∷◌ 1 (List.◌∷◌ 2 (List.◌∷◌ 3 (List.◌∷◌ 4 (List.◌∷◌ 5 List.[]))));
  dom = 1;
  n = 15;
  unit = RepeatUnit.minutes;
  at = 0;
}

-- `padStart(2, "0")`
abbrev pub pad_start : String → String
pad_start [] = "00"
pad_start (c ∷ []) = "0" ∷ c ∷ []
pad_start (c ∷ d ∷ s) = c ∷ d ∷ s

unfoldable pub pad2 : ℕ → String
pad2 n = pad_start (decimal n)

unfoldable pub time_text : ℕ → ℕ → String
unfolding pad2
time_text hour minute = pad2 hour ++ (":" ++ pad2 minute)

-- the time of two fields that are single numbers
abbrev pub time_of : Option ℕ → Option ℕ → Option String
time_of (some minute) (some hour) = some (time_text hour minute)
time_of _ _ = none

-- `/^\*\/(\d+)$/`
abbrev pub repeat_of : String → Option ℕ
repeat_of field = and_then (drop_prefix "*/" field) number_of

abbrev is_star : String → Bool
is_star field = str_eq field "*"

-- The modes with a time of day.
abbrev pub timed : Option String → CronParts → Option Picked
timed none p = none
timed (some time) p =
    if is_star p.raw_dom && is_star p.raw_dow
    then some (daily time)
    else if is_star p.raw_dom
    then some (days time p.dow)
    else and_then (number_of p.raw_dom)
        (λ dom. if is_star p.raw_dow && leb dom 28 then some (monthly time dom) else none)

abbrev every_minutes : Option ℕ → Bool → Option Picked
every_minutes none any_hour = none
every_minutes (some n) any_hour = if any_hour then some (every n RepeatUnit.minutes none) else none

abbrev every_hours : Option ℕ → Option ℕ → Option Picked
every_hours (some n) (some at) = some (every n RepeatUnit.hours (some at))
every_hours _ _ = none

abbrev hourly : Option ℕ → Bool → Option Picked
hourly none any_hour = none
hourly (some at) any_hour = if any_hour then some (every 1 RepeatUnit.hours (some at)) else none

-- The repeats, where day and weekday are free.
abbrev pub repeated : CronParts → Option Picked
repeated p =
    if is_star p.raw_dom && is_star p.raw_dow
    then or_else (every_minutes (repeat_of p.raw_minute) (is_star p.raw_hour)) (
        or_else (every_hours (repeat_of p.raw_hour) (number_of p.raw_minute))
          (hourly (number_of p.raw_minute) (is_star p.raw_hour)))
    else none

abbrev picked_or : Option Picked → Picked
picked_or none = custom
picked_or (some m) = m

abbrev pub pick : Option CronParts → Picked
pick none = custom
pick (some p) =
    if not (is_star p.raw_month)
    then custom
    else picked_or
        (or_else (timed (time_of (number_of p.raw_minute) (number_of p.raw_hour)) p) (repeated p))

unfoldable pub schedule_from_cron : String → Picked
unfolding time_text
schedule_from_cron cron = pick (cron_parts cron)

-- `Math.round(n) || 1` between 1 and the limit of the unit
unfoldable pub clamp_repeat : ℕ → RepeatUnit → ℕ
clamp_repeat n RepeatUnit.minutes = max 1 (min 59 (if n == 0 then 1 else n))
clamp_repeat n RepeatUnit.hours = max 1 (min 23 (if n == 0 then 1 else n))

abbrev pub days_field : String → String
days_field d = if str_eq d "1,2,3,4,5" then "1-5" else d

abbrev pub line : String → String → String → String → String
line minute hour dom dow =
    join " " (List.◌∷◌ minute (List.◌∷◌ hour (List.◌∷◌ dom (List.◌∷◌ "*" (List.◌∷◌ dow List.[])))))

abbrev pub repeat_line : ℕ → RepeatUnit → ℕ → String
repeat_line n RepeatUnit.minutes at = line ("*/" ++ decimal n) "*" "*" "*"
repeat_line n RepeatUnit.hours at =
    if n == 1 then line (decimal at) "*" "*" "*" else line (decimal at) ("*/" ++ decimal n) "*" "*"

abbrev pub line_for : ScheduleMode → ScheduleModel → String → String → Option String
line_for ScheduleMode.daily s mm hh = some (line mm hh "*" "*")
line_for ScheduleMode.days s mm hh =
    some (line mm hh "*" (days_field (join "," (map decimal (sort s.days)))))
line_for ScheduleMode.monthly s mm hh = some (line mm hh (decimal s.dom) "*")
line_for ScheduleMode.every s mm hh = some (repeat_line (clamp_repeat s.n s.unit) s.unit s.at)
line_for ScheduleMode.custom s mm hh = none

module _ (number_text : String → String) where
  -- `[hh, mm]` of the time's parts as texts
  abbrev pub hour_of : List String → String
  hour_of List.[] = "undefined"
  hour_of (List.◌∷◌ a parts) = number_text a

  abbrev pub minute_of : List String → String
  minute_of (List.◌∷◌ a (List.◌∷◌ b parts)) = number_text b
  minute_of _ = "undefined"

  unfoldable pub cron_from_schedule : ScheduleModel → Option String
  unfolding clamp_repeat
  cron_from_schedule s =
      let parts = split_on b':' s.time in line_for s.mode s (minute_of parts) (hour_of parts)
