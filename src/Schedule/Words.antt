-- ===== src/Schedule/Words.antt =====
-- The wording of a schedule (frontend/src/lib/schedule.ts): `daysText`, `cronHuman` and `runText`.
-- `days_between` is the rounded number of days from one date to another, by Date.UTC; it is a parameter
-- with a sign, `none` where the run is before today.
use Prim.Native.String.{◌++◌}
use mathlib.Core.List.{List, [], ◌∷◌}
use iot_saas.Prelude.{
  ◌-◌, ℕ, ◌*◌, ◌%◌, String, Bool, not, ◌&&◌, Option, none, some, map, mem, keep, length, leb, ltb,
  ◌==◌, str_eq, if◌then◌else◌,
}
use iot_saas.Prelude.Text.{join}
use iot_saas.Prelude.Digits.{decimal}
use iot_saas.Schedule.Fields.{CronParts, cron_parts, sort}
use iot_saas.Schedule.Picker.{Picked, RepeatUnit, pad2, time_text, schedule_from_cron}
use iot_saas.Schedule.Runs.{WallTime}

-- `DOW[d]`
unfoldable pub day_name : ℕ → String
day_name d =
    if d == 0
    then "Sun"
    else if d == 1
    then "Mon"
    else if d == 2
    then "Tue"
    else if d == 3
    then "Wed"
    else if d == 4
    then "Thu"
    else if d == 5
    then "Fri"
    else if d == 6
    then "Sat"
    else "undefined"

-- Monday first
unfoldable pub dow_order : List ℕ
dow_order = 1 ∷ 2 ∷ 3 ∷ 4 ∷ 5 ∷ 6 ∷ 0 ∷ []

-- `MONTHS[m]`, from 0 on
unfoldable pub month_name : ℕ → String
month_name m =
    if m == 0
    then "Jan"
    else if m == 1
    then "Feb"
    else if m == 2
    then "Mar"
    else if m == 3
    then "Apr"
    else if m == 4
    then "May"
    else if m == 5
    then "Jun"
    else if m == 6
    then "Jul"
    else if m == 7
    then "Aug"
    else if m == 8
    then "Sep"
    else if m == 9
    then "Oct"
    else if m == 10
    then "Nov"
    else if m == 11
    then "Dec"
    else "undefined"

unfoldable pub ordinal : ℕ → String
ordinal n =
    decimal n
    ++ (if leb 11 (n % 100) && leb (n % 100) 13
        then "th"
        else if n % 10 == 1
        then "st"
        else if n % 10 == 2
        then "nd"
        else if n % 10 == 3
        then "rd"
        else "th")

unfoldable pub days_text : List ℕ → String
unfolding day_name dow_order
days_text days =
    let k = join "," (map decimal (sort days)) in
    if str_eq k "1,2,3,4,5"
    then "weekdays"
    else if str_eq k "0,6"
    then "weekends"
    else if length days == 7
    then "every day"
    else join ", " (map day_name (keep (λ d. mem d days) dow_order))

abbrev at_or_zero : Option ℕ → ℕ
at_or_zero none = 0
at_or_zero (some at) = at

-- `P.hours.flatMap((hh) => P.minutes.map((m) => …))`
abbrev all_times : List ℕ → List ℕ → List String
all_times [] minutes = []
all_times (hh ∷ hours) minutes =
    mathlib.Core.List.◌++◌ (map (λ m. time_text hh m) minutes) (all_times hours minutes)

abbrev last_of : List String → String
last_of [] = "undefined"
last_of (t ∷ []) = t
last_of (t ∷ u ∷ ts) = last_of (u ∷ ts)

abbrev all_but_last : List String → List String
all_but_last [] = []
all_but_last (t ∷ []) = []
all_but_last (t ∷ u ∷ ts) = t ∷ all_but_last (u ∷ ts)

abbrev one_dom : List ℕ → Option String
one_dom (d ∷ []) = some ("on the " ++ (ordinal d ++ " of each month"))
one_dom _ = none

-- the days, where the month is free
abbrev when_of : CronParts → Option String
when_of p =
    if not (str_eq p.raw_month "*")
    then none
    else if str_eq p.raw_dom "*" && str_eq p.raw_dow "*"
    then some "every day"
    else if str_eq p.raw_dom "*"
    then some (days_text p.dow)
    else if str_eq p.raw_dow "*"
    then one_dom p.dom
    else none

abbrev on_custom : Option String → List String → Bool → String
on_custom none times few = "on a custom schedule"
on_custom (some when) times few =
    if not few
    then "on a custom schedule"
    else when
      ++ (" at "
          ++ (join ", " (all_but_last times)
              ++ ((if ltb 1 (length times) then " and " else "") ++ last_of times)))

abbrev custom_text : Option CronParts → String
custom_text none = "invalid schedule"
custom_text (some p) =
    on_custom (when_of p) (all_times p.hours p.minutes) (leb (length p.minutes * length p.hours) 4)

-- the words of a mode; `custom` is worded from the cron line
unfoldable pub words_of : Picked → Option CronParts → String
unfolding days_text ordinal
words_of (Picked.daily time) p = "every day at " ++ time
words_of (Picked.days time days) p = days_text days ++ (" at " ++ time)
words_of (Picked.monthly time dom) p = "on the " ++ (ordinal dom ++ (" of each month at " ++ time))
words_of (Picked.every n RepeatUnit.minutes at) p = "every " ++ (decimal n ++ " min")
words_of (Picked.every n RepeatUnit.hours at) p =
    if n == 1
    then "every hour at :" ++ pad2 (at_or_zero at)
    else "every " ++ (decimal n ++ (" hours at :" ++ pad2 (at_or_zero at)))
words_of Picked.custom p = custom_text p

unfoldable pub cron_human : String → String
unfolding words_of
cron_human cron = words_of (schedule_from_cron cron) (cron_parts cron)

-- `runText`, for the whole days from today to the run
unfoldable pub run_text : Option ℕ → WallTime → String
unfolding day_name month_name
run_text days_from_today run =
    let hm = time_text run.hour run.minute in
    let date =
      day_name run.date.dow
      ++ (" "
          ++ (decimal run.date.day ++ (" " ++ (month_name (run.date.month - 1) ++ (" " ++ hm))))) in
    elim days_from_today [
      | none ↦ date
      | some d ↦ if d == 0 then "Today " ++ hm else if d == 1 then "Tomorrow " ++ hm else date
    ]
