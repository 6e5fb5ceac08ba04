-- ===== src/Schedule/RoundTrip.antt =====
-- A cron line that the picker writes opens in the picker as what it was written from.
use iot_saas.Schedule.Shown.{
  show_monthly, show_daily, show_hours, show_hourly, show_minutes, show_days,
}
use iot_saas.Schedule.Sets.{sort-IsAscending, All-sort, mem-sort, HasNoRepeat, IsAscending}
use Prim.Native.String.{[], ◌∷◌}
use text.Mathlib.TextLemmas.{nil-append, cons-append}
use mathlib.Core.List.{List}
use mathlib.Core.Path.{refl}
use iot_saas.Schedule.Singles.{cron_field-decimals}
use iot_saas.Prelude.{
  ◌^◌, ◌<◌, if_both, All-map, Option, length, inr, eq_iff, inl, Bool-cases, sym, map, ℕ, ◌≤◌,
  String, true, ◌≡◌, ap, ◌∙◌, All, ◌==◌, str_eq, arith, none, some,
}
use iot_saas.Prelude.Text.{join_more, is_space, split_on, join}
use iot_saas.Prelude.Digits.{
  is_filled, IsDigits, decimal, decimal-IsDigits, number_of, number_of-decimal, value_onto,
}
use iot_saas.Schedule.Fields.{
  insert, sort, add_all, count_up, cut, read_head, read_part, field_values, or_number, cron_field,
}
use iot_saas.Schedule.Picker.{
  cron_from_schedule, line_for, repeat_line, pad2, pad_start, ScheduleModel, ScheduleMode,
  clamp_repeat, days_field, RepeatUnit, Picked, time_text, schedule_from_cron, line,
}
use iot_saas.Schedule.Lines.{split_on-Lacks, digits-Lacks, split_on_at, Lacks}
use iot_saas.Schedule.Singles.{cron_field-decimals, split_on-decimals}
use iot_saas.Schedule.Stars.{nonempty_of_mem, decimals_star, decimals-IsField, every_field}

abbrev pub value_of : String → ℕ
value_of t = or_number (number_of t) 0

pub values-decimals : (ns : List ℕ) → map value_of (map decimal ns) ≡ ns
values-decimals List.[] = refl
values-decimals (List.◌∷◌ n ns) = rw (number_of-decimal n, values-decimals ns) refl

abbrev weekdays : List ℕ
weekdays = List.◌∷◌ 1 (List.◌∷◌ 2 (List.◌∷◌ 3 (List.◌∷◌ 4 (List.◌∷◌ 5 List.[]))))

-- The text that is written as a range is the text of those days only.
weekdays_only :
    (n : ℕ) (ns : List ℕ)
    → join "," (map decimal (List.◌∷◌ n ns)) ≡ "1,2,3,4,5"
    → List.◌∷◌ n ns ≡ weekdays
unfolding split_on number_of value_onto
weekdays_only n ns h =
    sym (values-decimals (List.◌∷◌ n ns))
    ∙ ap (map value_of) (sym (split_on-decimals n ns) ∙ ap (split_on b',') h)

cron_field-weekdays : cron_field "1-5" 0 7 ≡ some weekdays
unfolding cron_field split_on field_values read_part read_head cut number_of value_onto count_up
    add_all sort insert
cron_field-weekdays = refl

show_picked_days :
    (m h v : ℕ) (vs : List ℕ)
    → m ≤ 59
    → h ≤ 23
    → All (λ n. n ≤ 6) (List.◌∷◌ v vs)
    → IsAscending (List.◌∷◌ v vs)
    → schedule_from_cron
        (line (decimal m) (decimal h) "*" (days_field (join "," (map decimal (List.◌∷◌ v vs)))))
      ≡ Picked.days (time_text h m) (List.◌∷◌ v vs)
unfolding join is_space
show_picked_days m h v vs k l f a =
    let ns = List.◌∷◌ v vs in
    elim (Bool-cases (str_eq (join "," (map decimal ns)) "1,2,3,4,5")) [
      | inl e ↦
          let q = weekdays_only v vs ((eq_iff (join "," (map decimal ns)) "1,2,3,4,5").0 e) in
          rw e (
            show_days m h 1 (List.◌∷◌ 2 (List.◌∷◌ 3 (List.◌∷◌ 4 (List.◌∷◌ 5 List.[])))) "1-5" k l
              (refl, (refl, (refl, (refl, tt)))) refl cron_field-weekdays
            ∙ ap (Picked.days (time_text h m)) (sym q))
      | inr e ↦ rw e (
          show_days m h v vs (join_more "," (decimal v) (map decimal vs)) k l
            (decimals-IsField v vs) (decimals_star v vs)
            (cron_field-decimals 0 7 v vs
              (All-map (λ n q. (omega arith, omega arith, ground arith)) ns f) a))
    ]

sort-filled : (ds : List ℕ) → 1 ≤ length ds → (v : ℕ) × (vs : List ℕ) × (sort ds ≡ List.◌∷◌ v vs)
sort-filled List.[] h = absurd (omega arith)
sort-filled (List.◌∷◌ d ds) h =
    nonempty_of_mem d (sort (List.◌∷◌ d ds)) (rw (mem-sort d (List.◌∷◌ d ds)) (ground arith))

number_of-pad_start : (s : String) → is_filled s ≡ true → number_of (pad_start s) ≡ number_of s
unfolding number_of value_onto
number_of-pad_start [] h = absurd (ground arith)
number_of-pad_start (c ∷ []) h = refl
number_of-pad_start (c ∷ d ∷ s) h = refl

number_of-pad2 : (n : ℕ) → number_of (pad2 n) ≡ some n
unfolding pad2
number_of-pad2 n = number_of-pad_start (decimal n) (decimal-IsDigits n).1 ∙ number_of-decimal n

pad_start-IsDigits : (s : String) → IsDigits s → IsDigits (pad_start s)
pad_start-IsDigits [] h = (refl, (refl, tt))
pad_start-IsDigits (c ∷ []) h = (refl, h)
pad_start-IsDigits (c ∷ d ∷ s) h = h

pad2-Lacks : (n : ℕ) → Lacks b':' (pad2 n)
unfolding pad2
pad2-Lacks n =
    digits-Lacks b':' (pad2 n) refl (pad_start-IsDigits (decimal n) (decimal-IsDigits n).0)

split_on-time_text :
    (h m : ℕ) → split_on b':' (time_text h m) ≡ List.◌∷◌ (pad2 h) (List.◌∷◌ (pad2 m) List.[])
unfolding time_text
split_on-time_text h m =
    rw (cons-append, nil-append)
      (split_on_at b':' ":" (pad2 h) (pad2 m) (pad2-Lacks h) refl
        ∙ ap (λ ts. List.◌∷◌ (pad2 h) ts) (split_on-Lacks b':' (pad2 m) (pad2-Lacks m)))

-- A model that the picker can hold: its time is a time of day, its days come once, and the day of the
-- month and the minute past the hour are in their limits.
pub record IsPickable (hour minute : ℕ) (s : ScheduleModel) : Type 0 where
  pub hours : hour ≤ 23
  pub minutes : minute ≤ 59
  pub time : s.time ≡ time_text hour minute
  pub filled : 1 ≤ length s.days
  pub weekdays : All (λ n. n ≤ 6) s.days
  pub once : HasNoRepeat s.days
  pub dom_low : 1 ≤ s.dom
  pub dom_high : s.dom ≤ 28
  pub past_hour : s.at ≤ 59

abbrev pub at_for : RepeatUnit → ℕ → Option ℕ
at_for RepeatUnit.minutes at = none
at_for RepeatUnit.hours at = some at

-- what the mode of a model shows of it
abbrev pub picked : ScheduleMode → ScheduleModel → Picked
picked ScheduleMode.daily s = Picked.daily s.time
picked ScheduleMode.days s = Picked.days s.time (sort s.days)
picked ScheduleMode.monthly s = Picked.monthly s.time s.dom
picked ScheduleMode.every s = Picked.every (clamp_repeat s.n s.unit) s.unit (at_for s.unit s.at)
picked ScheduleMode.custom s = Picked.custom

line_of_some : (a b : String) → some a ≡ some b → a ≡ b
line_of_some a b h = ap (λ o. elim o [ none ↦ a | some c ↦ c ]) h

show_repeat :
    (k at : ℕ)
    → 1 ≤ k
    → at ≤ 59
    → schedule_from_cron (repeat_line k RepeatUnit.hours at)
      ≡ Picked.every k RepeatUnit.hours (some at)
show_repeat k at l h =
    if_both (λ t. schedule_from_cron t ≡ Picked.every k RepeatUnit.hours (some at)) (k == 1)
      (line (decimal at) "*" "*" "*") (line (decimal at) (every_field k) "*" "*")
      (λ q. show_hourly at h ∙ ap (λ j. Picked.every j RepeatUnit.hours (some at)) (ground arith))
      (λ q. show_hours k at l h)

show_every :
    (n at : ℕ) (unit : RepeatUnit) (cron : String)
    → at ≤ 59
    → some (repeat_line (clamp_repeat n unit) unit at) ≡ some cron
    → schedule_from_cron cron ≡ Picked.every (clamp_repeat n unit) unit (at_for unit at)
unfolding clamp_repeat
show_every n at RepeatUnit.minutes cron h e =
    let k = clamp_repeat n RepeatUnit.minutes in
    rw⁻¹ (line_of_some (repeat_line k RepeatUnit.minutes at) cron e) (show_minutes k (omega arith))
show_every n at RepeatUnit.hours cron h e =
    let k = clamp_repeat n RepeatUnit.hours in
    rw⁻¹ (line_of_some (repeat_line k RepeatUnit.hours at) cron e)
      (show_repeat k at (omega arith) h)

show_line :
    (hour minute : ℕ) (s : ScheduleModel) (mode : ScheduleMode) (cron : String)
    → IsPickable hour minute s
    → line_for mode s (decimal minute) (decimal hour) ≡ some cron
    → schedule_from_cron cron ≡ picked mode s
show_line hour minute s ScheduleMode.daily cron h e = rw (h.time) (
    rw⁻¹ (line_of_some (line (decimal minute) (decimal hour) "*" "*") cron e)
      (show_daily minute hour h.minutes h.hours))
show_line hour minute s ScheduleMode.days cron h e =
    let (v, vs, q) = sort-filled s.days h.filled in
    let low = All-sort (λ n. n ≤ 6) s.days h.weekdays in
    let up = sort-IsAscending s.days h.once in
    rw (h.time, q)
      (rw⁻¹
        (line_of_some
          (line (decimal minute) (decimal hour) "*"
            (days_field (join "," (map decimal (List.◌∷◌ v vs)))))
          cron (rw q at e))
        (show_picked_days minute hour v vs h.minutes h.hours (rw q at low) (rw q at up)))
show_line hour minute s ScheduleMode.monthly cron h e = rw (h.time) (
    rw⁻¹ (line_of_some (line (decimal minute) (decimal hour) (decimal s.dom) "*") cron e)
      (show_monthly minute hour s.dom h.minutes h.hours h.dom_low h.dom_high))
show_line hour minute s ScheduleMode.every cron h e = show_every s.n s.at s.unit cron h.past_hour e
show_line hour minute s ScheduleMode.custom cron h e = absurd (ground arith)

-- A line that the picker writes opens in the picker in the same mode: with the same time, the same
-- days in order, the same day of the month, or the repeat within its limits. Number of a text of
-- digits, as a text again, is that number below 2 ^ 53.
pub schedule_from_cron-cron_from_schedule :
    (number_text : String → String)
    → ((t : String) (n : ℕ) → number_of t ≡ some n → n < 2 ^ 53 → number_text t ≡ decimal n)
    → (hour minute : ℕ) (s : ScheduleModel) (cron : String) → IsPickable hour minute s
    → cron_from_schedule number_text s ≡ some cron
    → schedule_from_cron cron ≡ picked s.mode s
unfolding cron_from_schedule
schedule_from_cron-cron_from_schedule number_text reads hour minute s cron h e =
    let k = h.hours in
    let l = h.minutes in
    let parts : split_on b':' s.time ≡ List.◌∷◌ (pad2 hour) (List.◌∷◌ (pad2 minute) List.[]) =
      rw h.time (split_on-time_text hour minute) in
    show_line hour minute s s.mode cron h (
      rw
        (
          parts,
          reads (pad2 minute) minute (number_of-pad2 minute) (omega arith),
          reads (pad2 hour) hour (number_of-pad2 hour) (omega arith),
        )
        at e)
