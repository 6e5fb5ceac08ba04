-- ===== src/Schedule/Runs.antt =====
-- The next runs of a cron line: `nextRuns` (frontend/src/lib/schedule.ts). `now` is wallNow at the
-- zone, and `add_days` is addDays from its date: the calendar is the runtime's.
pub mod First
pub mod Numbers
pub mod Grid
use iot_saas.Prelude.{
  refl, Option-cases, take_all, ◌≤◌, take-append, append-nil, length-append, ◌∙◌, if_both, take,
  sym, arith, Bool-cases, inl, ◌⊎◌, inr, ◌≡◌, append_assoc, ◌<◌, ℕ, zero, suc, String, Bool, true,
  false, not, ◌&&◌, ◌||◌, Option, none, some, List, [], ◌∷◌, ◌++◌, mem, length, ltb, leb, ◌==◌,
  str_eq, if◌then◌else◌,
}
use iot_saas.Schedule.Fields.{CronParts, cron_parts}

pub record Day : Type 0 where
  pub year : ℕ
  pub month : ℕ
  pub day : ℕ
  pub dow : ℕ

pub record WallTime : Type 0 where
  pub date : Day
  pub hour : ℕ
  pub minute : ℕ

-- The day rule of cron, for the parts and the two tests that `*` stands there.
unfoldable pub day_ok : CronParts → Day → Bool
day_ok p d =
    let dom_any = str_eq p.raw_dom "*" in
    let dow_any = str_eq p.raw_dow "*" in
    if dom_any && dow_any
    then true
    else if dom_any
    then mem d.dow p.dow
    else if dow_any
    then mem d.day p.dom
    else mem d.day p.dom || mem d.dow p.dow

abbrev pub go_on :
    Bool × List WallTime → (List WallTime → Bool × List WallTime) → Bool × List WallTime
go_on (true, out) rest = (true, out)
go_on (false, out) rest = rest out

-- whether a day has runs
abbrev pub day_runs : CronParts → Day → Bool
day_runs p d = mem d.month p.months && day_ok p d

module _ (now : WallTime) where
  -- `i === 0 && (hour < now.hour || (hour === now.hour && minute <= now.minute))`
  unfoldable pub is_past : ℕ → ℕ → ℕ → Bool
  is_past i hour minute =
      i == 0 && (ltb hour now.hour || (hour == now.hour && leb minute now.minute))

  -- The loop over the minutes of an hour; the flag says that `return out` was met.
  unfoldable pub push_minutes : ℕ → ℕ → Day → ℕ → List ℕ → List WallTime → Bool × List WallTime
  unfolding is_past
  push_minutes n i day hour [] out = (false, out)
  push_minutes n i day hour (minute ∷ minutes) out =
      let next = out ++ record { date = day; hour = hour; minute = minute } ∷ [] in
      let skipped = push_minutes n i day hour minutes out in
      let pushed = push_minutes n i day hour minutes next in
      if is_past i hour minute
      then skipped
      else if leb n (length next)
      then (true, next)
      else pushed

  unfoldable pub push_hours : ℕ → ℕ → Day → List ℕ → List ℕ → List WallTime → Bool × List WallTime
  unfolding push_minutes
  push_hours n i day minutes [] out = (false, out)
  push_hours n i day minutes (hour ∷ hours) out =
      go_on (push_minutes n i day hour minutes out) (push_hours n i day minutes hours)

  -- The moments that the fields allow, without the limit: of an hour and of a day.
  abbrev pub minute_moments : ℕ → Day → ℕ → List ℕ → List WallTime
  minute_moments i day hour [] = []
  minute_moments i day hour (minute ∷ minutes) =
      let later = minute_moments i day hour minutes in
      if is_past i hour minute
      then later
      else record { date = day; hour = hour; minute = minute } ∷ later

  abbrev pub hour_moments : ℕ → Day → List ℕ → List ℕ → List WallTime
  hour_moments i day minutes [] = []
  hour_moments i day minutes (hour ∷ hours) =
      minute_moments i day hour minutes ++ hour_moments i day minutes hours

module _ (now : WallTime) (add_days : ℕ → Day) where
  -- The loop over the days from the i-th on, with so many to go.
  unfoldable pub push_days : ℕ → CronParts → ℕ → ℕ → List WallTime → Bool × List WallTime
  unfolding push_hours day_ok
  push_days n p zero i out = (false, out)
  push_days n p (suc f) i out =
      let day = add_days i in
      let today = push_hours now n i day p.minutes p.hours out in
      let skipped = push_days n p f (suc i) out in
      if not (ltb (length out) n)
      then (false, out)
      else if not (day_runs p day)
      then skipped
      else go_on today (push_days n p f (suc i))

  abbrev pub runs_of : ℕ → Option CronParts → List WallTime
  runs_of n none = []
  runs_of n (some p) = (push_days n p 400 0 []).1

  unfoldable pub next_runs : String → ℕ → List WallTime
  unfolding push_days
  next_runs cron n = runs_of n (cron_parts cron)

  -- the moments of so many days from the i-th on
  abbrev pub moments : CronParts → ℕ → ℕ → List WallTime
  moments p zero i = []
  moments p (suc f) i =
      let later = moments p f (suc i) in
      if day_runs p (add_days i)
      then hour_moments now i (add_days i) p.minutes p.hours ++ later
      else later
