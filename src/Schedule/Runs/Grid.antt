-- ===== src/Schedule/Runs/Grid.antt =====
-- `nextRuns` is the beginning of the list of all moments that the five texts of a cron line allow.
use iot_saas.Prelude.{
  All, ℕ, zero, suc, String, Bool, true, false, not, ◌&&◌, ◌||◌, ◌≡◌, refl, sym, ap, ◌∙◌, Option,
  none, some, List, [], ◌∷◌, ◌++◌, map, keep, take, ltb, ◌==◌, str_eq, arith, Bool-cases, inl, inr,
  ◌⊎◌,
}
use iot_saas.Prelude.Text.{trim}
use iot_saas.Schedule.Fields.{CronParts, cron_field, cron_parts, split_spaces, usable, parts_of}
use iot_saas.Schedule.Runs.{
  Day, WallTime, is_past, day_ok, day_runs, next_runs, minute_moments, hour_moments, moments,
}
use iot_saas.Schedule.Runs.Numbers.{numbers, allows, keep-cong, mem-allows, cron_field-keep}
use iot_saas.Schedule.Runs.First.{moments_of, next_runs_lem}

abbrev pub for_each : {A B : Type 0} → (A → List B) → List A → List B
for_each f [] = []
for_each f (x ∷ xs) = f x ++ for_each f xs

-- The rule of cron for the days, from the texts of the fields: a day of the month and a weekday that are
-- both given are alternatives, else each field that is given holds.
abbrev pub allows_day : (dom month dow : String) → Day → Bool
allows_day dom month dow d =
    let any_dom = str_eq dom "*" in
    let any_dow = str_eq dow "*" in
    let on_dom = allows 1 31 dom d.day in
    let on_dow = allows 0 7 dow d.dow in
    allows 1 12 month d.month
    && (any_dom || on_dom || (not any_dow && on_dow))
    && (any_dow || on_dow || (not any_dom && on_dom))

module _ (now : WallTime) where
  -- Later than now, on the i-th day from today.
  abbrev pub is_later : ℕ → WallTime → Bool
  is_later i w = ltb 0 i || ltb now.hour w.hour || (w.hour == now.hour && ltb now.minute w.minute)

  abbrev pub at_minutes : ℕ → Day → ℕ → List ℕ → List WallTime
  at_minutes i day hour ms =
      keep (is_later i) (map (λ m. record { date = day; hour = hour; minute = m }) ms)

  module _ (add_days : ℕ → Day) where
    abbrev pub day_moments : (minute hour : String) → ℕ → List WallTime
    day_moments minute hour i =
        for_each (λ h. at_minutes i (add_days i) h (keep (allows 0 59 minute) (numbers 0 60)))
          (keep (allows 0 23 hour) (numbers 0 24))

    -- The moments at some minutes of some hours of some days.
    abbrev moments_over : List ℕ → List ℕ → List ℕ → List WallTime
    moments_over ms hs days = for_each (λ j. for_each (λ h. at_minutes j (add_days j) h ms) hs) days

    -- Every minute of every hour of the 400 days from today that the five texts allow and that is later
    -- than now, in order; none where a field is not read.
    abbrev pub allowed_moments : List String → Option CronParts → List WallTime
    allowed_moments (minute ∷ hour ∷ dom ∷ month ∷ dow ∷ []) (some p) =
        for_each (day_moments minute hour)
          (keep (λ i. allows_day dom month dow (add_days i)) (numbers 0 400))
    allowed_moments _ _ = []

  is_past-is_later :
      (i hour minute : ℕ) (day : Day)
      → is_past now i hour minute
        ≡ not (is_later i (record { date = day; hour = hour; minute = minute }))
  unfolding is_past
  is_past-is_later i hour minute day = ground arith

  minute_moments_lem :
      (i : ℕ) (day : Day) (hour : ℕ) (ms : List ℕ)
      → minute_moments now i day hour ms ≡ at_minutes i day hour ms
  minute_moments_lem i day hour [] = refl
  minute_moments_lem i day hour (m ∷ ms) =
      elim (Bool-cases (is_later i (record { date = day; hour = hour; minute = m }))) [
        | inl e ↦
            let k : is_past now i hour m ≡ false = is_past-is_later i hour m day ∙ ap not e in
            rw (k, e, minute_moments_lem i day hour ms) refl
        | inr e ↦
            let k : is_past now i hour m ≡ true = is_past-is_later i hour m day ∙ ap not e in
            rw (k, e, minute_moments_lem i day hour ms) refl
      ]

  hour_moments_lem :
      (i : ℕ) (day : Day) (ms hs : List ℕ)
      → hour_moments now i day ms hs ≡ for_each (λ h. at_minutes i day h ms) hs
  hour_moments_lem i day ms [] = refl
  hour_moments_lem i day ms (h ∷ hs) =
      rw (minute_moments_lem i day h ms, hour_moments_lem i day ms hs) refl

  moments_lem :
      (add_days : ℕ → Day) (p : CronParts) (f i : ℕ)
      → moments now add_days p f i
        ≡ for_each
            (λ j. for_each (λ h. at_minutes j (add_days j) h p.minutes) p.hours)
            (keep (λ j. day_runs p (add_days j)) (numbers i f))
  unfolding numbers
  moments_lem add_days p zero i = refl
  moments_lem add_days p (suc f) i = elim (Bool-cases (day_runs p (add_days i))) [
    | inl e ↦
        rw (e, hour_moments_lem i (add_days i) p.minutes p.hours, moments_lem add_days p f (suc i))
          refl
    | inr e ↦ rw (e, moments_lem add_days p f (suc i)) refl
  ]

-- A field with values is a field that was read.
usable-cases :
    (o : Option (List ℕ))
    → (usable o ≡ none) ⊎ ((vs : List ℕ) × (o ≡ some vs) × (usable o ≡ some vs))
usable-cases none = inl refl
usable-cases (some []) = inl refl
usable-cases (some (v ∷ vs)) = inr (v ∷ vs, refl, refl)

All_everywhere : {P : ℕ → Type 0} (xs : List ℕ) → ((v : ℕ) → P v) → All P xs
All_everywhere [] h = tt
All_everywhere (x ∷ xs) h = (h x, All_everywhere xs h)

module _ (minute hour dom month dow : String) (mi ho dm mo dw : List ℕ) where
  abbrev read_parts : CronParts
  read_parts = record {
    raw_minute = minute;
    raw_hour = hour;
    raw_dom = dom;
    raw_month = month;
    raw_dow = dow;
    minutes = mi;
    hours = ho;
    dom = dm;
    months = mo;
    dow = dw;
  }

  day_runs-allows_day :
      (d : Day)
      → cron_field dom 1 31 ≡ some dm
      → cron_field month 1 12 ≡ some mo
      → cron_field dow 0 7 ≡ some dw
      → day_runs read_parts d ≡ allows_day dom month dow d
  unfolding day_ok
  day_runs-allows_day d a b c = rw⁻¹ (mem-allows dom 1 31 dm refl a d.day) (
      rw⁻¹ (mem-allows month 1 12 mo refl b d.month)
        (rw⁻¹ (mem-allows dow 0 7 dw refl c d.dow) (ground arith)))

  moments_of_read :
      (now : WallTime) (add_days : ℕ → Day)
      → cron_field minute 0 59 ≡ some mi
      → cron_field hour 0 23 ≡ some ho
      → cron_field dom 1 31 ≡ some dm
      → cron_field month 1 12 ≡ some mo
      → cron_field dow 0 7 ≡ some dw
      → moments now add_days read_parts 400 0
        ≡ allowed_moments now add_days (minute ∷ hour ∷ dom ∷ month ∷ dow ∷ []) (some read_parts)
  moments_of_read now add_days a b c d e =
      let days = keep (λ j. day_runs read_parts (add_days j)) (numbers 0 400) in
      let some_minutes = cron_field-keep minute 0 59 mi 60 (omega arith) refl a in
      let some_hours = cron_field-keep hour 0 23 ho 24 (omega arith) refl b in
      let same_days =
        keep-cong (λ j. day_runs read_parts (add_days j))
          (λ j. allows_day dom month dow (add_days j)) (numbers 0 400)
          (All_everywhere (numbers 0 400) (λ j. day_runs-allows_day (add_days j) c d e)) in
      moments_lem now add_days read_parts 400 0
      ∙ ap (λ ms. moments_over now add_days ms ho days) (sym some_minutes)
      ∙ ap (λ hs. moments_over now add_days (keep (allows 0 59 minute) (numbers 0 60)) hs days)
          (sym some_hours)
      ∙ ap
          (moments_over now add_days (keep (allows 0 59 minute) (numbers 0 60))
            (keep (allows 0 23 hour) (numbers 0 24)))
          same_days

module _ (now : WallTime) (add_days : ℕ → Day) where
  moments_of_fields :
      (ts : List String)
      → moments_of now add_days (parts_of ts) ≡ allowed_moments now add_days ts (parts_of ts)
  moments_of_fields (mi ∷ h ∷ d ∷ mo ∷ w ∷ []) = elim (usable-cases (cron_field mi 0 59)) [
    | inl e ↦ rw e refl
    | inr (mis, a, e) ↦ rw e (elim (usable-cases (cron_field h 0 23)) [
      | inl e ↦ rw e refl
      | inr (hs, b, e) ↦ rw e (elim (usable-cases (cron_field d 1 31)) [
        | inl e ↦ rw e refl
        | inr (ds, c, e) ↦ rw e (elim (usable-cases (cron_field mo 1 12)) [
          | inl e ↦ rw e refl
          | inr (mos, f, e) ↦ rw e (elim (usable-cases (cron_field w 0 7)) [
            | inl e ↦ rw e refl
            | inr (ws, g, e) ↦
                rw e (moments_of_read mi h d mo w mis hs ds mos ws now add_days a b c f g)
          ])
        ])
      ])
    ])
  ]
  moments_of_fields [] = refl
  moments_of_fields (a ∷ []) = refl
  moments_of_fields (a ∷ b ∷ []) = refl
  moments_of_fields (a ∷ b ∷ c ∷ []) = refl
  moments_of_fields (a ∷ b ∷ c ∷ d ∷ []) = refl
  moments_of_fields (a ∷ b ∷ c ∷ d ∷ e ∷ f ∷ ts) = refl

  -- nextRuns gives the first n of the minutes of the 400 days from today that are later than now and that
  -- the five texts of the cron line allow, in order, or all where they are fewer: a minute, an hour, a
  -- month and a day by the parts of their texts, the days of the month and the weekdays as alternatives
  -- where neither text is `*`. Where `cronParts` reads no schedule there are none.
  pub next_runs-allowed_moments :
      (cron : String) (n : ℕ)
      → next_runs now add_days cron n
        ≡ take n (allowed_moments now add_days (split_spaces false (trim cron)) (cron_parts cron))
  unfolding cron_parts
  next_runs-allowed_moments cron n =
      next_runs_lem now add_days cron n
      ∙ ap (take n) (moments_of_fields (split_spaces false (trim cron)))
