-- ===== src/Schedule/Runs/First.antt =====
-- `nextRuns` is the beginning of the moments that a cron line allows.
use iot_saas.Schedule.Runs.{
  Day, WallTime, is_past, push_minutes, go_on, push_hours, day_runs, push_days, next_runs,
  minute_moments, hour_moments, moments,
}
use iot_saas.Prelude.{
  refl, Option-cases, take_all, ◌≤◌, take-append, append-nil, length-append, ◌∙◌, if_both, take,
  sym, arith, Bool-cases, inl, ◌⊎◌, inr, ◌≡◌, append_assoc, ◌<◌, ℕ, zero, suc, String, Bool, true,
  false, not, Option, none, some, List, [], ◌∷◌, ◌++◌, length, ltb, leb,
}
use iot_saas.Schedule.Fields.{CronParts, cron_parts}

-- What a loop has made of `out` with the moments `ms` to come: all of them, or the first n.
abbrev Adds : ℕ → List WallTime → List WallTime → Bool × List WallTime → Type 0
Adds n out ms r =
    ((r.0 ≡ false) × (r.1 ≡ out ++ ms) × (length (out ++ ms) < n))
    ⊎ ((r.0 ≡ true) × (r.1 ≡ take n (out ++ ms)) × (n ≤ length (out ++ ms)))

Adds-nil : (n : ℕ) (out : List WallTime) → length out < n → Adds n out [] (false, out)
Adds-nil n out h = inl (refl, sym (append-nil out), omega (arith, length-append out []))

Adds-cons :
    (n : ℕ) (w : WallTime) (out ms : List WallTime) (r : Bool × List WallTime)
    → Adds n (out ++ w ∷ []) ms r
    → Adds n out (w ∷ ms) r
Adds-cons n w out ms r h = rw (append_assoc out (w ∷ []) ms) at h

Adds-assoc :
    (n : ℕ) (out ms ks : List WallTime) (r : Bool × List WallTime)
    → Adds n (out ++ ms) ks r
    → Adds n out (ms ++ ks) r
Adds-assoc n out ms ks r h = rw (append_assoc out ms ks) at h

Adds-full : (n : ℕ) (out ms : List WallTime) → length out ≡ n → Adds n out ms (true, out)
Adds-full n out ms h = inr (
  refl,
  sym (take-append n out ms (omega arith) ∙ take_all n out (omega arith)),
  omega (arith, length-append out ms),
)

Adds-go_on :
    (n : ℕ) (out ms ks : List WallTime) (r : Bool × List WallTime)
    (rest : List WallTime → Bool × List WallTime)
    → Adds n out ms r
    → (length (out ++ ms) < n → Adds n (out ++ ms) ks (rest (out ++ ms)))
    → Adds n out (ms ++ ks) (go_on r rest)
Adds-go_on n out ms ks (true, o) rest (inl (a, b, c)) k = absurd (ground arith)
Adds-go_on n out ms ks (false, o) rest (inr (a, b, c)) k = absurd (ground arith)
Adds-go_on n out ms ks (true, o) rest (inr (a, b, c)) k = rw⁻¹ (append_assoc out ms ks) (
    inr
      (refl, b ∙ sym (take-append n (out ++ ms) ks c), omega (arith, length-append (out ++ ms) ks)))
Adds-go_on n out ms ks (false, o) rest (inl (a, b, c)) k =
    rw b (Adds-assoc n out ms ks (rest (out ++ ms)) (k c))

module _ (now : WallTime) where
  Adds-push_minutes :
      (n i : ℕ) (day : Day) (hour : ℕ) (minutes : List ℕ) (out : List WallTime)
      → length out < n
      → Adds n out
          (minute_moments now i day hour minutes)
          (push_minutes now n i day hour minutes out)
  unfolding push_minutes
  Adds-push_minutes n i day hour [] out h = Adds-nil n out h
  Adds-push_minutes n i day hour (minute ∷ minutes) out h =
      let w : WallTime = record { date = day; hour = hour; minute = minute } in
      let next = out ++ w ∷ [] in
      elim (Bool-cases (is_past now i hour minute)) [
        | inl e ↦ rw e (Adds-push_minutes n i day hour minutes out h)
        | inr e ↦ rw e (
            if_both (Adds n out (w ∷ minute_moments now i day hour minutes)) (leb n (length next))
              (true, next) (push_minutes now n i day hour minutes next)
              (λ k.
                Adds-cons n w out (minute_moments now i day hour minutes) (true, next)
                  (Adds-full n next (minute_moments now i day hour minutes)
                    (ground (arith, length-append out (w ∷ [])))))
              (λ k.
                Adds-cons n w out (minute_moments now i day hour minutes)
                  (push_minutes now n i day hour minutes next)
                  (Adds-push_minutes n i day hour minutes next (ground arith))))
      ]

  Adds-push_hours :
      (n i : ℕ) (day : Day) (minutes hours : List ℕ) (out : List WallTime)
      → length out < n
      → Adds n out (hour_moments now i day minutes hours) (push_hours now n i day minutes hours out)
  unfolding push_hours
  Adds-push_hours n i day minutes [] out h = Adds-nil n out h
  Adds-push_hours n i day minutes (hour ∷ hours) out h =
      let ms = minute_moments now i day hour minutes in
      Adds-go_on n out ms (hour_moments now i day minutes hours)
        (push_minutes now n i day hour minutes out) (push_hours now n i day minutes hours)
        (Adds-push_minutes n i day hour minutes out h)
        (Adds-push_hours n i day minutes hours (out ++ ms))

module _ (now : WallTime) (add_days : ℕ → Day) where
  Adds-push_days :
      (n : ℕ) (p : CronParts) (f i : ℕ) (out : List WallTime)
      → length out < n
      → Adds n out (moments now add_days p f i) (push_days now add_days n p f i out)
  unfolding push_days
  Adds-push_days n p zero i out h = Adds-nil n out h
  Adds-push_days n p (suc f) i out h =
      let day = add_days i in
      let ms = hour_moments now i day p.minutes p.hours in
      let more : not (ltb (length out) n) ≡ false = ground arith in
      elim (Bool-cases (day_runs p day)) [
        | inr e ↦ rw (more, e) (Adds-push_days n p f (suc i) out h)
        | inl e ↦
            rw (more, e)
              (Adds-go_on n out ms (moments now add_days p f (suc i))
                (push_hours now n i day p.minutes p.hours out)
                (push_days now add_days n p f (suc i))
                (Adds-push_hours now n i day p.minutes p.hours out h)
                (Adds-push_days n p f (suc i) (out ++ ms)))
      ]

  Adds-taken :
      (n : ℕ) (ms : List WallTime) (r : Bool × List WallTime) → Adds n [] ms r → r.1 ≡ take n ms
  Adds-taken n ms r (inl (a, b, c)) = b ∙ sym (take_all n ms (omega arith))
  Adds-taken n ms r (inr (a, b, c)) = b

  runs_of_some :
      (n : ℕ) (p : CronParts)
      → (push_days now add_days n p 400 0 []).1 ≡ take n (moments now add_days p 400 0)
  unfolding push_days
  runs_of_some zero p = refl
  runs_of_some (suc n) p =
      Adds-taken (suc n) (moments now add_days p 400 0) (push_days now add_days (suc n) p 400 0 [])
        (Adds-push_days (suc n) p 400 0 [] (omega arith))

  abbrev pub moments_of : Option CronParts → List WallTime
  moments_of none = []
  moments_of (some p) = moments now add_days p 400 0

  pub next_runs_lem :
      (cron : String) (n : ℕ)
      → next_runs now add_days cron n ≡ take n (moments_of (cron_parts cron))
  unfolding next_runs
  next_runs_lem cron n = elim (Option-cases (cron_parts cron)) [
    | inl e ↦ rw e (sym (take_all n [] (omega arith)))
    | inr (p, e) ↦ rw e (runs_of_some n p)
  ]
