-- ===== src/Live/Buffer/Newest.antt =====
-- Which reading of a metric waits for the next flush (`push` of frontend/src/lib/live-buffer.ts).
use iot_saas.Prelude.{
  String, true, false, ◌&&◌, ◌≡◌, refl, Option, none, some, List, [], ◌∷◌, ◌++◌, append-nil,
  append_assoc, All, All-append, All-map, str_eq, if◌then◌else◌, Bool-cases, inl, inr,
}
use iot_saas.Prelude.Numbers.{Numbers}
use iot_saas.Live.Buffer.{LatestReading, LiveBuffer, newer}
use iot_saas.Live.Buffer.Delivery.{
  Frame, reading_of, newest, reading_at, push_all, reading_at-push_all,
}
use iot_saas.Live.Window.Append.{IsOrder}

module _ {N : Type 0} where
  -- The readings of one metric among the frames, in their order.
  abbrev pub readings_of : String → String → List (Frame N) → List (LatestReading N)
  readings_of device metric [] = []
  readings_of device metric (f ∷ fs) =
      let rest = readings_of device metric fs in
      if str_eq f.device device && str_eq f.metric metric then reading_of f ∷ rest else rest

  abbrev pub option_list : Option (LatestReading N) → List (LatestReading N)
  option_list none = []
  option_list (some r) = r ∷ []

-- None of no readings; else one of them that none before it is later than, and that is later than all
-- after it.
pub data IsNewest {N : Type 0} (𝓝 : Numbers N) (rs : List (LatestReading N))
    : Option (LatestReading N) → Type 0 where
  no_reading : rs ≡ [] → IsNewest 𝓝 rs none
  newest_of :
      (front : List (LatestReading N)) (r : LatestReading N) (back : List (LatestReading N))
      → rs ≡ front ++ r ∷ back
      → All (λ q. 𝓝.le q.t r.t ≡ true) front
      → All (λ q. 𝓝.le r.t q.t ≡ false) back
      → IsNewest 𝓝 rs (some r)

module _ {N : Type 0} (𝓝 : Numbers N) (o : IsOrder 𝓝) where
  newer-IsNewest :
      (rs : List (LatestReading N)) (held : Option (LatestReading N)) (r : LatestReading N)
      → IsNewest 𝓝 rs held
      → IsNewest 𝓝 (rs ++ r ∷ []) (some (newer 𝓝 held r))
  newer-IsNewest rs _ r (no_reading e) = rw e (newest_of [] r [] refl tt tt)
  newer-IsNewest rs _ r (newest_of front q back e low high) = elim (Bool-cases (𝓝.le q.t r.t)) [
    | inl k ↦
        rw (k, e)
          (newest_of (front ++ q ∷ back) r [] refl
            (All-append (λ p. 𝓝.le p.t r.t ≡ true) front (q ∷ back)
              (All-map (λ p h. o.trans p.t q.t r.t h k) front low)
              (k, All-map (λ p h. o.trans p.t q.t r.t (o.total q.t p.t h) k) back high))
            tt)
    | inr k ↦
        rw (k, e)
          (newest_of front q (back ++ r ∷ []) (append_assoc front (q ∷ back) (r ∷ [])) low
            (All-append (λ p. 𝓝.le q.t p.t ≡ false) back (r ∷ []) high (k, tt)))
  ]

  newest-IsNewest :
      (device metric : String) (fs : List (Frame N)) (rs : List (LatestReading N))
      (held : Option (LatestReading N))
      → IsNewest 𝓝 rs held
      → IsNewest 𝓝 (rs ++ readings_of device metric fs) (newest 𝓝 device metric fs held)
  newest-IsNewest device metric [] rs held h = rw (append-nil rs) h
  newest-IsNewest device metric (f ∷ fs) rs held h =
      elim (Bool-cases (str_eq f.device device && str_eq f.metric metric)) [
        | inl e ↦
            let next =
              newest-IsNewest device metric fs (rs ++ reading_of f ∷ [])
                (some (newer 𝓝 held (reading_of f))) (newer-IsNewest rs held (reading_of f) h) in
            rw e (rw (append_assoc rs (reading_of f ∷ []) (readings_of device metric fs)) at next)
        | inr e ↦ rw e (newest-IsNewest device metric fs rs held h)
      ]

  held-IsNewest : (held : Option (LatestReading N)) → IsNewest 𝓝 (option_list held) held
  held-IsNewest none = no_reading refl
  held-IsNewest (some r) = newest_of [] r [] refl tt tt

  -- Where no time is NaN and the page is visible, the buffer holds for each device and metric the newest of
  -- the reading that it held and the readings pushed since: none before it is later, and all after it are
  -- earlier, so that the last of equal times is the one.
  pub reading_at-IsNewest :
      (device metric : String) (fs : List (Frame N)) (b : LiveBuffer N)
      → IsNewest 𝓝
          (option_list (reading_at device metric b) ++ readings_of device metric fs)
          (reading_at device metric (push_all 𝓝 fs b))
  reading_at-IsNewest device metric fs b = rw (reading_at-push_all 𝓝 device metric fs b) (
      newest-IsNewest device metric fs (option_list (reading_at device metric b))
        (reading_at device metric b) (held-IsNewest (reading_at device metric b)))
