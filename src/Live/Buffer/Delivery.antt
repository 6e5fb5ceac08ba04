-- ===== src/Live/Buffer/Delivery.antt =====
-- What a buffer holds for the next flush once frames are pushed while the page is visible.
use iot_saas.Prelude.{
  String, true, false, ◌&&◌, ◌≡◌, refl, sym, ap, ◌∙◌, Option, some, List, [], ◌∷◌, ◌++◌, append-nil,
  append_assoc, str_eq, eq_iff, if◌then◌else◌, Bool-cases, inl, inr,
}
use iot_saas.Prelude.Numbers.{Numbers}
use iot_saas.Live.Maps.{lookup, store, has, lookup-store_same, lookup-store_other}
use iot_saas.Live.Buffer.{LivePoint, LatestReading, LiveBuffer, series_key, or_empty, newer, push}

pub record Frame (N : Type 0) : Type 0 where
  pub device : String
  pub metric : String
  pub value : N
  pub t : N

module _ {N : Type 0} where
  abbrev pub reading_of : Frame N → LatestReading N
  reading_of f = record { metric = f.metric; value = f.value; t = f.t }

  abbrev pub point_of : Frame N → LivePoint N
  point_of f = record { t = f.t; v = f.value }

  -- The points of one series among the frames, in their order.
  abbrev pub points_of : String → List (Frame N) → List (LivePoint N)
  points_of key [] = []
  points_of key (f ∷ fs) =
      let rest = points_of key fs in
      if str_eq (series_key f.device f.metric) key then point_of f ∷ rest else rest

  -- The pending points of a series, and the pending reading of a metric.
  abbrev pub points_at : String → LiveBuffer N → List (LivePoint N)
  points_at key b = or_empty (lookup key b.series)

  abbrev pub reading_at : String → String → LiveBuffer N → Option (LatestReading N)
  reading_at device metric b = lookup metric (or_empty (lookup device b.latest))

module _ {N : Type 0} (𝓝 : Numbers N) where
  unfoldable pub push_all : List (Frame N) → LiveBuffer N → LiveBuffer N
  push_all [] b = b
  push_all (f ∷ fs) b = push_all fs (push 𝓝 false f.device f.metric f.value f.t b)

  -- The newest reading of one metric: the last of those with the greatest time.
  abbrev pub newest :
      String → String → List (Frame N) → Option (LatestReading N) → Option (LatestReading N)
  newest device metric [] r = r
  newest device metric (f ∷ fs) r = newest device metric fs (
      if str_eq f.device device && str_eq f.metric metric
      then some (newer 𝓝 r (reading_of f))
      else r)

  point_step :
      (key : String) (f : Frame N) (b : LiveBuffer N)
      → has key b.listeners ≡ true
      → points_at key (push 𝓝 false f.device f.metric f.value f.t b)
        ≡ points_at key b ++ points_of key (f ∷ [])
  unfolding push
  point_step key f b h = elim (Bool-cases (str_eq (series_key f.device f.metric) key)) [
    | inl e ↦
        let same = (eq_iff (series_key f.device f.metric) key).0 e in
        rw (e, same, h, lookup-store_same key (points_at key b ++ point_of f ∷ []) b.series) refl
    | inr e ↦ elim (Bool-cases (has (series_key f.device f.metric) b.listeners)) [
      | inl k ↦
          let own = series_key f.device f.metric in
          rw (e, k, lookup-store_other own key (points_at own b ++ point_of f ∷ []) b.series e)
            (sym (append-nil (points_at key b)))
      | inr k ↦ rw (e, k) (sym (append-nil (points_at key b)))
    ]
  ]

  points_of-cons :
      (key : String) (f : Frame N) (fs : List (Frame N))
      → points_of key (f ∷ []) ++ points_of key fs ≡ points_of key (f ∷ fs)
  points_of-cons key f fs = elim (Bool-cases (str_eq (series_key f.device f.metric) key)) [
    | inl e ↦ rw e
    | inr e ↦ rw e
  ]

  -- With the page visible, the buffer holds for each series that somebody draws all points pushed
  -- since, in the order in which they arrived, behind those it held.
  pub points_at-push_all :
      (key : String) (fs : List (Frame N)) (b : LiveBuffer N)
      → has key b.listeners ≡ true
      → points_at key (push_all fs b) ≡ points_at key b ++ points_of key fs
  unfolding push_all push
  points_at-push_all key [] b h = sym (append-nil (points_at key b))
  points_at-push_all key (f ∷ fs) b h =
      let next = push 𝓝 false f.device f.metric f.value f.t b in
      points_at-push_all key fs next h
      ∙ rw (point_step key f b h) (
          append_assoc (points_at key b) (points_of key (f ∷ [])) (points_of key fs)
          ∙ ap (λ ps. points_at key b ++ ps) (points_of-cons key f fs))

  reading_step :
      (device metric : String) (f : Frame N) (b : LiveBuffer N)
      → reading_at device metric (push 𝓝 false f.device f.metric f.value f.t b)
        ≡ newest device metric (f ∷ []) (reading_at device metric b)
  unfolding push
  reading_step device metric f b = elim (Bool-cases (str_eq f.device device)) [
    | inl e ↦ elim (Bool-cases (str_eq f.metric metric)) [
      | inl k ↦
          let per_device = or_empty (lookup device b.latest) in
          let r =
            newer 𝓝 (lookup metric per_device)
              (record { metric = metric; value = f.value; t = f.t }) in
          rw
            (
              e,
              k,
              (eq_iff f.device device).0 e,
              (eq_iff f.metric metric).0 k,
              lookup-store_same device (store metric r per_device) b.latest,
              lookup-store_same metric r per_device,
            )
            refl
      | inr k ↦
          let per_device = or_empty (lookup device b.latest) in
          let r = newer 𝓝 (lookup f.metric per_device) (reading_of f) in
          rw
            (
              e,
              k,
              (eq_iff f.device device).0 e,
              lookup-store_same device (store f.metric r per_device) b.latest,
              lookup-store_other f.metric metric r per_device k,
            )
            refl
    ]
    | inr e ↦
        let per_device = or_empty (lookup f.device b.latest) in
        let r = newer 𝓝 (lookup f.metric per_device) (reading_of f) in
        rw (e, lookup-store_other f.device device (store f.metric r per_device) b.latest e) refl
  ]

  -- With the page visible, the buffer holds for each device and metric the newest of the reading
  -- that it held and the readings pushed since, the later one where times are equal.
  pub reading_at-push_all :
      (device metric : String) (fs : List (Frame N)) (b : LiveBuffer N)
      → reading_at device metric (push_all fs b)
        ≡ newest device metric fs (reading_at device metric b)
  unfolding push_all
  reading_at-push_all device metric [] b = refl
  reading_at-push_all device metric (f ∷ fs) b =
      reading_at-push_all device metric fs (push 𝓝 false f.device f.metric f.value f.t b)
      ∙ ap (newest device metric fs) (reading_step device metric f b)
