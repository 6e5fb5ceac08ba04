-- ===== src/Live/Telemetry.antt =====
-- The cache updaters of live telemetry (packages/shared/src/live-telemetry.ts). What the cache does not
-- hold yet (undefined) is `none`.
use iot_saas.Prelude.{
  String, Bool, true, false, not, ◌&&◌, ◌≡◌, refl, ap, sym, Option, none, some, List, [], ◌∷◌, ◌++◌,
  map, map-append, find, str_eq, eq_iff, if◌then◌else◌, Bool-cases, inl, inr,
}
use iot_saas.Prelude.Text.{is_empty}
use iot_saas.Prelude.Numbers.{Numbers}

pub record TelemetryLatest (N : Type 0) : Type 0 where
  pub metric : String
  pub value : N
  pub time : String

-- The fields of DeviceResponse that the updaters read or write; `rest` is all others.
pub record Device (N R : Type 0) : Type 0 where
  pub connection_state : String
  pub last_seen_at : Option String
  pub rssi : Option N
  pub battery_pct : Option N
  pub uptime_s : Option N
  pub fw_version : Option String
  pub rest : R

-- The fields of a device_health frame.
pub record Health (N : Type 0) : Type 0 where
  pub online : Bool
  pub rssi : Option N
  pub battery_pct : Option N
  pub uptime_s : Option N
  pub fw_version : Option String

-- `time_of` is `new Date(iso).getTime()`, and `minus` the subtraction of numbers.
module _ {N : Type 0} (𝓝 : Numbers N) (time_of : String → N) (minus : N → N → N) where
  unfoldable pub is_newer : String → String → Bool
  is_newer candidate existing =
      if is_empty existing then true else 𝓝.lt (time_of existing) (time_of candidate)

  abbrev pub replace_in : TelemetryLatest N → TelemetryLatest N → TelemetryLatest N
  replace_in new r = if str_eq r.metric new.metric then new else r

  abbrev pub merge_with :
      TelemetryLatest N
      → List (TelemetryLatest N)
      → Option (TelemetryLatest N)
      → List (TelemetryLatest N)
  merge_with new current none = current ++ new ∷ []
  merge_with new current (some existing) =
      if not (is_newer new.time existing.time) then current else map (replace_in new) current

  unfoldable pub merge_latest :
      TelemetryLatest N → Option (List (TelemetryLatest N)) → Option (List (TelemetryLatest N))
  merge_latest new none = none
  merge_latest new (some current) =
      some (merge_with new current (find (λ r. str_eq r.metric new.metric) current))

  abbrev seen_lately : String → Option String → Bool
  seen_lately iso none = false
  seen_lately iso (some seen) =
      not (is_empty seen) && 𝓝.lt (minus (time_of iso) (time_of seen)) (𝓝.of_nat 1000)

  unfoldable pub mark_online : {R : Type 0} → String → Option (Device N R) → Option (Device N R)
  mark_online iso none = none
  mark_online iso (some d) =
      if str_eq d.connection_state "online" && seen_lately iso d.last_seen_at
      then some d
      else some (record d { connection_state = "online"; last_seen_at = some iso })

unfoldable pub apply_device_health :
    {N R : Type 0} → Health N → Option (Device N R) → Option (Device N R)
apply_device_health h none = none
apply_device_health h (some d) = some (record d {
  connection_state = if h.online then "online" else "offline";
  rssi = h.rssi;
  battery_pct = h.battery_pct;
  uptime_s = h.uptime_s;
  fw_version = h.fw_version;
})

module _ {N : Type 0} (𝓝 : Numbers N) (time_of : String → N) (minus : N → N → N) where
  replaced_metrics :
      (new : TelemetryLatest N) (rs : List (TelemetryLatest N))
      → map (λ r. r.metric) (map (replace_in 𝓝 time_of minus new) rs) ≡ map (λ r. r.metric) rs
  replaced_metrics new [] = refl
  replaced_metrics new (r ∷ rs) = elim (Bool-cases (str_eq r.metric new.metric)) [
    | inl e ↦
        rw (e, replaced_metrics new rs)
          (ap (λ m. m ∷ map (λ r. r.metric) rs) (sym ((eq_iff r.metric new.metric).0 e)))
    | inr e ↦ rw (e, replaced_metrics new rs) refl
  ]

  -- The metrics of a list, with one more at the end where it lacks that one.
  abbrev pub with_metric : String → List (TelemetryLatest N) → List String
  with_metric metric rs = elim (find (λ r. str_eq r.metric metric) rs) [
    | none ↦ map (λ r. r.metric) rs ++ metric ∷ []
    | some r ↦ map (λ r. r.metric) rs
  ]

  merged_metrics :
      (new : TelemetryLatest N) (rs : List (TelemetryLatest N)) (found : Option (TelemetryLatest N))
      → map (λ r. r.metric) (merge_with 𝓝 time_of minus new rs found) ≡ elim found [
        | none ↦ map (λ r. r.metric) rs ++ new.metric ∷ []
        | some r ↦ map (λ r. r.metric) rs
      ]
  merged_metrics new rs none = map-append (λ r. r.metric) rs (new ∷ [])
  merged_metrics new rs (some old) =
      elim (Bool-cases (is_newer 𝓝 time_of minus new.time old.time)) [
        | inl e ↦ rw e (replaced_metrics new rs)
        | inr e ↦ rw e refl
      ]

  -- A cached list keeps its metrics in their places when a reading is merged, and a metric that it
  -- lacks comes last.
  pub merge_latest-metrics :
      (new : TelemetryLatest N) (rs : List (TelemetryLatest N))
      → (merged : List (TelemetryLatest N)) × (merge_latest 𝓝 time_of minus new (some rs)
          ≡ some merged)
        × (map (λ r. r.metric) merged ≡ with_metric new.metric rs)
  unfolding merge_latest
  merge_latest-metrics new rs =
      let found = find (λ r. str_eq r.metric new.metric) rs in
      (merge_with 𝓝 time_of minus new rs found, refl, merged_metrics new rs found)
