-- ===== src/Live/Tests.antt =====
-- The live buffer run on concrete frames.
use iot_saas.Live.Window.{append_to_window}
use iot_saas.Live.Window.Zip.{zip}
use iot_saas.Live.Window.Append.{IsOrder, IsAscending, append_to_window_lem}
use iot_saas.Live.Window.{Columns}
use iot_saas.Prelude.{map, some, arith, ◌-◌, false, ℕ, ◌≡◌, refl, true, [], ◌∷◌, ◌++◌, List}
use iot_saas.Live.Maps.{has}
use iot_saas.Live.Buffer.{LivePoint, LiveBuffer, empty_buffer, subscribe_series, push}
use iot_saas.Live.Buffer.Delivery.{
  Frame, push_all, points_at, points_of, reading_at, points_at-push_all,
}
use iot_saas.Live.Buffer.Newest.{IsNewest, option_list, readings_of, reading_at-IsNewest}
use iot_saas.Live.Telemetry.{merge_latest-metrics, with_metric, merge_latest, TelemetryLatest}
use iot_saas.Samples.{naturals}

abbrev watched : LiveBuffer ℕ
watched = record (empty_buffer {N = ℕ}) { listeners = ("d\0t", 0) ∷ []; next_set = 1 }

abbrev frames : List (Frame ℕ)
frames =
    record { device = "d"; metric = "t"; value = 20; t = 5 }
    ∷ record { device = "e"; metric = "t"; value = 7; t = 6 }
    ∷ record { device = "d"; metric = "t"; value = 21; t = 6 }
    ∷ []

watched_series : has "d\0t" watched.listeners ≡ true
watched_series = refl

points_at-push_all_example :
    points_at "d\0t" (push_all naturals frames watched)
    ≡ points_at "d\0t" watched ++ points_of "d\0t" frames
points_at-push_all_example = points_at-push_all naturals "d\0t" frames watched watched_series

abbrev subscribed_buffer : LiveBuffer ℕ
subscribed_buffer = (subscribe_series "d" "t" 0 (empty_buffer {N = ℕ})).buffer

abbrev pushed_buffer : LiveBuffer ℕ
pushed_buffer = push naturals false "d" "t" 20 5 subscribed_buffer

abbrev drawn_columns : Columns ℕ
drawn_columns = record { xs = 1 ∷ 2 ∷ 3 ∷ []; ys = 20 ∷ 21 ∷ 22 ∷ [] }

abbrev cached : List (TelemetryLatest ℕ)
cached = record { metric = "t"; value = 20; time = "30" } ∷ []

merge_latest-metrics_example :
    (merged : List (TelemetryLatest ℕ)) × (merge_latest naturals naturals.of_text
        (λ a b. a - b)
        (record { metric = "h"; value = 5; time = "30" })
        (some cached)
      ≡ some merged)
    × (map (λ r. r.metric) merged ≡ with_metric naturals naturals.of_text (λ a b. a - b) "h" cached)
merge_latest-metrics_example =
    merge_latest-metrics naturals naturals.of_text (λ a b. a - b)
      (record { metric = "h"; value = 5; time = "30" }) cached

naturals-IsOrder : IsOrder naturals
naturals-IsOrder = record {
  reflexive = λ a. ground arith;
  total = λ a b h. ground arith;
  trans = λ a b c h k. ground arith;
  trans_lt = λ a b c h k. ground arith;
}

abbrev columns : Columns ℕ
columns = record { xs = 1 ∷ 2 ∷ 5 ∷ []; ys = 10 ∷ 20 ∷ 50 ∷ [] }

abbrev new_points : List (LivePoint ℕ)
new_points = record { t = 4; v = 40 } ∷ record { t = 7; v = 70 } ∷ []

append_to_window_lem_example :
    (zip
        (append_to_window naturals columns new_points 2).xs
        (append_to_window naturals columns new_points 2).ys
      ≡ (2, 20) ∷ (5, 50) ∷ (7, 70) ∷ [])
    × IsAscending naturals (append_to_window naturals columns new_points 2).xs
append_to_window_lem_example =
    append_to_window_lem naturals naturals-IsOrder columns new_points 2 refl
      ((refl, (refl, tt)), ((refl, tt), (tt, tt)))

reading_at-IsNewest_example :
    IsNewest naturals
      (option_list (reading_at "d" "t" watched) ++ readings_of "d" "t" frames)
      (reading_at "d" "t" (push_all naturals frames watched))
reading_at-IsNewest_example = reading_at-IsNewest naturals naturals-IsOrder "d" "t" frames watched
