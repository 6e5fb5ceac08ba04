-- ===== src/Schedule/Shown.antt =====
-- What the picker shows for the lines of each of its modes.
use iot_saas.Schedule.Picking.{
  shown, decimal-IsRead, pick_daily, pick_days, pick_monthly, pick_minutes, pick_hours, pick_hourly,
}
use mathlib.Core.List.{List}
use mathlib.Core.Path.{refl}
use iot_saas.Prelude.{ℕ, ◌≤◌, String, false, ◌≡◌, ◌∙◌, str_eq, arith, none, some}
use iot_saas.Prelude.Digits.{decimal}
use iot_saas.Schedule.Fields.{cron_field}
use iot_saas.Schedule.Picker.{RepeatUnit, Picked, time_text, schedule_from_cron, line}
use iot_saas.Schedule.Lines.{IsField}
use iot_saas.Schedule.Stars.{
  star-IsRead, every-IsRead, every_field, star-IsField, decimal-IsField, every-IsField,
}

pub show_daily :
    (m h : ℕ)
    → m ≤ 59
    → h ≤ 23
    → schedule_from_cron (line (decimal m) (decimal h) "*" "*") ≡ Picked.daily (time_text h m)
show_daily m h k l =
    let (v, vs, t) = star-IsRead 0 7 (omega arith) (omega arith) in
    let (p, e, i) =
      shown (decimal m) (decimal h) "*" "*" v vs
        (decimal-IsField m, (decimal-IsField h, (star-IsField, (star-IsField, tt))))
        (decimal-IsRead 0 59 m (omega arith) k refl) (decimal-IsRead 0 23 h (omega arith) l refl)
        (star-IsRead 1 31 (omega arith) (omega arith)) t in
    e ∙ pick_daily m h (List.◌∷◌ v vs) p i

pub show_days :
    (m h v : ℕ) (vs : List ℕ) (w : String)
    → m ≤ 59
    → h ≤ 23
    → IsField w
    → str_eq w "*" ≡ false
    → cron_field w 0 7 ≡ some (List.◌∷◌ v vs)
    → schedule_from_cron (line (decimal m) (decimal h) "*" w)
      ≡ Picked.days (time_text h m) (List.◌∷◌ v vs)
show_days m h v vs w k l f q t =
    let (p, e, i) =
      shown (decimal m) (decimal h) "*" w v vs
        (decimal-IsField m, (decimal-IsField h, (star-IsField, (f, tt))))
        (decimal-IsRead 0 59 m (omega arith) k refl) (decimal-IsRead 0 23 h (omega arith) l refl)
        (star-IsRead 1 31 (omega arith) (omega arith)) t in
    e ∙ pick_days m h w (List.◌∷◌ v vs) p q i

pub show_monthly :
    (m h d : ℕ)
    → m ≤ 59
    → h ≤ 23
    → 1 ≤ d
    → d ≤ 28
    → schedule_from_cron (line (decimal m) (decimal h) (decimal d) "*")
      ≡ Picked.monthly (time_text h m) d
show_monthly m h d k l f g =
    let (v, vs, t) = star-IsRead 0 7 (omega arith) (omega arith) in
    let (p, e, i) =
      shown (decimal m) (decimal h) (decimal d) "*" v vs
        (decimal-IsField m, (decimal-IsField h, (decimal-IsField d, (star-IsField, tt))))
        (decimal-IsRead 0 59 m (omega arith) k refl) (decimal-IsRead 0 23 h (omega arith) l refl)
        (decimal-IsRead 1 31 d f (omega arith) refl) t in
    e ∙ pick_monthly m h d (List.◌∷◌ v vs) p g i

pub show_minutes :
    (n : ℕ)
    → 1 ≤ n
    → schedule_from_cron (line (every_field n) "*" "*" "*") ≡ Picked.every n RepeatUnit.minutes none
show_minutes n k =
    let (v, vs, t) = star-IsRead 0 7 (omega arith) (omega arith) in
    let (p, e, i) =
      shown (every_field n) "*" "*" "*" v vs
        (every-IsField n, (star-IsField, (star-IsField, (star-IsField, tt))))
        (every-IsRead 0 59 n (omega arith) (omega arith) k)
        (star-IsRead 0 23 (omega arith) (omega arith))
        (star-IsRead 1 31 (omega arith) (omega arith)) t in
    e ∙ pick_minutes n (List.◌∷◌ v vs) p i

pub show_hours :
    (n at : ℕ)
    → 1 ≤ n
    → at ≤ 59
    → schedule_from_cron (line (decimal at) (every_field n) "*" "*")
      ≡ Picked.every n RepeatUnit.hours (some at)
show_hours n at k l =
    let (v, vs, t) = star-IsRead 0 7 (omega arith) (omega arith) in
    let (p, e, i) =
      shown (decimal at) (every_field n) "*" "*" v vs
        (decimal-IsField at, (every-IsField n, (star-IsField, (star-IsField, tt))))
        (decimal-IsRead 0 59 at (omega arith) l refl)
        (every-IsRead 0 23 n (omega arith) (omega arith) k)
        (star-IsRead 1 31 (omega arith) (omega arith)) t in
    e ∙ pick_hours n at (List.◌∷◌ v vs) p i

pub show_hourly :
    (at : ℕ)
    → at ≤ 59
    → schedule_from_cron (line (decimal at) "*" "*" "*") ≡ Picked.every 1 RepeatUnit.hours (some at)
show_hourly at l =
    let (v, vs, t) = star-IsRead 0 7 (omega arith) (omega arith) in
    let (p, e, i) =
      shown (decimal at) "*" "*" "*" v vs
        (decimal-IsField at, (star-IsField, (star-IsField, (star-IsField, tt))))
        (decimal-IsRead 0 59 at (omega arith) l refl) (star-IsRead 0 23 (omega arith) (omega arith))
        (star-IsRead 1 31 (omega arith) (omega arith)) t in
    e ∙ pick_hourly at (List.◌∷◌ v vs) p i
