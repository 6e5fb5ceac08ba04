-- ===== src/Dashboard/Summary.antt =====
-- The line under a dashboard's name (frontend/src/lib/dashboard-summary.ts). The Map from a type to its
-- count is a list of entries, in the order in which the types came.
use iot_saas.Prelude.{
  ◌≤◌, ℕ, suc, ◌+◌, ◌==◌, String, Bool, false, ◌≡◌, inl, inr, List, [], ◌∷◌, map, All, arith,
  if◌then◌else◌, Bool-cases,
}
use Prim.Native.String.{◌++◌}
use iot_saas.Prelude.Text.{join}
use iot_saas.Prelude.Digits.{decimal}
use iot_saas.Dashboard.{
  Widget, WidgetType, value_card, trend_chart, device_status, actuator_control, gauge,
}

unfoldable pub widget_names : WidgetType → String × String
widget_names value_card = ("value card", "value cards")
widget_names trend_chart = ("trend chart", "trend charts")
widget_names gauge = ("gauge", "gauges")
widget_names device_status = ("status card", "status cards")
widget_names actuator_control = ("control", "controls")

-- `===` on the types
abbrev pub type_code : WidgetType → ℕ
type_code value_card = 0
type_code trend_chart = 1
type_code device_status = 2
type_code actuator_control = 3
type_code gauge = 4

abbrev pub same_type : WidgetType → WidgetType → Bool
same_type a b = type_code a == type_code b

-- `byType.set(t, (byType.get(t) ?? 0) + 1)`: a new key comes last
unfoldable pub count_one : WidgetType → List (WidgetType × ℕ) → List (WidgetType × ℕ)
count_one t [] = (t, 1) ∷ []
count_one t ((k, n) ∷ es) =
    let rest = count_one t es in if same_type k t then (k, suc n) ∷ es else (k, n) ∷ rest

-- The loop over the widgets.
unfoldable pub count_types : List (WidgetType × ℕ) → List Widget → List (WidgetType × ℕ)
count_types es [] = es
count_types es (w ∷ ws) = count_types (count_one w.type es) ws

-- "2 value cards"
abbrev pub entry_text : WidgetType × ℕ → String
unfolding widget_names
entry_text (t, n) = decimal n ++ " " ++ (if n == 1 then (widget_names t).0 else (widget_names t).1)

unfoldable pub widget_summary : List Widget → String
widget_summary [] = "No widgets yet"
widget_summary (w ∷ ws) = join " · " (map entry_text (count_types [] (w ∷ ws)))

-- How many widgets have a type, and how many the entries count for it.
unfoldable pub amount : WidgetType → List Widget → ℕ
amount t [] = 0
amount t (w ∷ ws) = (if same_type w.type t then 1 else 0) + amount t ws

unfoldable pub counted : WidgetType → List (WidgetType × ℕ) → ℕ
counted t [] = 0
counted t ((k, n) ∷ es) = (if same_type k t then n else 0) + counted t es

abbrev pub IsOther : WidgetType → WidgetType × ℕ → Type 0
IsOther t e = same_type e.0 t ≡ false

-- No type has two entries, and no entry counts nothing.
abbrev pub AreCounts : List (WidgetType × ℕ) → Type 0
AreCounts [] = Unit
AreCounts ((k, n) ∷ es) = (1 ≤ n) × (All (IsOther k) es × AreCounts es)

==_swap : (a b : ℕ) → (a == b) ≡ false → (b == a) ≡ false
==_swap a b h = ground arith

counted-count_one :
    (t s : WidgetType) (es : List (WidgetType × ℕ))
    → counted s (count_one t es) ≡ (if same_type t s then 1 else 0) + counted s es
unfolding counted count_one
counted-count_one t s [] = ground arith
counted-count_one t s ((k, n) ∷ es) = ground (arith, counted-count_one t s es)

All-count_one :
    (k t : WidgetType) (es : List (WidgetType × ℕ))
    → same_type t k ≡ false
    → All (IsOther k) es
    → All (IsOther k) (count_one t es)
unfolding count_one
All-count_one k t [] h all = (h, tt)
All-count_one k t ((j, n) ∷ es) h (other, rest) = elim (Bool-cases (same_type j t)) [
  | inl e ↦ rw e ((other, rest))
  | inr e ↦ rw e ((other, All-count_one k t es h rest))
]

count_one-AreCounts :
    (t : WidgetType) (es : List (WidgetType × ℕ)) → AreCounts es → AreCounts (count_one t es)
unfolding count_one
count_one-AreCounts t [] h = (omega arith, (tt, tt))
count_one-AreCounts t ((k, n) ∷ es) (some_of, (others, rest)) = elim (Bool-cases (same_type k t)) [
  | inl e ↦ rw e ((omega arith, (others, rest)))
  | inr e ↦ rw e (
      (
        some_of,
        (
          All-count_one k t es (==_swap (type_code k) (type_code t) e) others,
          count_one-AreCounts t es rest,
        ),
      ))
]

counted-count_types :
    (t : WidgetType) (es : List (WidgetType × ℕ)) (ws : List Widget)
    → counted t (count_types es ws) ≡ counted t es + amount t ws
unfolding count_types amount
counted-count_types t es [] = omega arith
counted-count_types t es (w ∷ ws) =
    omega (arith, counted-count_types t (count_one w.type es) ws, counted-count_one w.type t es)

count_types-AreCounts :
    (es : List (WidgetType × ℕ)) (ws : List Widget) → AreCounts es → AreCounts (count_types es ws)
unfolding count_types
count_types-AreCounts es [] h = h
count_types-AreCounts es (w ∷ ws) h =
    count_types-AreCounts (count_one w.type es) ws (count_one-AreCounts w.type es h)

-- The entries behind the summary: no type has two, none counts nothing, and what they count for a type is
-- the number of its widgets.
pub count_types_lem :
    (ws : List Widget)
    → AreCounts (count_types [] ws)
      × ((t : WidgetType) → counted t (count_types [] ws) ≡ amount t ws)
unfolding counted
count_types_lem ws =
    (count_types-AreCounts [] ws tt, λ t. omega (arith, counted-count_types t [] ws))
