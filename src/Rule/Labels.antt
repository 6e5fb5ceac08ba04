-- ===== src/Rule/Labels.antt =====
-- The tables of frontend/src/lib/rule-draft.ts that the editors pick from and word by, as their entries
-- in order.
use iot_saas.Prelude.{
  String, Bool, true, false, ◌&&◌, ◌≡◌, refl, Option, none, some, List, [], ◌∷◌, str_eq, any, all,
}
use iot_saas.Rule.Condition.{Arity, operator_arity}

unfoldable pub operators : List (String × String)
operators =
    (">", "> above")
    ∷ (">=", "≥ at or above")
    ∷ ("<", "< below")
    ∷ ("<=", "≤ at or below")
    ∷ ("==", "= equal to")
    ∷ ("!=", "≠ different from")
    ∷ ("between", "between")
    ∷ ("not_between", "outside")
    ∷ ("in", "is one of")
    ∷ ("not_in", "is none of")
    ∷ ("changed", "changes")
    ∷ ("increased", "increases")
    ∷ ("decreased", "decreases")
    ∷ []

unfoldable pub operator_symbol : List (String × String)
operator_symbol =
    (">", ">")
    ∷ (">=", "≥")
    ∷ ("<", "<")
    ∷ ("<=", "≤")
    ∷ ("==", "=")
    ∷ ("!=", "≠")
    ∷ ("between", "in")
    ∷ ("not_between", "outside")
    ∷ ("in", "∈")
    ∷ ("not_in", "∉")
    ∷ ("changed", "changes")
    ∷ ("increased", "rises")
    ∷ ("decreased", "falls")
    ∷ []

unfoldable pub trigger_labels : List (String × String)
trigger_labels =
    ("metric", "On reading")
    ∷ ("schedule", "On schedule")
    ∷ ("manual", "Manually")
    ∷ ("device_status", "Device connects / disconnects")
    ∷ []

unfoldable pub action_labels : List (String × String)
action_labels =
    ("actuator", "Actuator")
    ∷ ("email", "Email")
    ∷ ("webhook", "Webhook")
    ∷ ("notification", "In-app notification")
    ∷ []

abbrev known : Option Arity → Bool
known none = false
known (some a) = true

abbrev named_in : List (String × String) → String → Bool
named_in table o = any (λ e. str_eq e.0 o) table

-- Each operator that the editors offer has an arity and a symbol.
pub operators-known :
    all (λ e. known (operator_arity e.0) && named_in operator_symbol e.0) operators ≡ true
unfolding operators operator_symbol operator_arity
operators-known = refl
