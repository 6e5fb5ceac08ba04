-- ===== src/Rule/Validation.antt =====
-- What the rule editors check of a draft: `validateDraft` and `flappingRisk` of
-- frontend/src/lib/rule-draft.ts.
use iot_saas.Prelude.{
  String, Bool, true, false, not, ◌&&◌, ◌||◌, Option, none, some, List, [], ◌∷◌, str_eq,
  if◌then◌else◌, or_else, first_some, any,
}
use iot_saas.Prelude.Text.{trim, is_empty}
use iot_saas.Prelude.Numbers.{Numbers}
use iot_saas.Prelude.Json.{JsonText}
use iot_saas.Rule.Draft.{ContactDraft, RhsKind}
use iot_saas.Rule.Tree.{contacts}
use iot_saas.Rule.Condition.{Arity, operator_arity, has_hysteresis}
use iot_saas.Rule.Action.{ActionDraft, actuator, action_problem}
use iot_saas.Rule.Model.{WhenDraft, RuleDraft, is_reading_rule, can_clear}

abbrev pub is_null : {A : Type 0} → Option A → Bool
is_null none = true
is_null (some a) = false

abbrev pub no_items : {A : Type 0} → List A → Bool
no_items [] = true
no_items (x ∷ xs) = false

abbrev pub problem_if : Bool → String → Option String
problem_if b message = if b then some message else none

abbrev compares_devices : RhsKind → Option Arity → Bool
compares_devices RhsKind.metric (some Arity.one) = true
compares_devices _ _ = false

abbrev pub no_schedule : WhenDraft → Bool
no_schedule w = str_eq w.type "schedule" && is_empty (trim w.cron)

abbrev pub no_device : WhenDraft → Bool
no_device w = str_eq w.type "device_status" && is_empty w.status_device_id

module _ {N : Type 0} where
  unfoldable pub contact_problem : ContactDraft N → Option String
  contact_problem c =
      or_else
        (problem_if (is_empty c.device_id || is_empty (trim c.metric))
          "Every condition needs a device and a metric.")
        (problem_if
          (compares_devices c.rhs_kind (operator_arity c.operator)
            && (is_empty c.rhs_device_id || is_empty c.rhs_metric))
          "A device comparison needs both a device and a metric.")

  unfoldable pub no_action : RuleDraft N → Bool
  no_action d = no_items d.actions && no_items d.preserved.actions

  unfoldable pub no_clear_message : RuleDraft N → Bool
  no_clear_message d = can_clear d && d.clear_notify && is_empty (trim d.clear_message)

  unfoldable pub validate_draft : JsonText N → RuleDraft N → Option String
  unfolding no_action no_clear_message is_reading_rule
  validate_draft 𝓙 d =
      or_else (problem_if (no_schedule d.trigger) "A scheduled rule needs a cron expression.") (
        or_else (problem_if (no_device d.trigger) "Pick the device to watch.") (
          or_else
            (problem_if (is_null d.condition && is_reading_rule d)
              "A rule that runs on each reading needs at least one condition.")
            (or_else (first_some contact_problem (contacts d.condition)) (
              or_else (problem_if (no_action d) "Add at least one action.") (
                or_else (first_some (action_problem 𝓙) d.actions)
                  (problem_if (no_clear_message d) "The clear notification needs a message."))))))

  abbrev pub is_actuator : ActionDraft N → Bool
  is_actuator (actuator a) = true
  is_actuator _ = false

  abbrev pub turns_back : ActionDraft N → Bool
  turns_back (actuator a) = a.revert_on_clear
  turns_back _ = false

  unfoldable pub switches_hardware : RuleDraft N → Bool
  switches_hardware d = any is_actuator d.actions

module _ {N : Type 0} (𝓝 : Numbers N) where
  -- a threshold with no margin: `HYSTERESIS_OPERATORS.has(c.operator) && !(c.hysteresis > 0)`
  abbrev pub is_bare : ContactDraft N → Bool
  is_bare c = has_hysteresis c.operator && not (𝓝.lt 𝓝.zero c.hysteresis)

  -- `draft.clearDelay === 0`, and false for NaN
  abbrev pub is_zero : N → Bool
  is_zero n = 𝓝.le n 𝓝.zero && 𝓝.le 𝓝.zero n

  unfoldable pub flapping_risk : RuleDraft N → Bool
  flapping_risk d =
      can_clear d
      && is_zero d.clear_delay
      && any turns_back d.actions
      && any is_bare (contacts d.condition)
