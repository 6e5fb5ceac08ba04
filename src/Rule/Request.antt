-- ===== src/Rule/Request.antt =====
-- `draftToRequest` (frontend/src/lib/rule-draft.ts): the body of POST /rules and PATCH /rules/{id}.
pub mod Sound
use iot_saas.Prelude.{
  ℕ, String, Bool, not, ◌&&◌, ◌||◌, Option, none, some, List, [], ◌∷◌, ◌++◌, str_eq, if◌then◌else◌,
}
use iot_saas.Prelude.Text.{trim, is_empty}
use iot_saas.Prelude.Numbers.{Numbers}
use iot_saas.Prelude.Json.{str, JsonObject, JsonText, set}
use iot_saas.Rule.Draft.{given}
use iot_saas.Rule.Condition.{condition_from}
use iot_saas.Rule.Action.{
  ActionDraft, actuator, action_to_api, actuator_to_api, actuator_clear_value, notification_to_api,
}
use iot_saas.Rule.Model.{
  Transition, connected, disconnected, Behaviour, rearm, latch, other, WhenDraft, RuleDraft,
  RuleRequest, is_reading_rule, can_clear,
}

abbrev pub transition_text : Transition → String
transition_text connected = "connected"
transition_text disconnected = "disconnected"

-- `s.trim() || fallback`
abbrev pub trimmed_or : String → String → String
trimmed_or fallback s = if is_empty (trim s) then fallback else trim s

-- `draft.name.trim() || undefined`
unfoldable pub optional_name : String → Option String
optional_name s = if is_empty (trim s) then none else some (trim s)

strategy_by : Behaviour → Option String → String
strategy_by latch kept = "latch"
strategy_by other kept = given kept "edge"
strategy_by rearm kept = "edge"

keeps_reset_tree : String → Bool
keeps_reset_tree strategy = str_eq strategy "latch" || str_eq strategy "reset_condition"

module _ {N : Type 0} where
  unfoldable pub trigger_to_api : WhenDraft → JsonObject N
  trigger_to_api w =
      if str_eq w.type "schedule"
      then ("type", str "schedule")
        ∷ ("cron", str (trim w.cron))
        ∷ ("timezone", str (trimmed_or "UTC" w.timezone))
        ∷ []
      else if str_eq w.type "device_status"
      then ("type", str "device_status")
        ∷ ("device_id", str w.status_device_id)
        ∷ ("transition", str (transition_text w.transition))
        ∷ []
      else ("type", str w.type) ∷ []

  unfoldable pub strategy_for : RuleDraft N → String
  unfolding strategy_by
  strategy_for d =
      if is_reading_rule d then strategy_by d.behaviour d.preserved.strategy else "edge"

  -- What turning back sends for one action, if anything.
  unfoldable pub revert_to_api : ActionDraft N → List (JsonObject N)
  revert_to_api (actuator a) =
      if a.revert_on_clear
      then set "value" (actuator_clear_value a) (actuator_to_api a) ∷ []
      else []
  revert_to_api _ = []

  unfoldable pub reverts_to_api : List (ActionDraft N) → List (JsonObject N)
  reverts_to_api [] = []
  reverts_to_api (a ∷ as') = revert_to_api a ++ reverts_to_api as'

  unfoldable pub clear_notice : Bool → String → List (JsonObject N)
  clear_notice notify message =
      if notify && not (is_empty (trim message)) then notification_to_api message ∷ [] else []

  unfoldable pub clear_to_api : RuleDraft N → List (JsonObject N)
  clear_to_api d =
      if can_clear d
      then reverts_to_api d.actions
        ++ (clear_notice d.clear_notify d.clear_message ++ d.preserved.clear_actions)
      else []

  abbrev prepend :
      Option (JsonObject N) → Option (List (JsonObject N)) → Option (List (JsonObject N))
  prepend (some o) (some os) = some (o ∷ os)
  prepend _ _ = none

  -- `draft.actions.map(actionToApi)`, which throws if one of them does
  unfoldable pub actions_to_api : JsonText N → List (ActionDraft N) → Option (List (JsonObject N))
  actions_to_api 𝓙 [] = some []
  actions_to_api 𝓙 (a ∷ as') = prepend (action_to_api 𝓙 a) (actions_to_api 𝓙 as')

-- `none` is the SyntaxError of a webhook's body; `fuel` bounds `conditionFromNode`.
module _ {N : Type 0} (𝓝 : Numbers N) (𝓙 : JsonText N) where
  request_with : ℕ → RuleDraft N → List (JsonObject N) → RuleRequest N
  request_with fuel d sent = record {
    name = optional_name d.name;
    trigger = trigger_to_api d.trigger;
    condition = condition_from 𝓝 fuel d.condition;
    execution_policy = record {
      strategy = strategy_for d;
      for_duration = if is_reading_rule d then d.for_duration else 𝓝.zero;
      cooldown = d.cooldown;
      clear_for_duration = if can_clear d then d.clear_delay else 𝓝.zero;
      reset_condition =
          if keeps_reset_tree (strategy_for d) then d.preserved.reset_condition else none;
    };
    actions = sent ++ d.preserved.actions;
    clear_actions = clear_to_api d;
    enabled = d.enabled;
  }

  unfoldable pub draft_to_request : ℕ → RuleDraft N → Option (RuleRequest N)
  unfolding request_with keeps_reset_tree
  draft_to_request fuel d = elim (actions_to_api 𝓙 d.actions) [
    | none ↦ none
    | some sent ↦ some (request_with fuel d sent)
  ]
