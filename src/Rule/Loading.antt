-- ===== src/Rule/Loading.antt =====
-- `draftFromRule` and `emptyDraft` (frontend/src/lib/rule-draft.ts): a rule of the API as the editors
-- hold it. `fresh k` is what the k-th call of newId() returns.
pub mod Clears
mod Tests
use Prim.Native.String
use iot_saas.Prelude.{
  ℕ, ◌+◌, String, Bool, true, false, not, ◌&&◌, Option, none, some, List, [], ◌∷◌, ◌++◌, any,
  str_eq, if◌then◌else◌,
}
use iot_saas.Prelude.Numbers.{Numbers}
use iot_saas.Prelude.Json.{
  Json, bool, num, str, JsonObject, JsonText, get, is_text, text_or, array_or_empty,
}
use iot_saas.Rule.Draft.{DraftNode, contact, given}
use iot_saas.Rule.Condition.{ConditionNode, empty_contact, node_from}
use iot_saas.Rule.Action.{ActionDraft, ActuatorActionDraft, actuator, email, webhook, notification}
use iot_saas.Rule.Action.Loading.{for_actuator, empty_action, action_from_api}
use iot_saas.Rule.Model.{
  connected, disconnected, Behaviour, WhenDraft, Preserved, RuleDraft, RuleResponse,
}

-- What the loop over the clear actions carries.
pub record Clearing (N : Type 0) : Type 0 where
  pub actions : List (ActionDraft N)
  pub notify : Bool
  pub message : String
  pub preserved : List (JsonObject N)

-- What the loop over the actions has pushed, and the count of calls of newId().
pub record Parsed (N : Type 0) : Type 0 where
  pub actions : List (ActionDraft N)
  pub preserved : List (JsonObject N)
  pub calls : ℕ

module _ {N : Type 0} where
  -- `Array.isArray(raw.channels) && raw.channels.includes("email")`
  abbrev pub by_email : JsonObject N → Bool
  by_email raw = any (λ v. is_text "email" (some v)) (array_or_empty (get "channels" raw))

  -- The e-mail that a notification with an email channel also becomes.
  abbrev email_beside : String → String → ActionDraft N → Bool → List (ActionDraft N)
  email_beside id name (notification n) true =
      email (record {
        id = id;
        to = "";
        subject = String.◌++◌ "[" (String.◌++◌ name "] alert");
        body = n.message;
      })
      ∷ []
  email_beside id name _ _ = []

  -- `a.kind === "actuator" && !a.revertOnClear && …` for a clear command
  abbrev owns : JsonObject N → ActuatorActionDraft N → Bool
  owns raw a =
      not a.revert_on_clear
      && is_text a.actuator (get "actuator" raw)
      && str_eq a.device_id (text_or "" (get "device_id" raw))

  abbrev turn_back : Option (Json N) → ActuatorActionDraft N → ActuatorActionDraft N
  turn_back (some (bool v)) a = record a { revert_on_clear = true; clear_bool = some v }
  turn_back (some (num v)) a = record a { revert_on_clear = true; clear_num = v }
  turn_back (some (str v)) a = record a { revert_on_clear = true; clear_text = v }
  turn_back _ a = record a { revert_on_clear = true }

  abbrev put_before : ActionDraft N → Option (List (ActionDraft N)) → Option (List (ActionDraft N))
  put_before a none = none
  put_before a (some xs) = some (a ∷ xs)

  -- The actions after their first owner of the clear command takes it, or `none` without one.
  unfoldable pub fold_owner : JsonObject N → List (ActionDraft N) → Option (List (ActionDraft N))
  fold_owner raw [] = none
  fold_owner raw (actuator a ∷ xs) =
      let rest = fold_owner raw xs in
      if owns raw a
      then some (actuator (turn_back (get "value" raw) a) ∷ xs)
      else put_before (actuator a) rest
  fold_owner raw (a ∷ xs) = put_before a (fold_owner raw xs)

  abbrev owned : JsonObject N → List (ActionDraft N) → Option (List (ActionDraft N))
  owned raw xs = if is_text "actuator_command" (get "type" raw) then fold_owner raw xs else none

  abbrev pub fold_rest : JsonObject N → Clearing N → Clearing N
  fold_rest raw st =
      if is_text "notification" (get "type" raw) && not st.notify && not (by_email raw)
      then (record st { notify = true; message = text_or "" (get "message" raw) })
      else record st { preserved = st.preserved ++ raw ∷ [] }

  abbrev pub fold_with : JsonObject N → Clearing N → Option (List (ActionDraft N)) → Clearing N
  fold_with raw st (some xs) = record st { actions = xs }
  fold_with raw st none = fold_rest raw st

  unfoldable pub fold_clears : List (JsonObject N) → Clearing N → Clearing N
  unfolding fold_owner
  fold_clears [] st = st
  fold_clears (raw ∷ raws) st = fold_clears raws (fold_with raw st (owned raw st.actions))

abbrev behaviour_of : String → Behaviour
behaviour_of strategy =
    if str_eq strategy "edge"
    then Behaviour.rearm
    else if str_eq strategy "latch"
    then Behaviour.latch
    else Behaviour.other

module _ {N : Type 0} (𝓝 : Numbers N) (𝓙 : JsonText N) (fresh : ℕ → String) where
  abbrev parse_with : String → JsonObject N → Option (ActionDraft N) → Parsed N → Parsed N
  parse_with name raw none st = record st { preserved = st.preserved ++ raw ∷ [] }
  parse_with name raw (some a) st = record {
    actions = st.actions ++ (a ∷ email_beside (fresh (st.calls + 1)) name a (by_email raw));
    preserved = st.preserved;
    calls = st.calls + 2;
  }

  unfoldable pub parse_actions : String → List (JsonObject N) → Parsed N → Parsed N
  parse_actions name [] st = st
  parse_actions name (raw ∷ raws) st =
      parse_actions name raws (parse_with name raw (action_from_api 𝓝 𝓙 (fresh st.calls) raw) st)

  abbrev tree_of : Option (ConditionNode N) → ℕ → Option (DraftNode N)
  tree_of none k = none
  tree_of (some c) k = some (node_from 𝓝 fresh c k).0

  unfoldable pub trigger_from : JsonObject N → WhenDraft
  trigger_from trigger = record {
    type = text_or "metric" (get "type" trigger);
    cron = text_or "0 8 * * *" (get "cron" trigger);
    timezone = text_or "UTC" (get "timezone" trigger);
    status_device_id = text_or "" (get "device_id" trigger);
    transition = if is_text "connected" (get "transition" trigger) then connected else disconnected;
  }

  unfoldable pub draft_from_rule : RuleResponse N → RuleDraft N
  unfolding parse_actions fold_clears trigger_from
  draft_from_rule rule =
      let policy = rule.execution_policy in
      let strategy = given policy.strategy "edge" in
      let parsed =
        parse_actions rule.name rule.actions (record { actions = []; preserved = []; calls = 0 }) in
      let clears =
        fold_clears rule.clear_actions
          (record { actions = parsed.actions; notify = false; message = ""; preserved = [] }) in
      record {
        name = rule.name;
        enabled = rule.enabled;
        trigger = trigger_from rule.trigger;
        condition = tree_of rule.condition parsed.calls;
        behaviour = behaviour_of strategy;
        for_duration = given policy.for_duration 𝓝.zero;
        cooldown = given policy.cooldown 𝓝.zero;
        clear_delay = given policy.clear_for_duration 𝓝.zero;
        actions = clears.actions;
        clear_notify = clears.notify;
        clear_message = clears.message;
        preserved = record {
          strategy = some strategy;
          reset_condition = policy.reset_condition;
          clear_actions = clears.preserved;
          actions = parsed.preserved;
        };
      }

  unfoldable pub empty_draft : String → String → RuleDraft N
  empty_draft device timezone = record {
    name = "";
    enabled = true;
    trigger = record {
      type = "metric";
      cron = "0 8 * * *";
      timezone = timezone;
      status_device_id = device;
      transition = disconnected;
    };
    condition = some (contact (empty_contact 𝓝 (fresh 0) device));
    behaviour = Behaviour.rearm;
    for_duration = 𝓝.of_nat 10;
    cooldown = 𝓝.of_nat 60;
    clear_delay = 𝓝.zero;
    actions = empty_action 𝓝 for_actuator (fresh 1) device ∷ [];
    clear_notify = false;
    clear_message = "";
    preserved = record {
      strategy = none;
      reset_condition = none;
      clear_actions = [];
      actions = [];
    };
  }
