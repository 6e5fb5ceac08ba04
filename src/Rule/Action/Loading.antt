-- ===== src/Rule/Action/Loading.antt =====
-- New actions, and the actions of the API as the editor holds them (frontend/src/lib/rule-draft.ts).
use iot_saas.Prelude.{String, Bool, true, false, not, ◌||◌, Option, none, some, map, if◌then◌else◌}
use iot_saas.Prelude.Text.{is_empty, join}
use iot_saas.Prelude.Numbers.{Numbers}
use iot_saas.Prelude.Json.{
  Json, null, bool, num, str, JsonObject, JsonText, get, is_text, text_or, array_or_empty,
}
use iot_saas.Rule.Action.{
  ValueKind, ActuatorActionDraft, ActionDraft, actuator, email, webhook, notification,
}

pub data ActionKind : Type 0 where
  for_actuator for_email for_webhook for_notification : ActionKind

-- `value` is the API's, whatever its type; undefined is `none`.
module _ {N : Type 0} where
  unfoldable pub value_kind_of : Option (Json N) → ValueKind
  value_kind_of (some (num n)) = ValueKind.number
  value_kind_of (some (str s)) = ValueKind.text
  value_kind_of _ = ValueKind.boolean

  abbrev pub not_false : Option (Json N) → Bool
  not_false (some (bool b)) = b
  not_false _ = true

  abbrev pub number_or : N → Option (Json N) → N
  number_or n (some (num m)) = m
  number_or n _ = n

module _ {N : Type 0} (𝓝 : Numbers N) where
  blank_actuator : String → String → ActuatorActionDraft N
  blank_actuator id device = record {
    id = id;
    device_id = device;
    actuator = "";
    value_kind = ValueKind.boolean;
    bool = true;
    num = 𝓝.zero;
    text = "";
    revert_on_clear = false;
    clear_bool = none;
    clear_num = 𝓝.zero;
    clear_text = "";
  }

  -- `id` is what newId() returns.
  unfoldable pub empty_action : ActionKind → String → String → ActionDraft N
  unfolding blank_actuator
  empty_action for_actuator id device = actuator (blank_actuator id device)
  empty_action for_email id device = email (record { id = id; to = ""; subject = ""; body = "" })
  empty_action for_webhook id device = webhook (record { id = id; url = ""; body = "{}" })
  empty_action for_notification id device = notification (record { id = id; message = "" })

  -- whether JavaScript takes the value for true
  truthy : Option (Json N) → Bool
  truthy none = false
  truthy (some null) = false
  truthy (some (bool b)) = b
  truthy (some (num n)) = 𝓝.lt 𝓝.zero n || 𝓝.lt n 𝓝.zero
  truthy (some (str s)) = not (is_empty s)
  truthy (some _) = true

  -- `String(v)`
  as_text : JsonText N → Json N → String
  as_text 𝓙 (str s) = s
  as_text 𝓙 v = JsonText.show 𝓙 v

  webhook_body : JsonText N → Option (Json N) → String
  unfolding truthy
  webhook_body 𝓙 none = "{}"
  webhook_body 𝓙 (some v) = if truthy (some v) then JsonText.print 𝓙 v else "{}"

  actuator_from : String → String → JsonObject N → ActionDraft N
  unfolding blank_actuator
  actuator_from id name a = actuator (record (blank_actuator id (text_or "" (get "device_id" a))) {
    actuator = name;
    value_kind = value_kind_of (get "value" a);
    bool = not_false (get "value" a);
    num = number_or 𝓝.zero (get "value" a);
    text = text_or "" (get "value" a);
  })

  other_from : JsonText N → String → JsonObject N → Option (ActionDraft N)
  unfolding as_text webhook_body
  other_from 𝓙 id a =
      if is_text "email" (get "type" a)
      then some (
          email (record {
            id = id;
            to = join ", " (map (as_text 𝓙) (array_or_empty (get "to" a)));
            subject = text_or "" (get "subject" a);
            body = text_or "" (get "body" a);
          }))
      else if is_text "webhook" (get "type" a)
      then some (
          webhook (record {
            id = id;
            url = text_or "" (get "url" a);
            body = webhook_body 𝓙 (get "body" a);
          }))
      else if is_text "notification" (get "type" a)
      then some (notification (record { id = id; message = text_or "" (get "message" a) }))
      else none

  from_typed : JsonText N → String → JsonObject N → Option (Json N) → Option (ActionDraft N)
  unfolding actuator_from other_from
  from_typed 𝓙 id a (some (str name)) =
      if is_text "actuator_command" (get "type" a)
      then some (actuator_from id name a)
      else other_from 𝓙 id a
  from_typed 𝓙 id a _ = other_from 𝓙 id a

  -- `id` is what its own newId() returns; the one inside emptyAction is written over.
  unfoldable pub action_from_api : JsonText N → String → JsonObject N → Option (ActionDraft N)
  unfolding from_typed
  action_from_api 𝓙 id a = from_typed 𝓙 id a (get "actuator" a)
