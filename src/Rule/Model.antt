-- ===== src/Rule/Model.antt =====
-- A whole rule draft and the API's rule and request (frontend/src/lib/rule-draft.ts). A trigger type
-- is a text: the source casts whatever the API sends.
use iot_saas.Prelude.{String, Bool, true, false, ◌&&◌, Option, List, str_eq}
use iot_saas.Prelude.Json.{JsonObject}
use iot_saas.Rule.Draft.{DraftNode}
use iot_saas.Rule.Condition.{ConditionNode, Saved}
use iot_saas.Rule.Action.{ActionDraft}

pub data Transition : Type 0 where
  connected disconnected : Transition

pub data Behaviour : Type 0 where
  rearm latch other : Behaviour

pub record WhenDraft : Type 0 where
  pub type : String
  pub cron : String
  pub timezone : String
  pub status_device_id : String
  pub transition : Transition

pub record Preserved (N : Type 0) : Type 0 where
  pub strategy : Option String
  pub reset_condition : Option (ConditionNode N)
  pub clear_actions : List (JsonObject N)
  pub actions : List (JsonObject N)

pub record RuleDraft (N : Type 0) : Type 0 where
  pub name : String
  pub enabled : Bool
  pub trigger : WhenDraft
  pub condition : Option (DraftNode N)
  pub behaviour : Behaviour
  pub for_duration : N
  pub cooldown : N
  pub clear_delay : N
  pub actions : List (ActionDraft N)
  pub clear_notify : Bool
  pub clear_message : String
  pub preserved : Preserved N

-- The execution policy that the API sends; absent fields are `none`.
pub record PolicyResponse (N : Type 0) : Type 0 where
  pub strategy : Option String
  pub for_duration : Option N
  pub cooldown : Option N
  pub clear_for_duration : Option N
  pub reset_condition : Option (ConditionNode N)

-- The fields of RuleResponse that the editors read.
pub record RuleResponse (N : Type 0) : Type 0 where
  pub name : String
  pub enabled : Bool
  pub trigger : JsonObject N
  pub condition : Option (ConditionNode N)
  pub execution_policy : PolicyResponse N
  pub actions : List (JsonObject N)
  pub clear_actions : List (JsonObject N)

pub record PolicyRequest (N : Type 0) : Type 0 where
  pub strategy : String
  pub for_duration : N
  pub cooldown : N
  pub clear_for_duration : N
  pub reset_condition : Option (ConditionNode N)

pub record RuleRequest (N : Type 0) : Type 0 where
  pub name : Option String
  pub trigger : JsonObject N
  pub condition : Saved N
  pub execution_policy : PolicyRequest N
  pub actions : List (JsonObject N)
  pub clear_actions : List (JsonObject N)
  pub enabled : Bool

abbrev pub is_rearm : Behaviour → Bool
is_rearm Behaviour.rearm = true
is_rearm _ = false

module _ {N : Type 0} where
  unfoldable pub is_reading_rule : RuleDraft N → Bool
  is_reading_rule d = str_eq d.trigger.type "metric"

  unfoldable pub can_clear : RuleDraft N → Bool
  can_clear d = is_reading_rule d && is_rearm d.behaviour
