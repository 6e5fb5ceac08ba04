-- ===== src/Rule/Action.antt =====
-- The actions of a rule draft, their API shape and their problems
-- (frontend/src/lib/rule-draft.ts).
pub mod Loading
use Prim.Native.String
use iot_saas.Prelude.{
  String, Bool, true, false, not, ◌&&◌, Option, none, some, List, [], ◌∷◌, map, str_eq,
  if◌then◌else◌, find,
}
use iot_saas.Prelude.Text.{trim, is_empty}
use iot_saas.Prelude.Json.{Json, bool, num, str, arr, JsonObject, JsonText, from_list}
use iot_saas.Rule.Email.{parse_recipients, looks_like_email}

pub data ValueKind : Type 0 where
  boolean number text : ValueKind

pub record ActuatorActionDraft (N : Type 0) : Type 0 where
  pub id : String
  pub device_id : String
  pub actuator : String
  pub value_kind : ValueKind
  pub bool : Bool
  pub num : N
  pub text : String
  pub revert_on_clear : Bool
  pub clear_bool : Option Bool
  pub clear_num : N
  pub clear_text : String

pub record EmailActionDraft : Type 0 where
  pub id : String
  pub to : String
  pub subject : String
  pub body : String

pub record WebhookActionDraft : Type 0 where
  pub id : String
  pub url : String
  pub body : String

pub record NotificationActionDraft : Type 0 where
  pub id : String
  pub message : String

pub data ActionDraft (N : Type 0) : Type 0 where
  actuator : ActuatorActionDraft N → ActionDraft N
  email : EmailActionDraft → ActionDraft N
  webhook : WebhookActionDraft → ActionDraft N
  notification : NotificationActionDraft → ActionDraft N

-- `clearBool ?? !bool`
abbrev pub clear_bool_of : Option Bool → Bool → Bool
clear_bool_of (some b) on = b
clear_bool_of none on = not on

-- `a.body.trim() || "{}"`
unfoldable pub body_text : String → String
body_text body = let t = trim body in if is_empty t then "{}" else t

module _ {N : Type 0} where
  value_of : ValueKind → ActuatorActionDraft N → Json N
  value_of ValueKind.boolean a = bool a.bool
  value_of ValueKind.number a = num a.num
  value_of ValueKind.text a = str a.text

  unfoldable pub actuator_value : ActuatorActionDraft N → Json N
  unfolding value_of
  actuator_value a = value_of a.value_kind a

  clear_value_of : ValueKind → ActuatorActionDraft N → Json N
  clear_value_of ValueKind.boolean a = bool (clear_bool_of a.clear_bool a.bool)
  clear_value_of ValueKind.number a = num a.clear_num
  clear_value_of ValueKind.text a = str a.clear_text

  unfoldable pub actuator_clear_value : ActuatorActionDraft N → Json N
  unfolding clear_value_of
  actuator_clear_value a = clear_value_of a.value_kind a

  unfoldable pub actuator_to_api : ActuatorActionDraft N → JsonObject N
  unfolding actuator_value
  actuator_to_api a =
      ("type", str "actuator_command")
      ∷ ("device_id", str a.device_id)
      ∷ ("actuator", str (trim a.actuator))
      ∷ ("value", actuator_value a)
      ∷ []

  unfoldable pub notification_to_api : String → JsonObject N
  notification_to_api message =
      ("type", str "notification")
      ∷ ("message", str (trim message))
      ∷ ("channels", arr (from_list (str "platform" ∷ [])))
      ∷ []

  unfoldable pub webhook_to_api : WebhookActionDraft → Json N → JsonObject N
  webhook_to_api w body = ("type", str "webhook") ∷ ("url", str (trim w.url)) ∷ ("body", body) ∷ []

  -- `none` is the SyntaxError that JSON.parse throws.
  unfoldable pub action_to_api : JsonText N → ActionDraft N → Option (JsonObject N)
  unfolding notification_to_api webhook_to_api
  action_to_api 𝓙 (actuator a) = some (actuator_to_api a)
  action_to_api 𝓙 (email e) = some (
      ("type", str "email")
      ∷ ("to", arr (from_list (map str (parse_recipients e.to))))
      ∷ ("subject", str (trim e.subject))
      ∷ ("body", str (trim e.body))
      ∷ [])
  action_to_api 𝓙 (webhook w) = elim (JsonText.parse 𝓙 (body_text w.body)) [
    | none ↦ none
    | some body ↦ some (webhook_to_api w body)
  ]
  action_to_api 𝓙 (notification n) = some (notification_to_api n.message)

-- The first problem of an action in the editor's words, or null.
bad_recipient : String → String
bad_recipient r = String.◌++◌ "\"" (String.◌++◌ r "\" doesn't look like an email address.")

email_problem : Option String → String → String → Option String
unfolding bad_recipient
email_problem (some bad) subject body = some (bad_recipient bad)
email_problem none subject body =
    if not (is_empty (trim subject)) && not (is_empty (trim body))
    then none
    else some "An email needs a subject and a message."

module _ {N : Type 0} where
  webhook_problem : JsonText N → String → Option String
  webhook_problem 𝓙 body = elim (JsonText.parse 𝓙 body) [
    | some _ ↦ none
    | none ↦ some "The webhook body isn't valid JSON."
  ]

  unfoldable pub action_problem : JsonText N → ActionDraft N → Option String
  unfolding email_problem webhook_problem
  action_problem 𝓙 (actuator a) =
      if not (is_empty a.device_id) && not (is_empty (trim a.actuator))
      then none
      else some "An actuator action needs a device and an actuator."
  action_problem 𝓙 (email e) =
      email_problem (find (λ r. not (looks_like_email r)) (parse_recipients e.to)) e.subject e.body
  action_problem 𝓙 (webhook w) =
      if is_empty (trim w.url)
      then some "A webhook needs a URL."
      else webhook_problem 𝓙 (body_text w.body)
  action_problem 𝓙 (notification n) =
      if is_empty (trim n.message) then some "A notification needs a message." else none
