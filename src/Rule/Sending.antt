-- ===== src/Rule/Sending.antt =====
-- `wouldSend` (frontend/src/lib/rule-preview.ts): the messages that a rule would send.
use Prim.Native.String
use iot_saas.Prelude.{ℕ, String, Option, none, some, List, [], ◌∷◌, ◌++◌, map, if◌then◌else◌}
use iot_saas.Prelude.Text.{join}
use iot_saas.Prelude.Numbers.{Numbers}
use iot_saas.Prelude.Json.{
  Json, null, num, str, obj, field, end, JsonObject, JsonText, get, is_text, array_or_empty,
}
use iot_saas.Rule.Model.{RuleDraft, RuleRequest}
use iot_saas.Rule.Request.{draft_to_request}

pub data SendKind : Type 0 where
  command clear email webhook notification : SendKind

pub record Send : Type 0 where
  pub kind : SendKind
  pub target : String
  pub payload : String

-- `stringify` is JSON.stringify without indent.
module _ {N : Type 0} (𝓝 : Numbers N) (𝓙 : JsonText N) (stringify : Json N → String) where
  abbrev shown : Json N → String
  shown (str s) = s
  shown v = JsonText.show 𝓙 v

  -- `String(v ?? fallback)`
  abbrev text_of : String → Option (Json N) → String
  text_of fallback none = fallback
  text_of fallback (some null) = fallback
  text_of fallback (some v) = shown v

  -- `{ value, ttl }`, where an undefined value is not printed
  abbrev with_ttl : Option (Json N) → N → Json N
  with_ttl none ttl = obj (field "ttl" (num ttl) end)
  with_ttl (some v) ttl = obj (field "value" v (field "ttl" (num ttl) end))

  abbrev slug_or : Option String → String
  slug_or none = "?"
  slug_or (some slug) = slug

  abbrev topic : String → String → String → String
  topic tenant slug name =
      String.◌++◌ tenant (String.◌++◌ "/" (String.◌++◌ slug (String.◌++◌ "/cmd/" name)))

  unfoldable pub command_send :
      SendKind → String → (String → Option String) → N → JsonObject N → Send
  command_send kind tenant device_slug ttl a = record {
    kind = kind;
    target =
        topic tenant (slug_or (device_slug (text_of "" (get "device_id" a))))
          (text_of "?" (get "actuator" a));
    payload = stringify (with_ttl (get "value" a) ttl);
  }

  abbrev recipients : List (Json N) → String
  recipients [] = "the workspace's alert recipients"
  recipients (v ∷ vs) = join ", " (map shown (v ∷ vs))

  abbrev body_or_empty : Option (Json N) → Json N
  body_or_empty none = obj end
  body_or_empty (some null) = obj end
  body_or_empty (some v) = v

  unfoldable pub action_sends : String → (String → Option String) → N → JsonObject N → List Send
  unfolding command_send
  action_sends tenant device_slug ttl a =
      if is_text "actuator_command" (get "type" a)
      then command_send command tenant device_slug ttl a ∷ []
      else if is_text "email" (get "type" a)
      then record {
        kind = email;
        target = recipients (array_or_empty (get "to" a));
        payload = text_of "" (get "subject" a);
      }
        ∷ []
      else if is_text "webhook" (get "type" a)
      then record {
        kind = webhook;
        target = text_of "" (get "url" a);
        payload = stringify (body_or_empty (get "body" a));
      }
        ∷ []
      else if is_text "notification" (get "type" a)
      then record {
        kind = notification;
        target = "Notifications";
        payload = text_of "" (get "message" a);
      }
        ∷ []
      else []

  unfoldable pub clear_sends : String → (String → Option String) → N → JsonObject N → List Send
  unfolding command_send
  clear_sends tenant device_slug ttl a =
      if is_text "actuator_command" (get "type" a)
      then command_send clear tenant device_slug ttl a ∷ []
      else if is_text "notification" (get "type" a)
      then record {
        kind = notification;
        target = "Notifications (on clear)";
        payload = text_of "" (get "message" a);
      }
        ∷ []
      else []

  abbrev all_sends : (JsonObject N → List Send) → List (JsonObject N) → List Send
  all_sends f [] = []
  all_sends f (a ∷ xs) = f a ++ all_sends f xs

  -- a request that throws sends nothing
  abbrev sends_of : String → (String → Option String) → N → Option (RuleRequest N) → List Send
  sends_of tenant device_slug ttl none = []
  sends_of tenant device_slug ttl (some r) =
      all_sends (action_sends tenant device_slug ttl) r.actions
      ++ all_sends (clear_sends tenant device_slug ttl) r.clear_actions

  -- `fuel` is for the request.
  unfoldable pub would_send : ℕ → RuleDraft N → String → (String → Option String) → N → List Send
  unfolding action_sends clear_sends
  would_send fuel d tenant device_slug ttl =
      sends_of tenant device_slug ttl (draft_to_request 𝓝 𝓙 fuel d)
