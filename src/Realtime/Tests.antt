-- ===== src/Realtime/Tests.antt =====
-- A connection that opens, drops and opens again, and frames of concrete events.
use iot_saas.Prelude.{
  inl, inr, if◌then◌else◌, ℕ, String, Bool, true, false, ◌≡◌, ◌≢◌, refl, none, some, Option, [],
  ◌∷◌, arith, str_eq,
}
use iot_saas.Prelude.Json.{Json, JsonText, obj, str, field, end}
use iot_saas.Realtime.{
  Connection, Reason, connect, token_came, on_open, on_close, close, connect_realtime,
  new_connection,
}
use iot_saas.Realtime.Steps.{Reaches, IsSound, token, opens, closes, stay, after}
use iot_saas.Realtime.Reachable.{Reaches-IsSound}
use iot_saas.Realtime.Ended.{IsSilent, close-IsSilent}
use iot_saas.Realtime.Going.{IsGoing, Reaches-IsGoing}
use iot_saas.Realtime.Reopening.{Reopens, Reaches-Reopens}
use iot_saas.Prelude.Text.{trim, trim_start, trim_end, is_space, drop_last}
use iot_saas.Realtime.Frames.{batch, on_message, on_messages, on_message-batch}
use iot_saas.Realtime.Url.{ws_url_from_api_url, ws_url_from_api_url_lem, ends_host}

abbrev url_of : String → Option String
url_of t = some "wss://api/ws"

valid : (t : String) → url_of t ≢ none
valid t h = ground arith

abbrev live : Connection
live = on_open (token_came url_of (some "t") (record connect_realtime { waiting = [] }))

abbrev dropped : Connection
dropped = on_close 1006 (record live { sockets = [] })

live_reached : (rejects late : Bool) → Reaches url_of rejects late connect_realtime live
unfolding connect_realtime connect new_connection token_came on_open
live_reached rejects late =
    let c = token_came url_of (some "t") (record connect_realtime { waiting = [] }) in
    after connect_realtime c live
      (after connect_realtime connect_realtime c (stay connect_realtime)
        (token connect_realtime [] [] Reason.initial (some "t") refl))
      (opens c 0 refl (inl refl))

dropped_reached : (rejects late : Bool) → Reaches url_of rejects late connect_realtime dropped
unfolding connect_realtime connect new_connection token_came on_open
dropped_reached rejects late =
    after connect_realtime live dropped (live_reached rejects late) (closes live [] [] 0 1006 refl)

Reaches-IsSound_example : IsSound dropped
Reaches-IsSound_example = Reaches-IsSound url_of true true dropped (dropped_reached true true)

close-IsSilent_example : IsSilent true (close live) (on_open (close live))
unfolding connect_realtime connect new_connection token_came on_open close
close-IsSilent_example =
    close-IsSilent url_of true true live (on_open (close live)) (live_reached true true) (
      after (close live) (close live) (on_open (close live)) (stay (close live))
        (opens (close live) 0 refl (inr refl)))

Reaches-IsGoing_example : IsGoing dropped
Reaches-IsGoing_example = Reaches-IsGoing url_of valid true dropped (dropped_reached false true)

Reaches-Reopens_example : Reopens url_of valid dropped
unfolding connect_realtime connect new_connection token_came on_open on_close
Reaches-Reopens_example =
    Reaches-Reopens url_of valid true dropped (dropped_reached false true) refl refl

abbrev ack : Json ℕ
ack = obj (field "type" (str "command_ack") end)

abbrev reader : JsonText ℕ
reader = record {
  parse = λ t.
      if str_eq t "a"
      then some ack
      else (if str_eq t "b" then some (batch (ack ∷ ack ∷ [])) else none);
  print = λ v. "a";
  show = λ v. "a";
}

on_message-batch_example : on_message reader "b" ≡ on_messages reader ("a" ∷ "a" ∷ [])
on_message-batch_example =
    on_message-batch reader "b" (("a", ack) ∷ ("a", ack) ∷ []) ((refl, refl), ((refl, refl), tt))
      refl

ws_url_from_api_url_lem_example :
    ws_url_from_api_url (λ t. t) "https://api.io/v1" "t" "x"
    ≡ some "wss://api.io/ws?token=t&tenant_id=x"
unfolding ends_host trim trim_start trim_end is_space drop_last
ws_url_from_api_url_lem_example =
    ws_url_from_api_url_lem (λ t. t) true "https://api.io/v1" "api.io" "/v1" "t" "x" refl
      (refl, (refl, (refl, (refl, (refl, (refl, tt)))))) refl refl
