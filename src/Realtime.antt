-- ===== src/Realtime.antt =====
-- The live-updates connection (packages/shared/src/realtime.ts, connectRealtime). A handler is a
-- function on the closure's variables and on what the runtime holds for it: the token requests that
-- have yet to return, the timers that have yet to fire, and the sockets that have yet to close.
pub mod Url
pub mod Frames
pub mod Steps
pub mod Handlers
pub mod Reachable
pub mod Ended
pub mod Going
pub mod Reopening
mod Tests
use iot_saas.Prelude.{
  ℕ, suc, ◌*◌, min, String, Bool, true, false, Option, none, some, List, [], ◌∷◌, ◌++◌, ◌==◌,
  if◌then◌else◌,
}
use iot_saas.Prelude.Text.{is_empty}

pub data RealtimeStatus : Type 0 where
  connecting opened reconnecting closed : RealtimeStatus

pub data Reason : Type 0 where
  initial auth_rejected reconnect : Reason

-- A call of setTimeout, which connects with the reason after the delay.
pub record Timer : Type 0 where
  pub reason : Reason
  pub delay : ℕ

-- `statuses` are the calls of onStatusChange, the last one first; `asked` are the sockets whose
-- `close()` was called, and `urls` those that createSocket was called with, the last one first.
pub record Connection : Type 0 where
  pub closed : Bool
  pub backoff : ℕ
  pub socket : Option ℕ
  pub waiting : List Reason
  pub timers : List Timer
  pub sockets : List ℕ
  pub asked : List ℕ
  pub urls : List String
  pub next_socket : ℕ
  pub statuses : List RealtimeStatus

unfoldable pub max_backoff : ℕ
max_backoff = 15000

-- the variables at the start of connectRealtime
unfoldable pub new_connection : Connection
new_connection = record {
  closed = false;
  backoff = 1000;
  socket = none;
  waiting = [];
  timers = [];
  sockets = [];
  asked = [];
  urls = [];
  next_socket = 0;
  statuses = [];
}

abbrev pub tell : RealtimeStatus → Connection → Connection
tell status c = record c { statuses = status ∷ c.statuses }

abbrev pub status_for : Reason → RealtimeStatus
status_for initial = connecting
status_for _ = reconnecting

-- `connect(reason)` up to its `await`
unfoldable pub connect : Reason → Connection → Connection
connect reason c =
    if c.closed
    then c
    else record (tell (status_for reason) c) { waiting = c.waiting ++ reason ∷ [] }

-- createSocket and the handlers' assignment; where the URL throws, nothing happens
abbrev pub open_socket : Option String → Connection → Connection
open_socket none c = c
open_socket (some url) c = record c {
  socket = some c.next_socket;
  sockets = c.next_socket ∷ c.sockets;
  urls = url ∷ c.urls;
  next_socket = suc c.next_socket;
}

-- `!token`
abbrev pub no_token : Option String → Bool
no_token none = true
no_token (some token) = is_empty token

abbrev pub token_of : Option String → String
token_of none = ""
token_of (some token) = token

-- The rest of `connect` once the token is there; `url_of` is wsUrlFromApiUrl at the options.
unfoldable pub token_came : (String → Option String) → Option String → Connection → Connection
token_came url_of token c =
    if c.closed
    then c
    else if no_token token
    then tell RealtimeStatus.closed c
    else open_socket (url_of (token_of token)) c

unfoldable pub on_open : Connection → Connection
on_open c = tell opened (record c { backoff = 1000 })

abbrev pub next_reason : ℕ → Reason
next_reason code = if code == 4401 then auth_rejected else reconnect

abbrev pub retry_delay : Reason → ℕ → ℕ
retry_delay auth_rejected backoff = 0
retry_delay _ backoff = backoff

abbrev pub retry_later : ℕ → Connection → Connection
retry_later code c =
    let timer : Timer = record {
      reason = next_reason code;
      delay = retry_delay (next_reason code) c.backoff;
    } in
    record (tell reconnecting c) {
      timers = c.timers ++ timer ∷ [];
      backoff = min (c.backoff * 2) max_backoff;
    }

unfoldable pub on_close : ℕ → Connection → Connection
unfolding max_backoff
on_close code c =
    let d = record c { socket = none } in
    if c.closed
    then d
    else if code == 4403
    then tell RealtimeStatus.closed d
    else retry_later code d

abbrev pub ask_to_close : Option ℕ → List ℕ → List ℕ
ask_to_close none asked = asked
ask_to_close (some s) asked = s ∷ asked

-- `socket?.close()`
unfoldable pub on_error : Connection → Connection
on_error c = record c { asked = ask_to_close c.socket c.asked }

-- the `close` that connectRealtime returns
unfoldable pub close : Connection → Connection
close c = record c { closed = true; asked = ask_to_close c.socket c.asked }

unfoldable pub connect_realtime : Connection
unfolding connect new_connection
connect_realtime = connect initial new_connection
