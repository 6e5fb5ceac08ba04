-- ===== src/Realtime/Handlers.antt =====
-- What each handler of a connection preserves.
use iot_saas.Realtime.Steps.{IsSound, socket_list, attempts}
use iot_saas.Prelude.{
  mem, ◌<◌, if_both, if◌then◌else◌, ℕ, suc, ◌≤◌, String, true, false, ◌≡◌, refl, ap, ◌∙◌, Option,
  none, some, List, [], ◌∷◌, ◌++◌, length, length-append, All, All-append, ◌==◌, arith,
}
use iot_saas.Realtime.{
  status_for, token_of, next_reason, ask_to_close, retry_delay, retry_later, open_socket, tell,
  Connection, Reason, Timer, RealtimeStatus, connect, token_came, on_open, on_close, on_error,
  close, no_token, max_backoff,
}

pub length-middle :
    {A : Type 0} (xs ys : List A) (x : A) → length (xs ++ x ∷ ys) ≡ suc (length (xs ++ ys))
length-middle xs ys x = omega (arith, length-append xs (x ∷ ys), length-append xs ys)

pub empty_of_length : {A : Type 0} (xs : List A) → length xs ≡ 0 → xs ≡ []
empty_of_length [] h = refl
empty_of_length (x ∷ xs) h = absurd (omega arith)

pub All-middle :
    {A : Type 0} (P : A → Type 0) (xs ys : List A) (x : A) → All P (xs ++ x ∷ ys) → All P (xs ++ ys)
All-middle P [] ys x h = h.1
All-middle P (w ∷ xs) ys x h = (h.0, All-middle P xs ys x h.1)

socket_list-empty : (s : Option ℕ) → socket_list s ≡ [] → s ≡ none
socket_list-empty none h = refl
socket_list-empty (some s) h = absurd (omega (arith, ap length h))

mem_self : (s : ℕ) (xs : List ℕ) → mem s (s ∷ xs) ≡ true
mem_self s xs = ground arith

-- A connection whose token request has come back or whose timer has fired: nothing is under way.
pub record IsIdle (c : Connection) : Type 0 where
  pub none_under_way : attempts c ≡ 0
  pub sound : IsSound c

pub waiting-IsIdle :
    (c : Connection) (xs ys : List Reason) (r : Reason)
    → c.waiting ≡ xs ++ r ∷ ys
    → IsSound c
    → IsIdle (record c { waiting = xs ++ ys })
waiting-IsIdle c xs ys r e h =
    let l = ap length e ∙ length-middle xs ys r in
    let k = h.one in
    record {
      none_under_way = omega arith;
      sound = record {
        one = omega arith;
        held = h.held;
        asked = h.asked;
        known = h.known;
        known_asked = h.known_asked;
        low = h.low;
        high = h.high;
        delays = h.delays;
      };
    }

pub timers-IsIdle :
    (c : Connection) (xs ys : List Timer) (t : Timer)
    → c.timers ≡ xs ++ t ∷ ys
    → IsSound c
    → IsIdle (record c { timers = xs ++ ys })
timers-IsIdle c xs ys t e h =
    let l = ap length e ∙ length-middle xs ys t in
    let k = h.one in
    record {
      none_under_way = omega arith;
      sound = record {
        one = omega arith;
        held = h.held;
        asked = h.asked;
        known = h.known;
        known_asked = h.known_asked;
        low = h.low;
        high = h.high;
        delays = All-middle (λ t. t.delay ≤ 15000) xs ys t (rw e at h.delays);
      };
    }

pub connect-IsSound : (r : Reason) (c : Connection) → IsIdle c → IsSound (connect r c)
unfolding connect
connect-IsSound r c h =
    let k = h.none_under_way in
    if_both IsSound c.closed c (record (tell (status_for r) c) { waiting = c.waiting ++ r ∷ [] })
      (λ e. h.sound)
      (λ e. record {
        one = omega (arith, length-append c.waiting (r ∷ []));
        held = h.sound.held;
        asked = h.sound.asked;
        known = h.sound.known;
        known_asked = h.sound.known_asked;
        low = h.sound.low;
        high = h.sound.high;
        delays = h.sound.delays;
      })

tell-IsSound : (status : RealtimeStatus) (c : Connection) → IsSound c → IsSound (tell status c)
tell-IsSound status c h = record {
  one = h.one;
  held = h.held;
  asked = h.asked;
  known = h.known;
  known_asked = h.known_asked;
  low = h.low;
  high = h.high;
  delays = h.delays;
}

known_grows : (n : ℕ) (xs : List ℕ) → All (λ s. s < n) xs → All (λ s. s < suc n) xs
known_grows n [] h = tt
known_grows n (x ∷ xs) (h, hs) = (omega arith, known_grows n xs hs)

ask_to_close-known :
    (s : Option ℕ) (asked : List ℕ) (n : ℕ)
    → All (λ x. x < n) (socket_list s)
    → All (λ x. x < n) asked
    → All (λ x. x < n) (ask_to_close s asked)
ask_to_close-known none asked n h k = k
ask_to_close-known (some s) asked n h k = (h.0, k)

open_socket-IsSound :
    (url : Option String) (c : Connection)
    → IsIdle c
    → c.closed ≡ false
    → IsSound (open_socket url c)
open_socket-IsSound none c h e = h.sound
open_socket-IsSound (some url) c h e =
    let k = h.none_under_way in
    record {
      one = omega arith;
      held = ap (λ xs. c.next_socket ∷ xs) (empty_of_length c.sockets (omega arith));
      asked = λ k. absurd (ground arith);
      known = (omega arith, known_grows c.next_socket c.sockets h.sound.known);
      known_asked = known_grows c.next_socket c.asked h.sound.known_asked;
      low = h.sound.low;
      high = h.sound.high;
      delays = h.sound.delays;
    }

pub token_came-IsSound :
    (url_of : String → Option String) (t : Option String) (c : Connection)
    → IsIdle c
    → IsSound (token_came url_of t c)
unfolding token_came
token_came-IsSound url_of t c h =
    let opened = open_socket (url_of (token_of t)) c in
    if_both IsSound c.closed c (if no_token t then tell RealtimeStatus.closed c else opened)
      (λ e. h.sound)
      (λ e.
        if_both IsSound (no_token t) (tell RealtimeStatus.closed c) opened
          (λ k. tell-IsSound RealtimeStatus.closed c h.sound)
          (λ k. open_socket-IsSound (url_of (token_of t)) c h e))

-- The state in which a socket's `onclose` has set `socket = null`.
pub socket_closed :
    (c : Connection) (xs ys : List ℕ) (s : ℕ)
    → c.sockets ≡ xs ++ s ∷ ys
    → IsSound c
    → IsIdle (record c { sockets = xs ++ ys; socket = none })
socket_closed c xs ys s e h =
    let l = ap length e ∙ length-middle xs ys s in
    let k = h.one in
    let gone = empty_of_length (xs ++ ys) (omega arith) in
    record {
      none_under_way = omega arith;
      sound = record {
        one = omega arith;
        held = gone;
        asked = λ q. rw gone tt;
        known = rw gone tt;
        known_asked = h.known_asked;
        low = h.low;
        high = h.high;
        delays = h.delays;
      };
    }

retry_delay_high : (r : Reason) (b : ℕ) → b ≤ 15000 → retry_delay r b ≤ 15000
retry_delay_high Reason.initial b h = h
retry_delay_high Reason.auth_rejected b h = omega arith
retry_delay_high Reason.reconnect b h = h

retry_later-IsSound : (code : ℕ) (c : Connection) → IsIdle c → IsSound (retry_later code c)
unfolding max_backoff
retry_later-IsSound code c h =
    let r = next_reason code in
    let t : Timer = record { reason = r; delay = retry_delay r c.backoff } in
    let k = h.none_under_way in
    let low = h.sound.low in
    record {
      one = omega (arith, length-append c.timers (t ∷ []));
      held = h.sound.held;
      asked = h.sound.asked;
      known = h.sound.known;
      known_asked = h.sound.known_asked;
      low = omega arith;
      high = omega arith;
      delays =
          All-append (λ t. t.delay ≤ 15000) c.timers (t ∷ []) h.sound.delays
            (retry_delay_high r c.backoff h.sound.high, tt);
    }

pub on_close-IsSound :
    (code : ℕ) (c : Connection) (xs ys : List ℕ) (s : ℕ)
    → c.sockets ≡ xs ++ s ∷ ys
    → IsSound c
    → IsSound (on_close code (record c { sockets = xs ++ ys }))
unfolding on_close
on_close-IsSound code c xs ys s e h =
    let d = record c { sockets = xs ++ ys; socket = none } in
    let i = socket_closed c xs ys s e h in
    if_both IsSound c.closed d
      (if code == 4403 then tell RealtimeStatus.closed d else retry_later code d) (λ e. i.sound)
      (λ e.
        if_both IsSound (code == 4403) (tell RealtimeStatus.closed d) (retry_later code d)
          (λ k. tell-IsSound RealtimeStatus.closed d i.sound) (λ k. retry_later-IsSound code d i))

asked_still :
    (s : Option ℕ) (xs asked : List ℕ)
    → All (λ s. mem s asked ≡ true) xs
    → All (λ x. mem x (ask_to_close s asked) ≡ true) xs
asked_still none xs asked h = h
asked_still (some s) [] asked h = tt
asked_still (some s) (x ∷ xs) asked (h, hs) = (ground arith, asked_still (some s) xs asked hs)

asked_now :
    (s : Option ℕ) (asked : List ℕ) → All (λ x. mem x (ask_to_close s asked) ≡ true) (socket_list s)
asked_now none asked = tt
asked_now (some s) asked = (mem_self s asked, tt)

pub on_error-IsSound : (c : Connection) → IsSound c → IsSound (on_error c)
unfolding on_error
on_error-IsSound c h = record {
  one = h.one;
  held = h.held;
  asked = λ e. asked_still c.socket c.sockets c.asked (h.asked e);
  known = h.known;
  known_asked =
      ask_to_close-known c.socket c.asked c.next_socket (rw h.held at h.known) h.known_asked;
  low = h.low;
  high = h.high;
  delays = h.delays;
}

pub close-IsSound : (c : Connection) → IsSound c → IsSound (close c)
unfolding close
close-IsSound c h = record {
  one = h.one;
  held = h.held;
  asked = λ e. rw h.held (asked_now c.socket c.asked);
  known = h.known;
  known_asked =
      ask_to_close-known c.socket c.asked c.next_socket (rw h.held at h.known) h.known_asked;
  low = h.low;
  high = h.high;
  delays = h.delays;
}

pub on_open-IsSound : (c : Connection) → IsSound c → IsSound (on_open c)
unfolding on_open
on_open-IsSound c h = record {
  one = h.one;
  held = h.held;
  asked = h.asked;
  known = h.known;
  known_asked = h.known_asked;
  low = omega arith;
  high = omega arith;
  delays = h.delays;
}
