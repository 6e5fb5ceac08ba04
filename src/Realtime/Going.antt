-- ===== src/Realtime/Going.antt =====
-- A connection that is neither ended nor given up keeps trying.
use iot_saas.Realtime.Reachable.{Reaches-IsSound}
use iot_saas.Realtime.Handlers.{socket_closed, timers-IsIdle, waiting-IsIdle}
use iot_saas.Realtime.Steps.{
  Step, Reaches, IsSound, attempts, token, rejected, fired, opens, fails, closes, ended, stay,
  after,
}
use iot_saas.Prelude.{
  mem, length-append, ◌≢◌, if_both, ℕ, ◌≤◌, String, Bool, true, false, ◌≡◌, refl, Option, none,
  some, List, [], ◌∷◌, ◌++◌, length, ◌==◌, inl, inr, ◌⊎◌, arith, if◌then◌else◌,
}
use iot_saas.Realtime.{
  retry_delay, next_reason, max_backoff, token_of, retry_later, open_socket, new_connection,
  status_for, tell, Connection, Reason, Timer, RealtimeStatus, connect, token_came, on_open,
  on_close, on_error, close, no_token, connect_realtime,
}

abbrev pub told_closed : List RealtimeStatus → Bool
told_closed (RealtimeStatus.closed ∷ ss) = true
told_closed _ = false

-- Ended by the caller, given up after telling so, or with exactly one attempt under way.
abbrev pub IsGoing : Connection → Type 0
IsGoing c =
    (c.closed ≡ true) ⊎ (((told_closed c.statuses ≡ true) × (attempts c ≡ 0)) ⊎ (attempts c ≡ 1))

connect-IsGoing : (r : Reason) (c : Connection) → attempts c ≡ 0 → IsGoing (connect r c)
unfolding connect
connect-IsGoing r c h =
    if_both IsGoing c.closed c (record (tell (status_for r) c) { waiting = c.waiting ++ r ∷ [] })
      (λ e. inl e) (λ e. inr (inr (omega (arith, length-append c.waiting (r ∷ [])))))

open_socket-IsGoing :
    (url : Option String) (c : Connection)
    → url ≢ none
    → attempts c ≡ 0
    → IsGoing (open_socket url c)
open_socket-IsGoing none c n h = absurd (n refl)
open_socket-IsGoing (some url) c n h = inr (inr (omega arith))

retry_later-IsGoing : (code : ℕ) (c : Connection) → attempts c ≡ 0 → IsGoing (retry_later code c)
unfolding max_backoff
retry_later-IsGoing code c h =
    let r = next_reason code in
    let t : Timer = record { reason = r; delay = retry_delay r c.backoff } in
    inr (inr (omega (arith, length-append c.timers (t ∷ []))))

mem-length : (s : ℕ) (xs : List ℕ) → mem s xs ≡ true → 1 ≤ length xs
mem-length s [] h = absurd (ground arith)
mem-length s (x ∷ xs) h = omega arith

module _ (url_of : String → Option String) (valid : (t : String) → url_of t ≢ none) where
  token_came-IsGoing :
      (t : Option String) (c : Connection) → attempts c ≡ 0 → IsGoing (token_came url_of t c)
  unfolding token_came
  token_came-IsGoing t c h =
      let opened = open_socket (url_of (token_of t)) c in
      if_both IsGoing c.closed c (if no_token t then tell RealtimeStatus.closed c else opened)
        (λ e. inl e)
        (λ e.
          if_both IsGoing (no_token t) (tell RealtimeStatus.closed c) opened
            (λ k. inr (inl (refl, h)))
            (λ k. open_socket-IsGoing (url_of (token_of t)) c (valid (token_of t)) h))

  on_close-IsGoing : (code : ℕ) (c : Connection) → attempts c ≡ 0 → IsGoing (on_close code c)
  unfolding on_close
  on_close-IsGoing code c h =
      let d = record c { socket = none } in
      let later = retry_later code d in
      if_both IsGoing c.closed d (if code == 4403 then tell RealtimeStatus.closed d else later)
        (λ e. inl e)
        (λ e.
          if_both IsGoing (code == 4403) (tell RealtimeStatus.closed d) later
            (λ k. inr (inl (refl, h))) (λ k. retry_later-IsGoing code d h))

  Step-IsGoing :
      (late : Bool) (c d : Connection)
      → Step url_of false late c d
      → IsSound c
      → IsGoing c
      → IsGoing d
  unfolding on_open on_error close
  Step-IsGoing late _ _ (token c xs ys r t e) h g =
      token_came-IsGoing t (record c { waiting = xs ++ ys })
        (waiting-IsIdle c xs ys r e h).none_under_way
  Step-IsGoing late _ _ (rejected c xs ys r q e) h g = absurd (ground arith)
  Step-IsGoing late _ _ (fired c xs ys t e) h g =
      connect-IsGoing t.reason (record c { timers = xs ++ ys })
        (timers-IsIdle c xs ys t e h).none_under_way
  Step-IsGoing late _ _ (opens c s p q) h g =
      let k = h.one in inr (inr (omega (arith, mem-length s c.sockets p)))
  Step-IsGoing late _ _ (fails c s p) h g = g
  Step-IsGoing late _ _ (closes c xs ys s code e) h g =
      on_close-IsGoing code (record c { sockets = xs ++ ys })
        (socket_closed c xs ys s e h).none_under_way
  Step-IsGoing late _ _ (ended c) h g = inl refl

  -- Where the API's URL is valid and no token request fails, a reachable connection that the caller
  -- has not ended and that has not told "closed" last has exactly one attempt under way.
  pub Reaches-IsGoing :
      (late : Bool) (c : Connection) → Reaches url_of false late connect_realtime c → IsGoing c
  unfolding connect_realtime connect new_connection
  Reaches-IsGoing late _ (stay _) = inr (inr refl)
  Reaches-IsGoing late _ (after _ b c r s) =
      Step-IsGoing late b c s (Reaches-IsSound url_of false late b r) (Reaches-IsGoing late b r)
