-- ===== src/Realtime/Reachable.antt =====
-- The connections that the handlers reach.
use iot_saas.Realtime.Handlers.{
  close-IsSound, on_close-IsSound, on_error-IsSound, on_open-IsSound, timers-IsIdle,
  connect-IsSound, waiting-IsIdle, token_came-IsSound,
}
use iot_saas.Realtime.Steps.{
  Step, Reaches, IsSound, token, rejected, fired, opens, fails, closes, ended, stay, after,
}
use iot_saas.Prelude.{String, Bool, refl, Option, ◌++◌, arith}
use iot_saas.Realtime.{Connection, connect, connect_realtime, new_connection}

module _ (url_of : String → Option String) (rejects late : Bool) where
  pub Step-IsSound : (c d : Connection) → Step url_of rejects late c d → IsSound c → IsSound d
  Step-IsSound _ _ (token c xs ys r t e) h =
      token_came-IsSound url_of t (record c { waiting = xs ++ ys }) (waiting-IsIdle c xs ys r e h)
  Step-IsSound _ _ (rejected c xs ys r q e) h = (waiting-IsIdle c xs ys r e h).sound
  Step-IsSound _ _ (fired c xs ys t e) h =
      connect-IsSound t.reason (record c { timers = xs ++ ys }) (timers-IsIdle c xs ys t e h)
  Step-IsSound _ _ (opens c s p q) h = on_open-IsSound c h
  Step-IsSound _ _ (fails c s p) h = on_error-IsSound c h
  Step-IsSound _ _ (closes c xs ys s code e) h = on_close-IsSound code c xs ys s e h
  Step-IsSound _ _ (ended c) h = close-IsSound c h

  -- Whatever calls the runtime and the caller make, in whatever order, at most one attempt is under
  -- way: a token request, a timer or a socket. The variable `socket` is the socket that has yet to
  -- close, if any; once the caller has ended the connection, that socket was asked to close; the wait
  -- before a next attempt is at most 15 seconds, and the variable `backoff` is from 1 to 15 seconds.
  pub Reaches-IsSound :
      (c : Connection) → Reaches url_of rejects late connect_realtime c → IsSound c
  unfolding connect_realtime connect new_connection
  Reaches-IsSound _ (stay _) = record {
    one = omega arith;
    held = refl;
    asked = λ e. absurd (ground arith);
    known = tt;
    known_asked = tt;
    low = omega arith;
    high = omega arith;
    delays = tt;
  }
  Reaches-IsSound _ (after _ b c r s) = Step-IsSound b c s (Reaches-IsSound b r)
