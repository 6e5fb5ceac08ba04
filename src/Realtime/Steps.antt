-- ===== src/Realtime/Steps.antt =====
-- The calls of the handlers, in whatever order the runtime and the caller make them.
use iot_saas.Prelude.{
  ◌⊎◌, mem, ◌<◌, ℕ, ◌+◌, ◌≤◌, String, Bool, true, false, ◌≡◌, Option, none, some, List, [], ◌∷◌,
  ◌++◌, length, All,
}
use iot_saas.Realtime.{
  Connection, Reason, Timer, connect, token_came, on_open, on_close, on_error, close,
}

-- One call of a handler by the runtime or of `close` by the caller. A token request may fail where
-- `rejects` is true. A socket that was asked to close may open where `late` is true; each closes once.
pub data Step (url_of : String → Option String) (rejects late : Bool)
    : Connection → Connection → Type 0 where
  token :
      (c : Connection) (xs ys : List Reason) (r : Reason) (t : Option String)
      → c.waiting ≡ xs ++ r ∷ ys
      → Step url_of rejects late c (token_came url_of t (record c { waiting = xs ++ ys }))
  rejected :
      (c : Connection) (xs ys : List Reason) (r : Reason)
      → rejects ≡ true
      → c.waiting ≡ xs ++ r ∷ ys
      → Step url_of rejects late c (record c { waiting = xs ++ ys })
  fired :
      (c : Connection) (xs ys : List Timer) (t : Timer)
      → c.timers ≡ xs ++ t ∷ ys
      → Step url_of rejects late c (connect t.reason (record c { timers = xs ++ ys }))
  opens :
      (c : Connection) (s : ℕ)
      → mem s c.sockets ≡ true
      → (mem s c.asked ≡ false) ⊎ (late ≡ true)
      → Step url_of rejects late c (on_open c)
  fails :
      (c : Connection) (s : ℕ) → mem s c.sockets ≡ true → Step url_of rejects late c (on_error c)
  closes :
      (c : Connection) (xs ys : List ℕ) (s code : ℕ)
      → c.sockets ≡ xs ++ s ∷ ys
      → Step url_of rejects late c (on_close code (record c { sockets = xs ++ ys }))
  ended : (c : Connection) → Step url_of rejects late c (close c)

pub data Reaches (url_of : String → Option String) (rejects late : Bool)
    : Connection → Connection → Type 0 where
  stay : (c : Connection) → Reaches url_of rejects late c c
  after :
      (a b c : Connection)
      → Reaches url_of rejects late a b
      → Step url_of rejects late b c
      → Reaches url_of rejects late a c

-- Attempts under way: token requests, timers and sockets.
abbrev pub attempts : Connection → ℕ
attempts c = length c.waiting + length c.timers + length c.sockets

abbrev pub socket_list : Option ℕ → List ℕ
socket_list none = []
socket_list (some s) = s ∷ []

-- At most one attempt is under way; `socket` is the socket that has yet to close, if any; once the
-- caller has ended the connection, that socket was asked to close; a socket's number is given once; waits are from 1 to 15 seconds.
pub record IsSound (c : Connection) : Type 0 where
  pub one : attempts c ≤ 1
  pub held : c.sockets ≡ socket_list c.socket
  pub asked : c.closed ≡ true → All (λ s. mem s c.asked ≡ true) c.sockets
  pub known : All (λ s. s < c.next_socket) c.sockets
  pub known_asked : All (λ s. s < c.next_socket) c.asked
  pub low : 1000 ≤ c.backoff
  pub high : c.backoff ≤ 15000
  pub delays : All (λ t. t.delay ≤ 15000) c.timers
