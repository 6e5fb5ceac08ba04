-- ===== src/Realtime/Reopening.antt =====
-- A connection that keeps trying can open again.
use iot_saas.Realtime.Going.{Reaches-IsGoing, told_closed}
use iot_saas.Realtime.Reachable.{Reaches-IsSound, Step-IsSound}
use iot_saas.Realtime.Steps.{
  Step, Reaches, IsSound, attempts, token, fired, opens, closes, stay, after,
}
use iot_saas.Prelude.{
  mem, ◌<◌, length-append, ◌≢◌, if_both, ℕ, suc, String, Bool, true, false, ◌≡◌, refl, Option, none,
  some, List, [], ◌∷◌, length, All, ◌==◌, Bool-cases, Option-cases, inl, inr, arith,
}
use iot_saas.Realtime.{
  open_socket, Connection, Reason, RealtimeStatus, connect, token_came, on_open, on_close,
  connect_realtime,
}

abbrev pub told_open : List RealtimeStatus → Bool
told_open (RealtimeStatus.opened ∷ ss) = true
told_open _ = false

one_of : {A : Type 0} (xs : List A) → length xs ≡ 1 → (x : A) × (xs ≡ x ∷ [])
one_of [] h = absurd (omega arith)
one_of (x ∷ []) h = (x, refl)
one_of (x ∷ y ∷ xs) h = absurd (omega arith)

not_asked : (n : ℕ) (xs : List ℕ) → All (λ s. s < n) xs → mem n xs ≡ false
not_asked n [] h = refl
not_asked n (x ∷ xs) (h, hs) = ground (arith, not_asked n xs hs)

connect_live :
    (r : Reason) (c : Connection)
    → c.closed ≡ false
    → ((connect r c).closed ≡ false) × (length (connect r c).waiting ≡ suc (length c.waiting))
unfolding connect
connect_live r c e = simp e (refl, omega (arith, length-append c.waiting (r ∷ [])))

on_close_live :
    (c : Connection)
    → c.closed ≡ false
    → ((on_close 1006 c).closed ≡ false) × (length (on_close 1006 c).timers ≡ suc (length c.timers))
unfolding on_close
on_close_live c e = simp e (
  refl,
  omega (
    arith,
    length-append c.timers (record { reason = Reason.reconnect; delay = c.backoff } ∷ []),
  ),
)

module _ (url_of : String → Option String) (valid : (t : String) → url_of t ≢ none) where
  Reaches-trans :
      (a b c : Connection)
      → Reaches url_of false false a b
      → Reaches url_of false false b c
      → Reaches url_of false false a c
  Reaches-trans a _ _ r (stay b) = r
  Reaches-trans a _ _ r (after b c d q s) = after a c d (Reaches-trans a b c r q) s

  -- Calls that lead to an open socket.
  abbrev pub Reopens : Connection → Type 0
  Reopens c =
      (d : Connection) × Reaches url_of false false c d
      × (d.closed ≡ false)
      × (told_open d.statuses ≡ true)

  reopen_after : (c d : Connection) → Step url_of false false c d → Reopens d → Reopens c
  reopen_after c d s (e, r, k, t) = (e, Reaches-trans c d e (after c c d (stay c) s) r, k, t)

  reopen_socket :
      (c : Connection) (s : ℕ)
      → c.closed ≡ false
      → mem s c.sockets ≡ true
      → mem s c.asked ≡ false
      → Reopens c
  unfolding on_open
  reopen_socket c s e p q =
      (on_open c, after c c (on_open c) (stay c) (opens c s p (inl q)), e, refl)

  reopen_token :
      (c : Connection)
      → c.closed ≡ false
      → All (λ s. s < c.next_socket) c.asked
      → Reopens (token_came url_of (some "token") c)
  unfolding token_came
  reopen_token c e h =
      if_both Reopens c.closed c (open_socket (url_of "token") c) (λ k. absurd (ground arith))
        (λ k. elim (Option-cases (url_of "token")) [
          | inl q ↦ absurd (valid "token" q)
          | inr (u, q) ↦ rw q (
              reopen_socket (open_socket (some u) c) c.next_socket e (ground arith)
                (not_asked c.next_socket c.asked h))
        ])

  reopen_waiting :
      (c : Connection) → IsSound c → c.closed ≡ false → length c.waiting ≡ 1 → Reopens c
  reopen_waiting c h e l =
      let (r, q) = one_of c.waiting l in
      let d = record c { waiting = [] } in
      reopen_after c (token_came url_of (some "token") d) (token c [] [] r (some "token") q)
        (reopen_token d e h.known_asked)

  reopen_timers : (c : Connection) → IsSound c → c.closed ≡ false → length c.timers ≡ 1 → Reopens c
  reopen_timers c h e l =
      let (t, q) = one_of c.timers l in
      let d = connect t.reason (record c { timers = [] }) in
      let s = fired c [] [] t q in
      let k = h.one in
      let (f, w) = connect_live t.reason (record c { timers = [] }) e in
      reopen_after c d s
        (reopen_waiting d (Step-IsSound url_of false false c d s h) f (omega arith))

  reopen_sockets :
      (c : Connection) → IsSound c → c.closed ≡ false → length c.sockets ≡ 1 → Reopens c
  reopen_sockets c h e l =
      let (x, q) = one_of c.sockets l in
      let d = on_close 1006 (record c { sockets = [] }) in
      let s = closes c [] [] x 1006 q in
      let k = h.one in
      let (f, w) = on_close_live (record c { sockets = [] }) e in
      reopen_after c d s (reopen_timers d (Step-IsSound url_of false false c d s h) f (omega arith))

  reopen_attempts : (c : Connection) → IsSound c → c.closed ≡ false → attempts c ≡ 1 → Reopens c
  reopen_attempts c h e l = elim (Bool-cases (length c.waiting == 1)) [
    | inl a ↦ reopen_waiting c h e (ground arith)
    | inr a ↦ elim (Bool-cases (length c.timers == 1)) [
      | inl b ↦ reopen_timers c h e (ground arith)
      | inr b ↦ reopen_sockets c h e (ground arith)
    ]
  ]

  -- Where the API's URL is valid and token requests do not fail, a reachable connection that the
  -- caller has not ended and that has not told "closed" last can be led to an open socket again.
  pub Reaches-Reopens :
      (late : Bool) (c : Connection)
      → Reaches url_of false late connect_realtime c
      → c.closed ≡ false
      → told_closed c.statuses ≡ false
      → Reopens c
  Reaches-Reopens late c r e t = elim (Reaches-IsGoing url_of valid late c r) [
    | inl a ↦ absurd (ground arith)
    | inr (inl (a, b)) ↦ absurd (ground arith)
    | inr (inr a) ↦ reopen_attempts c (Reaches-IsSound url_of false late c r) e a
  ]
