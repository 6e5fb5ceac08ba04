-- ===== src/Realtime/Ended.antt =====
-- An ended connection stays silent.
use iot_saas.Realtime.Reachable.{Reaches-IsSound, Step-IsSound}
use iot_saas.Realtime.Handlers.{close-IsSound}
use iot_saas.Realtime.Steps.{
  Step, Reaches, IsSound, token, rejected, fired, opens, fails, closes, ended, stay, after,
}
use iot_saas.Prelude.{
  ap, sym, append_assoc, All-append, mem, ℕ, String, Bool, true, ◌≡◌, refl, ◌∙◌, Option, none, List,
  [], ◌∷◌, ◌++◌, All, ◌==◌, Bool-cases, inl, inr, arith,
}
use iot_saas.Realtime.{
  Connection, Reason, RealtimeStatus, opened, connect, token_came, on_open, on_close, on_error,
  close, connect_realtime,
}

-- The statuses that have come since are all `open`, and none where `late` is false.
abbrev pub HasOpened : Bool → List RealtimeStatus → List RealtimeStatus → Type 0
HasOpened late before now =
    (told : List RealtimeStatus) × (now ≡ told ++ before)
    × All (λ k. (k ≡ opened) × (late ≡ true)) told

-- What an ended connection does not do any more: create a socket, or tell a status but `open`, which it
-- tells where a socket opens although it was asked to close.
abbrev pub IsSilent : Bool → Connection → Connection → Type 0
IsSilent late c d = (d.closed ≡ true) × HasOpened late c.statuses d.statuses × (d.urls ≡ c.urls)

told_before :
    (late : Bool) (a b c : List RealtimeStatus)
    → HasOpened late a b
    → HasOpened late b c
    → HasOpened late a c
told_before late a b c (t, p, h) (u, q, k) = (
  u ++ t,
  q ∙ ap (λ x. u ++ x) p ∙ sym (append_assoc u t a),
  All-append (λ x. (x ≡ opened) × (late ≡ true)) u t k h,
)

mem-All :
    (P : ℕ → Bool) (s : ℕ) (xs : List ℕ) → mem s xs ≡ true → All (λ x. P x ≡ true) xs → P s ≡ true
mem-All P s [] h k = absurd (ground arith)
mem-All P s (x ∷ xs) h (k, ks) = elim (Bool-cases (x == s)) [
  | inl e ↦ let q : x ≡ s = ground arith in rw q at k
  | inr e ↦ mem-All P s xs (rw e at h) ks
]

connect_ended : (r : Reason) (c : Connection) → c.closed ≡ true → connect r c ≡ c
unfolding connect
connect_ended r c e = simp e refl

token_came_ended :
    (url_of : String → Option String) (t : Option String) (c : Connection)
    → c.closed ≡ true
    → token_came url_of t c ≡ c
unfolding token_came
token_came_ended url_of t c e = simp e refl

on_close_ended :
    (code : ℕ) (c : Connection) → c.closed ≡ true → on_close code c ≡ record c { socket = none }
unfolding on_close
on_close_ended code c e = simp e refl

module _ (url_of : String → Option String) (rejects late : Bool) where
  Step-IsSilent :
      (c d : Connection)
      → Step url_of rejects late c d
      → IsSound c
      → c.closed ≡ true
      → IsSilent late c d
  unfolding on_open on_error close
  Step-IsSilent _ _ (token c xs ys r t e) h k =
      rw (token_came_ended url_of t (record c { waiting = xs ++ ys }) k) (k, ([], refl, tt), refl)
  Step-IsSilent _ _ (rejected c xs ys r q e) h k = (k, ([], refl, tt), refl)
  Step-IsSilent _ _ (fired c xs ys t e) h k =
      rw (connect_ended t.reason (record c { timers = xs ++ ys }) k) (k, ([], refl, tt), refl)
  Step-IsSilent _ _ (opens c s p (inl q)) h k =
      let a = mem-All (λ s. mem s c.asked) s c.sockets p (h.asked k) in absurd (ground arith)
  Step-IsSilent _ _ (opens c s p (inr q)) h k = (k, (opened ∷ [], refl, ((refl, q), tt)), refl)
  Step-IsSilent _ _ (fails c s p) h k = (k, ([], refl, tt), refl)
  Step-IsSilent _ _ (closes c xs ys s code e) h k =
      rw (on_close_ended code (record c { sockets = xs ++ ys }) k) (k, ([], refl, tt), refl)
  Step-IsSilent _ _ (ended c) h k = (refl, ([], refl, tt), refl)

  Reaches-IsSilent :
      (c d : Connection)
      → Reaches url_of rejects late c d
      → IsSound c
      → c.closed ≡ true
      → IsSilent late c d × IsSound d
  Reaches-IsSilent _ _ (stay c) h k = ((k, ([], refl, tt), refl), h)
  Reaches-IsSilent _ _ (after c b d r s) h k =
      let ((e, t, u), i) = Reaches-IsSilent c b r h k in
      let (f, v, w) = Step-IsSilent b d s i e in
      (
        (f, told_before late c.statuses b.statuses d.statuses t v, w ∙ u),
        Step-IsSound url_of rejects late b d s i,
      )

  -- After the caller has ended a reachable connection, whatever the runtime calls, it stays ended and no
  -- handler creates a socket or tells a status, but for `open` where a socket that was asked to close
  -- opens all the same.
  pub close-IsSilent :
      (c d : Connection)
      → Reaches url_of rejects late connect_realtime c
      → Reaches url_of rejects late (close c) d
      → IsSilent late (close c) d
  unfolding close
  close-IsSilent c d r q =
      (Reaches-IsSilent (close c) d q (close-IsSound c (Reaches-IsSound url_of rejects late c r))
        refl).0
