-- ===== src/Rule/Loading/Clears.antt =====
-- Where the clear actions of a rule go when it is loaded.
use iot_saas.Prelude.{
  true, false, not, ◌&&◌, ◌≡◌, refl, ap, Option, none, some, List, [], ◌∷◌, ◌++◌, All, String,
  eq_iff, eq_refl, arith, Bool, Bool-cases, inl, inr, ◌⊎◌,
}
use iot_saas.Prelude.Json.{null, arr, obj, JsonObject, Json, bool, num, str, get, is_text, text_or}
use iot_saas.Rule.Action.{ActionDraft, ActuatorActionDraft, actuator, email, webhook, notification}
use iot_saas.Rule.Loading.{
  Clearing, by_email, fold_owner, fold_rest, fold_with, fold_clears, owns, owned, turn_back,
  put_before,
}

module _ {N : Type 0} where
  -- The action is a command to the actuator of the device that the clear command names, and does not
  -- turn back yet.
  abbrev pub IsOwner : JsonObject N → ActionDraft N → Type 0
  IsOwner raw (actuator a) =
      (a.revert_on_clear ≡ false)
      × (get "actuator" raw ≡ some (str a.actuator))
      × (a.device_id ≡ text_or "" (get "device_id" raw))
  IsOwner raw _ = ⊥

  abbrev pub IsCommand : JsonObject N → Type 0
  IsCommand raw = get "type" raw ≡ some (str "actuator_command")

  -- No action takes the clear action: it is no command, or a command without an owner.
  abbrev pub HasNoOwner : JsonObject N → List (ActionDraft N) → Type 0
  HasNoOwner raw xs = (¬ IsCommand raw) ⊎ All (λ x. ¬ IsOwner raw x) xs

  -- A notification without an e-mail channel, where none was taken before.
  abbrev pub IsNotice : JsonObject N → Clearing N → Type 0
  IsNotice raw st =
      (get "type" raw ≡ some (str "notification")) × (st.notify ≡ false) × (by_email raw ≡ false)

  -- The action as it was, but that it turns back, with the value of the command where it has one.
  pub data TurnsBack (v : Option (Json N)) (a : ActuatorActionDraft N)
      : ActuatorActionDraft N → Type 0 where
    to_bool :
        (b : Bool)
        → v ≡ some (bool b)
        → TurnsBack v a (record a { revert_on_clear = true; clear_bool = some b })
    to_num :
        (n : N)
        → v ≡ some (num n)
        → TurnsBack v a (record a { revert_on_clear = true; clear_num = n })
    to_text :
        (t : String)
        → v ≡ some (str t)
        → TurnsBack v a (record a { revert_on_clear = true; clear_text = t })
    to_other :
        ((b : Bool) → ¬ (v ≡ some (bool b)))
        → ((n : N) → ¬ (v ≡ some (num n)))
        → ((t : String) → ¬ (v ≡ some (str t)))
        → TurnsBack v a (record a { revert_on_clear = true })

  -- Where one clear action goes: its first owner turns back, or it becomes the notification, or it is
  -- preserved as it is.
  pub data Goes (raw : JsonObject N) (st : Clearing N) : Clearing N → Type 0 where
    to_owner :
        (front back : List (ActionDraft N)) (a b : ActuatorActionDraft N)
        → IsCommand raw
        → st.actions ≡ front ++ actuator a ∷ back
        → All (λ x. ¬ IsOwner raw x) front
        → IsOwner raw (actuator a)
        → TurnsBack (get "value" raw) a b
        → Goes raw st (record st { actions = front ++ actuator b ∷ back })
    to_notice :
        HasNoOwner raw st.actions
        → IsNotice raw st
        → Goes raw st (record st { notify = true; message = text_or "" (get "message" raw) })
    to_preserved :
        HasNoOwner raw st.actions
        → ¬ IsNotice raw st
        → Goes raw st (record st { preserved = st.preserved ++ raw ∷ [] })

  -- The clear actions go one after the other.
  pub data GoAll : List (JsonObject N) → Clearing N → Clearing N → Type 0 where
    done : (st : Clearing N) → GoAll [] st st
    then_all :
        (raw : JsonObject N) (raws : List (JsonObject N)) (a b c : Clearing N)
        → Goes raw a b
        → GoAll raws b c
        → GoAll (raw ∷ raws) a c

  is_text_iff : (t : String) (v : Option (Json N)) → (is_text t v ≡ true) → v ≡ some (str t)
  is_text_iff t none h = absurd (ground arith)
  is_text_iff t (some null) h = absurd (ground arith)
  is_text_iff t (some (bool v)) h = absurd (ground arith)
  is_text_iff t (some (num v)) h = absurd (ground arith)
  is_text_iff t (some (str s)) h = ap (λ u. some (str u)) ((eq_iff s t).0 h)
  is_text_iff t (some (arr v)) h = absurd (ground arith)
  is_text_iff t (some (obj v)) h = absurd (ground arith)

  is_text_of : (t : String) (v : Option (Json N)) → v ≡ some (str t) → is_text t v ≡ true
  is_text_of t v e = rw e (eq_refl t)

  not_text : (t : String) (v : Option (Json N)) → is_text t v ≡ false → ¬ (v ≡ some (str t))
  not_text t v h e = let k = is_text_of t v e in ground arith

  owns-IsOwner :
      (raw : JsonObject N) (a : ActuatorActionDraft N)
      → owns raw a ≡ true
      → IsOwner raw (actuator a)
  owns-IsOwner raw a h = (
    ground arith,
    is_text_iff a.actuator (get "actuator" raw) (ground arith),
    (eq_iff a.device_id (text_or "" (get "device_id" raw))).0 (ground arith),
  )

  IsOwner-owns :
      (raw : JsonObject N) (a : ActuatorActionDraft N)
      → owns raw a ≡ false
      → ¬ IsOwner raw (actuator a)
  IsOwner-owns raw a h (r, t, d) =
      let s = is_text_of a.actuator (get "actuator" raw) t in
      let q = (eq_iff a.device_id (text_or "" (get "device_id" raw))).1 d in ground arith

  turn_back-TurnsBack :
      (v : Option (Json N)) (a : ActuatorActionDraft N) → TurnsBack v a (turn_back v a)
  turn_back-TurnsBack (some (bool v)) a = to_bool v refl
  turn_back-TurnsBack (some (num v)) a = to_num v refl
  turn_back-TurnsBack (some (str v)) a = to_text v refl
  turn_back-TurnsBack none a =
      to_other (λ b h. ground arith) (λ n h. ground arith) (λ t h. ground arith)
  turn_back-TurnsBack (some null) a =
      to_other (λ b h. ground arith) (λ n h. ground arith) (λ t h. ground arith)
  turn_back-TurnsBack (some (arr v)) a =
      to_other (λ b h. ground arith) (λ n h. ground arith) (λ t h. ground arith)
  turn_back-TurnsBack (some (obj v)) a =
      to_other (λ b h. ground arith) (λ n h. ground arith) (λ t h. ground arith)

  -- What the search for an owner gives: its first owner turned back, or none without one.
  pub data Found (raw : JsonObject N) (xs : List (ActionDraft N))
      : Option (List (ActionDraft N)) → Type 0 where
    found :
        (front back : List (ActionDraft N)) (a : ActuatorActionDraft N)
        → xs ≡ front ++ actuator a ∷ back
        → All (λ x. ¬ IsOwner raw x) front
        → IsOwner raw (actuator a)
        → Found raw xs (some (front ++ actuator (turn_back (get "value" raw) a) ∷ back))
    nobody : All (λ x. ¬ IsOwner raw x) xs → Found raw xs none

  put_before-Found :
      (raw : JsonObject N) (x : ActionDraft N) (xs : List (ActionDraft N))
      (o : Option (List (ActionDraft N)))
      → ¬ IsOwner raw x
      → Found raw xs o
      → Found raw (x ∷ xs) (put_before x o)
  put_before-Found raw x xs _ n (found front back a e f own) =
      found (x ∷ front) back a (ap (λ ys. x ∷ ys) e) (n, f) own
  put_before-Found raw x xs _ n (nobody f) = nobody (n, f)

  fold_owner-Found :
      (raw : JsonObject N) (xs : List (ActionDraft N)) → Found raw xs (fold_owner raw xs)
  unfolding fold_owner
  fold_owner-Found raw [] = nobody tt
  fold_owner-Found raw (actuator a ∷ xs) =
      let rest = fold_owner-Found raw xs in
      elim (Bool-cases (owns raw a)) [
        | inl e ↦ rw e (found [] xs a refl tt (owns-IsOwner raw a e))
        | inr e ↦
            rw e
              (put_before-Found raw (actuator a) xs (fold_owner raw xs) (IsOwner-owns raw a e) rest)
      ]
  fold_owner-Found raw (email m ∷ xs) =
      put_before-Found raw (email m) xs (fold_owner raw xs) (λ h. h) (fold_owner-Found raw xs)
  fold_owner-Found raw (webhook w ∷ xs) =
      put_before-Found raw (webhook w) xs (fold_owner raw xs) (λ h. h) (fold_owner-Found raw xs)
  fold_owner-Found raw (notification n ∷ xs) =
      put_before-Found raw (notification n) xs (fold_owner raw xs) (λ h. h)
        (fold_owner-Found raw xs)

  fold_rest-Goes :
      (raw : JsonObject N) (st : Clearing N)
      → HasNoOwner raw st.actions
      → Goes raw st (fold_rest raw st)
  fold_rest-Goes raw st h =
      elim (Bool-cases
        (is_text "notification" (get "type" raw) && not st.notify && not (by_email raw))) [
          | inl e ↦ rw e (
              to_notice h (
                is_text_iff "notification" (get "type" raw) (ground arith),
                ground arith,
                ground arith,
              ))
          | inr e ↦ rw e (
              to_preserved h
                (λ (t, n, m). let s = is_text_of "notification" (get "type" raw) t in ground arith))
        ]

  found-Goes :
      (raw : JsonObject N) (st : Clearing N) (o : Option (List (ActionDraft N)))
      → IsCommand raw
      → Found raw st.actions o
      → Goes raw st (fold_with raw st o)
  found-Goes raw st _ c (found front back a e f own) =
      to_owner front back a (turn_back (get "value" raw) a) c e f own
        (turn_back-TurnsBack (get "value" raw) a)
  found-Goes raw st _ c (nobody f) = fold_rest-Goes raw st (inr f)

  fold_with-Goes :
      (raw : JsonObject N) (st : Clearing N) → Goes raw st (fold_with raw st (owned raw st.actions))
  fold_with-Goes raw st = elim (Bool-cases (is_text "actuator_command" (get "type" raw))) [
    | inl e ↦ rw e (
        found-Goes raw st (fold_owner raw st.actions)
          (is_text_iff "actuator_command" (get "type" raw) e) (fold_owner-Found raw st.actions))
    | inr e ↦ rw e (fold_rest-Goes raw st (inl (not_text "actuator_command" (get "type" raw) e)))
  ]

  -- When a rule is loaded, each clear action in turn goes to one place: a command to its first owner, the
  -- action on that actuator of that device that does not turn back yet, which then turns back to the
  -- command's value; else the first notification without an e-mail channel to the clear message; and
  -- every other one is preserved as it is, behind those before it.
  pub fold_clears-GoAll :
      (raws : List (JsonObject N)) (st : Clearing N) → GoAll raws st (fold_clears raws st)
  unfolding fold_clears
  fold_clears-GoAll [] st = done st
  fold_clears-GoAll (raw ∷ raws) st =
      let next = fold_with raw st (owned raw st.actions) in
      then_all raw raws st next (fold_clears raws next) (fold_with-Goes raw st)
        (fold_clears-GoAll raws next)
