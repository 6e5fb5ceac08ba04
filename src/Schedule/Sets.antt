-- ===== src/Schedule/Sets.antt =====
-- The sorted set of values that `cronField` collects.
use iot_saas.Prelude.{
  All-map, ℕ, ◌<◌, false, ◌||◌, ◌≡◌, refl, List, [], ◌∷◌, ◌++◌, any-append, mem, All, ltb, ◌==◌,
  if◌then◌else◌, if_both, arith, Bool-cases, inl, inr,
}
use iot_saas.Schedule.Fields.{add_all, insert, sort}

abbrev pub IsAscending : List ℕ → Type 0
IsAscending [] = Unit
IsAscending (v ∷ vs) = All (λ w. v < w) vs × IsAscending vs

abbrev pub HasNoRepeat : List ℕ → Type 0
HasNoRepeat [] = Unit
HasNoRepeat (v ∷ vs) = (mem v vs ≡ false) × HasNoRepeat vs

HasNoRepeat-append :
    (vs : List ℕ) (w : ℕ) → mem w vs ≡ false → HasNoRepeat vs → HasNoRepeat (vs ++ w ∷ [])
HasNoRepeat-append [] w h k = (refl, tt)
HasNoRepeat-append (v ∷ vs) w h (k, ks) = (
  ground (arith, any-append (λ m. m == v) vs (w ∷ [])),
  HasNoRepeat-append vs w (ground arith) ks,
)

pub add_all-HasNoRepeat : (vs out : List ℕ) → HasNoRepeat out → HasNoRepeat (add_all vs out)
unfolding add_all
add_all-HasNoRepeat [] out h = h
add_all-HasNoRepeat (v ∷ vs) out h =
    add_all-HasNoRepeat vs (if mem v out then out else out ++ v ∷ []) (
      if_both HasNoRepeat (mem v out) out (out ++ v ∷ []) (λ e. h)
        (λ e. HasNoRepeat-append out v e h))

pub mem-add_all : (v : ℕ) (vs out : List ℕ) → mem v (add_all vs out) ≡ (mem v vs || mem v out)
unfolding add_all
mem-add_all v [] out = refl
mem-add_all v (w ∷ vs) out = rw (mem-add_all v vs (if mem w out then out else out ++ w ∷ [])) (
    if_both (λ o. (mem v vs || mem v o) ≡ (((w == v) || mem v vs) || mem v out)) (mem w out) out
      (out ++ w ∷ [])
      (λ e. elim (Bool-cases (w == v)) [
        | inl q ↦ let s : w ≡ v = ground arith in ground (arith, rw s at e)
        | inr q ↦ ground arith
      ])
      (λ e. rw (any-append (λ m. m == v) out (w ∷ [])) (ground arith)))

mem-insert : (v w : ℕ) (ws : List ℕ) → mem v (insert w ws) ≡ ((w == v) || mem v ws)
unfolding insert
mem-insert v w [] = refl
mem-insert v w (x ∷ ws) =
    if_both (λ o. mem v o ≡ ((w == v) || mem v (x ∷ ws))) (ltb x w) (x ∷ insert w ws) (w ∷ x ∷ ws)
      (λ e. ground (arith, mem-insert v w ws)) (λ e. refl)

All-insert : (P : ℕ → Type 0) (w : ℕ) (ws : List ℕ) → P w → All P ws → All P (insert w ws)
unfolding insert
All-insert P w [] h k = (h, tt)
All-insert P w (x ∷ ws) h (k, ks) =
    if_both (All P) (ltb x w) (x ∷ insert w ws) (w ∷ x ∷ ws) (λ e. (k, All-insert P w ws h ks))
      (λ e. (h, (k, ks)))

insert-IsAscending :
    (w : ℕ) (ws : List ℕ) → mem w ws ≡ false → IsAscending ws → IsAscending (insert w ws)
unfolding insert
insert-IsAscending w [] h k = (tt, tt)
insert-IsAscending w (x ∷ ws) h (k, ks) =
    if_both IsAscending (ltb x w) (x ∷ insert w ws) (w ∷ x ∷ ws)
      (λ e.
        (All-insert (λ y. x < y) w ws (ground arith) k, insert-IsAscending w ws (ground arith) ks))
      (λ e. let l : w < x = ground arith in ((l, All-map (λ y q. omega arith) ws k), (k, ks)))

pub mem-sort : (v : ℕ) (vs : List ℕ) → mem v (sort vs) ≡ mem v vs
unfolding sort
mem-sort v [] = refl
mem-sort v (w ∷ vs) = rw (mem-insert v w (sort vs), mem-sort v vs) refl

pub sort-IsAscending : (vs : List ℕ) → HasNoRepeat vs → IsAscending (sort vs)
unfolding sort
sort-IsAscending [] h = tt
sort-IsAscending (v ∷ vs) (h, hs) =
    insert-IsAscending v (sort vs) (rw (mem-sort v vs) h) (sort-IsAscending vs hs)

pub All-sort : (P : ℕ → Type 0) (vs : List ℕ) → All P vs → All P (sort vs)
unfolding sort
All-sort P [] h = tt
All-sort P (v ∷ vs) (h, hs) = All-insert P v (sort vs) h (All-sort P vs hs)
