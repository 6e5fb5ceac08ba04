-- ===== src/Live/Window/Append.antt =====
-- `appendToWindow` keeps the points of the window: those that are not older than the cutoff.
use iot_saas.Live.Window.Zip.{zip, zip-drop, zip-append, some_same, no_last}
use iot_saas.Prelude.{
  Option-cases, ℕ, zero, suc, ◌≤◌, ◌<◌, Bool, true, false, not, ◌≡◌, refl, sym, ap, ◌∙◌, Option,
  some, List, [], ◌∷◌, ◌++◌, append_assoc, append-nil, keep, length, length-append, All, All-map,
  All-append, if◌then◌else◌, arith, inl, inr,
}
use iot_saas.Prelude.Numbers.{Numbers}
use iot_saas.Live.Buffer.{LivePoint}
use iot_saas.Live.Window.{
  Columns, last, drop, first_inside, add_unless, append_point, append_points, append_to_window,
  older_than, at_or_before,
}
use iot_saas.Live.Window.Search.{first_inside-Splits, append_points-aligned}

-- The order of times, none of which is NaN.
pub record IsOrder {N : Type 0} (𝓝 : Numbers N) : Type 0 where
  pub reflexive : (a : N) → 𝓝.le a a ≡ true
  pub total : (a b : N) → 𝓝.le a b ≡ false → 𝓝.le b a ≡ true
  pub trans : (a b c : N) → 𝓝.le a b ≡ true → 𝓝.le b c ≡ true → 𝓝.le a c ≡ true
  pub trans_lt : (a b c : N) → 𝓝.le a b ≡ true → 𝓝.lt b c ≡ true → 𝓝.lt a c ≡ true

module _ {N : Type 0} (𝓝 : Numbers N) where
  abbrev pub IsAscending : List N → Type 0
  IsAscending [] = Unit
  IsAscending (x ∷ xs) = All (λ y. 𝓝.le x y ≡ true) xs × IsAscending xs

  -- The points that are later than all before them.
  abbrev pub later_points : Option N → List (LivePoint N) → List (N × N)
  later_points tip [] = []
  later_points tip (p ∷ ps) =
      let skipped = later_points tip ps in
      let taken = later_points (some p.t) ps in
      if at_or_before 𝓝 p.t tip then skipped else (p.t, p.v) ∷ taken

  last-append : (xs : List N) (x : N) → last (xs ++ x ∷ []) ≡ some x
  last-append [] x = refl
  last-append (a ∷ []) x = refl
  last-append (a ∷ b ∷ xs) x = last-append (b ∷ xs) x

  zip-add_unless :
      (b : Bool) (p : LivePoint N) (ps : List (LivePoint N)) (c : Columns N)
      → length c.xs ≡ length c.ys
      → ((d : Columns N)
          → length d.xs ≡ length d.ys
          → zip (append_points 𝓝 ps d).xs (append_points 𝓝 ps d).ys
            ≡ zip d.xs d.ys ++ later_points (last d.xs) ps)
      → zip
          (append_points 𝓝 ps (add_unless 𝓝 b p c)).xs
          (append_points 𝓝 ps (add_unless 𝓝 b p c)).ys
        ≡ zip c.xs c.ys
          ++ (if b then later_points (last c.xs) ps else (p.t, p.v) ∷ later_points (some p.t) ps)
  zip-add_unless true p ps c h rest = rest c h
  zip-add_unless false p ps c h rest =
      rest (add_unless 𝓝 false p c)
        (omega (arith, length-append c.xs (p.t ∷ []), length-append c.ys (p.v ∷ [])))
      ∙ rw (zip-append c.xs c.ys p.t p.v h, last-append c.xs p.t)
          (append_assoc (zip c.xs c.ys) ((p.t, p.v) ∷ []) (later_points (some p.t) ps))

  zip-append_points :
      (ps : List (LivePoint N)) (c : Columns N)
      → length c.xs ≡ length c.ys
      → zip (append_points 𝓝 ps c).xs (append_points 𝓝 ps c).ys
        ≡ zip c.xs c.ys ++ later_points (last c.xs) ps
  unfolding append_points
  zip-append_points [] c h = sym (append-nil (zip c.xs c.ys))
  zip-append_points (p ∷ ps) c h =
      zip-add_unless (at_or_before 𝓝 p.t (last c.xs)) p ps c h (zip-append_points ps)

  -- Splitting the points at the place between the older ones and the others keeps the others.
  drop-keep :
      (xs ys : List N) (cutoff : N) (r : ℕ)
      → length xs ≡ length ys
      → ((i : ℕ) → i < r → older_than 𝓝 xs cutoff i ≡ true)
      → ((i : ℕ) → r ≤ i → i < length xs → older_than 𝓝 xs cutoff i ≡ false)
      → drop r (zip xs ys) ≡ keep (λ p. not (𝓝.lt p.0 cutoff)) (zip xs ys)
  drop-keep [] ys cutoff zero h k l = refl
  drop-keep [] ys cutoff (suc r) h k l = refl
  drop-keep (x ∷ xs) [] cutoff r h k l = absurd (omega arith)
  drop-keep (x ∷ xs) (y ∷ ys) cutoff zero h k l =
      let e : 𝓝.lt x cutoff ≡ false = l zero (omega arith) (omega arith) in
      rw e (
        ap (λ ps. (x, y) ∷ ps)
          (drop-keep xs ys cutoff zero (omega arith) (λ i q. absurd (omega arith))
            (λ i q g. l (suc i) (omega arith) (omega arith))))
  drop-keep (x ∷ xs) (y ∷ ys) cutoff (suc r) h k l =
      let e : 𝓝.lt x cutoff ≡ true = k zero (omega arith) in
      rw e (
        drop-keep xs ys cutoff r (omega arith) (λ i q. k (suc i) (omega arith))
          (λ i q g. l (suc i) (omega arith) (omega arith)))

  module _ (o : IsOrder 𝓝) where
    older_head :
        (x : N) (xs : List N) (cutoff : N) (j : ℕ)
        → All (λ y. 𝓝.le x y ≡ true) xs
        → older_than 𝓝 xs cutoff j ≡ true
        → 𝓝.lt x cutoff ≡ true
    older_head x [] cutoff j a k = absurd (ground arith)
    older_head x (y ∷ xs) cutoff zero (a, as1) k = o.trans_lt x y cutoff a k
    older_head x (y ∷ xs) cutoff (suc j) (a, as1) k = older_head x xs cutoff j as1 k

    -- The last of ascending times is not below the others.
    last-high :
        (xs : List N) (t : N) → last xs ≡ some t → IsAscending xs → All (λ y. 𝓝.le y t ≡ true) xs
    last-high [] t h k = tt
    last-high (x ∷ []) t h k = let e : x ≡ t = some_same x t h in (rw e (o.reflexive t), tt)
    last-high (x ∷ y ∷ xs) t h ((k, ks), (l, ls)) =
        let (m, ms) = last-high (y ∷ xs) t h (l, ls) in (o.trans x y t k m, (m, ms))

    later_high :
        (xs : List N) (t : N)
        → at_or_before 𝓝 t (last xs) ≡ false
        → IsAscending xs
        → All (λ y. 𝓝.le y t ≡ true) xs
    later_high xs t h k = elim (Option-cases (last xs)) [
      | inl e ↦ rw (no_last xs e) tt
      | inr (tip, e) ↦
          let l = o.total t tip (rw e at h) in
          All-map (λ y q. o.trans y tip t q l) xs (last-high xs tip e k)
    ]

    append-IsAscending :
        (xs : List N) (t : N)
        → IsAscending xs
        → All (λ y. 𝓝.le y t ≡ true) xs
        → IsAscending (xs ++ t ∷ [])
    append-IsAscending [] t h k = (tt, tt)
    append-IsAscending (x ∷ xs) t (h, hs) (k, ks) =
        (All-append (λ y. 𝓝.le x y ≡ true) xs (t ∷ []) h (k, tt), append-IsAscending xs t hs ks)

    add_unless-IsAscending :
        (b : Bool) (p : LivePoint N) (c : Columns N)
        → at_or_before 𝓝 p.t (last c.xs) ≡ b
        → IsAscending c.xs
        → IsAscending (add_unless 𝓝 b p c).xs
    add_unless-IsAscending true p c e h = h
    add_unless-IsAscending false p c e h = append-IsAscending c.xs p.t h (later_high c.xs p.t e h)

    append_points-IsAscending :
        (ps : List (LivePoint N)) (c : Columns N)
        → IsAscending c.xs
        → IsAscending (append_points 𝓝 ps c).xs
    unfolding append_points
    append_points-IsAscending [] c h = h
    append_points-IsAscending (p ∷ ps) c h =
        append_points-IsAscending ps (append_point 𝓝 p c)
          (add_unless-IsAscending (at_or_before 𝓝 p.t (last c.xs)) p c refl h)

    -- On ascending times the older ones stand first.
    older_first :
        (xs : List N) (cutoff : N) (i j : ℕ)
        → IsAscending xs
        → i ≤ j
        → older_than 𝓝 xs cutoff j ≡ true
        → older_than 𝓝 xs cutoff i ≡ true
    older_first [] cutoff i j a h k = k
    older_first (x ∷ xs) cutoff zero zero a h k = k
    older_first (x ∷ xs) cutoff zero (suc j) (a, as1) h k = older_head x xs cutoff j a k
    older_first (x ∷ xs) cutoff (suc i) zero a h k = absurd (omega arith)
    older_first (x ∷ xs) cutoff (suc i) (suc j) (a, as1) h k =
        older_first xs cutoff i j as1 (omega arith) k

    drop-IsAscending : (n : ℕ) (xs : List N) → IsAscending xs → IsAscending (drop n xs)
    drop-IsAscending zero xs h = h
    drop-IsAscending (suc n) [] h = tt
    drop-IsAscending (suc n) (x ∷ xs) (h, hs) = drop-IsAscending n xs hs

    -- appendToWindow, on columns of one length with ascending times, leaves the points that are not
    -- older than the cutoff, of those that were there and the new ones later than all before them, in
    -- order; and the times ascend.
    pub append_to_window_lem :
        (c : Columns N) (points : List (LivePoint N)) (cutoff : N)
        → length c.xs ≡ length c.ys
        → IsAscending c.xs
        → (zip (append_to_window 𝓝 c points cutoff).xs (append_to_window 𝓝 c points cutoff).ys
            ≡ keep (λ p. not (𝓝.lt p.0 cutoff)) (zip c.xs c.ys ++ later_points (last c.xs) points))
          × IsAscending (append_to_window 𝓝 c points cutoff).xs
    unfolding append_to_window
    append_to_window_lem c points cutoff h a =
        let d = append_points 𝓝 points c in
        let b = append_points-IsAscending points c a in
        let older = older_than 𝓝 d.xs cutoff in
        let s =
          first_inside-Splits older (λ i j k. older_first d.xs cutoff i j b k) (length d.xs) 0
            (length d.xs) (omega arith) (omega arith) in
        let r = first_inside older (length d.xs) 0 (length d.xs) in
        (
          zip-drop r d.xs d.ys
              ∙ (drop-keep d.xs d.ys cutoff r (append_points-aligned 𝓝 points c h)
                    (λ i k. s.before i (omega arith) k) (λ i k l. s.behind i k l)
                  ∙ ap (keep (λ p. not (𝓝.lt p.0 cutoff))) (zip-append_points points c h)),
          drop-IsAscending r d.xs b,
        )
