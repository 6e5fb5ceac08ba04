-- ===== src/Live/Window/Search.antt =====
-- What the binary search of `appendToWindow` finds, and that the columns stay aligned.
use iot_saas.Prelude.{
  ℕ, zero, suc, ◌+◌, ◌/◌, ◌≤◌, ◌<◌, Bool, true, false, ◌≡◌, refl, List, [], ◌∷◌, length,
  length-append, ltb, Bool-cases, inl, inr, arith,
}
use iot_saas.Prelude.Numbers.{Numbers}
use iot_saas.Live.Buffer.{LivePoint}
use iot_saas.Live.Window.{
  add_unless, Columns, last, drop, first_inside, append_point, append_points, append_to_window,
  older_than, at_or_before,
}

-- The place between the older and the other indexes.
pub record Splits (older : ℕ → Bool) (lo hi r : ℕ) : Type 0 where
  pub from : lo ≤ r
  pub to : r ≤ hi
  pub before : (i : ℕ) → lo ≤ i → i < r → older i ≡ true
  pub behind : (i : ℕ) → r ≤ i → i < hi → older i ≡ false

module _ (older : ℕ → Bool) (sorted : (i j : ℕ) → i ≤ j → older j ≡ true → older i ≡ true) where
  stays_false : (i j : ℕ) → i ≤ j → older i ≡ false → older j ≡ false
  stays_false i j h k = ground (arith, sorted i j h)

  -- Where the older indexes stand before the others, the search with a fuel of at least `hi - lo`
  -- finds the place between them.
  pub first_inside-Splits :
      (f lo hi : ℕ) → lo ≤ hi → hi ≤ lo + f → Splits older lo hi (first_inside older f lo hi)
  unfolding first_inside
  first_inside-Splits zero lo hi h k = record {
    from = omega arith;
    to = omega arith;
    before = λ i a b. absurd (omega arith);
    behind = λ i a b. absurd (omega arith);
  }
  first_inside-Splits (suc f) lo hi h k = elim (Bool-cases (ltb lo hi)) [
    | inl e ↦
        let mid = (lo + hi) / 2 in
        elim (Bool-cases (older mid)) [
          | inl o ↦
              let s = first_inside-Splits f (mid + 1) hi (ground arith) (ground arith) in
              rw (e, o)
                (record {
                  from = ground (arith, s.from);
                  to = s.to;
                  before = λ i a b. elim (Bool-cases (ltb mid i)) [
                    | inl m ↦ s.before i (ground arith) b
                    | inr m ↦ sorted i mid (ground arith) o
                  ];
                  behind = s.behind;
                })
          | inr o ↦
              let s = first_inside-Splits f lo mid (ground arith) (ground arith) in
              rw (e, o)
                (record {
                  from = s.from;
                  to = ground (arith, s.to);
                  before = s.before;
                  behind = λ i a b. elim (Bool-cases (ltb i mid)) [
                    | inl m ↦ s.behind i a (ground arith)
                    | inr m ↦ stays_false mid i (ground arith) o
                  ];
                })
        ]
    | inr e ↦ rw e (record {
      from = omega arith;
      to = h;
      before = λ i a b. absurd (omega arith);
      behind = λ i a b. absurd (ground arith);
    })
  ]

length-drop_same :
    {A B : Type 0} (n : ℕ) (xs : List A) (ys : List B)
    → length xs ≡ length ys
    → length (drop n xs) ≡ length (drop n ys)
length-drop_same zero xs ys h = h
length-drop_same (suc n) [] [] h = refl
length-drop_same (suc n) (x ∷ xs) [] h = absurd (omega arith)
length-drop_same (suc n) [] (y ∷ ys) h = absurd (omega arith)
length-drop_same (suc n) (x ∷ xs) (y ∷ ys) h = length-drop_same n xs ys (omega arith)

module _ {N : Type 0} (𝓝 : Numbers N) where
  add_unless-aligned :
      (b : Bool) (p : LivePoint N) (c : Columns N)
      → length c.xs ≡ length c.ys
      → length (add_unless 𝓝 b p c).xs ≡ length (add_unless 𝓝 b p c).ys
  add_unless-aligned true p c h = h
  add_unless-aligned false p c h =
      omega (arith, length-append c.xs (p.t ∷ []), length-append c.ys (p.v ∷ []))

  pub append_points-aligned :
      (ps : List (LivePoint N)) (c : Columns N)
      → length c.xs ≡ length c.ys
      → length (append_points 𝓝 ps c).xs ≡ length (append_points 𝓝 ps c).ys
  unfolding append_points
  append_points-aligned [] c h = h
  append_points-aligned (p ∷ ps) c h =
      append_points-aligned ps (append_point 𝓝 p c)
        (add_unless-aligned (at_or_before 𝓝 p.t (last c.xs)) p c h)

  -- Columns of one length stay of one length, whatever points come and whatever slides out.
  pub append_to_window-aligned :
      (c : Columns N) (points : List (LivePoint N)) (cutoff : N)
      → length c.xs ≡ length c.ys
      → length (append_to_window 𝓝 c points cutoff).xs
        ≡ length (append_to_window 𝓝 c points cutoff).ys
  unfolding append_to_window
  append_to_window-aligned c points cutoff h =
      let d = append_points 𝓝 points c in
      length-drop_same (first_inside (older_than 𝓝 d.xs cutoff) (length d.xs) 0 (length d.xs)) d.xs
        d.ys (append_points-aligned points c h)
