-- ===== src/Hardware/Moving/Placed.antt =====
-- The pins that the two loops of `moveToBoard` place.
use iot_saas.Prelude.{
  mem, eq_refl, ℕ, true, false, ◌≡◌, refl, Option, none, some, List, [], ◌∷◌, ◌==◌, ==_iff, arith,
  All, Bool-cases, Option-cases, inl, inr,
}
use iot_saas.Hardware.Pins.{BoardModel, pin_problem}
use iot_saas.Hardware.Draft.{Side, first_free, prepend_some}
use iot_saas.Hardware.Draft.Bus.{Distinct, first_free_fits}
use iot_saas.Hardware.Moving.{
  MovedPin, same_role, same_side, Wanted, Placing, is_placed, kept_pin, keep_role, keep_roles,
  place_role, place_rest, place_roles,
}

-- The pins of what is placed.
abbrev pub placed_pins : List (Wanted × Option ℕ) → List ℕ
placed_pins [] = []
placed_pins ((r, pin) ∷ es) = prepend_some pin (placed_pins es)

abbrev pub Suits : BoardModel → Wanted × Option ℕ → Type 0
Suits model (r, none) = Unit
Suits model (r, some p) = pin_problem model r.needs p ≡ none

-- Each pin suits its role, no pin is placed twice, all of them are taken, and so is what was.
pub record IsSound (model : BoardModel) (bus : List ℕ) (st : Placing) : Type 0 where
  pub suits : All (Suits model) st.placed
  pub apart : Distinct (placed_pins st.placed)
  pub off_bus : All (λ p. mem p bus ≡ false) (placed_pins st.placed)
  pub taken : All (λ p. mem p st.taken ≡ true) (placed_pins st.placed)
  pub bus_taken : All (λ p. mem p st.taken ≡ true) bus

more_taken :
    (p : ℕ) (taken xs : List ℕ)
    → All (λ q. mem q taken ≡ true) xs
    → All (λ q. mem q (p ∷ taken) ≡ true) xs
more_taken p taken [] h = tt
more_taken p taken (x ∷ xs) (h, hs) = (ground arith, more_taken p taken xs hs)

-- A pin that is not taken is none of the taken ones.
absent_of_free :
    (p : ℕ) (taken xs : List ℕ)
    → All (λ q. mem q taken ≡ true) xs
    → mem p taken ≡ false
    → mem p xs ≡ false
absent_of_free p taken [] h f = refl
absent_of_free p taken (x ∷ xs) (h, hs) f = elim (Bool-cases (x == p)) [
  | inl e ↦ ground (arith, rw ((==_iff x p).0 e) at h)
  | inr e ↦ rw e (absent_of_free p taken xs hs f)
]

module _ (model : BoardModel) (bus : List ℕ) where
  add_pin :
      (r : Wanted) (p : ℕ) (st : Placing)
      → pin_problem model r.needs p ≡ none
      → mem p st.taken ≡ false
      → IsSound model bus st
      → IsSound model bus (record st { taken = p ∷ st.taken; placed = (r, some p) ∷ st.placed })
  add_pin r p st s f h = record {
    suits = (s, h.suits);
    apart = (absent_of_free p st.taken (placed_pins st.placed) h.taken f, h.apart);
    off_bus = (absent_of_free p st.taken bus h.bus_taken f, h.off_bus);
    taken = (ground arith, more_taken p st.taken (placed_pins st.placed) h.taken);
    bus_taken = more_taken p st.taken bus h.bus_taken;
  }

  kept_pin_fits :
      (r : Wanted) (taken : List ℕ) (pin : Option ℕ) (p : ℕ)
      → kept_pin model r.needs taken pin ≡ some p
      → (pin_problem model r.needs p ≡ none) × (mem p taken ≡ false)
  unfolding kept_pin
  kept_pin_fits r taken none p h = ground arith
  kept_pin_fits r taken (some q) p h = ground arith

  keep_role-IsSound :
      (r : Wanted) (st : Placing) → IsSound model bus st → IsSound model bus (keep_role model r st)
  unfolding keep_role
  keep_role-IsSound r st h = elim (Option-cases (kept_pin model r.needs st.taken r.pin)) [
    | inl e ↦ rw e h
    | inr (p, e) ↦ let (s, f) = kept_pin_fits r st.taken r.pin p e in rw e (add_pin r p st s f h)
  ]

  keep_roles-IsSound :
      (rs : List Wanted) (st : Placing)
      → IsSound model bus st
      → IsSound model bus (keep_roles model rs st)
  unfolding keep_roles
  keep_roles-IsSound [] st h = h
  keep_roles-IsSound (r ∷ rs) st h =
      keep_roles-IsSound rs (keep_role model r st) (keep_role-IsSound r st h)

  place_role-IsSound :
      (r : Wanted) (st : Placing) → IsSound model bus st → IsSound model bus (place_role model r st)
  unfolding place_role
  place_role-IsSound r st h = elim (Bool-cases (is_placed r st.placed)) [
    | inl k ↦ rw k h
    | inr k ↦ elim (Option-cases (first_free (some model) r.needs st.taken)) [
      | inl e ↦
          rw (k, e)
            (record {
              suits = (tt, h.suits);
              apart = h.apart;
              off_bus = h.off_bus;
              taken = h.taken;
              bus_taken = h.bus_taken;
            })
      | inr (p, e) ↦
          let (s, f) = first_free_fits model r.needs st.taken p e in
          let n = add_pin r p st s f h in
          rw (k, e)
            (record {
              suits = n.suits;
              apart = n.apart;
              off_bus = n.off_bus;
              taken = n.taken;
              bus_taken = n.bus_taken;
            })
    ]
  ]

  place_rest-IsSound :
      (rs : List Wanted) (st : Placing)
      → IsSound model bus st
      → IsSound model bus (place_rest model rs st)
  unfolding place_rest
  place_rest-IsSound [] st h = h
  place_rest-IsSound (r ∷ rs) st h =
      place_rest-IsSound rs (place_role model r st) (place_role-IsSound r st h)

  place_roles-IsSound :
      (rs : List Wanted) (st : Placing)
      → IsSound model bus st
      → IsSound model bus (place_roles model rs st)
  unfolding place_roles
  place_roles-IsSound rs st h =
      place_rest-IsSound rs (keep_roles model rs st) (keep_roles-IsSound rs st h)

mem_of_all : (xs : List ℕ) → All (λ p. mem p xs ≡ true) xs
mem_of_all [] = tt
mem_of_all (x ∷ xs) = (ground arith, more_taken x xs xs (mem_of_all xs))

same_side_self : (s : Side) → same_side s s ≡ true
same_side_self Side.inputs = refl
same_side_self Side.outputs = refl

same_role_self : (r : Wanted) → same_role r r ≡ true
same_role_self r =
    rw (same_side_self r.side, (==_iff r.place r.place).1 refl, eq_refl r.role_name) refl

module _ (model : BoardModel) where
  -- A role is placed once its turn has come, and stays so.
  place_role-placed :
      (r : Wanted) (st : Placing) → is_placed r (place_role model r st).placed ≡ true
  unfolding place_role
  place_role-placed r st = elim (Bool-cases (is_placed r st.placed)) [
    | inl k ↦ rw k k
    | inr k ↦ rw (k, same_role_self r) refl
  ]

  place_role-keeps :
      (q r : Wanted) (st : Placing)
      → is_placed q st.placed ≡ true
      → is_placed q (place_role model r st).placed ≡ true
  unfolding place_role
  place_role-keeps q r st h = elim (Bool-cases (is_placed r st.placed)) [
    | inl k ↦ rw k h
    | inr k ↦ rw k (ground arith)
  ]

  place_rest-keeps :
      (q : Wanted) (rs : List Wanted) (st : Placing)
      → is_placed q st.placed ≡ true
      → is_placed q (place_rest model rs st).placed ≡ true
  unfolding place_rest
  place_rest-keeps q [] st h = h
  place_rest-keeps q (r ∷ rs) st h =
      place_rest-keeps q rs (place_role model r st) (place_role-keeps q r st h)

  place_rest-placed :
      (rs : List Wanted) (st : Placing)
      → All (λ r. is_placed r (place_rest model rs st).placed ≡ true) rs
  unfolding place_rest
  place_rest-placed [] st = tt
  place_rest-placed (r ∷ rs) st = (
    place_rest-keeps r rs (place_role model r st) (place_role-placed r st),
    place_rest-placed rs (place_role model r st),
  )

  -- On another board every role gets an entry, with a pin that suits it there or none; no two roles
  -- share a pin, and none takes a pin of the bus.
  pub place_roles_lem :
      (bus : List ℕ) (rs : List Wanted) (moved : List MovedPin)
      → IsSound model bus
          (place_roles model rs (record { taken = bus; placed = []; moved = moved }))
        × All
            (λ r.
              is_placed r
                (place_roles model rs (record { taken = bus; placed = []; moved = moved })).placed
              ≡ true)
            rs
  unfolding place_roles
  place_roles_lem bus rs moved =
      let start : Placing = record { taken = bus; placed = []; moved = moved } in
      (
        place_roles-IsSound model bus rs start (record {
          suits = tt;
          apart = tt;
          off_bus = tt;
          taken = tt;
          bus_taken = mem_of_all bus;
        }),
        place_rest-placed rs (keep_roles model rs start),
      )
