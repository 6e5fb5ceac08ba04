-- ===== src/Schedule/Allowed.antt =====
-- The values that `cronField` allows: those that a part covers, in ascending order.
use iot_saas.Schedule.Sets.{
  HasNoRepeat, sort-IsAscending, mem-add_all, mem-sort, IsAscending, add_all-HasNoRepeat,
}
use native.Mathlib.Nat.{zero-mod, mod-eq_of_lt, mod-eq-sub-mod}
use iot_saas.Prelude.{
  and_then-some, ℕ, zero, suc, ◌+◌, ◌-◌, ◌%◌, ◌≤◌, ◌<◌, String, Bool, true, false, not, ◌&&◌, ◌||◌,
  ◌≡◌, refl, sym, ap, ◌∙◌, Option, none, some, List, [], ◌∷◌, map, any, mem, ltb, leb, ◌==◌,
  if◌then◌else◌, if_both, arith, Bool-cases, Option-cases, inl, inr,
}
use iot_saas.Prelude.Text.{split_on}
use iot_saas.Schedule.Fields.{
  optional_number, is_given, or_number, cut, checked, read_head, range_of, Range, read_part,
  fold_weekday, count_up, values_of, add_all, sort, field_values, cron_field,
}

-- From the first value to the last one in steps.
abbrev pub hits : Range → ℕ → Bool
hits r v = leb r.from v && leb v r.to && (v - r.from) % r.step == 0

-- The same with weekday 7 as 0.
abbrev pub covers : ℕ → Range → ℕ → Bool
covers hi r v = (hits r v && not (hi == 7 && v == 7)) || (hi == 7 && v == 0 && hits r 7)

abbrev range_covers : ℕ → Option Range → ℕ → Bool
range_covers hi none v = false
range_covers hi (some r) v = covers hi r v

-- whether the part of a field covers the value
abbrev pub part_allows : ℕ → ℕ → ℕ → String → Bool
part_allows lo hi v part = range_covers hi (read_part lo hi part) v

rest_of_step : (a v step : ℕ) → a + step ≤ v → (v - a) % step ≡ (v - (a + step)) % step
rest_of_step a v step h =
    let k : step ≤ v - a = omega arith in mod-eq-sub-mod k ∙ ap (λ n. n % step) (omega arith)

rest_inside : (a v step : ℕ) → a < v → v < a + step → ((v - a) % step == 0) ≡ false
rest_inside a v step h k = let l : v - a < step = omega arith in rw (mod-eq_of_lt l) (ground arith)

rest_none : (a v step : ℕ) → a ≡ v → ((v - a) % step == 0) ≡ true
rest_none a v step h =
    let k : v - a ≡ 0 = omega arith in
    let l : (v - a) % step ≡ 0 = ap (λ n. n % step) k ∙ zero-mod step in ground arith

mem-count_up :
    (f a b step v : ℕ)
    → 1 ≤ step
    → b < a + f
    → mem v (count_up f a b step) ≡ (leb a v && leb v b && (v - a) % step == 0)
unfolding count_up
mem-count_up zero a b step v h k = ground arith
mem-count_up (suc f) a b step v h k = elim (Bool-cases (leb a b)) [
  | inr e ↦ rw e (ground arith)
  | inl e ↦
      rw (e, mem-count_up f (a + step) b step v h (omega arith))
        (elim (Bool-cases (leb (a + step) v)) [
          | inl g ↦ ground (arith, rest_of_step a v step (ground arith))
          | inr g ↦ elim (Bool-cases (a == v)) [
            | inl q ↦ rw (rest_none a v step (ground arith)) (ground arith)
            | inr q ↦ elim (Bool-cases (ltb v a)) [
              | inl p ↦ ground arith
              | inr p ↦ rw (rest_inside a v step (ground arith) (ground arith)) (ground arith)
            ]
          ]
        ])
]

mem-fold_weekday :
    (hi v : ℕ) (xs : List ℕ)
    → mem v (map (fold_weekday hi) xs)
      ≡ ((mem v xs && not (hi == 7 && v == 7)) || (hi == 7 && v == 0 && mem 7 xs))
mem-fold_weekday hi v [] = ground arith
mem-fold_weekday hi v (x ∷ xs) = rw (mem-fold_weekday hi v xs) (
    if_both
      (λ w.
        ((w == v) || ((mem v xs && not (hi == 7 && v == 7)) || (hi == 7 && v == 0 && mem 7 xs))) ≡ (
          (((x == v) || mem v xs) && not (hi == 7 && v == 7))
          || (hi == 7 && v == 0 && ((x == 7) || mem 7 xs))))
      (hi == 7 && x == 7) 0 x (λ e. ground arith) (λ e. ground arith))

record IsRange (lo hi : ℕ) (r : Range) : Type 0 where
  low : lo ≤ r.from
  high : r.to ≤ hi
  steps : 1 ≤ r.step

checked-IsRange : (lo hi : ℕ) (r s : Range) → checked lo hi r ≡ some s → IsRange lo hi s
checked-IsRange lo hi r s h =
    let bad = ltb r.from lo || ltb hi r.to || ltb r.to r.from || ltb r.step 1 in
    elim (Bool-cases bad) [
      | inl e ↦ absurd (ground (arith, rw e at h))
      | inr e ↦
          let q : r ≡ s = ground (arith, rw e at h) in
          let k : IsRange lo hi r = record {
            low = ground arith;
            high = ground arith;
            steps = ground arith;
          } in
          rw q at k
    ]

range_of-IsRange :
    (lo hi : ℕ) (head : Option (ℕ × Option ℕ)) (step : Option (Option ℕ)) (s : Range)
    → range_of lo hi head step ≡ some s
    → IsRange lo hi s
range_of-IsRange lo hi none step s h = absurd (ground arith)
range_of-IsRange lo hi (some (a, b)) none s h = absurd (ground arith)
range_of-IsRange lo hi (some (a, b)) (some step) s h =
    checked-IsRange lo hi
      (record {
        from = a;
        to = or_number b (if is_given step then hi else a);
        step = or_number step 1;
      })
      s h

read_part-IsRange :
    (lo hi : ℕ) (part : String) (r : Range) → read_part lo hi part ≡ some r → IsRange lo hi r
unfolding read_part
read_part-IsRange lo hi part r h =
    range_of-IsRange lo hi (read_head lo hi (cut b'/' part).0) (optional_number (cut b'/' part).1) r
      h

pub mem-values_of : (hi v : ℕ) (r : Range) → 1 ≤ r.step → mem v (values_of hi r) ≡ covers hi r v
mem-values_of hi v r h =
    let f = suc (r.to - r.from) in
    rw
      (
        mem-fold_weekday hi v (count_up f r.from r.to r.step),
        mem-count_up f r.from r.to r.step v h (omega arith),
        mem-count_up f r.from r.to r.step 7 h (omega arith),
      )
      refl

-- What the loop over the parts has collected.
record HasValues (lo hi : ℕ) (parts : List String) (out vs : List ℕ) : Type 0 where
  members : (v : ℕ) → mem v vs ≡ (any (part_allows lo hi v) parts || mem v out)
  distinct : HasNoRepeat vs

swap_or : (a b c : Bool) → (a || (b || c)) ≡ ((b || a) || c)
swap_or a b c = ground arith

HasValues-part :
    (lo hi : ℕ) (part : String) (parts : List String) (out vs : List ℕ) (r : Range)
    → read_part lo hi part ≡ some r
    → HasValues lo hi parts (add_all (values_of hi r) out) vs
    → HasValues lo hi (part ∷ parts) out vs
HasValues-part lo hi part parts out vs r e h = record {
  members = λ v.
      let steps = (read_part-IsRange lo hi part r e).steps in
      let others = any (part_allows lo hi v) parts in
      rw e (
        h.members v
        ∙ (ap (λ b. others || b)
              (mem-add_all v (values_of hi r) out
                ∙ ap (λ b. b || mem v out) (mem-values_of hi v r steps))
            ∙ swap_or others (covers hi r v) (mem v out)));
  distinct = h.distinct;
}

field_values-HasValues :
    (lo hi : ℕ) (parts : List String) (out vs : List ℕ)
    → field_values lo hi parts out ≡ some vs
    → HasNoRepeat out
    → HasValues lo hi parts out vs
unfolding field_values
field_values-HasValues lo hi [] out vs h k =
    let q : out ≡ vs = ground (arith, h) in
    record { members = λ v. rw q refl; distinct = rw q at k }
field_values-HasValues lo hi (part ∷ parts) out vs h k =
    let (r, e, g) =
      and_then-some (read_part lo hi part)
        (λ r. field_values lo hi parts (add_all (values_of hi r) out)) vs h in
    HasValues-part lo hi part parts out vs r e (
      field_values-HasValues lo hi parts (add_all (values_of hi r) out) vs g
        (add_all-HasNoRepeat (values_of hi r) out k))

covers-bounds :
    (lo hi v : ℕ) (r : Range)
    → IsRange lo hi r
    → (hi == 7 && not (lo == 0)) ≡ false
    → covers hi r v ≡ true
    → (lo ≤ v) × (v ≤ hi)
covers-bounds lo hi v r h k c =
    let low = h.low in
    let high = h.high in
    elim (Bool-cases (hits r v)) [ inl e ↦ ground arith | inr e ↦ ground arith ]

any-bounds :
    (lo hi v : ℕ) (parts : List String)
    → (hi == 7 && not (lo == 0)) ≡ false
    → any (part_allows lo hi v) parts ≡ true
    → (lo ≤ v) × (v ≤ hi)
any-bounds lo hi v [] k c = absurd (ground arith)
any-bounds lo hi v (part ∷ parts) k c = elim (Bool-cases (part_allows lo hi v part)) [
  | inr e ↦ any-bounds lo hi v parts k (ground arith)
  | inl e ↦ elim (Option-cases (read_part lo hi part)) [
    | inl q ↦ absurd (ground (arith, rw q at e))
    | inr (r, q) ↦ covers-bounds lo hi v r (read_part-IsRange lo hi part r q) k (rw q at e)
  ]
]

-- A field that cronField reads allows exactly the values that one of its parts covers, weekday 7 as
-- 0; it lists them in ascending order, and each lies within the limits of the field.
pub cron_field_lem :
    (field : String) (lo hi : ℕ) (vs : List ℕ)
    → (hi == 7 && not (lo == 0)) ≡ false
    → cron_field field lo hi ≡ some vs
    → ((v : ℕ) → mem v vs ≡ any (part_allows lo hi v) (split_on b',' field))
      × IsAscending vs
      × ((v : ℕ) → mem v vs ≡ true → (lo ≤ v) × (v ≤ hi))
unfolding cron_field
cron_field_lem field lo hi vs k h =
    elim (Option-cases (field_values lo hi (split_on b',' field) [])) [
      | inl e ↦ absurd (ground (arith, rw e at h))
      | inr (us, e) ↦
          let q : sort us ≡ vs = ground (arith, rw e at h) in
          let parts = split_on b',' field in
          let r = field_values-HasValues lo hi parts [] us e tt in
          let m : (v : ℕ) → mem v vs ≡ any (part_allows lo hi v) parts =
            λ v. rw⁻¹ q (ground (arith, mem-sort v us, r.members v)) in
          let a = sort-IsAscending us r.distinct in
          (m, rw q at a, λ v c. any-bounds lo hi v parts k (sym (m v) ∙ c))
    ]
