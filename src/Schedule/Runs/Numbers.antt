-- ===== src/Schedule/Runs/Numbers.antt =====
-- A cron field as the numbers between its limits that it allows.
use iot_saas.Prelude.{
  ℕ, zero, suc, ◌+◌, ◌≤◌, ◌<◌, String, Bool, true, false, not, ◌&&◌, ◌≡◌, refl, sym, ap, ◌∙◌, some,
  List, [], ◌∷◌, any, keep, mem, All, All-map, ◌==◌, arith, Bool-cases, inl, inr,
}
use iot_saas.Prelude.Text.{split_on}
use iot_saas.Schedule.Sets.{IsAscending}
use iot_saas.Schedule.Fields.{cron_field}
use iot_saas.Schedule.Allowed.{part_allows, cron_field_lem}

-- So many numbers from the first on.
unfoldable pub numbers : ℕ → ℕ → List ℕ
numbers lo zero = []
numbers lo (suc n) = lo ∷ numbers (suc lo) n

-- A part of the field, between commas, covers the value.
abbrev pub allows : ℕ → ℕ → String → ℕ → Bool
allows lo hi field v = any (part_allows lo hi v) (split_on b',' field)

pub keep-cong :
    {A : Type 0} (p q : A → Bool) (xs : List A) → All (λ x. p x ≡ q x) xs → keep p xs ≡ keep q xs
keep-cong p q [] h = refl
keep-cong p q (x ∷ xs) (h, hs) = rw (h, keep-cong p q xs hs) refl

All-numbers : (P : ℕ → Type 0) (lo n : ℕ) → ((v : ℕ) → lo ≤ v → P v) → All P (numbers lo n)
unfolding numbers
All-numbers P lo zero h = tt
All-numbers P lo (suc n) h =
    (h lo (omega arith), All-numbers P (suc lo) n (λ v k. h v (omega arith)))

All_of_mem : (P : ℕ → Type 0) (vs : List ℕ) → ((v : ℕ) → mem v vs ≡ true → P v) → All P vs
All_of_mem P [] h = tt
All_of_mem P (v ∷ vs) h = (h v (ground arith), All_of_mem P vs (λ w k. h w (ground arith)))

mem_below : (v : ℕ) (vs : List ℕ) → All (λ w. v < w) vs → mem v vs ≡ false
mem_below v [] h = refl
mem_below v (w ∷ vs) (h, hs) = ground (arith, mem_below v vs hs)

-- The members of an ascending list, searched among numbers that hold them all.
pub keep-mem :
    (vs : List ℕ) (lo n : ℕ)
    → IsAscending vs
    → All (λ v. lo ≤ v) vs
    → All (λ v. v < lo + n) vs
    → keep (λ v. mem v vs) (numbers lo n) ≡ vs
unfolding numbers
keep-mem [] lo zero a h k = refl
keep-mem (v ∷ vs) lo zero a (h, hs) (k, ks) = absurd (omega arith)
keep-mem [] lo (suc n) a h k = keep-mem [] (suc lo) n tt tt tt
keep-mem (v ∷ vs) lo (suc n) (a, up) (h, hs) (k, ks) = elim (Bool-cases (v == lo)) [
  | inl e ↦
      let same : v ≡ lo = ground arith in
      let rest =
        keep-mem vs (suc lo) n up (All-map (λ w q. omega arith) vs a)
          (All-map (λ w q. omega arith) vs ks) in
      let other =
        keep-cong (λ w. mem w (v ∷ vs)) (λ w. mem w vs) (numbers (suc lo) n)
          (All-numbers (λ w. mem w (v ∷ vs) ≡ mem w vs) (suc lo) n (λ w q. ground arith)) in
      rw (e, other, rest) (ap (λ w. w ∷ vs) (sym same))
  | inr e ↦
      let above : lo < v = ground arith in
      let out : mem lo (v ∷ vs) ≡ false =
        mem_below lo (v ∷ vs) (omega arith, All-map (λ w q. omega arith) vs a) in
      rw out (
        keep-mem (v ∷ vs) (suc lo) n (a, up) (omega arith, All-map (λ w q. omega arith) vs a)
          (omega arith, All-map (λ w q. omega arith) vs ks))
]

module _ (field : String) (lo hi : ℕ) (vs : List ℕ) where
  pub mem-allows :
      (hi == 7 && not (lo == 0)) ≡ false
      → cron_field field lo hi ≡ some vs
      → (v : ℕ) → mem v vs ≡ allows lo hi field v
  mem-allows k h v = (cron_field_lem field lo hi vs k h).0 v

  -- A field that is read lists the numbers between its limits that it allows.
  pub cron_field-keep :
      (n : ℕ)
      → hi < lo + n
      → (hi == 7 && not (lo == 0)) ≡ false
      → cron_field field lo hi ≡ some vs
      → keep (allows lo hi field) (numbers lo n) ≡ vs
  cron_field-keep n b k h =
      let (members, up, within) = cron_field_lem field lo hi vs k h in
      keep-cong (allows lo hi field) (λ v. mem v vs) (numbers lo n)
        (All-numbers (λ v. allows lo hi field v ≡ mem v vs) lo n (λ v q. sym (members v)))
      ∙ keep-mem vs lo n up (All_of_mem (λ v. lo ≤ v) vs (λ v q. (within v q).0))
          (All_of_mem (λ v. v < lo + n) vs (λ v q. let w = (within v q).1 in omega arith))
