-- ===== src/Schedule/Singles.antt =====
-- What `cronField` reads from the fields that the picker writes.

use mathlib.Core.List as Lists
use mathlib.Core.List.{List}
use iot_saas.Prelude.{
  append-nil, any-append, ltb, zero, leb, ◌-◌, ℕ, suc, ◌+◌, ◌≤◌, ◌<◌, String, true, false, ◌&&◌,
  ◌≡◌, refl, sym, ap, ◌∙◌, All, ◌==◌, str_eq, eq_iff, if◌then◌else◌, map, mem, arith, Bool-cases,
  inl, inr, none, some, if_both, append_assoc,
}
use iot_saas.Prelude.Text.{split_on, join, join_more}
use iot_saas.Prelude.Digits.{IsDigits, is_filled, decimal, decimal-IsDigits, number_of-decimal}
use iot_saas.Schedule.Fields.{
  Range, read_head, read_part, count_up, values_of, fold_weekday, add_all, insert, sort,
  field_values, cron_field,
}
use iot_saas.Schedule.Sets.{HasNoRepeat, IsAscending}
use iot_saas.Schedule.Lines.{Lacks, split_on-join_more, cut-Lacks, digits-Lacks}

pub star_false : (s : String) → IsDigits s → is_filled s ≡ true → str_eq s "*" ≡ false
star_false s h f = elim (Bool-cases (str_eq s "*")) [
  | inr e ↦ e
  | inl e ↦ let q = rw ((eq_iff s "*").0 e) at h in absurd (ground arith)
]

count_up-past : (f n : ℕ) → count_up f (n + 1) n 1 ≡ List.[]
unfolding count_up
count_up-past zero n = refl
count_up-past (suc f) n = let e : leb (n + 1) n ≡ false = ground arith in rw e refl

one_value : (f n : ℕ) → count_up (suc f) n n 1 ≡ List.◌∷◌ n List.[]
unfolding count_up
one_value f n = let e : leb n n ≡ true = ground arith in rw (e, count_up-past f n) refl

-- A number is a part with that value only.
abbrev only : ℕ → Range
only n = record { from = n; to = n; step = 1 }

read_head-decimal : (lo hi n : ℕ) → read_head lo hi (decimal n) ≡ some (n, none)
unfolding read_head
read_head-decimal lo hi n =
    let (d, f) = decimal-IsDigits n in
    rw
      (
        star_false (decimal n) d f,
        cut-Lacks b'-' (decimal n) (digits-Lacks b'-' (decimal n) refl d),
        number_of-decimal n,
      )
      refl

read_part-decimal : (lo hi n : ℕ) → lo ≤ n → n ≤ hi → read_part lo hi (decimal n) ≡ some (only n)
unfolding read_part
read_part-decimal lo hi n h k =
    let (d, f) = decimal-IsDigits n in
    rw
      (cut-Lacks b'/' (decimal n) (digits-Lacks b'/' (decimal n) refl d), read_head-decimal lo hi n)
      (ground arith)

-- The values of the field that no folding changes.
abbrev pub IsPlainValue : ℕ → ℕ → ℕ → Type 0
IsPlainValue lo hi n = (lo ≤ n) × (n ≤ hi) × ((hi == 7 && n == 7) ≡ false)

values_of-only :
    (hi n : ℕ) → (hi == 7 && n == 7) ≡ false → values_of hi (only n) ≡ List.◌∷◌ n List.[]
values_of-only hi n h =
    ap (map (fold_weekday hi)) (one_value (n - n) n)
    ∙ if_both (λ m. List.◌∷◌ m List.[] ≡ List.◌∷◌ n List.[]) (hi == 7 && n == 7) 0 n
        (λ e. absurd (ground arith)) (λ e. refl)

field_values-decimals :
    (lo hi : ℕ) (ns out : List ℕ)
    → All (IsPlainValue lo hi) ns
    → field_values lo hi (map decimal ns) out ≡ some (add_all ns out)
unfolding field_values add_all
field_values-decimals lo hi List.[] out h = refl
field_values-decimals lo hi (List.◌∷◌ n ns) out ((h, k, l), hs) =
    rw (read_part-decimal lo hi n h k) (
      rw (values_of-only hi n l) (
        field_values-decimals lo hi ns
          (if mem n out then out else Lists.◌++◌ out (List.◌∷◌ n List.[])) hs))

fresh_after :
    (v : ℕ) (out vs : List ℕ)
    → All (λ w. mem w out ≡ false) vs
    → mem v vs ≡ false
    → All (λ w. mem w (Lists.◌++◌ out (List.◌∷◌ v List.[])) ≡ false) vs
fresh_after v out List.[] h k = tt
fresh_after v out (List.◌∷◌ w vs) (h, hs) k = (
  ground (arith, any-append (λ m. m == w) out (List.◌∷◌ v List.[])),
  fresh_after v out vs hs (ground arith),
)

-- Values that are new and come once are added in order.
add_all-fresh :
    (vs out : List ℕ)
    → HasNoRepeat vs
    → All (λ w. mem w out ≡ false) vs
    → add_all vs out ≡ Lists.◌++◌ out vs
unfolding add_all
add_all-fresh List.[] out h k = sym (append-nil out)
add_all-fresh (List.◌∷◌ v vs) out (h, hs) (k, ks) = rw k (
    add_all-fresh vs (Lists.◌++◌ out (List.◌∷◌ v List.[])) hs (fresh_after v out vs ks h)
    ∙ append_assoc out (List.◌∷◌ v List.[]) vs)

all_fresh : (vs : List ℕ) → All (λ w. mem w List.[] ≡ false) vs
all_fresh List.[] = tt
all_fresh (List.◌∷◌ v vs) = (refl, all_fresh vs)

insert-below : (v : ℕ) (vs : List ℕ) → All (λ w. v < w) vs → insert v vs ≡ List.◌∷◌ v vs
unfolding insert
insert-below v List.[] h = refl
insert-below v (List.◌∷◌ w vs) (h, hs) = let e : ltb w v ≡ false = ground arith in rw e refl

sort-ascending : (vs : List ℕ) → IsAscending vs → sort vs ≡ vs
unfolding sort
sort-ascending List.[] h = refl
sort-ascending (List.◌∷◌ v vs) (h, hs) = rw (sort-ascending vs hs) (insert-below v vs h)

below_fresh : (v : ℕ) (vs : List ℕ) → All (λ w. v < w) vs → mem v vs ≡ false
below_fresh v List.[] h = refl
below_fresh v (List.◌∷◌ w vs) (h, hs) = ground (arith, below_fresh v vs hs)

ascending-HasNoRepeat : (vs : List ℕ) → IsAscending vs → HasNoRepeat vs
ascending-HasNoRepeat List.[] h = tt
ascending-HasNoRepeat (List.◌∷◌ v vs) (h, hs) = (below_fresh v vs h, ascending-HasNoRepeat vs hs)

decimals-Lack : (ns : List ℕ) → All (Lacks b',') (map decimal ns)
decimals-Lack List.[] = tt
decimals-Lack (List.◌∷◌ n ns) =
    (digits-Lacks b',' (decimal n) refl (decimal-IsDigits n).0, decimals-Lack ns)

pub split_on-decimals :
    (n : ℕ) (ns : List ℕ)
    → split_on b',' (join "," (map decimal (List.◌∷◌ n ns))) ≡ map decimal (List.◌∷◌ n ns)
unfolding join
split_on-decimals n ns =
    split_on-join_more (decimal n) (map decimal ns)
      (digits-Lacks b',' (decimal n) refl (decimal-IsDigits n).0) (decimals-Lack ns)

-- Ascending numbers within the limits, written with commas, are read as those numbers.
pub cron_field-decimals :
    (lo hi n : ℕ) (ns : List ℕ)
    → All (IsPlainValue lo hi) (List.◌∷◌ n ns)
    → IsAscending (List.◌∷◌ n ns)
    → cron_field (join "," (map decimal (List.◌∷◌ n ns))) lo hi ≡ some (List.◌∷◌ n ns)
unfolding cron_field
cron_field-decimals lo hi n ns h a =
    let vs = List.◌∷◌ n ns in
    rw
      (
        split_on-decimals n ns,
        field_values-decimals lo hi vs List.[] h,
        add_all-fresh vs List.[] (ascending-HasNoRepeat vs a) (all_fresh vs),
        sort-ascending vs a,
      )
      refl

pub cron_field-decimal :
    (lo hi n : ℕ) → IsPlainValue lo hi n → cron_field (decimal n) lo hi ≡ some (List.◌∷◌ n List.[])
unfolding join join_more
cron_field-decimal lo hi n h = cron_field-decimals lo hi n List.[] (h, tt) (tt, tt)
