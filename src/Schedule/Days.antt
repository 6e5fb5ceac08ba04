-- ===== src/Schedule/Days.antt =====
-- What `daysText` says of the days that the picker holds (frontend/src/lib/schedule.ts).

use mathlib.Core.List.{List, [], ◌∷◌}
use iot_saas.Prelude.{
  if_both, ltb, all, suc, length, All, All-map, sym, true, false, eq_iff, mem, keep, false, true,
  arith, ◌≤◌, Bool-cases, inl, inr, ℕ, ◌≡◌, refl, ap, ◌∙◌, String, Bool, not, map, mem, keep,
  length, ltb, ◌==◌, str_eq, if◌then◌else◌,
}
use iot_saas.Prelude.Text.{join_more, split_on, join}
use iot_saas.Prelude.Digits.{decimal_onto, decimal}
use iot_saas.Schedule.Fields.{sort}
use iot_saas.Schedule.RoundTrip.{values-decimals, value_of}
use iot_saas.Schedule.Runs.Numbers.{numbers, keep-cong, keep-mem}
use iot_saas.Schedule.Sets.{IsAscending, HasNoRepeat, sort-IsAscending, mem-sort, All-sort}
use iot_saas.Schedule.Words.{days_text, dow_order, day_name}
use iot_saas.Schedule.Singles.{split_on-decimals}
use iot_saas.Schedule.Fields.{insert}

-- The days of a schedule: the named sets, else the names from Monday on.
abbrev has_exactly : List ℕ → List ℕ → Bool
has_exactly ds xs =
    all (λ d. if mem d xs then mem d ds else not (mem d ds)) (0 ∷ 1 ∷ 2 ∷ 3 ∷ 4 ∷ 5 ∷ 6 ∷ [])

abbrev week : List (ℕ × String)
week = (1, "Mon") ∷ (2, "Tue") ∷ (3, "Wed") ∷ (4, "Thu") ∷ (5, "Fri") ∷ (6, "Sat") ∷ (0, "Sun") ∷ []

abbrev pub say_days : List ℕ → String
say_days ds =
    if has_exactly ds (1 ∷ 2 ∷ 3 ∷ 4 ∷ 5 ∷ [])
    then "weekdays"
    else if has_exactly ds (0 ∷ 6 ∷ [])
    then "weekends"
    else if length ds == 7
    then "every day"
    else join ", " (map (λ e. e.1) (keep (λ e. mem e.0 ds) week))

sort_of_IsAscending : (vs : List ℕ) → IsAscending vs → sort vs ≡ vs
unfolding sort insert
sort_of_IsAscending [] h = refl
sort_of_IsAscending (v ∷ []) h = refl
sort_of_IsAscending (v ∷ w ∷ vs) ((l, ls), up) =
    let k : ltb w v ≡ false = ground arith in rw (sort_of_IsAscending (w ∷ vs) up) (rw k refl)

all-true : (p : ℕ → Bool) (xs : List ℕ) → all p xs ≡ true → All (λ x. p x ≡ true) xs
all-true p [] h = tt
all-true p (x ∷ xs) h = (ground arith, all-true p xs (ground arith))

agrees : (a b : Bool) → (if a then b else not b) ≡ true → b ≡ a
agrees true b h = h
agrees false b h = ground arith

same_members :
    (us xs : List ℕ)
    → IsAscending us
    → All (λ n. n ≤ 6) us
    → IsAscending xs
    → All (λ n. n ≤ 6) xs
    → has_exactly us xs ≡ true
    → us ≡ xs
unfolding numbers
same_members us xs a b c d h =
    sym (keep-mem us 0 7 a (All-map (λ n q. omega arith) us b) (All-map (λ n q. omega arith) us b))
    ∙ keep-cong (λ v. mem v us) (λ v. mem v xs) (numbers 0 7)
        (All-map (λ v q. agrees (mem v xs) (mem v us) q) (0 ∷ 1 ∷ 2 ∷ 3 ∷ 4 ∷ 5 ∷ 6 ∷ [])
          (all-true (λ d. if mem d xs then mem d us else not (mem d us))
            (0 ∷ 1 ∷ 2 ∷ 3 ∷ 4 ∷ 5 ∷ 6 ∷ []) h))
    ∙ keep-mem xs 0 7 c (All-map (λ n q. omega arith) xs d) (All-map (λ n q. omega arith) xs d)

true_or_false : true ≡ false → ⊥
true_or_false h = ground arith

values_of_join :
    (n : ℕ) (ns : List ℕ) (t : String)
    → join "," (map decimal (n ∷ ns)) ≡ t
    → n ∷ ns ≡ map value_of (split_on b',' t)
values_of_join n ns t h =
    sym (values-decimals (n ∷ ns))
    ∙ ap (map value_of) (sym (split_on-decimals n ns) ∙ ap (split_on b',') h)

-- Days in order read as a text of `sort(...).join(",")` exactly where they are those days.
text_of_days :
    (us : List ℕ) (n : ℕ) (ns : List ℕ) (t : String)
    → 1 ≤ length us
    → IsAscending us
    → All (λ m. m ≤ 6) us
    → IsAscending (n ∷ ns)
    → All (λ m. m ≤ 6) (n ∷ ns)
    → has_exactly (n ∷ ns) (n ∷ ns) ≡ true
    → join "," (map decimal (n ∷ ns)) ≡ t
    → str_eq (join "," (map decimal us)) t ≡ has_exactly us (n ∷ ns)
text_of_days [] n ns t f a b c d e g = absurd (omega arith)
text_of_days (v ∷ vs) n ns t f a b c d e g = elim (Bool-cases (has_exactly (v ∷ vs) (n ∷ ns))) [
  | inl k ↦
      let same = same_members (v ∷ vs) (n ∷ ns) a b c d k in
      (eq_iff (join "," (map decimal (v ∷ vs))) t).1 (ap (λ x. join "," (map decimal x)) same ∙ g)
      ∙ sym k
  | inr k ↦ elim (Bool-cases (str_eq (join "," (map decimal (v ∷ vs))) t)) [
    | inl q ↦
        let left = values_of_join v vs t ((eq_iff (join "," (map decimal (v ∷ vs))) t).0 q) in
        let same = left ∙ sym (values_of_join n ns t g) in
        absurd (true_or_false (sym e ∙ ap (λ x. has_exactly x (n ∷ ns)) (sym same) ∙ k))
    | inr q ↦ q ∙ sym k
  ]
]

weekdays_text :
    (us : List ℕ)
    → 1 ≤ length us
    → IsAscending us
    → All (λ m. m ≤ 6) us
    → str_eq (join "," (map decimal us)) "1,2,3,4,5" ≡ has_exactly us (1 ∷ 2 ∷ 3 ∷ 4 ∷ 5 ∷ [])
unfolding join join_more decimal decimal_onto
weekdays_text us f a b =
    text_of_days us 1 (2 ∷ 3 ∷ 4 ∷ 5 ∷ []) "1,2,3,4,5" f a b (ground arith) (ground arith) refl refl

weekend_text :
    (us : List ℕ)
    → 1 ≤ length us
    → IsAscending us
    → All (λ m. m ≤ 6) us
    → str_eq (join "," (map decimal us)) "0,6" ≡ has_exactly us (0 ∷ 6 ∷ [])
unfolding join join_more decimal decimal_onto
weekend_text us f a b =
    text_of_days us 0 (6 ∷ []) "0,6" f a b (ground arith) (ground arith) refl refl

names_of_week :
    (p : ℕ → Bool) (xs : List ℕ)
    → map day_name (keep p xs)
      ≡ map (λ e. e.1) (keep (λ e. p e.0) (map {B = ℕ × String} (λ d. (d, day_name d)) xs))
names_of_week p [] = refl
names_of_week p (x ∷ xs) = elim (Bool-cases (p x)) [
  | inl e ↦ rw (e, names_of_week p xs) refl
  | inr e ↦ rw (e, names_of_week p xs) refl
]

members_same :
    (us ds xs : List ℕ) → ((v : ℕ) → mem v us ≡ mem v ds) → has_exactly us xs ≡ has_exactly ds xs
members_same us ds xs h = rw (h 0, h 1, h 2, h 3, h 4, h 5, h 6) refl

names_same :
    (us ds : List ℕ)
    → ((v : ℕ) → mem v us ≡ mem v ds)
    → map {B = String} (λ e. e.1) (keep (λ e. mem e.0 us) week)
      ≡ map (λ e. e.1) (keep (λ e. mem e.0 ds) week)
names_same us ds h = ap (map {B = String} (λ e. e.1)) (
    keep-cong (λ e. mem e.0 us) (λ e. mem e.0 ds) week
      (h 1, (h 2, (h 3, (h 4, (h 5, (h 6, (h 0, tt))))))))

length-insert : (v : ℕ) (vs : List ℕ) → length (insert v vs) ≡ suc (length vs)
unfolding insert
length-insert v [] = refl
length-insert v (w ∷ vs) =
    if_both (λ o. length o ≡ suc (suc (length vs))) (ltb w v) (w ∷ insert v vs) (v ∷ w ∷ vs)
      (λ e. ap suc (length-insert v vs)) (λ e. refl)

length-sort : (vs : List ℕ) → length (sort vs) ≡ length vs
unfolding sort
length-sort [] = refl
length-sort (v ∷ vs) = length-insert v (sort vs) ∙ ap suc (length-sort vs)

choose : Bool → Bool → Bool → String → String
choose a b c names =
    if a then "weekdays" else if b then "weekends" else if c then "every day" else names

chosen_same :
    (a b c d e f : Bool) (x y : String)
    → a ≡ d
    → b ≡ e
    → c ≡ f
    → x ≡ y
    → choose a b c x ≡ choose d e f y
chosen_same a b c d e f x y h k l m = rw (h, k, l, m) refl

days_text_chosen :
    (us : List ℕ)
    → days_text us
      ≡ choose
          (str_eq (join "," (map decimal (sort us))) "1,2,3,4,5")
          (str_eq (join "," (map decimal (sort us))) "0,6")
          (length us == 7)
          (join ", " (map day_name (keep (λ d. mem d us) dow_order)))
unfolding days_text choose
days_text_chosen us = refl

week_names :
    (us : List ℕ)
    → map day_name (keep (λ d. mem d us) dow_order) ≡ map (λ e. e.1) (keep (λ e. mem e.0 us) week)
unfolding dow_order day_name
week_names us = names_of_week (λ d. mem d us) dow_order

-- The days that the picker holds are worded by the sets that have a name.
pub days_text-say_days :
    (ds : List ℕ)
    → 1 ≤ length ds
    → All (λ n. n ≤ 6) ds
    → HasNoRepeat ds
    → days_text (sort ds) ≡ say_days ds
unfolding choose
days_text-say_days ds f b c =
    let us = sort ds in
    let up = sort-IsAscending ds c in
    let low = All-sort (λ n. n ≤ 6) ds b in
    let full = ap (λ n. n) (length-sort ds) in
    let again = ap (λ vs. join "," (map decimal vs)) (sort_of_IsAscending us up) in
    let members : (v : ℕ) → mem v us ≡ mem v ds = λ v. mem-sort v ds in
    days_text_chosen us
    ∙ chosen_same (str_eq (join "," (map decimal (sort us))) "1,2,3,4,5")
        (str_eq (join "," (map decimal (sort us))) "0,6") (length us == 7)
        (has_exactly ds (1 ∷ 2 ∷ 3 ∷ 4 ∷ 5 ∷ [])) (has_exactly ds (0 ∷ 6 ∷ [])) (length ds == 7)
        (join ", " (map day_name (keep (λ d. mem d us) dow_order)))
        (join ", " (map (λ e. e.1) (keep (λ e. mem e.0 ds) week)))
        (ap (λ t. str_eq t "1,2,3,4,5") again
          ∙ weekdays_text us (omega arith) up low
          ∙ members_same us ds (1 ∷ 2 ∷ 3 ∷ 4 ∷ 5 ∷ []) members)
        (ap (λ t. str_eq t "0,6") again
          ∙ weekend_text us (omega arith) up low
          ∙ members_same us ds (0 ∷ 6 ∷ []) members)
        (ap (λ n. n == 7) full) (ap (join ", ") (week_names us ∙ names_same us ds members))
