-- ===== src/Schedule/Lines.antt =====
-- A cron line splits into the fields that it was written from, and lists split at their separators.
use Prim.Native.Char.{Char, code}
use Prim.Native.String.{[], ◌∷◌, ◌++◌}
use text.Mathlib.TextLemmas.{nil-append, cons-append}
use mathlib.Core.List.{List}
use iot_saas.Prelude.{ℕ, String, true, false, ◌≡◌, refl, ap, ◌∙◌, All, ◌==◌, arith, none}
use iot_saas.Prelude.Text.{trim, trim_start, trim_end, drop_last, is_space, split_on, join_more}
use iot_saas.Prelude.Digits.{is_digit, IsDigits, is_filled}
use iot_saas.Schedule.Fields.{split_spaces, cut}

-- no white space
abbrev pub IsUnspaced : String → Type 0
IsUnspaced [] = Unit
IsUnspaced (c ∷ s) = (is_space (code c) ≡ false) × IsUnspaced s

-- a field: filled, without white space
abbrev pub IsField : String → Type 0
IsField s = (is_filled s ≡ true) × IsUnspaced s

-- without a character
abbrev pub Lacks : ℕ → String → Type 0
Lacks k [] = Unit
Lacks k (c ∷ s) = ((code c == k) ≡ false) × Lacks k s

split_spaces-field : (w : String) → IsUnspaced w → split_spaces false w ≡ List.◌∷◌ w List.[]
unfolding split_spaces
split_spaces-field [] h = refl
split_spaces-field (c ∷ s) (h, hs) = rw (h, split_spaces-field s hs) refl

split_spaces_at :
    (w u : String)
    → IsUnspaced w
    → split_spaces false (w ++ (" " ++ u)) ≡ List.◌∷◌ w (split_spaces true u)
unfolding split_spaces is_space
split_spaces_at [] u h = rw (nil-append, cons-append, nil-append) refl
split_spaces_at (c ∷ s) u (h, hs) = rw (cons-append, h, split_spaces_at s u hs) refl

split_spaces_run :
    (c : Char) (s : String)
    → is_space (code c) ≡ false
    → split_spaces true (c ∷ s) ≡ split_spaces false (c ∷ s)
unfolding split_spaces
split_spaces_run c s h = rw h refl

pub join_more-head :
    (sep : String) (c : Char) (s : String) (ts : List String)
    → (u : String) × (join_more sep (c ∷ s) ts ≡ c ∷ u)
unfolding join_more
join_more-head sep c s List.[] = (s, refl)
join_more-head sep c s (List.◌∷◌ t ts) =
    (s ++ (sep ++ join_more sep t ts), cons-append c s (sep ++ join_more sep t ts))

split_spaces_joined :
    (t : String) (ts : List String)
    → IsField t
    → split_spaces true (join_more " " t ts) ≡ split_spaces false (join_more " " t ts)
split_spaces_joined [] ts (f, h) = absurd (ground arith)
split_spaces_joined (c ∷ s) ts (f, (h, hs)) =
    let (u, e) = join_more-head " " c s ts in rw e (split_spaces_run c u h)

split_spaces-join_more :
    (s : String) (ts : List String)
    → IsField s
    → All IsField ts
    → split_spaces false (join_more " " s ts) ≡ List.◌∷◌ s ts
unfolding join_more
split_spaces-join_more s List.[] h k = split_spaces-field s h.1
split_spaces-join_more s (List.◌∷◌ t ts) h (k, ks) =
    split_spaces_at s (join_more " " t ts) h.1
    ∙ ap (λ us. List.◌∷◌ s us) (split_spaces_joined t ts k ∙ split_spaces-join_more t ts k ks)

-- Trimming keeps a text whose end it keeps.
record KeepsEnd (t : String) : Type 0 where
  kept : trim_end t ≡ t
  filled : is_filled t ≡ true

drop_last_filled : (c : Char) (t : String) → is_filled t ≡ true → drop_last c t ≡ c ∷ t
unfolding drop_last
drop_last_filled c [] h = absurd (ground arith)
drop_last_filled c (d ∷ t) h = refl

is_filled-append : (u t : String) → is_filled t ≡ true → is_filled (u ++ t) ≡ true
is_filled-append [] t h = rw nil-append h
is_filled-append (c ∷ u) t h = rw cons-append refl

append-KeepsEnd : (u t : String) → KeepsEnd t → KeepsEnd (u ++ t)
unfolding trim_end
append-KeepsEnd [] t h = record { kept = rw nil-append h.kept; filled = rw nil-append h.filled }
append-KeepsEnd (c ∷ u) t h =
    let k = append-KeepsEnd u t h in
    record {
      kept = rw (cons-append, k.kept) (drop_last_filled c (u ++ t) k.filled);
      filled = rw cons-append refl;
    }

field-KeepsEnd : (t : String) → IsField t → KeepsEnd t
unfolding trim_end drop_last
field-KeepsEnd [] (f, h) = absurd (ground arith)
field-KeepsEnd (c ∷ []) (f, (h, hs)) = record { kept = rw h refl; filled = refl }
field-KeepsEnd (c ∷ d ∷ s) (f, (h, hs)) =
    let k = field-KeepsEnd (d ∷ s) (refl, hs) in
    record { kept = rw k.kept (drop_last_filled c (d ∷ s) refl); filled = refl }

join_more-KeepsEnd :
    (s : String) (ts : List String) → IsField s → All IsField ts → KeepsEnd (join_more " " s ts)
unfolding join_more
join_more-KeepsEnd s List.[] h k = field-KeepsEnd s h
join_more-KeepsEnd s (List.◌∷◌ t ts) h (k, ks) =
    append-KeepsEnd s (" " ++ join_more " " t ts)
      (append-KeepsEnd " " (join_more " " t ts) (join_more-KeepsEnd t ts k ks))

trim_start_joined :
    (s : String) (ts : List String)
    → IsField s
    → trim_start (join_more " " s ts) ≡ join_more " " s ts
unfolding trim_start
trim_start_joined [] ts (f, h) = absurd (ground arith)
trim_start_joined (c ∷ s) ts (f, (h, hs)) = let (u, e) = join_more-head " " c s ts in rw (e, h) refl

-- Fields joined with spaces are read back, trimmed and split.
pub split_spaces-join :
    (s : String) (ts : List String)
    → IsField s
    → All IsField ts
    → split_spaces false (trim (join_more " " s ts)) ≡ List.◌∷◌ s ts
unfolding trim
split_spaces-join s ts h k =
    ap (split_spaces false)
      (ap trim_end (trim_start_joined s ts h) ∙ (join_more-KeepsEnd s ts h k).kept)
    ∙ split_spaces-join_more s ts h k

pub split_on-Lacks : (k : ℕ) (s : String) → Lacks k s → split_on k s ≡ List.◌∷◌ s List.[]
unfolding split_on
split_on-Lacks k [] h = refl
split_on-Lacks k (c ∷ s) (h, hs) = rw (h, split_on-Lacks k s hs) refl

pub split_on_at :
    (k : ℕ) (c : Char) (s u : String)
    → Lacks k s
    → (code c == k) ≡ true
    → split_on k (s ++ (c ∷ u)) ≡ List.◌∷◌ s (split_on k u)
unfolding split_on
split_on_at k c [] u h e = rw (nil-append, e) refl
split_on_at k c (d ∷ s) u (h, hs) e = rw (cons-append, h, split_on_at k c s u hs e) refl

-- Texts without commas joined with commas split into themselves.
pub split_on-join_more :
    (s : String) (ts : List String)
    → Lacks b',' s
    → All (Lacks b',') ts
    → split_on b',' (join_more "," s ts) ≡ List.◌∷◌ s ts
unfolding join_more
split_on-join_more s List.[] h k = split_on-Lacks b',' s h
split_on-join_more s (List.◌∷◌ t ts) h (k, ks) =
    rw (cons-append, nil-append)
      (split_on_at b',' "," s (join_more "," t ts) h refl
        ∙ ap (λ us. List.◌∷◌ s us) (split_on-join_more t ts k ks))

pub cut-Lacks : (k : ℕ) (s : String) → Lacks k s → cut k s ≡ (s, none)
unfolding cut
cut-Lacks k [] h = refl
cut-Lacks k (c ∷ s) (h, hs) = rw (h, cut-Lacks k s hs) refl

-- digits are neither white space nor another character
pub digits-IsUnspaced : (s : String) → IsDigits s → IsUnspaced s
unfolding is_space
digits-IsUnspaced [] h = tt
digits-IsUnspaced (c ∷ s) (h, hs) = (ground arith, digits-IsUnspaced s hs)

pub digits-Lacks : (k : ℕ) (s : String) → is_digit k ≡ false → IsDigits s → Lacks k s
digits-Lacks k [] e h = tt
digits-Lacks k (c ∷ s) e (h, hs) = (ground arith, digits-Lacks k s e hs)
