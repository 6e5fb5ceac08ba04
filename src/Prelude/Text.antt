-- ===== src/Prelude/Text.antt =====
-- What the sources use of JavaScript's strings: String.prototype.trim, split on one character, and
-- Array.prototype.join. A text is its code points.
use Prim.Native.Char.{Char, code}
use Prim.Native.Nat.{ℕ, ◌+◌}
use Prim.Native.String
use Prim.Native.String.{same, String, [], ◌∷◌}
use mathlib.Core.Path.{◌≡◌, refl, ap, ap₂, ◌∙◌}
use mathlib.Core.Bool.{Bool, true, false, not, ◌&&◌, ◌||◌}
use mathlib.Core.List.{List, map}
use mathlib.Core.Option.{Option, none, some}
use mathlib.Core.Logic.{inl, inr}
use text.Mathlib.TextLemmas.{nil-append, cons-append}
use iot_saas.Prelude.Tests.{==_iff, leb, ◌==◌, if◌then◌else◌, Bool-cases}
use iot_saas.Prelude.Lists.{keep, All}

-- WhiteSpace and LineTerminator of ECMAScript
unfoldable pub is_space : ℕ → Bool
is_space c =
    (leb 9 c && leb c 13)
    || c == 32
    || c == 0xa0
    || c == 0x1680
    || (leb 0x2000 c && leb c 0x200a)
    || c == 0x2028
    || c == 0x2029
    || c == 0x202f
    || c == 0x205f
    || c == 0x3000
    || c == 0xfeff

unfoldable pub trim_start : String → String
trim_start [] = []
trim_start (c ∷ s) = let rest = trim_start s in if is_space (code c) then rest else c ∷ s

-- a space that only spaces follow goes
unfoldable pub drop_last : Char → String → String
drop_last c [] = if is_space (code c) then [] else c ∷ []
drop_last c (d ∷ s) = c ∷ d ∷ s

unfoldable pub trim_end : String → String
unfolding drop_last
trim_end [] = []
trim_end (c ∷ s) = drop_last c (trim_end s)

unfoldable pub trim : String → String
unfolding trim_start trim_end
trim s = trim_end (trim_start s)

-- `s.length` counts UTF-16 units: two for a code point beyond 0xffff.
unfoldable pub utf16_length : String → ℕ
utf16_length [] = 0
utf16_length (c ∷ s) = (if leb 0x10000 (code c) then 2 else 1) + utf16_length s

-- `!s`, `s === ""`
abbrev pub is_empty : String → Bool
is_empty [] = true
is_empty (c ∷ s) = false

abbrev pub push_head : Char → List String → List String
push_head c List.[] = List.◌∷◌ (c ∷ []) List.[]
push_head c (List.◌∷◌ p ps) = List.◌∷◌ (c ∷ p) ps

-- `s.split(k)`
unfoldable pub split_on : ℕ → String → List String
split_on k [] = List.◌∷◌ [] List.[]
split_on k (c ∷ s) =
    let parts = split_on k s in if code c == k then List.◌∷◌ [] parts else push_head c parts

-- `s.split(/[...]/)`, at every character of a class
unfoldable pub split_if : (ℕ → Bool) → String → List String
split_if p [] = List.◌∷◌ [] List.[]
split_if p (c ∷ s) =
    let parts = split_if p s in if p (code c) then List.◌∷◌ [] parts else push_head c parts

unfoldable pub join_more : String → String → List String → String
join_more sep s List.[] = s
join_more sep s (List.◌∷◌ t ts) = String.◌++◌ s (String.◌++◌ sep (join_more sep t ts))

-- `parts.join(sep)`
unfoldable pub join : String → List String → String
unfolding join_more
join sep List.[] = []
join sep (List.◌∷◌ s ts) = join_more sep s ts

-- The parts of a list written with commas: split, trimmed, the empty ones left out.
unfoldable pub comma_list : String → List String
unfolding split_on trim
comma_list s = keep (λ p. not (is_empty p)) (map trim (split_on b',' s))

-- A text with no comma and no white space.
abbrev pub IsPlain : String → Type 0
IsPlain [] = Unit
IsPlain (c ∷ s) = ((code c == b',') ≡ false) × (is_space (code c) ≡ false) × IsPlain s

trim_end_of_IsPlain : (s : String) → IsPlain s → trim_end s ≡ s
unfolding trim_end
trim_end_of_IsPlain [] h = refl
trim_end_of_IsPlain (c ∷ []) (h, k, l) = rw k
trim_end_of_IsPlain (c ∷ d ∷ s) (h, k, l) = rw (trim_end_of_IsPlain (d ∷ s) l)

trim_start_of_IsPlain : (s : String) → IsPlain s → trim_start s ≡ s
unfolding trim_start
trim_start_of_IsPlain [] h = refl
trim_start_of_IsPlain (c ∷ s) (h, k, l) = rw k

pub trim_of_IsPlain : (s : String) → IsPlain s → trim s ≡ s
unfolding trim
trim_of_IsPlain s h = ap trim_end (trim_start_of_IsPlain s h) ∙ trim_end_of_IsPlain s h

split_on-plain : (s : String) → IsPlain s → split_on b',' s ≡ List.◌∷◌ s List.[]
unfolding split_on
split_on-plain [] h = refl
split_on-plain (c ∷ s) (h, k, l) = rw (h, split_on-plain s l)

split_on_at :
    (s u : String) (c : Char)
    → IsPlain s
    → (code c == b',') ≡ true
    → split_on b',' (String.◌++◌ s (c ∷ u)) ≡ List.◌∷◌ s (split_on b',' u)
unfolding split_on
split_on_at [] u c h e = rw (nil-append, e) refl
split_on_at (d ∷ s) u c (h, k, l) e = rw (cons-append, h, split_on_at s u c l e)

trim_space : (p : String) → trim (String.◌++◌ " " p) ≡ trim p
unfolding trim trim_start is_space
trim_space p = rw (cons-append, nil-append) refl

split_on-cons :
    (k : ℕ) (s : String) → (p : String) × (ps : List String) × (split_on k s ≡ List.◌∷◌ p ps)
unfolding split_on
split_on-cons k [] = ([], List.[], refl)
split_on-cons k (c ∷ s) =
    let (p, ps, e) = split_on-cons k s in
    elim (Bool-cases (code c == k)) [
      | inl h ↦ ([], split_on k s, rw h refl)
      | inr h ↦ (c ∷ p, ps, rw (h, e) refl)
    ]

-- The space that `join(", ")` puts before a part goes with the trimming.
spaced_parts :
    (t : String) → map trim (split_on b',' (String.◌++◌ " " t)) ≡ map trim (split_on b',' t)
unfolding split_on
spaced_parts t =
    let (p, ps, e) = split_on-cons b',' t in
    rw (cons-append, nil-append, e)
      (ap (λ q. List.◌∷◌ q (map trim ps)) (rw (cons-append, nil-append) at (trim_space p)))

join_more-parts :
    (s : String) (ts : List String)
    → IsPlain s
    → All IsPlain ts
    → map trim (split_on b',' (join_more ", " s ts)) ≡ List.◌∷◌ s ts
unfolding join_more
join_more-parts s List.[] h k =
    ap (map trim) (split_on-plain s h) ∙ ap (λ t. List.◌∷◌ t List.[]) (trim_of_IsPlain s h)
join_more-parts s (List.◌∷◌ t ts) h (k, ks) = rw cons-append (
    ap (map trim) (split_on_at s (String.◌++◌ " " (join_more ", " t ts)) "," h refl)
    ∙ (ap₂ List.◌∷◌ (trim_of_IsPlain s h)
        (spaced_parts (join_more ", " t ts) ∙ join_more-parts t ts k ks)))

-- A list of texts with no comma and no white space, joined by ", ", reads back as that list.
pub comma_list-join :
    (xs : List String)
    → All IsPlain xs
    → All (λ x. is_empty x ≡ false) xs
    → comma_list (join ", " xs) ≡ xs
unfolding comma_list join
comma_list-join List.[] h f = refl
comma_list-join (List.◌∷◌ x xs) h f =
    rw (join_more-parts x xs h.0 h.1) (keep_filled (List.◌∷◌ x xs) f)
  where
    keep_filled :
        (ys : List String) → All (λ y. is_empty y ≡ false) ys → keep (λ p. not (is_empty p)) ys ≡ ys
    keep_filled List.[] f = refl
    keep_filled (List.◌∷◌ y ys) (f, g) = rw (f, keep_filled ys g) refl

-- `s.slice(prefix.length)` where `s.startsWith(prefix)`
unfoldable pub drop_prefix : String → String → Option String
drop_prefix [] s = some s
drop_prefix (p ∷ ps) [] = none
drop_prefix (p ∷ ps) (c ∷ s) =
    let rest = drop_prefix ps s in if code p == code c then rest else none

pub drop_prefix-append : (p s : String) → drop_prefix p (String.◌++◌ p s) ≡ some s
unfolding drop_prefix
drop_prefix-append [] s = rw nil-append refl
drop_prefix-append (c ∷ p) s =
    rw cons-append (rw ((==_iff (code c) (code c)).1 refl) (drop_prefix-append p s))
