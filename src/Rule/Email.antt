-- ===== src/Rule/Email.antt =====
-- Email recipients in a rule's action (frontend/src/lib/rule-draft.ts).
use Prim.Native.Char.{code}
use Prim.Native.Nat.{ℕ}
use Prim.Native.String.{String, [], ◌∷◌}
use mathlib.Core.Bool.{Bool, false, not, ◌&&◌, ◌||◌}
use mathlib.Core.List.{List, map}
use iot_saas.Prelude.{◌==◌, keep}
use iot_saas.Prelude.Text.{trim, is_empty, split_if, split_on, is_space}

-- `/[,;\s]/`
unfoldable pub is_separator : ℕ → Bool
is_separator c = c == b',' || c == b';' || is_space c

-- A run of separators splits off empty parts, which the filter drops.
unfoldable pub parse_recipients : String → List String
parse_recipients to = keep (λ s. not (is_empty s)) (map trim (split_if is_separator to))

-- EMAIL_SHAPE, `/^[^@\s]+@[^@\s]+\.[^@\s]+$/`: after the one `@` a dot with something on both sides.
dot_before_end : String → Bool
dot_before_end [] = false
dot_before_end (c ∷ s) = (code c == b'.' && not (is_empty s)) || dot_before_end s

has_space : String → Bool
has_space [] = false
has_space (c ∷ s) = is_space (code c) || has_space s

inner_dot : String → Bool
unfolding dot_before_end
inner_dot [] = false
inner_dot (c ∷ s) = dot_before_end s

two_sides : List String → Bool
unfolding has_space inner_dot
two_sides (List.◌∷◌ a (List.◌∷◌ b List.[])) =
    not (is_empty a) && not (has_space a) && not (has_space b) && inner_dot b
two_sides _ = false

unfoldable pub looks_like_email : String → Bool
unfolding two_sides
looks_like_email s = two_sides (split_on b'@' s)
