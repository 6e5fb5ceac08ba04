-- ===== src/Names.antt =====
-- The wire identifier of a metric or an actuator (packages/shared/src/slug.ts, wire-id.ts).
-- `toLowerCase` is the runtime's: a parameter.
use Prim.Native.Char.{code}
use Prim.Native.String.{String, [], ◌∷◌}
use iot_saas.Prelude.{
  ℕ, Bool, true, false, ◌&&◌, ◌||◌, Option, none, some, if◌then◌else◌, leb, ◌==◌,
}
use iot_saas.Prelude.Text.{trim, is_empty}

-- `[a-z0-9]`
unfoldable pub is_slug_char : ℕ → Bool
is_slug_char c = (leb b'a' c && leb c b'z') || (leb b'0' c && leb c b'9')

-- `replace(/[^a-z0-9]+/g, "-")`: a run of other characters is one dash. The flag is on in a run.
unfoldable pub dashed : Bool → String → String
dashed run [] = []
dashed run (c ∷ s) =
    let kept = dashed false s in
    let skipped = dashed true s in
    if is_slug_char (code c) then c ∷ kept else (if run then skipped else "-" ∷ skipped)

unfoldable pub strip_start : String → String
strip_start [] = []
strip_start (c ∷ s) = let rest = strip_start s in if code c == b'-' then rest else c ∷ s

unfoldable pub strip_end : String → String
strip_end [] = []
strip_end (c ∷ s) =
    let rest = strip_end s in if is_empty rest && code c == b'-' then [] else c ∷ rest

-- `a || b` on texts
abbrev pub text_or_else : String → String → String
text_or_else s fallback = if is_empty s then fallback else s

unfoldable pub slugify : (String → String) → String → String → String
unfolding dashed strip_start strip_end
slugify lower name fallback =
    text_or_else (strip_end (strip_start (dashed false (lower (trim name))))) fallback

abbrev key_or : Option String → String → String
key_or none slug = slug
key_or (some key) slug = text_or_else key slug

-- an empty key counts as none
unfoldable pub wire_id : (String → String) → Option String → String → String
wire_id lower key name = key_or key (slugify lower name "")
