-- ===== src/Realtime/Url.antt =====
-- `wsUrlFromApiUrl` (packages/shared/src/realtime.ts). `encode` is encodeURIComponent; an error that is
-- thrown is `none`.
use Prim.Native.Char.{code}
use Prim.Native.String.{[], ◌∷◌, ◌++◌}
use mathlib.Core.Path.{refl}
use text.Mathlib.TextLemmas.{nil-append, cons-append}
use iot_saas.Prelude.{
  true, ℕ, String, Bool, false, ◌||◌, ◌≡◌, Option, none, some, ◌==◌, if◌then◌else◌, or_else,
}
use iot_saas.Prelude.Text.{drop_prefix-append, trim, is_empty, drop_prefix}

-- `[/?#]`
unfoldable pub ends_host : ℕ → Bool
ends_host c = c == b'/' || c == b'?' || c == b'#'

-- `[^/?#]+`, as far as it goes
unfoldable pub host_of : String → String
host_of [] = []
host_of (c ∷ s) = let rest = host_of s in if ends_host (code c) then [] else c ∷ rest

abbrev with_host : String → String → Option (String × String)
with_host scheme host = if is_empty host then none else some (scheme, host)

abbrev after_scheme : String → Option String → Option (String × String)
after_scheme scheme none = none
after_scheme scheme (some rest) = with_host scheme (host_of rest)

-- The scheme of the socket and the host, where the URL matches.
unfoldable pub match_url : String → Option (String × String)
unfolding host_of
match_url url =
    or_else (after_scheme "wss" (drop_prefix "https://" url))
      (after_scheme "ws" (drop_prefix "http://" url))

-- A host: a text without the characters that end one.
abbrev pub IsHost : String → Type 0
IsHost [] = Unit
IsHost (c ∷ s) = (ends_host (code c) ≡ false) × IsHost s

-- what may follow a host
abbrev pub EndsHost : String → Type 0
EndsHost [] = Unit
EndsHost (c ∷ s) = ends_host (code c) ≡ true

host_of-append : (h r : String) → IsHost h → EndsHost r → host_of (h ++ r) ≡ h
unfolding host_of
host_of-append [] [] a b = refl
host_of-append [] (c ∷ r) a b = rw (nil-append, b) refl
host_of-append (c ∷ h) r (a, k) b = rw (cons-append, a, host_of-append h r k b) refl

abbrev pub http_scheme : Bool → String
http_scheme secure = if secure then "https://" else "http://"

abbrev pub ws_scheme : Bool → String
ws_scheme secure = if secure then "wss" else "ws"

not_secure : (s : String) → drop_prefix "https://" ("http://" ++ s) ≡ none
unfolding drop_prefix
not_secure s = rw (cons-append, cons-append, cons-append, cons-append, cons-append) refl

match_url-append :
    (secure : Bool) (h r : String)
    → IsHost h
    → EndsHost r
    → is_empty h ≡ false
    → match_url (http_scheme secure ++ (h ++ r)) ≡ some (ws_scheme secure, h)
unfolding match_url
match_url-append true h r a b e =
    rw (drop_prefix-append "https://" (h ++ r), host_of-append h r a b, e) refl
match_url-append false h r a b e =
    rw (not_secure (h ++ r), drop_prefix-append "http://" (h ++ r), host_of-append h r a b, e) refl

module _ (encode : String → String) where
  abbrev pub url_text : String → String → String → String → String
  url_text scheme host token tenant =
      scheme ++ "://" ++ host ++ "/ws?token=" ++ encode token ++ "&tenant_id=" ++ encode tenant

  abbrev url_for : String → String → Option (String × String) → Option String
  url_for token tenant none = none
  url_for token tenant (some (scheme, host)) = some (url_text scheme host token tenant)

  unfoldable pub ws_url_from_api_url : String → String → String → Option String
  unfolding match_url
  ws_url_from_api_url api token tenant = url_for token tenant (match_url (trim api))

  -- For an API at a host, over https or http, the socket is at the same host, over wss or ws, whatever
  -- path, query or fragment the API's URL has.
  pub ws_url_from_api_url_lem :
      (secure : Bool) (api h r token tenant : String)
      → trim api ≡ http_scheme secure ++ (h ++ r)
      → IsHost h
      → EndsHost r
      → is_empty h ≡ false
      → ws_url_from_api_url api token tenant ≡ some (url_text (ws_scheme secure) h token tenant)
  unfolding ws_url_from_api_url
  ws_url_from_api_url_lem secure api h r token tenant t a b e =
      rw (t, match_url-append secure h r a b e) refl
