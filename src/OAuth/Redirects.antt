-- ===== src/OAuth/Redirects.antt =====
-- internal/auth/oauthas/pkce.go: redirect URIs, their patterns, and the proof of a code's holder.
pub mod Globs
pub mod Laws
use synamcps_server.Prelude.{
  ℕ, ◌-◌, String, Bool, true, false, not, Option, none, some, List, [], ◌∷◌, map, length, take,
  last?, is_empty, any, ◌==◌, ◌&&◌, ◌||◌, if◌then◌else◌,
}
use synamcps_server.Prelude.Strings.{Runes, codes, ◌=ˢ◌, contains}
use synamcps_server.Prelude.Runes.{to_lower, has_prefix, ◌=ʳ◌}

-- What the callers read of a URL that `url.Parse` made of a text; `hostname` is the host with no port.
pub record Url : Type 0 where
  pub scheme : Runes
  pub host : Runes
  pub hostname : Runes
  pub fragment : Runes

-- `strings.HasSuffix(pattern, "*")`
abbrev pub ends_in_star : Runes → Bool
ends_in_star pattern = elim (last? pattern) [ none ↦ false | some c ↦ c == b'*' ]

-- `strings.TrimSuffix(pattern, "*")`, where it does
abbrev pub but_last : Runes → Runes
but_last [] = []
but_last (c ∷ []) = []
but_last (c ∷ d ∷ ds) = c ∷ but_last (d ∷ ds)

abbrev pub match_simple_glob : Runes → Runes → Bool
match_simple_glob pattern value =
    if pattern =ʳ codes "*"
    then true
    else if ends_in_star pattern
    then has_prefix value (but_last pattern)
    else pattern =ʳ value

unfoldable pub match_patterns : String → List String → Bool
match_patterns value patterns =
    if is_empty patterns
    then true
    else any (λ pattern. match_simple_glob (codes pattern) (codes value)) patterns

abbrev pub is_local : Runes → Bool
is_local host = host =ʳ codes "localhost" || host =ʳ codes "127.0.0.1" || host =ʳ codes "::1"

-- The scheme is `https`, or `http` on the machine itself.
abbrev pub scheme_allowed : Url → Bool
scheme_allowed u =
    map to_lower u.scheme =ʳ codes "https"
    || (map to_lower u.scheme =ʳ codes "http" && is_local (map to_lower u.hostname))

unfoldable pub url_allowed : Option Url → Bool
url_allowed none = false
url_allowed (some u) =
    if is_empty u.scheme || is_empty u.host
    then false
    else if not (is_empty u.fragment)
    then false
    else scheme_allowed u

-- `RedirectURIAllowed`
unfoldable pub redirect_uri_allowed :
    (String → Option Url) → String → List String → List String → Bool
redirect_uri_allowed parse_url redirect_uri registered patterns =
    if redirect_uri =ˢ ""
    then false
    else if not (url_allowed (parse_url redirect_uri))
    then false
    else if is_empty registered
    then match_patterns redirect_uri patterns
    else if contains registered redirect_uri
    then match_patterns redirect_uri patterns
    else false

-- `VerifyPKCES256`, with the digest of a verifier as a parameter
unfoldable pub verify_pkce_s256 : (String → String) → String → String → Bool
verify_pkce_s256 challenge_of code_verifier code_challenge =
    if code_verifier =ˢ "" || code_challenge =ˢ ""
    then false
    else challenge_of code_verifier =ˢ code_challenge
