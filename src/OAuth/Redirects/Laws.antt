-- ===== src/OAuth/Redirects/Laws.antt =====
-- What it means that a redirect URI is allowed, of internal/auth/oauthas/pkce.go.
use synamcps_server.Prelude.{
  String, Bool, true, false, not, Option, none, some, List, [], ◌∷◌, map, is_empty, ◌≡◌, ◌≢◌, ◌↔◌,
  ◌⊎◌, inl, inr, refl, ap, &&_true, arith, ◌&&◌, ◌||◌, if◌then◌else◌,
}
use synamcps_server.Prelude.Strings.{codes, ◌=ˢ◌, contains, text_differs, differs_text}
use synamcps_server.Prelude.Runes.{to_lower, ◌=ʳ◌, =ʳ-iff}
use synamcps_server.OAuth.Redirects.Globs.{MatchesOneOf, match_patterns_iff, or_true}
use synamcps_server.OAuth.Redirects.{
  Url, match_patterns, is_local, scheme_allowed, url_allowed, redirect_uri_allowed,
}

-- An absolute URL with a host and no fragment, of `https`, or of `http` on the machine itself.
pub record IsSafeUrl (u : Url) : Type 0 where
  pub scheme : u.scheme ≢ []
  pub host : u.host ≢ []
  pub fragment : u.fragment ≡ []
  pub secure :
      (map to_lower u.scheme ≡ codes "https")
      ⊎ ((map to_lower u.scheme ≡ codes "http") × (is_local (map to_lower u.hostname) ≡ true))

scheme_allowed_iff :
    (u : Url)
    → (scheme_allowed u ≡ true) ↔ (
        (map to_lower u.scheme ≡ codes "https")
        ⊎ ((map to_lower u.scheme ≡ codes "http") × (is_local (map to_lower u.hostname) ≡ true)))
scheme_allowed_iff u =
    let s = map to_lower u.scheme in
    let local = is_local (map to_lower u.hostname) in
    let either = or_true (s =ʳ codes "https") (s =ʳ codes "http" && local) in
    (
      λ h. elim (either.0 h) [
        | inl https ↦ inl ((=ʳ-iff s (codes "https")).0 https)
        | inr http ↦
            let (scheme, here) = &&_true (s =ʳ codes "http") local http in
            inr ((=ʳ-iff s (codes "http")).0 scheme, here)
      ],
      λ m. elim m [
        | inl https ↦ either.1 (inl ((=ʳ-iff s (codes "https")).1 https))
        | inr (http, here) ↦ either.1 (inr (rw ((=ʳ-iff s (codes "http")).1 http, here) refl))
      ],
    )

is_empty-nil {ℓ} : {A : Type ℓ} (l : List A) → is_empty l ≡ true → l ≡ []
is_empty-nil [] h = refl
is_empty-nil (x ∷ xs) h = cc

nonempty {ℓ} : {A : Type ℓ} (l : List A) → is_empty l ≡ false → l ≢ []
nonempty [] h e = cc
nonempty (x ∷ xs) h e = cc

nonempty-is_empty {ℓ} : {A : Type ℓ} (l : List A) → l ≢ [] → is_empty l ≡ false
nonempty-is_empty [] h = absurd (h refl)
nonempty-is_empty (x ∷ xs) h = refl

passed_url :
    (a b c d : Bool)
    → (if a || b then false else if not c then false else d) ≡ true
    → (a ≡ false) × (b ≡ false) × (c ≡ true) × (d ≡ true)
passed_url a b c d h = ground arith

url_allowed_iff : (u : Url) → (url_allowed (some u) ≡ true) ↔ IsSafeUrl u
unfolding url_allowed
url_allowed_iff u = (
  λ h.
      let (scheme, host, fragment, secure) =
        passed_url (is_empty u.scheme) (is_empty u.host) (is_empty u.fragment) (scheme_allowed u)
          h in
      record {
        scheme = nonempty u.scheme scheme;
        host = nonempty u.host host;
        fragment = is_empty-nil u.fragment fragment;
        secure = (scheme_allowed_iff u).0 secure;
      },
  λ safe.
      rw
        (
          nonempty-is_empty u.scheme safe.scheme,
          nonempty-is_empty u.host safe.host,
          ap is_empty safe.fragment,
          (scheme_allowed_iff u).1 safe.secure,
        )
        refl,
)

passed_uri :
    (e u r m c : Bool)
    → (if e then false else if not u then false else if r then m else if c then m else false) ≡ true
    → (e ≡ false) × (u ≡ true) × (m ≡ true) × ((r ≡ true) ⊎ (c ≡ true))
passed_uri e u true m c h = ground arith
passed_uri e u false m c h = ground arith

passed_back :
    (r m c : Bool)
    → m ≡ true
    → (r ≡ true) ⊎ (c ≡ true)
    → (if r then m else if c then m else false) ≡ true
passed_back r m c h either = ground arith

-- Not empty, such a URL, one of the registered URIs if there are any, and one that matches a pattern if
-- there are any.
pub record IsAllowed (parse_url : String → Option Url) (uri : String)
    (registered patterns : List String) : Type 0 where
  pub given : uri ≢ ""
  pub parses : (url : Url) × (parse_url uri ≡ some url) × IsSafeUrl url
  pub listed : (registered ≡ []) ⊎ (contains registered uri ≡ true)
  pub matched : (patterns ≡ []) ⊎ MatchesOneOf patterns uri

parsed_safe : (o : Option Url) → url_allowed o ≡ true → (url : Url) × (o ≡ some url) × IsSafeUrl url
unfolding url_allowed
parsed_safe none h = cc
parsed_safe (some u) h = (u, refl, (url_allowed_iff u).0 h)

-- A redirect URI is allowed exactly when it is a URL of `https`, or of `http` on the machine itself, with a
-- host and no fragment, one of the registered URIs if there are any, and one that matches a pattern if there
-- are any.
pub redirect_uri_allowed_iff :
    (parse_url : String → Option Url) (uri : String) (registered patterns : List String)
    → (redirect_uri_allowed parse_url uri registered patterns ≡ true)
      ↔ IsAllowed parse_url uri registered patterns
unfolding redirect_uri_allowed
redirect_uri_allowed_iff parse_url uri registered patterns = (
  λ h.
      let (given, url, matched, listed) =
        passed_uri (uri =ˢ "") (url_allowed (parse_url uri)) (is_empty registered)
          (match_patterns uri patterns) (contains registered uri) h in
      record {
        given = text_differs uri "" given;
        parses = parsed_safe (parse_url uri) url;
        listed = elim listed [
          | inl none_listed ↦ inl (is_empty-nil registered none_listed)
          | inr e ↦ inr e
        ];
        matched = (match_patterns_iff uri patterns).0 matched;
      },
  λ a.
      let (url, parses, safe) = a.parses in
      let listed : (is_empty registered ≡ true) ⊎ (contains registered uri ≡ true) = elim a.listed [
        | inl e ↦ inl (ap is_empty e)
        | inr e ↦ inr e
      ] in
      rw (differs_text uri "" a.given, parses, (url_allowed_iff url).1 safe)
        (passed_back (is_empty registered) (match_patterns uri patterns) (contains registered uri)
          ((match_patterns_iff uri patterns).1 a.matched) listed),
)
