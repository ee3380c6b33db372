-- ===== src/OAuth/Server.antt =====
-- internal/auth/oauthas/server.go: what a call of the server is given, and what it answers. A handler
-- that calls the network in between is cut there, and one that reads the store and later writes it is
-- cut between the two.
pub mod Login
pub mod Grants
use Prim.Native.String.{◌++◌}
use synamcps_server.Prelude.{
  ℕ, ◌*◌, String, Bool, true, false, not, Option, none, some, List, [], ◌∷◌, ◌&&◌, ◌||◌, find?,
  is_some, is_empty, if◌then◌else◌, drop, ◌==◌,
}
use mathlib.Core.List as List
use synamcps_server.Prelude.Strings.{Runes, codes, ◌=ˢ◌}
use synamcps_server.Prelude.Runes.{has_prefix, cut_at, trim_right, ◌=ʳ◌}
use synamcps_server.Models.{Principal, User, AccessMode}
use synamcps_server.Access.Tokens.{TokenStore}
use synamcps_server.Access.Users.{authenticate_user}
use synamcps_server.OAuth.Redirects.{Url, redirect_uri_allowed}
use synamcps_server.OAuth.Store.{Client, OauthStore, create_client}

pub record Config : Type 0 where
  pub allowed_redirect_uri_patterns : List String
  pub authorization_code_ttl_seconds : ℕ
  pub access_token_ttl_hours : ℕ
  pub refresh_token_ttl_hours : ℕ
  pub default_token_mode : AccessMode

pub record AdminConfig : Type 0 where
  pub enabled : Bool
  pub username : String
  pub password_env_ref : String

pub record Provider : Type 0 where
  pub name : String
  pub client_id : String
  pub issuer : String

-- What the server is made with, what the parts behind it answer, and what the libraries compute:
-- the digests, `url.Parse`, `strings.EqualFold`, the environment and bcrypt.
pub record Env : Type 0 where
  pub config : Config
  pub admin : AdminConfig
  pub providers : List Provider
  pub has_access : Bool
  pub users : List User
  pub ensure_principal : Principal → Option String
  pub readable_storage_ids : Principal → Option (List String)
  pub exchange_oidc_code : Provider → String → Option String
  pub principal_of_token : String → Option Principal
  pub subject_key : Principal → String
  pub parse_url : String → Option Url
  pub equal_fold : String → String → Bool
  pub challenge_of : String → String
  pub hash_opaque : String → String
  pub hash_token : String → String
  pub getenv : Runes → Runes
  pub compares : String → String → Bool

pub record Server : Type 0 where
  pub oauth : OauthStore
  pub tokens : TokenStore

pub record TokenResponse : Type 0 where
  pub access_token : String
  pub expires_in : ℕ
  pub refresh_token : String
  pub scope : String

pub data Response : Type 0 where
  http_error : String → Response
  oauth_error : String → String → Response
  registered : Client → Response
  login_page : String → Client → String → Response
  to_provider : Runes → String → String → Response
  to_client : String → String → String → Response
  issued : TokenResponse → Response

-- seconds and hours in nanoseconds
abbrev pub second : ℕ
second = 1_000_000_000

abbrev pub hour : ℕ
hour = 3600 * second

-- the first URI that may not be registered
abbrev pub refused_uri : Env → List String → Option String
refused_uri env uris =
    find?
      (λ uri.
        not (redirect_uri_allowed env.parse_url uri [] env.config.allowed_redirect_uri_patterns))
      uris

abbrev pub new_client : List String → String → String → Client
new_client redirect_uris client_name method = record {
  client_id = "";
  client_name = client_name;
  redirect_uris = redirect_uris;
  token_endpoint_auth_method = if method =ˢ "" then "none" else method;
  created_at = 0;
}

-- `register`, of a body that decodes
unfoldable pub register :
    Env → Server → ℕ → String → List String → String → String → Server × Response
register env s now uuid redirect_uris client_name method =
    if is_empty redirect_uris
    then (s, oauth_error "invalid_redirect_uri" "redirect_uris required")
    else (elim (refused_uri env redirect_uris) [
      | some uri ↦ (s, oauth_error "invalid_redirect_uri" ("redirect_uri not allowed: " ++ uri))
      | none ↦
          let (store, client) =
            create_client s.oauth now uuid (new_client redirect_uris client_name method) in
          (record s { oauth = store }, registered client)
    ])

-- `configResolveSecret`
unfoldable pub resolve_secret : (Runes → Runes) → Runes → Runes
resolve_secret getenv value =
    if has_prefix value (codes "env:")
    then getenv (drop 4 value)
    else if has_prefix value (codes "$")
    then getenv (drop 1 value)
    else if has_prefix value (codes "literal:")
    then drop 8 value
    else value

abbrev pub admin_principal : Principal
admin_principal = record {
  user_id = "default-admin";
  issuer = "";
  groups = [];
  subject_key = "user:internal:default-admin";
  group_subject_keys = [];
  scopes = "platform_admin" ∷ "admin" ∷ [];
  auth_source = "internal";
}

-- the principal of a user of the access store
abbrev pub principal_of_user : User → Principal
principal_of_user user = record {
  user_id = user.external_subject;
  issuer = "";
  groups = [];
  subject_key = user.subject_key;
  group_subject_keys = [];
  scopes =
      if user.subject_key =ˢ "user:internal:default-admin"
      then "platform_admin" ∷ "admin" ∷ []
      else [];
  auth_source = user.source;
}

unfoldable pub is_admin : Env → String → String → Bool
unfolding resolve_secret
is_admin env username password =
    let expected = resolve_secret env.getenv (codes env.admin.password_env_ref) in
    env.admin.enabled
    && not (is_empty expected)
    && username =ˢ env.admin.username
    && codes password =ʳ expected

-- `authenticateInternal`
unfoldable pub authenticate_internal : Env → String → String → Option Principal
authenticate_internal env username password =
    if is_admin env username password
    then some admin_principal
    else if not env.has_access
    then none
    else (elim (authenticate_user env.compares env.users username password) [
      | none ↦ none
      | some user ↦ some (principal_of_user user)
    ])

-- `providerByName`
abbrev pub provider_by_name : Env → String → Option Provider
provider_by_name env name = find? (λ p. env.equal_fold p.name name) env.providers

-- `strings.Contains`
abbrev pub contains_text : Runes → Runes → Bool
contains_text s part = is_some (cut_at part s)

-- `oidcEndpoints`, the first of the two
unfoldable pub authorization_endpoint : Env → Provider → Runes
authorization_endpoint env provider =
    let issuer = trim_right (λ c. c == b'/') (codes provider.issuer) in
    if env.equal_fold provider.name "keycloak" || contains_text issuer (codes "/realms/")
    then List.◌++◌ issuer (codes "/protocol/openid-connect/auth")
    else if contains_text issuer (codes "accounts.google.com")
    then codes "https://accounts.google.com/o/oauth2/v2/auth"
    else List.◌++◌ issuer (codes "/oauth2/authorize")
