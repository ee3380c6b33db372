-- ===== src/OAuth/Server/Grants.antt =====
-- internal/auth/oauthas/server.go: `token`, the exchange of codes and refresh tokens for tokens.
pub mod Exchange
pub mod Flow
pub mod Refresh
pub mod Revocation
use synamcps_server.Prelude.{
  ℕ, ◌+◌, ◌*◌, String, not, Option, none, some, List, [], ◌∷◌, map, ◌&&◌, if◌then◌else◌,
}
use synamcps_server.Prelude.Strings.{◌=ˢ◌}
use synamcps_server.Models.{Principal, AccessTokenStorage, AccessMode, read_write}
use synamcps_server.Access.Tokens.{
  TokenStore, Created, CreateTokenInput, created, not_created, create_token, mode_or, no_rate_limit,
  revoke_token,
}
use synamcps_server.Access.Users.{user_by_subject_key}
use synamcps_server.OAuth.Redirects.{verify_pkce_s256}
use synamcps_server.OAuth.Store.{
  AuthorizationCode, RefreshToken, Taken, taken, not_taken, GrantError, unknown, spent, expired,
  consume_authorization_code, consume_refresh_token, save_refresh_token,
}
use synamcps_server.OAuth.Server.{
  Env, Server, Response, TokenResponse, oauth_error, issued, hour, principal_of_user,
}

-- the random texts of one call
pub record FreshTexts : Type 0 where
  pub token_id : String
  pub raw_token : String
  pub raw_refresh : String

-- the mode of the tokens that the server mints
abbrev pub minted_mode : Env → AccessMode
minted_mode env = mode_or read_write env.config.default_token_mode

abbrev pub storages_or : String → List String → List String
storages_or personal [] = personal ∷ []
storages_or personal (id ∷ ids) = id ∷ ids

abbrev pub scope_of : Env → String → AccessTokenStorage
scope_of env storage_id = record {
  token_id = "";
  storage_id = storage_id;
  max_mode = minted_mode env;
  tool_allowlist = [];
  created_at = 0;
}

abbrev pub token_input : Env → ℕ → Principal → List String → CreateTokenInput
token_input env now principal storage_ids = record {
  owner_subject_key = env.subject_key principal;
  name = "oauth:mcp-client";
  mode = minted_mode env;
  storage_scopes = map (scope_of env) storage_ids;
  rate_limit = no_rate_limit;
  expires_at = some (now + env.config.access_token_ttl_hours * hour);
  created_by = "oauth_as";
}

abbrev pub new_refresh : Env → ℕ → FreshTexts → Principal → String → String → RefreshToken
new_refresh env now fresh principal client_id token_id = record {
  token_hash = env.hash_opaque fresh.raw_refresh;
  client_id = client_id;
  subject_key = env.subject_key principal;
  access_token_id = token_id;
  expires_at = now + env.config.refresh_token_ttl_hours * hour;
  revoked_at = none;
  created_at = 0;
}

abbrev pub response_of : Env → FreshTexts → String → String → TokenResponse
response_of env fresh raw scope = record {
  access_token = raw;
  expires_in = env.config.access_token_ttl_hours * 3600;
  refresh_token = fresh.raw_refresh;
  scope = if scope =ˢ "" then "mcp" else scope;
}

-- `mintTokens`, once `CreateToken` has answered
unfoldable pub mint_created :
    Env
    → Server
    → ℕ
    → FreshTexts
    → Principal
    → String
    → String
    → TokenStore × Created
    → Server × Option TokenResponse
mint_created env s now fresh principal client_id scope (tokens, not_created e) =
    (record s { tokens = tokens }, none)
mint_created env s now fresh principal client_id scope (tokens, created token raw) = (
  record s {
    oauth = save_refresh_token s.oauth now (new_refresh env now fresh principal client_id token.id);
    tokens = tokens;
  },
  some (response_of env fresh raw scope),
)

-- `mintTokens`, once the storages are known
unfoldable pub mint_for :
    Env
    → Server
    → ℕ
    → FreshTexts
    → Principal
    → String
    → String
    → List String
    → Server × Option TokenResponse
unfolding mint_created
mint_for env s now fresh principal client_id scope storage_ids =
    mint_created env s now fresh principal client_id scope (
      create_token env.hash_token s.tokens now fresh.token_id fresh.raw_token
        (token_input env now principal storage_ids))

-- the storages of the tokens of a principal, or an error of the access service
unfoldable pub storages_of : Env → Principal → Option (List String)
storages_of env principal =
    if not env.has_access then none else (elim (env.ensure_principal principal) [
      | none ↦ none
      | some personal ↦ elim (env.readable_storage_ids principal) [
        | none ↦ none
        | some readable ↦ some (storages_or personal readable)
      ]
    ])

unfoldable pub mint_tokens :
    Env → Server → ℕ → FreshTexts → Principal → String → String → Server × Option TokenResponse
unfolding mint_for storages_of
mint_tokens env s now fresh principal client_id scope = elim (storages_of env principal) [
  | none ↦ (s, none)
  | some storage_ids ↦ mint_for env s now fresh principal client_id scope storage_ids
]

-- what the client is told; the texts of the access service's errors are left out
unfoldable pub answer : Server × Option TokenResponse → Server × Response
answer (s, none) = (s, oauth_error "server_error" "")
answer (s, some response) = (s, issued response)

abbrev pub invalid_grant : String → Response
invalid_grant description = oauth_error "invalid_grant" description

abbrev pub code_error : GrantError → String
code_error unknown = "invalid authorization code"
code_error spent = "authorization code already used"
code_error expired = "authorization code expired"

abbrev pub refresh_error : GrantError → String
refresh_error unknown = "invalid refresh token"
refresh_error spent = "refresh token revoked"
refresh_error expired = "refresh token expired"

pub record CodeRequest : Type 0 where
  pub code : String
  pub redirect_uri : String
  pub client_id : String
  pub code_verifier : String

-- `tokenAuthorizationCode`, once the code is consumed
unfoldable pub grant_code :
    Env → Server → ℕ → FreshTexts → CodeRequest → Taken AuthorizationCode → Server × Response
grant_code env s now fresh r (not_taken e) = (s, invalid_grant (code_error e))
grant_code env s now fresh r (taken code) =
    if not (code.client_id =ˢ r.client_id)
    then (s, invalid_grant "client_id mismatch")
    else if not (code.redirect_uri =ˢ r.redirect_uri)
    then (s, invalid_grant "redirect_uri mismatch")
    else if not (verify_pkce_s256 env.challenge_of r.code_verifier code.code_challenge)
    then (s, invalid_grant "pkce verification failed")
    else answer (mint_tokens env s now fresh code.principal r.client_id code.scope)

unfoldable pub token_authorization_code :
    Env → Server → ℕ → FreshTexts → CodeRequest → Server × Response
token_authorization_code env s now fresh r =
    let (store, result) = consume_authorization_code s.oauth now r.code in
    grant_code env (record s { oauth = store }) now fresh r result

-- whom a refresh token is for
abbrev pub principal_of_subject : Env → String → Principal
principal_of_subject env subject_key =
    let unknown_user : Principal = record {
      user_id = subject_key;
      issuer = "";
      groups = [];
      subject_key = subject_key;
      group_subject_keys = [];
      scopes = [];
      auth_source = "oauth";
    } in
    if env.has_access
    then (elim (user_by_subject_key env.users subject_key) [
      | none ↦ unknown_user
      | some user ↦ principal_of_user user
    ])
    else unknown_user

-- the server with the access token of a refresh token revoked
unfoldable pub with_revoked : Env → Server → ℕ → String → Server
with_revoked env s now token_id =
    if env.has_access then record s { tokens = revoke_token s.tokens now token_id } else s

-- `tokenRefresh`, once the refresh token is consumed
unfoldable pub grant_refresh :
    Env → Server → ℕ → FreshTexts → String → Taken RefreshToken → Server × Response
grant_refresh env s now fresh client_id (not_taken e) = (s, invalid_grant (refresh_error e))
grant_refresh env s now fresh client_id (taken t) =
    if not (client_id =ˢ "") && not (t.client_id =ˢ client_id)
    then (s, invalid_grant "client_id mismatch")
    else answer (
        mint_tokens env (with_revoked env s now t.access_token_id) now fresh
          (principal_of_subject env t.subject_key) t.client_id "")

unfoldable pub token_refresh : Env → Server → ℕ → FreshTexts → String → String → Server × Response
token_refresh env s now fresh raw_refresh client_id =
    let (store, result) = consume_refresh_token s.oauth now (env.hash_opaque raw_refresh) in
    grant_refresh env (record s { oauth = store }) now fresh client_id result

pub data TokenRequest : Type 0 where
  authorization_code : CodeRequest → TokenRequest
  refresh_token : String → String → TokenRequest
  other_grant : String → TokenRequest

-- `token`, by the grant that the form asks for
unfoldable pub token : Env → Server → ℕ → FreshTexts → TokenRequest → Server × Response
token env s now fresh (authorization_code r) = token_authorization_code env s now fresh r
token env s now fresh (refresh_token raw client_id) = token_refresh env s now fresh raw client_id
token env s now fresh (other_grant g) =
    (s, oauth_error "unsupported_grant_type" "unsupported grant_type")
