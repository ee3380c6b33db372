-- ===== src/Access/Tokens.antt =====
-- The access tokens of internal/access/store.go, with no database. A raw token is a random text that
-- is an argument, and so is the digest of a text, `HashToken`.
pub mod Create
pub mod Laws
pub mod Runs
pub mod Resolve
pub mod View
use mathlib.Core.List as List
use synamcps_server.Prelude.{
  ℕ, ◌+◌, ◌-◌, ◌*◌, ltb, ◌==◌, String, Bool, true, false, not, Option, none, some, List, [], ◌∷◌,
  map, ◌||◌, ◌&&◌, if◌then◌else◌, keep, is_some,
}
use synamcps_server.Prelude.Ints.{pos}
use synamcps_server.Prelude.Strings.{◌=ˢ◌}
use synamcps_server.Prelude.Maps.{update}
use synamcps_server.Models.{
  AccessToken, AccessTokenStorage, AccessTokenObject, AccessMode, read, read_write, no_access,
  RateLimitPolicy,
}

pub record TokenStore : Type 0 where
  pub tokens : String → Option AccessToken
  pub token_by_hash : String → Option String
  pub token_scopes : List AccessTokenStorage
  pub token_object_scopes : List AccessTokenObject

pub record CreateTokenInput : Type 0 where
  pub owner_subject_key : String
  pub name : String
  pub mode : AccessMode
  pub storage_scopes : List AccessTokenStorage
  pub rate_limit : RateLimitPolicy
  pub expires_at : Option ℕ
  pub created_by : String

-- the zero value of a policy
abbrev pub no_rate_limit : RateLimitPolicy
no_rate_limit = record {
  enabled = false;
  requests_per_minute = pos 0;
  requests_per_hour = pos 0;
  requests_per_day = pos 0;
  burst = pos 0;
}

pub data TokenError : Type 0 where
  owner_required revoked_or_expired : TokenError

pub data Created : Type 0 where
  created : AccessToken → String → Created
  not_created : TokenError → Created

-- What `ResolveToken` returns: the token and its scopes, that there is none, or an error.
pub data Resolved : Type 0 where
  resolved : AccessToken → List AccessTokenStorage → Resolved
  unknown_token : Resolved
  refused : TokenError → Resolved

-- a mode, or the default where it is the empty text
abbrev pub mode_or : AccessMode → AccessMode → AccessMode
mode_or d read = read
mode_or d read_write = read_write
mode_or d no_access = no_access
mode_or d (AccessMode.other m) = if m =ˢ "" then d else AccessMode.other m

-- a scope as it is stored for a token
abbrev pub stored_scope : String → ℕ → AccessTokenStorage → AccessTokenStorage
stored_scope token_id now scope = record scope {
  token_id = token_id;
  created_at = if scope.created_at == 0 then now else scope.created_at;
}

abbrev pub created_scope : AccessToken → ℕ → AccessTokenStorage → AccessTokenStorage
created_scope token now scope = record (stored_scope token.id now scope) {
  max_mode = mode_or token.mode scope.max_mode;
}

abbrev pub scope_on_object : AccessTokenStorage → AccessTokenObject
scope_on_object scope = record {
  token_id = scope.token_id;
  object_id = scope.storage_id;
  max_mode = scope.max_mode;
  method_allowlist = scope.tool_allowlist;
  created_at = scope.created_at;
}

module _ (hash_token : String → String) where
  abbrev pub new_token : ℕ → String → String → CreateTokenInput → AccessToken
  new_token now id raw i = record {
    id = id;
    owner_subject_key = i.owner_subject_key;
    token_hash = hash_token raw;
    name = if i.name =ˢ "" then "MCP token" else i.name;
    mode = mode_or read i.mode;
    allowed_permissions = [];
    rate_limit = i.rate_limit;
    expires_at = i.expires_at;
    revoked_at = none;
    last_used_at = none;
    created_by = i.created_by;
    created_at = now;
  }

  unfoldable pub store_token : TokenStore → ℕ → AccessToken → List AccessTokenStorage → TokenStore
  store_token s now token scopes =
      let stored = map (created_scope token now) scopes in
      record {
        tokens = update s.tokens token.id (some token);
        token_by_hash = update s.token_by_hash token.token_hash (some token.id);
        token_scopes = List.◌++◌ s.token_scopes stored;
        token_object_scopes = List.◌++◌ s.token_object_scopes (map scope_on_object stored);
      }

  -- `CreateToken`
  unfoldable pub create_token :
      TokenStore → ℕ → String → String → CreateTokenInput → TokenStore × Created
  unfolding store_token
  create_token s now id raw i =
      if i.owner_subject_key =ˢ "" then (s, not_created owner_required) else (
        store_token s now (new_token now id raw i) i.storage_scopes,
        created (new_token now id raw i) raw,
      )

-- `TokenStorages`
abbrev pub token_storages : TokenStore → String → List AccessTokenStorage
token_storages s token_id = keep (λ scope. scope.token_id =ˢ token_id) s.token_scopes

-- what changes one token, if the store has it
unfoldable pub change_token : TokenStore → String → (AccessToken → AccessToken) → TokenStore
change_token s token_id change = elim (s.tokens token_id) [
  | none ↦ s
  | some t ↦ record s { tokens = update s.tokens token_id (some (change t)) }
]

-- `MarkTokenUsed`, `RevokeToken`, `UpdateTokenRateLimit`
abbrev pub mark_token_used : TokenStore → ℕ → String → TokenStore
mark_token_used s now token_id = change_token s token_id (λ t. record t { last_used_at = some now })

abbrev pub revoke_token : TokenStore → ℕ → String → TokenStore
revoke_token s now token_id = change_token s token_id (λ t. record t { revoked_at = some now })

abbrev pub update_token_rate_limit : TokenStore → String → RateLimitPolicy → TokenStore
update_token_rate_limit s token_id policy =
    change_token s token_id (λ t. record t { rate_limit = policy })

-- `DeleteToken`
unfoldable pub delete_token : TokenStore → String → TokenStore
delete_token s token_id = record s {
  tokens = update s.tokens token_id none;
  token_by_hash = elim (s.tokens token_id) [
    | none ↦ s.token_by_hash
    | some t ↦ update s.token_by_hash t.token_hash none
  ];
  token_scopes = keep (λ scope. not (scope.token_id =ˢ token_id)) s.token_scopes;
}

-- `ReplaceTokenStorages`
unfoldable pub replace_token_storages :
    TokenStore → ℕ → String → List AccessTokenStorage → TokenStore
replace_token_storages s now token_id scopes = record s {
  token_scopes =
      List.◌++◌ (keep (λ scope. not (scope.token_id =ˢ token_id)) s.token_scopes)
        (map (stored_scope token_id now) scopes);
}

-- a minute in nanoseconds
abbrev pub minute : ℕ
minute = 60 * 1_000_000_000

abbrev pub is_over : ℕ → AccessToken → Bool
is_over now token =
    is_some token.revoked_at || (elim token.expires_at [ none ↦ false | some t ↦ ltb t now ])

abbrev pub was_used_recently : ℕ → AccessToken → Bool
was_used_recently now token = elim token.last_used_at [
  | none ↦ false
  | some t ↦ not (ltb minute (now - t))
]

unfoldable pub token_of : TokenStore → Option String → Option AccessToken
token_of s none = none
token_of s (some id) = s.tokens id

unfoldable pub resolve_found : TokenStore → ℕ → Option AccessToken → TokenStore × Resolved
resolve_found s now none = (s, unknown_token)
resolve_found s now (some token) = if is_over now token then (s, refused revoked_or_expired) else (
  if was_used_recently now token then s else mark_token_used s now token.id,
  resolved token (token_storages s token.id),
)

-- `ResolveToken`
unfoldable pub resolve_token : (String → String) → TokenStore → ℕ → String → TokenStore × Resolved
unfolding resolve_found token_of
resolve_token hash_token s now raw =
    resolve_found s now (token_of s (s.token_by_hash (hash_token raw)))
