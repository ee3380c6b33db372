-- ===== src/Examples/Tokens.antt =====
-- The theorems on access tokens at a concrete store.
use synamcps_server.Prelude.{String, none, some, [], ◌≡◌, ◌⊎◌, refl, if◌then◌else◌}
use synamcps_server.Prelude.Strings.{◌=ˢ◌}
use synamcps_server.Models.{AccessToken, read_write}
use synamcps_server.Access.Tokens.{
  TokenStore, CreateTokenInput, unknown_token, refused, revoked_or_expired, new_token, create_token,
  mark_token_used, revoke_token, resolve_token,
}
use synamcps_server.Access.Tokens.View.{view, run, revoke, meaning, run-view}
use synamcps_server.Access.Tokens.Laws.{IsIndexed, store_token-IsIndexed}
use synamcps_server.Access.Tokens.Runs.{here, next, mark_step, revoked_forever}
use synamcps_server.Examples.{no_limit, storage_scopes}

abbrev pub hash_token : String → String
hash_token raw = if◌then◌else◌ (raw =ˢ "secret") "digest" "another"

abbrev pub no_tokens : TokenStore
no_tokens = record {
  tokens = λ id. none;
  token_by_hash = λ h. none;
  token_scopes = [];
  token_object_scopes = [];
}

abbrev input : CreateTokenInput
input = record {
  owner_subject_key = "user:internal:alice";
  name = "laptop";
  mode = read_write;
  storage_scopes = storage_scopes;
  rate_limit = no_limit;
  expires_at = some 90;
  created_by = "alice";
}

abbrev laptop : AccessToken
laptop = new_token hash_token 10 "t-1" "secret" input

abbrev pub one_token : TokenStore
one_token = (create_token hash_token no_tokens 10 "t-1" "secret" input).0

empty-IsIndexed : IsIndexed no_tokens
empty-IsIndexed = record { found = λ id t e. cc; leads = λ h id e. cc }

pub one_token-IsIndexed : IsIndexed one_token
unfolding create_token
one_token-IsIndexed =
    store_token-IsIndexed hash_token no_tokens 10 laptop storage_scopes refl refl empty-IsIndexed

pub leads_to_it : one_token.token_by_hash (hash_token "secret") ≡ some "t-1"
unfolding create_token
leads_to_it = refl

abbrev revoked_and_used : TokenStore
revoked_and_used = mark_token_used (revoke_token one_token 20 "t-1") 25 "t-1"

revoked_forever_example :
    ((resolve_token hash_token revoked_and_used 30 "secret").1 ≡ unknown_token)
    ⊎ ((resolve_token hash_token revoked_and_used 30 "secret").1 ≡ refused revoked_or_expired)
revoked_forever_example =
    revoked_forever hash_token "secret" one_token revoked_and_used "t-1" 20 30 one_token-IsIndexed
      leads_to_it (next here (mark_step (revoke_token one_token 20 "t-1") 25 "t-1"))

run-view_example :
    view (run hash_token (revoke 20 "t-1") one_token) "digest"
    ≡ meaning hash_token (revoke 20 "t-1") (view one_token) "digest"
run-view_example = run-view hash_token (revoke 20 "t-1") one_token "digest" one_token-IsIndexed tt
