-- ===== src/OAuth/Server/Grants/Flow.antt =====
-- From a login to tokens, and from tokens to a caller.
use synamcps_server.Prelude.{ℕ, String, ◌≡◌, ◌≢◌, refl}
use synamcps_server.Prelude.Strings.{differs_text}
use synamcps_server.Access.Tokens.{
  TokenStore, CreateTokenInput, store_token, new_token, create_token, created,
}
use synamcps_server.OAuth.Store.{LoginSession}
use synamcps_server.OAuth.Server.{Server}
use synamcps_server.OAuth.Server.Grants.{CodeRequest}

pub create_token-given :
    (hash_token : String → String) (s : TokenStore) (now : ℕ) (id raw : String)
    (i : CreateTokenInput)
    → i.owner_subject_key ≢ ""
    → create_token hash_token s now id raw i ≡ (
      store_token hash_token s now (new_token hash_token now id raw i) i.storage_scopes,
      created (new_token hash_token now id raw i) raw,
    )
unfolding create_token
create_token-given hash_token s now id raw i owned =
    rw (create_token, differs_text i.owner_subject_key "" owned) refl

-- what the client of a session sends for its code
abbrev pub request_for : String → String → LoginSession → CodeRequest
request_for raw verifier sess = record {
  code = raw;
  redirect_uri = sess.redirect_uri;
  client_id = sess.client_id;
  code_verifier = verifier;
}
