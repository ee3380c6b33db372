-- ===== src/OAuth/Server/Grants/Exchange.antt =====
-- For what the token endpoint gives tokens, and which.
use synamcps_server.Prelude.{
  ℕ, ◌≤◌, String, none, some, List, ◌≡◌, ◌≢◌, ◌⊎◌, refl, ap, Option-cases, inl, inr,
}
use synamcps_server.Models.{Principal}
use synamcps_server.Access.Tokens.{new_token, store_token}
use synamcps_server.Access.Tokens.Create.{create_token-cases}
use synamcps_server.OAuth.Store.{AuthorizationCode, code_used, save_refresh_token}
use synamcps_server.OAuth.Server.{Env, Server, Response, TokenResponse, oauth_error, issued}
use synamcps_server.OAuth.Server.Grants.{
  FreshTexts, CodeRequest, token_input, new_refresh, response_of, mint_created, mint_for,
  storages_of, mint_tokens,
}

-- the server after it gave tokens to a principal for its storages
abbrev pub minted : Env → Server → ℕ → FreshTexts → Principal → String → List String → Server
minted env s now fresh p client_id ids =
    let input = token_input env now p ids in
    record s {
      oauth = save_refresh_token s.oauth now (new_refresh env now fresh p client_id fresh.token_id);
      tokens =
          store_token env.hash_token s.tokens now
            (new_token env.hash_token now fresh.token_id fresh.raw_token input)
            input.storage_scopes;
    }

-- A principal is refused and no token is made, or it is let in, and gets the tokens of its storages.
pub mint_tokens-cases :
    (env : Env) (s : Server) (now : ℕ) (fresh : FreshTexts) (p : Principal)
    (client_id scope : String)
    → (mint_tokens env s now fresh p client_id scope ≡ (s, none))
      ⊎ ((ids : List String) × (storages_of env p ≡ some ids)
          × (env.subject_key p ≢ "")
          × (mint_tokens env s now fresh p client_id scope ≡ (
            minted env s now fresh p client_id ids,
            some (response_of env fresh fresh.raw_token scope),
          )))
unfolding mint_tokens mint_for mint_created
mint_tokens-cases env s now fresh p client_id scope = elim (Option-cases (storages_of env p)) [
  | inl refused ↦ inl (rw (mint_tokens, refused) refl)
  | inr (ids, known) ↦
      let after = mint_created env s now fresh p client_id scope in
      elim (create_token-cases env.hash_token s.tokens now fresh.token_id fresh.raw_token
        (token_input env now p ids)) [
          | inl no_owner ↦ inl (rw (mint_tokens, known) (ap after no_owner))
          | inr (owned, made) ↦ inr (ids, known, owned, rw (mint_tokens, known) (ap after made))
        ]
]

-- Why tokens are given for a code, and what has changed then.
pub record Granted (env : Env) (s : Server) (now : ℕ) (fresh : FreshTexts) (r : CodeRequest)
    (t : Server) (resp : TokenResponse) : Type 0 where
  pub code : AuthorizationCode
  pub stored : s.oauth.codes r.code ≡ some code
  pub unused : code.used_at ≡ none
  pub in_time : now ≤ code.expires_at
  pub client : code.client_id ≡ r.client_id
  pub redirect : code.redirect_uri ≡ r.redirect_uri
  pub verified : (r.code_verifier ≢ "") × (env.challenge_of r.code_verifier ≡ code.code_challenge)
  pub storage_ids : List String
  pub let_in : storages_of env code.principal ≡ some storage_ids
  pub owned : env.subject_key code.principal ≢ ""
  pub after :
      t
      ≡ minted env
          (record s { oauth = code_used s.oauth now r.code code })
          now
          fresh
          code.principal
          r.client_id
          storage_ids
  pub response : resp ≡ response_of env fresh fresh.raw_token code.scope

-- What the endpoint answers to a code.
abbrev pub Exchanged : Env → Server → ℕ → FreshTexts → CodeRequest → Server × Response → Type 0
Exchanged env s now fresh r (t, response) =
    ((e : String) × (d : String) × (response ≡ oauth_error e d) × (t.tokens ≡ s.tokens))
    ⊎ ((resp : TokenResponse) × (response ≡ issued resp) × Granted env s now fresh r t resp)

module _ (env : Env) (s : Server) (now : ℕ) (fresh : FreshTexts) (r : CodeRequest)
    (code : AuthorizationCode) where
  after_use : Server
  after_use = record s { oauth = code_used s.oauth now r.code code }
