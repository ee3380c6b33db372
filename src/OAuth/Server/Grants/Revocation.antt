-- ===== src/OAuth/Server/Grants/Revocation.antt =====
-- What becomes of the access token that a refresh token came with.
use synamcps_server.Prelude.{
  ℕ, String, true, none, some, List, ◌≡◌, ◌≢◌, ◌⊎◌, refl, sym, ap, ◌∙◌, subst, Bool-cases,
  Option-cases, inl, inr,
}
use synamcps_server.Prelude.Strings.{differs_text}
use synamcps_server.Access.Tokens.{
  TokenStore, Created, unknown_token, refused, revoked_or_expired, new_token, create_token,
  store_token, change_token, revoke_token, resolve_token,
}
use synamcps_server.Access.Tokens.Laws.{
  IsIndexed, change_some, change_none, none_differs, same_some, update_away,
}
use synamcps_server.Access.Tokens.Runs.{Steps, here, next, create_step, revoked_forever}
use synamcps_server.Models.{Principal, AccessToken}
use synamcps_server.OAuth.Store.{RefreshToken, refresh_used}
use synamcps_server.OAuth.Server.{Env, Server, TokenResponse, oauth_error, issued}
use synamcps_server.OAuth.Server.Grants.{
  FreshTexts, storages_of, answer, principal_of_subject, with_revoked, token_refresh, token_input,
}
use synamcps_server.OAuth.Server.Grants.Flow.{create_token-given}
use synamcps_server.OAuth.Server.Grants.Refresh.{Refreshed, token_refresh-Answered}

with_revoked-tokens :
    (env : Env) (s : Server) (now : ℕ) (id : String)
    → env.has_access ≡ true
    → (with_revoked env s now id).tokens ≡ revoke_token s.tokens now id
unfolding with_revoked
with_revoked-tokens env s now id access = rw (with_revoked, access) refl

-- whoever is let in passed an access service
let_in-access :
    (env : Env) (p : Principal) (ids : List String)
    → storages_of env p ≡ some ids
    → env.has_access ≡ true
unfolding storages_of
let_in-access env p ids h = elim (Bool-cases env.has_access) [
  | inl access ↦ access
  | inr none_there ↦ let e = rw (storages_of, none_there) at h in cc
]

-- a change of a token makes no new one, and leaves the hashes
change_token-absent :
    (s : TokenStore) (k id h : String) (change : AccessToken → AccessToken)
    → s.tokens id ≡ none
    → s.token_by_hash h ≡ none
    → ((change_token s k change).tokens id ≡ none)
      × ((change_token s k change).token_by_hash h ≡ none)
change_token-absent s k id h change no_id no_hash = elim (Option-cases (s.tokens k)) [
  | inl absent ↦ rw (change_none s k change absent) (no_id, no_hash)
  | inr (t, there) ↦ rw (change_some s k change t there) (
    update_away s.tokens k id (some (change t))
          (differs_text k id (λ same. none_differs no_id (sym (ap s.tokens same) ∙ there)))
        ∙ no_id,
    no_hash,
  )
]

-- the calls of the token store that follow one
first_step :
    {hash_token : String → String} {h : String} {s t u : TokenStore}
    → Steps hash_token h s t
    → Steps hash_token h t u
    → Steps hash_token h s u
first_step first here = first
first_step first (next more step) = next (first_step first more) step

-- the tokens after a refresh are those after the old one's revocation and the new one's creation
tokens_after :
    (env : Env) (s : Server) (now : ℕ) (fresh : FreshTexts) (raw client_id : String)
    (t : RefreshToken) (resp : TokenResponse) (after : Server)
    (g : Refreshed env s now fresh raw client_id after resp)
    → g.t ≡ t
    → after.tokens
      ≡ (create_token env.hash_token
          (revoke_token s.tokens now t.access_token_id)
          now
          fresh.token_id
          fresh.raw_token
          (token_input env now (principal_of_subject env g.t.subject_key) g.storage_ids)).0
tokens_after env s now fresh raw client_id t resp after g same =
    let p = principal_of_subject env g.t.subject_key in
    let input = token_input env now p g.storage_ids in
    let used : Server = record s { oauth = refresh_used s.oauth now (env.hash_opaque raw) g.t } in
    let access = let_in-access env p g.storage_ids g.let_in in
    let store = λ (x : TokenStore).
      store_token env.hash_token x now
        (new_token env.hash_token now fresh.token_id fresh.raw_token input) input.storage_scopes in
    ap (λ (x : Server). x.tokens) g.changed
    ∙ ap store (
        with_revoked-tokens env used now g.t.access_token_id access
        ∙ ap (λ (x : RefreshToken). revoke_token s.tokens now x.access_token_id) same)
    ∙ sym (
        ap (λ (x : TokenStore × Created). x.0)
          (create_token-given env.hash_token (revoke_token s.tokens now t.access_token_id) now
            fresh.token_id fresh.raw_token input g.owned))

answers_differ : {e d : String} {resp : TokenResponse} → oauth_error e d ≡ issued resp → ⊥
answers_differ h = cc

-- Once tokens were given for a refresh token, the text of the access token that it came with is never
-- resolved again, whatever calls of the token store follow, where the new token's id and hash are new and no
-- later token has the old one's hash.
pub refresh_revokes :
    (env : Env) (s : Server) (now later : ℕ) (fresh : FreshTexts) (raw client_id old_raw : String)
    (t : RefreshToken) (resp : TokenResponse) (u : TokenStore)
    → IsIndexed s.tokens
    → s.oauth.refresh (env.hash_opaque raw) ≡ some t
    → s.tokens.token_by_hash (env.hash_token old_raw) ≡ some t.access_token_id
    → s.tokens.tokens fresh.token_id ≡ none
    → s.tokens.token_by_hash (env.hash_token fresh.raw_token) ≡ none
    → env.hash_token fresh.raw_token ≢ env.hash_token old_raw
    → (token_refresh env s now fresh raw client_id).1 ≡ issued resp
    → Steps env.hash_token
        (env.hash_token old_raw)
        (token_refresh env s now fresh raw client_id).0.tokens
        u
    → ((resolve_token env.hash_token u later old_raw).1 ≡ unknown_token)
      ⊎ ((resolve_token env.hash_token u later old_raw).1 ≡ refused revoked_or_expired)
refresh_revokes env s now later fresh raw client_id old_raw t resp u w stored leads new_id new_hash
      other given steps =
    elim (token_refresh-Answered env s now fresh raw client_id) [
      | inl (e, d, error, _) ↦ absurd (answers_differ (sym error ∙ given))
      | inr (answer, _, g) ↦
          let same : g.t ≡ t = same_some g.stored stored in
          let tokens =
            tokens_after env s now fresh raw client_id t answer
              (token_refresh env s now fresh raw client_id).0 g same in
          let input =
            token_input env now (principal_of_subject env g.t.subject_key) g.storage_ids in
          let old = revoke_token s.tokens now t.access_token_id in
          let (no_id, no_hash) =
            change_token-absent s.tokens t.access_token_id fresh.token_id
              (env.hash_token fresh.raw_token) (λ a. record a { revoked_at = some now }) new_id
              new_hash in
          let made = create_step old now fresh.token_id fresh.raw_token input no_id no_hash other in
          revoked_forever env.hash_token old_raw s.tokens u t.access_token_id now later w leads (
            first_step (next here made)
              (subst (λ x. Steps env.hash_token (env.hash_token old_raw) x u) tokens steps))
    ]
