-- ===== src/OAuth/Runs/Writes/Grants.antt =====
-- What the token endpoint writes.
use synamcps_server.Prelude.{
  ℕ, String, not, Option, List, Bool-cases, Option-cases, inl, inr, is_some, ltb, ◌&&◌,
}
use synamcps_server.Prelude.Strings.{◌=ˢ◌}
use synamcps_server.Models.{Principal}
use synamcps_server.Access.Tokens.{revoke_token}
use synamcps_server.OAuth.Redirects.{Url, verify_pkce_s256}
use synamcps_server.OAuth.Store.{
  AuthorizationCode, RefreshToken, consume_code, consume_refresh, save_refresh_token, Taken, taken,
  not_taken,
}
use synamcps_server.OAuth.Server.{Env, Server}
use synamcps_server.OAuth.Server.Grants.{
  FreshTexts, CodeRequest, TokenRequest, authorization_code, refresh_token, other_grant, token,
  token_authorization_code, token_refresh, grant_code, grant_refresh, answer, mint_tokens,
  new_refresh, principal_of_subject, with_revoked,
}
use synamcps_server.OAuth.Server.Grants.Exchange.{mint_tokens-cases, minted}
use synamcps_server.OAuth.Runs.Writes.{
  Writes, unchanged, then_write, code_marked, refresh_made, refresh_marked, tokens_changed, one,
  and_then,
}

module _ (parse_url : String → Option Url) (patterns : List String)
    (NewCode NewHash : String → Type 0) where
  answer_mint-Writes :
      (env : Env) (s : Server) (now : ℕ) (fresh : FreshTexts) (p : Principal)
      (client_id scope : String)
      → NewHash (env.hash_opaque fresh.raw_refresh)
      → Writes parse_url patterns NewCode NewHash s
          (answer (mint_tokens env s now fresh p client_id scope)).0
  unfolding answer save_refresh_token
  answer_mint-Writes env s now fresh p client_id scope new =
      elim (mint_tokens-cases env s now fresh p client_id scope) [
        | inl refused ↦ rw refused unchanged
        | inr (ids, let_in, owned, given) ↦
            let after = minted env s now fresh p client_id ids in
            let t : RefreshToken = record (new_refresh env now fresh p client_id fresh.token_id) {
              created_at = now;
            } in
            rw given (
              then_write (one parse_url patterns NewCode NewHash (tokens_changed s after.tokens))
                (refresh_made (record s { tokens = after.tokens }) t new))
      ]

  pub grant_code-Writes :
      (env : Env) (s : Server) (now : ℕ) (fresh : FreshTexts) (r : CodeRequest)
      (result : Taken AuthorizationCode)
      → NewHash (env.hash_opaque fresh.raw_refresh)
      → Writes parse_url patterns NewCode NewHash s (grant_code env s now fresh r result).0
  unfolding grant_code
  grant_code-Writes env s now fresh r (not_taken e) new = unchanged
  grant_code-Writes env s now fresh r (taken code) new =
      elim (Bool-cases (code.client_id =ˢ r.client_id)) [
        | inr other ↦ rw other unchanged
        | inl client ↦ elim (Bool-cases (code.redirect_uri =ˢ r.redirect_uri)) [
          | inr other ↦ rw (client, other) unchanged
          | inl redirect ↦
              elim (Bool-cases
                (verify_pkce_s256 env.challenge_of r.code_verifier code.code_challenge)) [
                  | inr failed ↦ rw (client, redirect, failed) unchanged
                  | inl proved ↦
                      rw (client, redirect, proved)
                        (answer_mint-Writes env s now fresh code.principal r.client_id code.scope
                          new)
                ]
        ]
      ]

  with_revoked-Writes :
      (env : Env) (s : Server) (now : ℕ) (id : String)
      → Writes parse_url patterns NewCode NewHash s (with_revoked env s now id)
  unfolding with_revoked
  with_revoked-Writes env s now id = elim (Bool-cases env.has_access) [
    | inl access ↦
        rw access
          (one parse_url patterns NewCode NewHash (tokens_changed s (revoke_token s.tokens now id)))
    | inr none_there ↦ rw none_there unchanged
  ]

  pub grant_refresh-Writes :
      (env : Env) (s : Server) (now : ℕ) (fresh : FreshTexts) (client_id : String)
      (result : Taken RefreshToken)
      → NewHash (env.hash_opaque fresh.raw_refresh)
      → Writes parse_url patterns NewCode NewHash s
          (grant_refresh env s now fresh client_id result).0
  unfolding grant_refresh
  grant_refresh-Writes env s now fresh client_id (not_taken e) new = unchanged
  grant_refresh-Writes env s now fresh client_id (taken t) new =
      elim (Bool-cases (not (client_id =ˢ "") && not (t.client_id =ˢ client_id))) [
        | inl other ↦ rw (grant_refresh, other) unchanged
        | inr client ↦
            rw (grant_refresh, client)
              (and_then parse_url patterns NewCode NewHash
                (with_revoked-Writes env s now t.access_token_id)
                (answer_mint-Writes env (with_revoked env s now t.access_token_id) now fresh
                  (principal_of_subject env t.subject_key) t.client_id "" new))
      ]

  consume_code-Writes :
      (s : Server) (now : ℕ) (raw : String)
      → Writes parse_url patterns NewCode NewHash s
          (record s { oauth = (consume_code s.oauth now raw (s.oauth.codes raw)).0 })
  unfolding consume_code
  consume_code-Writes s now raw = elim (Option-cases (s.oauth.codes raw)) [
    | inl absent ↦ rw (absent, consume_code) unchanged
    | inr (code, stored) ↦ elim (Bool-cases (is_some code.used_at)) [
      | inl used ↦ rw (stored, consume_code, used) unchanged
      | inr unused ↦ elim (Bool-cases (ltb code.expires_at now)) [
        | inl late ↦ rw (stored, consume_code, unused, late) unchanged
        | inr in_time ↦
            rw (stored, consume_code, unused, in_time)
              (one parse_url patterns NewCode NewHash (code_marked s now raw code stored))
      ]
    ]
  ]

  consume_refresh-Writes :
      (s : Server) (now : ℕ) (hash : String)
      → Writes parse_url patterns NewCode NewHash s
          (record s { oauth = (consume_refresh s.oauth now hash (s.oauth.refresh hash)).0 })
  unfolding consume_refresh
  consume_refresh-Writes s now hash = elim (Option-cases (s.oauth.refresh hash)) [
    | inl absent ↦ rw (absent, consume_refresh) unchanged
    | inr (t, stored) ↦ elim (Bool-cases (is_some t.revoked_at)) [
      | inl used ↦ rw (stored, consume_refresh, used) unchanged
      | inr unused ↦ elim (Bool-cases (ltb t.expires_at now)) [
        | inl late ↦ rw (stored, consume_refresh, unused, late) unchanged
        | inr in_time ↦
            rw (stored, consume_refresh, unused, in_time)
              (one parse_url patterns NewCode NewHash (refresh_marked s now hash t stored))
      ]
    ]
  ]

  pub token-Writes :
      (env : Env) (s : Server) (now : ℕ) (fresh : FreshTexts) (r : TokenRequest)
      → NewHash (env.hash_opaque fresh.raw_refresh)
      → Writes parse_url patterns NewCode NewHash s (token env s now fresh r).0
  unfolding token token_authorization_code token_refresh
  token-Writes env s now fresh (authorization_code r) new =
      and_then parse_url patterns NewCode NewHash (consume_code-Writes s now r.code) (
        grant_code-Writes env
          (record s { oauth = (consume_code s.oauth now r.code (s.oauth.codes r.code)).0 }) now
          fresh r (consume_code s.oauth now r.code (s.oauth.codes r.code)).1 new)
  token-Writes env s now fresh (refresh_token raw client_id) new =
      let hash = env.hash_opaque raw in
      let result = consume_refresh s.oauth now hash (s.oauth.refresh hash) in
      and_then parse_url patterns NewCode NewHash (consume_refresh-Writes s now hash)
        (grant_refresh-Writes env (record s { oauth = result.0 }) now fresh client_id result.1 new)
  token-Writes env s now fresh (other_grant g) new = unchanged
