-- ===== src/OAuth/Server/Grants/Refresh.antt =====
-- For what a refresh token gives tokens, and what becomes of the access token that it came with.
use synamcps_server.Prelude.{
  ℕ, ◌≤◌, String, Bool, true, false, not, none, some, List, ◌≡◌, ◌≢◌, ◌⊎◌, refl, Bool-cases,
  Option-cases, inl, inr, ltb, arith, eq_iff, ◌&&◌,
}
use synamcps_server.Prelude.Strings.{◌=ˢ◌}
use synamcps_server.Access.Tokens.{revoke_token}
use synamcps_server.OAuth.Store.{RefreshToken, taken, consume_refresh, refresh_used}
use synamcps_server.OAuth.Server.{Env, Server, Response, TokenResponse, oauth_error, issued}
use synamcps_server.OAuth.Server.Grants.{
  FreshTexts, response_of, storages_of, answer, principal_of_subject, with_revoked, grant_refresh,
  token_refresh,
}
use synamcps_server.OAuth.Server.Grants.Exchange.{minted, mint_tokens-cases}

-- Why tokens are given for a refresh token, and what has changed then.
pub record Refreshed (env : Env) (s : Server) (now : ℕ) (fresh : FreshTexts)
    (raw client_id : String) (after : Server) (resp : TokenResponse) : Type 0 where
  pub t : RefreshToken
  pub stored : s.oauth.refresh (env.hash_opaque raw) ≡ some t
  pub unused : t.revoked_at ≡ none
  pub in_time : now ≤ t.expires_at
  pub client : (client_id ≡ "") ⊎ (t.client_id ≡ client_id)
  pub storage_ids : List String
  pub let_in : storages_of env (principal_of_subject env t.subject_key) ≡ some storage_ids
  pub owned : env.subject_key (principal_of_subject env t.subject_key) ≢ ""
  pub changed :
      after
      ≡ minted env
          (with_revoked env
            (record s { oauth = refresh_used s.oauth now (env.hash_opaque raw) t })
            now
            t.access_token_id)
          now
          fresh
          (principal_of_subject env t.subject_key)
          t.client_id
          storage_ids
  pub response : resp ≡ response_of env fresh fresh.raw_token ""

-- No token was made: the tokens are as they were, or one is revoked.
abbrev pub Unminted : Server → ℕ → Server → Type 0
Unminted s now after =
    (after.tokens ≡ s.tokens) ⊎ ((id : String) × (after.tokens ≡ revoke_token s.tokens now id))

abbrev pub Answered : Env → Server → ℕ → FreshTexts → String → String → Server × Response → Type 0
Answered env s now fresh raw client_id (after, response) =
    ((e : String) × (d : String) × (response ≡ oauth_error e d) × Unminted s now after)
    ⊎ ((resp : TokenResponse) × (response ≡ issued resp)
        × Refreshed env s now fresh raw client_id after resp)

with_revoked-Unminted :
    (env : Env) (s : Server) (now : ℕ) (id : String) → Unminted s now (with_revoked env s now id)
unfolding with_revoked
with_revoked-Unminted env s now id = elim (Bool-cases env.has_access) [
  | inl access ↦ inr (id, rw (with_revoked, access) refl)
  | inr none_there ↦ inl (rw (with_revoked, none_there) refl)
]

same_client : (a b : Bool) → (not a && not b) ≡ false → (a ≡ true) ⊎ (b ≡ true)
same_client true b h = inl refl
same_client false b h = inr (ground arith)

module _ (env : Env) (s : Server) (now : ℕ) (fresh : FreshTexts) (raw client_id : String)
    (t : RefreshToken) where
  after_use : Server
  after_use = record s { oauth = refresh_used s.oauth now (env.hash_opaque raw) t }

  consumed-Answered :
      s.oauth.refresh (env.hash_opaque raw) ≡ some t
      → t.revoked_at ≡ none
      → now ≤ t.expires_at
      → Answered env s now fresh raw client_id (
          grant_refresh env after_use now fresh client_id
            (taken (record t { revoked_at = some now })))
  unfolding grant_refresh answer after_use
  consumed-Answered stored unused in_time =
      elim (Bool-cases (not (client_id =ˢ "") && not (t.client_id =ˢ client_id))) [
        | inl other ↦
            rw (grant_refresh, other) (inl ("invalid_grant", "client_id mismatch", refl, inl refl))
        | inr client ↦
            let before = with_revoked env after_use now t.access_token_id in
            let p = principal_of_subject env t.subject_key in
            elim (mint_tokens-cases env before now fresh p t.client_id "") [
              | inl nothing ↦
                  rw (grant_refresh, client, nothing)
                    (inl (
                      "server_error",
                      "",
                      refl,
                      with_revoked-Unminted env after_use now t.access_token_id,
                    ))
              | inr (ids, let_in, owned, given) ↦
                  rw (grant_refresh, client, given)
                    (inr (
                      response_of env fresh fresh.raw_token "",
                      refl,
                      record {
                        t = t;
                        stored = stored;
                        unused = unused;
                        in_time = in_time;
                        client =
                            elim (same_client (client_id =ˢ "") (t.client_id =ˢ client_id) client) [
                              | inl e ↦ inl ((eq_iff client_id "").0 e)
                              | inr e ↦ inr ((eq_iff t.client_id client_id).0 e)
                            ];
                        storage_ids = ids;
                        let_in = let_in;
                        owned = owned;
                        changed = refl;
                        response = refl;
                      },
                    ))
            ]
      ]

pub token_refresh-Answered :
    (env : Env) (s : Server) (now : ℕ) (fresh : FreshTexts) (raw client_id : String)
    → Answered env s now fresh raw client_id (token_refresh env s now fresh raw client_id)
unfolding token_refresh consume_refresh grant_refresh after_use
token_refresh-Answered env s now fresh raw client_id =
    elim (Option-cases (s.oauth.refresh (env.hash_opaque raw))) [
      | inl absent ↦
          rw (absent, consume_refresh)
            (inl ("invalid_grant", "invalid refresh token", refl, inl refl))
      | inr (t, stored) ↦ elim (Option-cases t.revoked_at) [
        | inr (used, at) ↦
            rw (stored, at) (inl ("invalid_grant", "refresh token revoked", refl, inl refl))
        | inl unused ↦ elim (Bool-cases (ltb t.expires_at now)) [
          | inl late ↦
              rw (stored, unused, late)
                (inl ("invalid_grant", "refresh token expired", refl, inl refl))
          | inr in_time ↦
              rw (stored, unused, in_time)
                (consumed-Answered env s now fresh raw client_id t stored unused (ground arith))
        ]
      ]
    ]
