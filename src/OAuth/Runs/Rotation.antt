-- ===== src/OAuth/Runs/Rotation.antt =====
-- A refresh token is good for one call.
use synamcps_server.Prelude.{
  ℕ, String, true, Option, none, some, List, ◌≡◌, ◌≢◌, refl, sym, ap, ◌∙◌, subst, Bool-cases, inl,
  inr, is_some, ltb, eq_iff,
}
use synamcps_server.Prelude.Strings.{◌=ˢ◌, differs_text}
use synamcps_server.Access.Tokens.Laws.{update_here, update_away}
use synamcps_server.OAuth.Redirects.{Url}
use synamcps_server.OAuth.Store.{
  RefreshToken, OauthStore, Taken, taken, not_taken, spent, consume_refresh,
}
use synamcps_server.OAuth.Server.{Env, Server}
use synamcps_server.OAuth.Server.Grants.{
  FreshTexts, refresh_token, token, grant_refresh, token_refresh, invalid_grant,
}
use synamcps_server.OAuth.Runs.{Site, Steps, here, next, token_step}
use synamcps_server.OAuth.Runs.Spent.{Anything}
use synamcps_server.OAuth.Runs.Writes.{
  Write, Writes, unchanged, then_write, client_made, session_saved, session_taken, code_made,
  code_marked, refresh_made, refresh_marked, tokens_changed,
}
use synamcps_server.OAuth.Runs.Writes.Grants.{grant_refresh-Writes}
use synamcps_server.OAuth.Runs.Bound.{
  IsConsistent, Step-Writes, Step-IsConsistent, Steps-IsConsistent,
}

-- the store has the refresh token, and it was used
abbrev pub RefreshIsSpent : String → OauthStore → Type 0
RefreshIsSpent h s = (t : RefreshToken) × (s.refresh h ≡ some t) × (is_some t.revoked_at ≡ true)

module _ (parse_url : String → Option Url) (patterns : List String) (c : String) where
  Write-RefreshIsSpent :
      {s t : Server}
      → Write parse_url patterns Anything (λ text. text ≢ c) s t
      → RefreshIsSpent c s.oauth
      → RefreshIsSpent c t.oauth
  Write-RefreshIsSpent (client_made s id d absent) was = was
  Write-RefreshIsSpent (session_saved s id sess b) was = was
  Write-RefreshIsSpent (session_taken s id) was = was
  Write-RefreshIsSpent (code_made s code b new) was = was
  Write-RefreshIsSpent (code_marked s now raw code there) was = was
  Write-RefreshIsSpent (refresh_made s t new) (old, at, used) = (
    old,
    update_away s.oauth.refresh t.token_hash c (some t) (differs_text t.token_hash c new) ∙ at,
    used,
  )
  Write-RefreshIsSpent (refresh_marked s now hash t there) (old, at, used) =
      elim (Bool-cases (hash =ˢ c)) [
        | inl same ↦
            let marked : RefreshToken = record t { revoked_at = some now } in
            (
              marked,
              update_here s.oauth.refresh hash c (some marked) ((eq_iff hash c).0 same),
              refl,
            )
        | inr other ↦
            let marked : RefreshToken = record t { revoked_at = some now } in
            (old, update_away s.oauth.refresh hash c (some marked) other ∙ at, used)
      ]
  Write-RefreshIsSpent (tokens_changed s tokens) was = was

  Writes-RefreshIsSpent :
      {s t : Server}
      → Writes parse_url patterns Anything (λ text. text ≢ c) s t
      → RefreshIsSpent c s.oauth
      → RefreshIsSpent c t.oauth
  Writes-RefreshIsSpent unchanged was = was
  Writes-RefreshIsSpent (then_write ws w) was =
      Write-RefreshIsSpent w (Writes-RefreshIsSpent ws was)

  Steps-RefreshIsSpent :
      {v w : Site}
      → Steps parse_url patterns Anything (λ text. text ≢ c) v w
      → IsConsistent parse_url patterns v
      → RefreshIsSpent c v.server.oauth
      → RefreshIsSpent c w.server.oauth
  Steps-RefreshIsSpent here k was = was
  Steps-RefreshIsSpent (next steps step) k was =
      Writes-RefreshIsSpent
        (Step-Writes parse_url patterns Anything (λ text. text ≢ c) step
          (Steps-IsConsistent parse_url patterns Anything (λ text. text ≢ c) steps k))
        (Steps-RefreshIsSpent steps k was)

consume_spent :
    (s : OauthStore) (now : ℕ) (hash : String)
    → RefreshIsSpent hash s
    → consume_refresh s now hash (s.refresh hash) ≡ (s, not_taken spent)
unfolding consume_refresh
consume_spent s now hash (t, at, used) = rw (at, consume_refresh, used) refl

-- what a refresh token that is marked as used gives
spent_refresh :
    (env : Env) (s : Server) (now : ℕ) (fresh : FreshTexts) (raw client_id : String)
    → RefreshIsSpent (env.hash_opaque raw) s.oauth
    → token_refresh env s now fresh raw client_id ≡ (s, invalid_grant "refresh token revoked")
unfolding token_refresh grant_refresh
spent_refresh env s now fresh raw client_id was =
    ap
      (λ (p : OauthStore × Taken RefreshToken).
        grant_refresh env (record s { oauth = p.0 }) now fresh client_id p.1)
      (consume_spent s.oauth now (env.hash_opaque raw) was)

-- consuming a refresh token that is there, unused and in time leaves it marked
consumed_is_spent :
    (s : OauthStore) (now : ℕ) (hash : String) (o : Option RefreshToken) (t : RefreshToken)
    → (consume_refresh s now hash o).1 ≡ taken t
    → RefreshIsSpent hash (consume_refresh s now hash o).0
unfolding consume_refresh
consumed_is_spent s now hash none t h = cc
consumed_is_spent s now hash (some x) t h = elim (Bool-cases (is_some x.revoked_at)) [
  | inl used ↦ let e = rw (consume_refresh, used) at h in cc
  | inr unused ↦ elim (Bool-cases (ltb x.expires_at now)) [
    | inl late ↦ let e = rw (consume_refresh, unused, late) at h in cc
    | inr in_time ↦
        let marked : RefreshToken = record x { revoked_at = some now } in
        rw (consume_refresh, unused, in_time)
          (marked, update_here s.refresh hash hash (some marked) refl, refl)
  ]
]

-- A refresh token that was consumed once is refused ever after and changes nothing, whatever the first call
-- answered and whatever calls follow, as long as no new refresh token has the same digest.
pub refresh_single_use :
    (parse_url : String → Option Url) (patterns : List String) (env env' : Env) (w v : Site)
    (now later : ℕ) (fresh fresh' : FreshTexts) (raw raw' client_id client_id' : String)
    (t : RefreshToken)
    → IsConsistent parse_url patterns w
    → (consume_refresh w.server.oauth now
        (env.hash_opaque raw)
        (w.server.oauth.refresh (env.hash_opaque raw))).1
      ≡ taken t
    → env.hash_opaque fresh.raw_refresh ≢ env.hash_opaque raw
    → Steps parse_url patterns Anything
        (λ text. text ≢ env.hash_opaque raw)
        (record w { server = (token_refresh env w.server now fresh raw client_id).0 })
        v
    → env'.hash_opaque raw' ≡ env.hash_opaque raw
    → token_refresh env' v.server later fresh' raw' client_id'
      ≡ (v.server, invalid_grant "refresh token revoked")
unfolding token_refresh token
refresh_single_use parse_url patterns env env' w v now later fresh fresh' raw raw' client_id
      client_id' t k consumed new steps same =
    let h = env.hash_opaque raw in
    let New : String → Type 0 = λ text. text ≢ h in
    let pair = consume_refresh w.server.oauth now h (w.server.oauth.refresh h) in
    let marked =
      Writes-RefreshIsSpent parse_url patterns h
        (grant_refresh-Writes parse_url patterns Anything New env
          (record w.server { oauth = pair.0 }) now fresh client_id pair.1 new)
        (consumed_is_spent w.server.oauth now h (w.server.oauth.refresh h) t consumed) in
    let start =
      Step-IsConsistent parse_url patterns Anything New
        (token_step env w now fresh (refresh_token raw client_id) new) k in
    let still = Steps-RefreshIsSpent parse_url patterns h steps start marked in
    spent_refresh env' v.server later fresh' raw' client_id'
      (subst (λ text. RefreshIsSpent text v.server.oauth) (sym same) still)
