-- ===== src/OAuth/Runs/Spent.antt =====
-- A code is good for one call.
use synamcps_server.Prelude.{
  ℕ, String, true, Option, none, some, List, ◌≡◌, ◌≢◌, refl, sym, ap, ◌∙◌, subst, Bool-cases, inl,
  inr, is_some, ltb, eq_iff,
}
use synamcps_server.Prelude.Strings.{◌=ˢ◌, differs_text}
use synamcps_server.Access.Tokens.Laws.{update_here, update_away}
use synamcps_server.OAuth.Redirects.{Url}
use synamcps_server.OAuth.Store.{
  AuthorizationCode, OauthStore, Taken, taken, not_taken, spent, consume_code,
}
use synamcps_server.OAuth.Server.{Env, Server}
use synamcps_server.OAuth.Server.Grants.{
  FreshTexts, CodeRequest, authorization_code, token, grant_code, token_authorization_code,
  invalid_grant,
}
use synamcps_server.OAuth.Runs.{Site, Steps, here, next, token_step}
use synamcps_server.OAuth.Runs.Writes.{
  Write, Writes, unchanged, then_write, client_made, session_saved, session_taken, code_made,
  code_marked, refresh_made, refresh_marked, tokens_changed,
}
use synamcps_server.OAuth.Runs.Writes.Grants.{grant_code-Writes}
use synamcps_server.OAuth.Runs.Bound.{
  IsConsistent, Step-Writes, Step-IsConsistent, Steps-IsConsistent,
}

-- the store has the code, and it was used
abbrev pub CodeIsSpent : String → OauthStore → Type 0
CodeIsSpent c s =
    (code : AuthorizationCode) × (s.codes c ≡ some code) × (is_some code.used_at ≡ true)

-- where nothing is asked of new texts
abbrev pub Anything : String → Type 0
Anything text = Unit

module _ (parse_url : String → Option Url) (patterns : List String) (c : String) where
  Write-CodeIsSpent :
      {s t : Server}
      → Write parse_url patterns (λ text. text ≢ c) Anything s t
      → CodeIsSpent c s.oauth
      → CodeIsSpent c t.oauth
  Write-CodeIsSpent (client_made s id d absent) was = was
  Write-CodeIsSpent (session_saved s id sess b) was = was
  Write-CodeIsSpent (session_taken s id) was = was
  Write-CodeIsSpent (code_made s code b new) (old, at, used) = (
    old,
    update_away s.oauth.codes code.code c (some code) (differs_text code.code c new) ∙ at,
    used,
  )
  Write-CodeIsSpent (code_marked s now raw code there) (old, at, used) =
      elim (Bool-cases (raw =ˢ c)) [
        | inl same ↦ (
          record code { used_at = some now },
          update_here s.oauth.codes raw c (some (record code { used_at = some now }))
              ((eq_iff raw c).0 same),
          refl,
        )
        | inr other ↦ (
          old,
          update_away s.oauth.codes raw c (some (record code { used_at = some now })) other ∙ at,
          used,
        )
      ]
  Write-CodeIsSpent (refresh_made s t new) was = was
  Write-CodeIsSpent (refresh_marked s now hash t at) was = was
  Write-CodeIsSpent (tokens_changed s tokens) was = was

  Writes-CodeIsSpent :
      {s t : Server}
      → Writes parse_url patterns (λ text. text ≢ c) Anything s t
      → CodeIsSpent c s.oauth
      → CodeIsSpent c t.oauth
  Writes-CodeIsSpent unchanged was = was
  Writes-CodeIsSpent (then_write ws w) was = Write-CodeIsSpent w (Writes-CodeIsSpent ws was)

  Steps-CodeIsSpent :
      {v w : Site}
      → Steps parse_url patterns (λ text. text ≢ c) Anything v w
      → IsConsistent parse_url patterns v
      → CodeIsSpent c v.server.oauth
      → CodeIsSpent c w.server.oauth
  Steps-CodeIsSpent here k was = was
  Steps-CodeIsSpent (next steps step) k was =
      Writes-CodeIsSpent
        (Step-Writes parse_url patterns (λ text. text ≢ c) Anything step
          (Steps-IsConsistent parse_url patterns (λ text. text ≢ c) Anything steps k))
        (Steps-CodeIsSpent steps k was)

consume_spent :
    (s : OauthStore) (now : ℕ) (raw : String)
    → CodeIsSpent raw s
    → consume_code s now raw (s.codes raw) ≡ (s, not_taken spent)
unfolding consume_code
consume_spent s now raw (code, at, used) = rw (at, consume_code, used) refl

-- what a code that is marked as used gives
spent_code :
    (env : Env) (s : Server) (now : ℕ) (fresh : FreshTexts) (r : CodeRequest)
    → CodeIsSpent r.code s.oauth
    → token_authorization_code env s now fresh r
      ≡ (s, invalid_grant "authorization code already used")
unfolding token_authorization_code grant_code
spent_code env s now fresh r was =
    ap
      (λ (p : OauthStore × Taken AuthorizationCode).
        grant_code env (record s { oauth = p.0 }) now fresh r p.1)
      (consume_spent s.oauth now r.code was)

-- consuming a code that is there, unused and in time leaves it marked
consumed_is_spent :
    (s : OauthStore) (now : ℕ) (raw : String) (o : Option AuthorizationCode)
    (code : AuthorizationCode)
    → (consume_code s now raw o).1 ≡ taken code
    → CodeIsSpent raw (consume_code s now raw o).0
unfolding consume_code
consumed_is_spent s now raw none code h = cc
consumed_is_spent s now raw (some x) code h = elim (Bool-cases (is_some x.used_at)) [
  | inl used ↦ let e = rw (consume_code, used) at h in cc
  | inr unused ↦ elim (Bool-cases (ltb x.expires_at now)) [
    | inl late ↦ let e = rw (consume_code, unused, late) at h in cc
    | inr in_time ↦
        let marked : AuthorizationCode = record x { used_at = some now } in
        rw (consume_code, unused, in_time)
          (marked, update_here s.codes raw raw (some marked) refl, refl)
  ]
]

-- A code that was consumed once is refused ever after and changes nothing, whatever the first call answered
-- and whatever calls follow, as long as no new code has the same text.
pub code_single_use :
    (parse_url : String → Option Url) (patterns : List String) (env env' : Env) (w v : Site)
    (now later : ℕ) (fresh fresh' : FreshTexts) (r r' : CodeRequest) (code : AuthorizationCode)
    → IsConsistent parse_url patterns w
    → (consume_code w.server.oauth now r.code (w.server.oauth.codes r.code)).1 ≡ taken code
    → Steps parse_url patterns
        (λ text. text ≢ r.code)
        Anything
        (record w { server = (token_authorization_code env w.server now fresh r).0 })
        v
    → r'.code ≡ r.code
    → token_authorization_code env' v.server later fresh' r'
      ≡ (v.server, invalid_grant "authorization code already used")
unfolding token_authorization_code token
code_single_use parse_url patterns env env' w v now later fresh fresh' r r' code k consumed steps
      same =
    let New : String → Type 0 = λ text. text ≢ r.code in
    let pair = consume_code w.server.oauth now r.code (w.server.oauth.codes r.code) in
    let marked =
      Writes-CodeIsSpent parse_url patterns r.code
        (grant_code-Writes parse_url patterns New Anything env (record w.server { oauth = pair.0 })
          now fresh r pair.1 tt)
        (consumed_is_spent w.server.oauth now r.code (w.server.oauth.codes r.code) code consumed) in
    let start =
      Step-IsConsistent parse_url patterns New Anything
        (token_step env w now fresh (authorization_code r) tt) k in
    let still = Steps-CodeIsSpent parse_url patterns r.code steps start marked in
    spent_code env' v.server later fresh' r'
      (subst (λ text. CodeIsSpent text v.server.oauth) (sym same) still)
