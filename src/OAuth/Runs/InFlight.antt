-- ===== src/OAuth/Runs/InFlight.antt =====
-- A session that a handler begins with is bound.
use mathlib.Core.List.{Memᴰ}
use synamcps_server.Prelude.{
  ℕ, String, Option, List, ◌≡◌, refl, sym, subst, Bool-cases, Option-cases, inl, inr, ◌||◌,
}
use synamcps_server.Prelude.Strings.{◌=ˢ◌}
use synamcps_server.Models.{Principal}
use synamcps_server.OAuth.Redirects.{Url}
use synamcps_server.OAuth.Store.{
  LoginSession, OauthStore, get_login_session, live_session, take_login_session,
}
use synamcps_server.OAuth.Server.{provider_by_name, Env, Server, Provider}
use synamcps_server.OAuth.Server.Login.{
  Begun, answered, going, begin_login, begin_oidc, begin_callback, callback_session,
}
use synamcps_server.OAuth.Runs.{with_begun}
use mathlib.Core.List.Memᴰ
use synamcps_server.OAuth.Runs.Sessions.{
  live-some, login_session-from, choose_provider-from, callback_session-from,
}
use synamcps_server.OAuth.Runs.Sound.{IsSound, SessionIsBound}

module _ (parse_url : String → Option Url) (patterns : List String) where
  -- sessions that a handler began with, of a store
  pub begun_bound :
      {A : Type 0} (s : OauthStore) (b : Begun (LoginSession × A)) (in_flight : List LoginSession)
      → ((sess : LoginSession) (a : A)
          → b ≡ going (sess, a)
          → SessionIsBound parse_url patterns s sess)
      → ((sess : LoginSession) → Memᴰ sess in_flight → SessionIsBound parse_url patterns s sess)
      → (sess : LoginSession) → Memᴰ sess (with_begun b in_flight)
      → SessionIsBound parse_url patterns s sess
  begun_bound s (answered r) in_flight new old sess m = old sess m
  begun_bound s (going (x, a)) in_flight new old sess m = elim (Memᴰ.cases_cons m) [
    | inl same ↦ subst (SessionIsBound parse_url patterns s) (sym same) (new x a refl)
    | inr behind ↦ old sess behind
  ]

  pub begin_login-bound :
      (env : Env) (s : Server) (now : ℕ) (id username password : String)
      → IsSound parse_url patterns s.oauth
      → (sess : LoginSession) (p : Principal)
      → begin_login env s now id username password ≡ going (sess, p)
      → SessionIsBound parse_url patterns s.oauth sess
  unfolding begin_login
  begin_login-bound env s now id username password sound sess p e = sound.sessions id sess (
      live-some now (s.oauth.logins id) sess
        (login_session-from env s username password (get_login_session s.oauth now id) sess p e))

  pub begin_oidc-bound :
      (env : Env) (s : Server) (now : ℕ) (id provider : String)
      → IsSound parse_url patterns s.oauth
      → (sess : LoginSession) (p : Provider) → begin_oidc env s now id provider ≡ going (sess, p)
      → SessionIsBound parse_url patterns s.oauth sess
  unfolding begin_oidc
  begin_oidc-bound env s now id provider sound sess p e =
      elim (Option-cases (get_login_session s.oauth now id)) [
        | inl gone ↦ let f = rw (begin_oidc, gone) at e in cc
        | inr (x, live) ↦
            let same =
              choose_provider-from x sess (provider_by_name env provider) p
                (rw (begin_oidc, live) at e) in
            subst (SessionIsBound parse_url patterns s.oauth) same
              (sound.sessions id x (live-some now (s.oauth.logins id) x live))
      ]

  pub begin_callback-bound :
      (env : Env) (s : Server) (now : ℕ) (id code : String)
      → IsSound parse_url patterns s.oauth
      → (sess : LoginSession) (p : Provider)
      → (begin_callback env s now id code).1 ≡ going (sess, p)
      → SessionIsBound parse_url patterns s.oauth sess
  unfolding begin_callback take_login_session
  begin_callback-bound env s now id code sound sess p e =
      elim (Bool-cases (id =ˢ "" || code =ˢ "")) [
        | inl missing ↦ let f = rw (begin_callback, missing) at e in cc
        | inr there ↦
            let f : callback_session env (live_session now (s.oauth.logins id)) ≡ going (sess, p) =
              rw (begin_callback, there) at e in
            sound.sessions id sess (
              live-some now (s.oauth.logins id) sess
                (callback_session-from env (live_session now (s.oauth.logins id)) sess p f))
      ]
