-- ===== src/OAuth/Runs/Sessions.antt =====
-- A session that a handler goes on with is one that the store had.
use synamcps_server.Prelude.{ℕ, String, Option, none, some, ◌≡◌, ap, Option-cases, inl, inr, arith}
use synamcps_server.Models.{Principal}
use synamcps_server.OAuth.Store.{Client, LoginSession, live_session}
use synamcps_server.Prelude.Runes.{trim_text}
use synamcps_server.OAuth.Server.{authenticate_internal, provider_by_name, Env, Server, Provider}
use synamcps_server.OAuth.Server.Login.{
  going, login_client, login_session, choose_provider, callback_session,
}

pub live-some :
    (now : ℕ) (o : Option LoginSession) (sess : LoginSession)
    → live_session now o ≡ some sess
    → o ≡ some sess
live-some now none sess h = cc
live-some now (some x) sess h = ground arith

pub login_client-from :
    (env : Env) (x : LoginSession) (username password : String) (c : Option Client)
    (sess : LoginSession) (p : Principal)
    → login_client env x username password c ≡ going (sess, p)
    → x ≡ sess
unfolding login_client
login_client-from env x username password none sess p h = cc
login_client-from env x username password (some c) sess p h =
    elim (Option-cases (authenticate_internal env (trim_text username) password)) [
      | inl nobody ↦ let e = rw (login_client, nobody) at h in cc
      | inr (q, known) ↦ let e = rw (login_client, known) at h in cc
    ]

-- a session that a handler goes on with is one that the store had
pub login_session-from :
    (env : Env) (s : Server) (username password : String) (o : Option LoginSession)
    (sess : LoginSession) (p : Principal)
    → login_session env s username password o ≡ going (sess, p)
    → o ≡ some sess
unfolding login_session
login_session-from env s username password none sess p h = cc
login_session-from env s username password (some x) sess p h =
    ap some (login_client-from env x username password (s.oauth.clients x.client_id) sess p h)

pub choose_provider-from :
    (x sess : LoginSession) (o : Option Provider) (p : Provider)
    → choose_provider x o ≡ going (sess, p)
    → x ≡ sess
unfolding choose_provider
choose_provider-from x sess none p h = cc
choose_provider-from x sess (some q) p h = ground arith

pub callback_session-from :
    (env : Env) (o : Option LoginSession) (sess : LoginSession) (p : Provider)
    → callback_session env o ≡ going (sess, p)
    → o ≡ some sess
unfolding callback_session
callback_session-from env none sess p h = cc
callback_session-from env (some x) sess p h =
    elim (Option-cases (provider_by_name env x.provider_name)) [
      | inl unknown ↦ let e = rw (callback_session, unknown) at h in cc
      | inr (q, known) ↦ let e = rw (callback_session, known) at h in cc
    ]
