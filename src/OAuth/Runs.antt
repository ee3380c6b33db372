-- ===== src/OAuth/Runs.antt =====
-- Calls of the authorization server in any order, cut where their handlers are: the sessions that a
-- handler has read, and goes on with later, are part of the state.
pub mod Writes
pub mod Sessions
pub mod Sound
pub mod InFlight
pub mod Bound
pub mod Spent
pub mod Rotation
use mathlib.Core.List.{Memᴰ}
use synamcps_server.Prelude.{ℕ, String, Option, none, some, List, [], ◌∷◌, ◌≡◌}
use synamcps_server.Models.{Principal}
use synamcps_server.OAuth.Redirects.{Url}
use synamcps_server.OAuth.Store.{LoginSession}
use synamcps_server.OAuth.Server.{Env, Server, Provider, register}
use synamcps_server.OAuth.Server.Login.{
  AuthorizeRequest, Begun, answered, going, authorize, begin_login, finish_login, begin_oidc,
  finish_oidc, begin_callback, finish_callback,
}
use synamcps_server.OAuth.Server.Grants.{FreshTexts, TokenRequest, token}

pub record Site : Type 0 where
  pub server : Server
  pub in_flight : List LoginSession

-- the sessions in flight after a handler began
abbrev pub with_begun :
    {A : Type 0} → Begun (LoginSession × A) → List LoginSession → List LoginSession
with_begun (answered response) in_flight = in_flight
with_begun (going (sess, a)) in_flight = sess ∷ in_flight

-- The environment may change from call to call, but for `url.Parse` and the patterns of redirect URIs. A
-- client's id is new when it is made; what is known of the texts of new codes and of the digests of new
-- refresh tokens is a parameter.
module _ (parse_url : String → Option Url) (patterns : List String)
    (NewCode NewHash : String → Type 0) where
  pub data Step : Site → Site → Type 0 where
    register_step :
        (env : Env) (w : Site) (now : ℕ) (uuid : String) (uris : List String) (name method : String)
        → w.server.oauth.clients uuid ≡ none
        → Step w (record w { server = (register env w.server now uuid uris name method).0 })
    authorize_step :
        (env : Env) (w : Site) (now : ℕ) (uuid : String) (r : AuthorizeRequest)
        → env.parse_url ≡ parse_url
        → env.config.allowed_redirect_uri_patterns ≡ patterns
        → Step w (record w { server = (authorize env w.server now uuid r).0 })
    begin_login_step :
        (env : Env) (w : Site) (now : ℕ) (id username password : String)
        → Step w (record w {
          in_flight = with_begun (begin_login env w.server now id username password) w.in_flight;
        })
    finish_login_step :
        (env : Env) (w : Site) (now : ℕ) (code id : String) (sess : LoginSession) (p : Principal)
        → Memᴰ sess w.in_flight
        → NewCode code
        → Step w (record w { server = (finish_login env w.server now code id sess p).0 })
    begin_oidc_step :
        (env : Env) (w : Site) (now : ℕ) (id provider : String)
        → Step w (record w {
          in_flight = with_begun (begin_oidc env w.server now id provider) w.in_flight;
        })
    finish_oidc_step :
        (env : Env) (w : Site) (now : ℕ) (uuid : String) (sess : LoginSession) (provider : Provider)
        → Memᴰ sess w.in_flight
        → Step w (record w { server = (finish_oidc env w.server now uuid sess provider).0 })
    begin_callback_step :
        (env : Env) (w : Site) (now : ℕ) (id code : String)
        → Step w (record {
          server = (begin_callback env w.server now id code).0;
          in_flight = with_begun (begin_callback env w.server now id code).1 w.in_flight;
        })
    finish_callback_step :
        (env : Env) (w : Site) (now : ℕ) (fresh code : String) (sess : LoginSession)
        (provider : Provider)
        → Memᴰ sess w.in_flight
        → NewCode fresh
        → Step w
            (record w { server = (finish_callback env w.server now fresh code sess provider).0 })
    token_step :
        (env : Env) (w : Site) (now : ℕ) (fresh : FreshTexts) (r : TokenRequest)
        → NewHash (env.hash_opaque fresh.raw_refresh)
        → Step w (record w { server = (token env w.server now fresh r).0 })

  pub data Steps (w : Site) : Site → Type 0 where
    here : Steps w w
    next : {v u : Site} → Steps w v → Step v u → Steps w u
