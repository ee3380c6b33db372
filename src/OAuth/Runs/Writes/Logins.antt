-- ===== src/OAuth/Runs/Writes/Logins.antt =====
-- What registration, authorization and the logins write.
use synamcps_server.Prelude.{
  ℕ, String, not, Option, none, some, List, [], ◌∷◌, ◌≡◌, ◌≢◌, Bool-cases, Option-cases, inl, inr,
  ◌||◌, ◌&&◌,
}
use synamcps_server.Prelude.Strings.{◌=ˢ◌, contains, text_differs}
use synamcps_server.Prelude.Maps.{update}
use synamcps_server.Models.{Principal}
use synamcps_server.OAuth.Redirects.{Url, redirect_uri_allowed}
use synamcps_server.OAuth.Redirects.Laws.{redirect_uri_allowed_iff}
use synamcps_server.OAuth.Store.{
  Client, LoginSession, create_client, save_login_session, take_login_session,
  save_authorization_code, stored_client, stored_session,
}
use synamcps_server.OAuth.Server.{Env, Server, Provider, register, refused_uri, new_client}
use synamcps_server.OAuth.Server.Login.{
  AuthorizeRequest, new_session, new_code, authorize, authorize_client, complete_authorize,
  finish_login, finish_oidc, begin_callback, finish_callback, identify,
}
use synamcps_server.OAuth.Runs.Writes.{
  IsBound, Write, Writes, unchanged, then_write, client_made, session_saved, session_taken,
  code_made, one,
}

module _ (parse_url : String → Option Url) (patterns : List String)
    (NewCode NewHash : String → Type 0) where
  pub register-Writes :
      (env : Env) (s : Server) (now : ℕ) (uuid : String) (uris : List String) (name method : String)
      → s.oauth.clients uuid ≡ none
      → Writes parse_url patterns NewCode NewHash s (register env s now uuid uris name method).0
  unfolding register create_client
  register-Writes env s now uuid [] name method new = unchanged
  register-Writes env s now uuid (u ∷ us) name method new =
      elim (Option-cases (refused_uri env (u ∷ us))) [
        | inr (uri, refused) ↦ rw (register, refused) unchanged
        | inl fine ↦
            rw (register, fine)
              (one parse_url patterns NewCode NewHash
                (client_made s uuid (stored_client now uuid (new_client (u ∷ us) name method)) new))
      ]

  authorize_client-Writes :
      (env : Env) (s : Server) (now : ℕ) (uuid : String) (r : AuthorizeRequest) (client : Client)
      → env.parse_url ≡ parse_url
      → env.config.allowed_redirect_uri_patterns ≡ patterns
      → r.code_challenge ≢ ""
      → s.oauth.clients r.client_id ≡ some client
      → Writes parse_url patterns NewCode NewHash s
          (authorize_client env s now uuid r (some client)).0
  unfolding authorize_client save_login_session
  authorize_client-Writes env s now uuid r client parses same challenged known =
      let allowed =
        redirect_uri_allowed env.parse_url r.redirect_uri client.redirect_uris
          env.config.allowed_redirect_uri_patterns in
      elim (Bool-cases (contains client.redirect_uris r.redirect_uri)) [
        | inr other ↦ rw (authorize_client, other) unchanged
        | inl registered ↦ elim (Bool-cases allowed) [
          | inr refused ↦ rw (authorize_client, registered, refused) unchanged
          | inl fine ↦
              let bound : IsBound parse_url patterns s.oauth r.client_id r.redirect_uri
                  r.code_challenge =
                record {
                  client = client;
                  exists = known;
                  registered = registered;
                  allowed =
                      (redirect_uri_allowed_iff parse_url r.redirect_uri client.redirect_uris
                          patterns).0
                        (rw (← parses, ← same) fine);
                  challenged = challenged;
                } in
              rw (authorize_client, registered, fine)
                (one parse_url patterns NewCode NewHash
                  (session_saved s uuid (stored_session now uuid (new_session env now r)) bound))
        ]
      ]

  pub authorize-Writes :
      (env : Env) (s : Server) (now : ℕ) (uuid : String) (r : AuthorizeRequest)
      → env.parse_url ≡ parse_url
      → env.config.allowed_redirect_uri_patterns ≡ patterns
      → Writes parse_url patterns NewCode NewHash s (authorize env s now uuid r).0
  unfolding authorize authorize_client
  authorize-Writes env s now uuid r parses same = elim (Bool-cases (r.response_type =ˢ "code")) [
    | inr other ↦ rw (authorize, other) unchanged
    | inl code ↦
        elim (Bool-cases
          (not (r.code_challenge_method =ˢ "") && not (r.code_challenge_method =ˢ "S256"))) [
            | inl bad ↦ rw (authorize, code, bad) unchanged
            | inr fine ↦ elim (Bool-cases (r.code_challenge =ˢ "")) [
              | inl missing ↦ rw (authorize, code, fine, missing) unchanged
              | inr there ↦ elim (Option-cases (s.oauth.clients r.client_id)) [
                | inl unknown ↦
                    rw (authorize, code, fine, there, unknown, authorize_client) unchanged
                | inr (client, known) ↦
                    rw (authorize, code, fine, there, known)
                      (authorize_client-Writes env s now uuid r client parses same
                        (text_differs r.code_challenge "" there) known)
              ]
            ]
          ]
  ]

  -- A session that is bound ends in a code that is.
  complete_authorize-Writes :
      (env : Env) (s : Server) (now : ℕ) (code : String) (sess : LoginSession) (p : Principal)
      → IsBound parse_url patterns s.oauth sess.client_id sess.redirect_uri sess.code_challenge
      → NewCode code
      → Write parse_url patterns NewCode NewHash s (complete_authorize env s now code sess p).0
  unfolding complete_authorize save_authorization_code
  complete_authorize-Writes env s now code sess p bound new =
      code_made s (record (new_code env now code sess p) { created_at = now }) bound new

  pub finish_login-Writes :
      (env : Env) (s : Server) (now : ℕ) (code id : String) (sess : LoginSession) (p : Principal)
      → IsBound parse_url patterns s.oauth sess.client_id sess.redirect_uri sess.code_challenge
      → NewCode code
      → Writes parse_url patterns NewCode NewHash s (finish_login env s now code id sess p).0
  unfolding finish_login take_login_session
  finish_login-Writes env s now code id sess p bound new =
      let after : Server = record s {
        oauth = record s.oauth { logins = update s.oauth.logins id none };
      } in
      let still : IsBound parse_url patterns after.oauth sess.client_id sess.redirect_uri
          sess.code_challenge =
        record {
          client = bound.client;
          exists = bound.exists;
          registered = bound.registered;
          allowed = bound.allowed;
          challenged = bound.challenged;
        } in
      then_write (one parse_url patterns NewCode NewHash (session_taken s id))
        (complete_authorize-Writes env after now code sess p still new)

  pub finish_oidc-Writes :
      (env : Env) (s : Server) (now : ℕ) (uuid : String) (sess : LoginSession) (provider : Provider)
      → IsBound parse_url patterns s.oauth sess.client_id sess.redirect_uri sess.code_challenge
      → Writes parse_url patterns NewCode NewHash s (finish_oidc env s now uuid sess provider).0
  unfolding finish_oidc save_login_session
  finish_oidc-Writes env s now uuid sess provider bound = one parse_url patterns NewCode NewHash (
      session_saved s (stored_session now uuid sess).id
        (stored_session now uuid (record sess { provider_name = provider.name })) bound)

  pub begin_callback-Writes :
      (env : Env) (s : Server) (now : ℕ) (id code : String)
      → Writes parse_url patterns NewCode NewHash s (begin_callback env s now id code).0
  unfolding begin_callback take_login_session
  begin_callback-Writes env s now id code = elim (Bool-cases (id =ˢ "" || code =ˢ "")) [
    | inl missing ↦ rw missing unchanged
    | inr there ↦ rw there (one parse_url patterns NewCode NewHash (session_taken s id))
  ]

  pub finish_callback-Writes :
      (env : Env) (s : Server) (now : ℕ) (fresh code : String) (sess : LoginSession)
      (provider : Provider)
      → IsBound parse_url patterns s.oauth sess.client_id sess.redirect_uri sess.code_challenge
      → NewCode fresh
      → Writes parse_url patterns NewCode NewHash s
          (finish_callback env s now fresh code sess provider).0
  unfolding finish_callback
  finish_callback-Writes env s now fresh code sess provider bound new =
      elim (Option-cases (identify env provider code)) [
        | inl nobody ↦ rw (finish_callback, nobody) unchanged
        | inr (p, known) ↦
            rw (finish_callback, known)
              (one parse_url patterns NewCode NewHash
                (complete_authorize-Writes env s now fresh sess p bound new))
      ]
