-- ===== src/OAuth/Server/Login.antt =====
-- internal/auth/oauthas/server.go: `authorize`, the logins, and the codes that they end in.
use synamcps_server.Prelude.{
  ℕ, ◌+◌, ◌*◌, String, not, Option, none, some, ◌&&◌, ◌||◌, if◌then◌else◌,
}
use synamcps_server.Prelude.Strings.{◌=ˢ◌}
use synamcps_server.Prelude.Runes.{trim_text}
use synamcps_server.Models.{Principal}
use synamcps_server.OAuth.Redirects.{redirect_uri_allowed}
use synamcps_server.OAuth.Store.{
  Client, AuthorizationCode, LoginSession, client_has_redirect_uri, save_authorization_code,
  save_login_session, take_login_session, get_login_session,
}
use synamcps_server.OAuth.Server.{
  Env, Server, Provider, Response, http_error, login_page, to_provider, to_client, second,
  authenticate_internal, provider_by_name, authorization_endpoint,
}

pub record AuthorizeRequest : Type 0 where
  pub client_id : String
  pub redirect_uri : String
  pub response_type : String
  pub state : String
  pub scope : String
  pub code_challenge : String
  pub code_challenge_method : String

-- `renderLogin`, with the session, the client and the message that the page shows
abbrev pub render_login : LoginSession → Client → String → Response
render_login sess client message =
    if sess.id =ˢ "" then http_error "missing login session" else login_page sess.id client message

-- the end of a login session or a code that is made now
abbrev pub code_end : Env → ℕ → ℕ
code_end env now = now + env.config.authorization_code_ttl_seconds * second

abbrev pub new_session : Env → ℕ → AuthorizeRequest → LoginSession
new_session env now r = record {
  id = "";
  client_id = r.client_id;
  redirect_uri = r.redirect_uri;
  scope = r.scope;
  state = r.state;
  code_challenge = r.code_challenge;
  code_challenge_method = "S256";
  provider_name = "";
  expires_at = code_end env now;
  created_at = 0;
}

unfoldable pub authorize_client :
    Env → Server → ℕ → String → AuthorizeRequest → Option Client → Server × Response
authorize_client env s now uuid r none = (s, http_error "invalid_client")
authorize_client env s now uuid r (some client) =
    if not (client_has_redirect_uri client r.redirect_uri)
      || not (
          redirect_uri_allowed env.parse_url r.redirect_uri client.redirect_uris
            env.config.allowed_redirect_uri_patterns)
    then (s, http_error "invalid_redirect_uri")
    else let (store, sess) = save_login_session s.oauth now uuid (new_session env now r) in
      (record s { oauth = store }, render_login sess client "")

-- `authorize`
unfoldable pub authorize : Env → Server → ℕ → String → AuthorizeRequest → Server × Response
unfolding authorize_client
authorize env s now uuid r =
    if not (r.response_type =ˢ "code")
    then (s, http_error "unsupported_response_type")
    else if not (r.code_challenge_method =ˢ "") && not (r.code_challenge_method =ˢ "S256")
    then (s, http_error "code_challenge_method must be S256")
    else if r.code_challenge =ˢ ""
    then (s, http_error "code_challenge required")
    else authorize_client env s now uuid r (s.oauth.clients r.client_id)

abbrev pub new_code : Env → ℕ → String → LoginSession → Principal → AuthorizationCode
new_code env now code sess principal = record {
  code = code;
  client_id = sess.client_id;
  subject_key = env.subject_key principal;
  principal = principal;
  redirect_uri = sess.redirect_uri;
  scope = sess.scope;
  code_challenge = sess.code_challenge;
  code_challenge_method = sess.code_challenge_method;
  expires_at = code_end env now;
  used_at = none;
  created_at = 0;
}

-- `completeAuthorize`, which does not look at what `EnsurePrincipal` answers
unfoldable pub complete_authorize :
    Env → Server → ℕ → String → LoginSession → Principal → Server × Response
complete_authorize env s now code sess principal = (
  record s { oauth = save_authorization_code s.oauth now (new_code env now code sess principal) },
  (elim (env.parse_url sess.redirect_uri) [
    | none ↦ http_error "invalid redirect_uri"
    | some u ↦ to_client sess.redirect_uri code sess.state
  ]),
)

-- What a handler is left with before it writes: an answer, or what to go on with.
pub data Begun (A : Type 0) : Type 0 where
  answered : Response → Begun A
  going : A → Begun A

unfoldable pub login_client :
    Env → LoginSession → String → String → Option Client → Begun (LoginSession × Principal)
login_client env sess username password none = answered (http_error "invalid_client")
login_client env sess username password (some client) =
    elim (authenticate_internal env (trim_text username) password) [
      | none ↦ answered (render_login sess client "invalid credentials")
      | some principal ↦ going (sess, principal)
    ]

unfoldable pub login_session :
    Env → Server → String → String → Option LoginSession → Begun (LoginSession × Principal)
unfolding login_client
login_session env s username password none = answered (http_error "login session expired")
login_session env s username password (some sess) =
    login_client env sess username password (s.oauth.clients sess.client_id)

-- `authorizeLogin` before it takes the session
unfoldable pub begin_login :
    Env → Server → ℕ → String → String → String → Begun (LoginSession × Principal)
unfolding login_session
begin_login env s now session_id username password =
    login_session env s username password (get_login_session s.oauth now session_id)

-- The rest of `authorizeLogin`, which does not look at whether the session was still there.
unfoldable pub finish_login :
    Env → Server → ℕ → String → String → LoginSession → Principal → Server × Response
unfolding complete_authorize
finish_login env s now code session_id sess principal =
    complete_authorize env (record s { oauth = (take_login_session s.oauth now session_id).0 }) now
      code sess principal

-- `authorizeLogin`, with no other call in between
unfoldable pub authorize_login :
    Env → Server → ℕ → String → String → String → String → Server × Response
unfolding begin_login finish_login
authorize_login env s now code session_id username password =
    elim (begin_login env s now session_id username password) [
      | answered response ↦ (s, response)
      | going (sess, principal) ↦ finish_login env s now code session_id sess principal
    ]

unfoldable pub choose_provider : LoginSession → Option Provider → Begun (LoginSession × Provider)
choose_provider sess none = answered (http_error "provider not configured for login")
choose_provider sess (some provider) =
    if provider.client_id =ˢ ""
    then answered (http_error "provider not configured for login")
    else going (sess, provider)

-- `authorizeOIDCStart` before it saves the session
unfoldable pub begin_oidc : Env → Server → ℕ → String → String → Begun (LoginSession × Provider)
unfolding choose_provider
begin_oidc env s now session_id provider_name = elim (get_login_session s.oauth now session_id) [
  | none ↦ answered (http_error "login session expired")
  | some sess ↦ choose_provider sess (provider_by_name env provider_name)
]

-- the rest of `authorizeOIDCStart`
unfoldable pub finish_oidc : Env → Server → ℕ → String → LoginSession → Provider → Server × Response
finish_oidc env s now uuid sess provider =
    let (store, saved) =
      save_login_session s.oauth now uuid (record sess { provider_name = provider.name }) in
    (
      record s { oauth = store },
      to_provider (authorization_endpoint env provider) provider.client_id sess.id,
    )

unfoldable pub callback_session : Env → Option LoginSession → Begun (LoginSession × Provider)
callback_session env none = answered (http_error "login session expired")
callback_session env (some sess) = elim (provider_by_name env sess.provider_name) [
  | none ↦ answered (http_error "unknown provider")
  | some provider ↦ going (sess, provider)
]

-- `oidcCallback` before it calls the provider
unfoldable pub begin_callback :
    Env → Server → ℕ → String → String → Server × Begun (LoginSession × Provider)
unfolding callback_session
begin_callback env s now session_id code =
    if session_id =ˢ "" || code =ˢ ""
    then (s, answered (http_error "missing code/state"))
    else let (store, sess) = take_login_session s.oauth now session_id in
      (record s { oauth = store }, callback_session env sess)

-- whom the provider says that the code stands for; the texts of its errors are left out
unfoldable pub identify : Env → Provider → String → Option Principal
identify env provider code = elim (env.exchange_oidc_code provider code) [
  | none ↦ none
  | some id_token ↦ env.principal_of_token id_token
]

-- the rest of `oidcCallback`
unfoldable pub finish_callback :
    Env → Server → ℕ → String → String → LoginSession → Provider → Server × Response
unfolding identify complete_authorize
finish_callback env s now fresh code sess provider = elim (identify env provider code) [
  | none ↦ (s, http_error "invalid id token")
  | some principal ↦ complete_authorize env s now fresh sess principal
]
