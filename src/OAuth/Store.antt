-- ===== src/OAuth/Store.antt =====
-- internal/auth/oauthas/store.go with no database: clients, codes, refresh tokens and login sessions.
-- The maps of the Go struct are functions of their keys; a random text is an argument.
use synamcps_server.Prelude.{
  ℕ, String, Bool, Option, none, some, List, is_some, ltb, ◌==◌, if◌then◌else◌,
}
use synamcps_server.Prelude.Strings.{◌=ˢ◌, contains}
use synamcps_server.Prelude.Maps.{update}
use synamcps_server.Models.{Principal}

pub record Client : Type 0 where
  pub client_id : String
  pub client_name : String
  pub redirect_uris : List String
  pub token_endpoint_auth_method : String
  pub created_at : ℕ

pub record AuthorizationCode : Type 0 where
  pub code : String
  pub client_id : String
  pub subject_key : String
  pub principal : Principal
  pub redirect_uri : String
  pub scope : String
  pub code_challenge : String
  pub code_challenge_method : String
  pub expires_at : ℕ
  pub used_at : Option ℕ
  pub created_at : ℕ

pub record RefreshToken : Type 0 where
  pub token_hash : String
  pub client_id : String
  pub subject_key : String
  pub access_token_id : String
  pub expires_at : ℕ
  pub revoked_at : Option ℕ
  pub created_at : ℕ

pub record LoginSession : Type 0 where
  pub id : String
  pub client_id : String
  pub redirect_uri : String
  pub scope : String
  pub state : String
  pub code_challenge : String
  pub code_challenge_method : String
  pub provider_name : String
  pub expires_at : ℕ
  pub created_at : ℕ

pub record OauthStore : Type 0 where
  pub clients : String → Option Client
  pub codes : String → Option AuthorizationCode
  pub refresh : String → Option RefreshToken
  pub logins : String → Option LoginSession

pub data GrantError : Type 0 where
  unknown spent expired : GrantError

pub data Taken (A : Type 0) : Type 0 where
  taken : A → Taken A
  not_taken : GrantError → Taken A

-- the client as it is stored
abbrev pub stored_client : ℕ → String → Client → Client
stored_client now uuid c = record c {
  client_id = if c.client_id =ˢ "" then uuid else c.client_id;
  token_endpoint_auth_method =
      if c.token_endpoint_auth_method =ˢ "" then "none" else c.token_endpoint_auth_method;
  created_at = now;
}

-- `CreateClient`
unfoldable pub create_client : OauthStore → ℕ → String → Client → OauthStore × Client
create_client s now uuid c = (
  record s {
    clients =
        update s.clients (stored_client now uuid c).client_id (some (stored_client now uuid c));
  },
  stored_client now uuid c,
)

-- `ClientHasRedirectURI`
abbrev pub client_has_redirect_uri : Client → String → Bool
client_has_redirect_uri client redirect_uri = contains client.redirect_uris redirect_uri

-- `SaveAuthorizationCode`
unfoldable pub save_authorization_code : OauthStore → ℕ → AuthorizationCode → OauthStore
save_authorization_code s now code = record s {
  codes =
      update s.codes code.code
        (some (record code { created_at = if code.created_at == 0 then now else code.created_at }));
}

-- the store with a code, or a refresh token, marked as used
abbrev pub code_used : OauthStore → ℕ → String → AuthorizationCode → OauthStore
code_used s now raw_code code = record s {
  codes = update s.codes raw_code (some (record code { used_at = some now }));
}

abbrev pub refresh_used : OauthStore → ℕ → String → RefreshToken → OauthStore
refresh_used s now token_hash t = record s {
  refresh = update s.refresh token_hash (some (record t { revoked_at = some now }));
}

unfoldable pub consume_code :
    OauthStore → ℕ → String → Option AuthorizationCode → OauthStore × Taken AuthorizationCode
consume_code s now raw_code none = (s, not_taken unknown)
consume_code s now raw_code (some code) =
    if is_some code.used_at
    then (s, not_taken spent)
    else if ltb code.expires_at now
    then (s, not_taken expired)
    else (code_used s now raw_code code, taken (record code { used_at = some now }))

-- `ConsumeAuthorizationCode`
abbrev pub consume_authorization_code :
    OauthStore → ℕ → String → OauthStore × Taken AuthorizationCode
consume_authorization_code s now raw_code = consume_code s now raw_code (s.codes raw_code)

-- `SaveRefreshToken`
unfoldable pub save_refresh_token : OauthStore → ℕ → RefreshToken → OauthStore
save_refresh_token s now token = record s {
  refresh = update s.refresh token.token_hash (
      some (record token { created_at = if token.created_at == 0 then now else token.created_at }));
}

unfoldable pub consume_refresh :
    OauthStore → ℕ → String → Option RefreshToken → OauthStore × Taken RefreshToken
consume_refresh s now token_hash none = (s, not_taken unknown)
consume_refresh s now token_hash (some t) =
    if is_some t.revoked_at
    then (s, not_taken spent)
    else if ltb t.expires_at now
    then (s, not_taken expired)
    else (refresh_used s now token_hash t, taken (record t { revoked_at = some now }))

-- `ConsumeRefreshToken`
abbrev pub consume_refresh_token : OauthStore → ℕ → String → OauthStore × Taken RefreshToken
consume_refresh_token s now token_hash = consume_refresh s now token_hash (s.refresh token_hash)

-- the session as it is stored
abbrev pub stored_session : ℕ → String → LoginSession → LoginSession
stored_session now uuid sess = record sess {
  id = if sess.id =ˢ "" then uuid else sess.id;
  created_at = if sess.created_at == 0 then now else sess.created_at;
}

-- `SaveLoginSession`
unfoldable pub save_login_session :
    OauthStore → ℕ → String → LoginSession → OauthStore × LoginSession
save_login_session s now uuid sess = (
  record s {
    logins =
        update s.logins (stored_session now uuid sess).id (some (stored_session now uuid sess));
  },
  stored_session now uuid sess,
)

-- a session that is there and not past its time
abbrev pub live_session : ℕ → Option LoginSession → Option LoginSession
live_session now none = none
live_session now (some sess) = if ltb sess.expires_at now then none else some sess

-- `TakeLoginSession`
unfoldable pub take_login_session : OauthStore → ℕ → String → OauthStore × Option LoginSession
take_login_session s now id =
    (record s { logins = update s.logins id none }, live_session now (s.logins id))

-- `GetLoginSession`
abbrev pub get_login_session : OauthStore → ℕ → String → Option LoginSession
get_login_session s now id = live_session now (s.logins id)
