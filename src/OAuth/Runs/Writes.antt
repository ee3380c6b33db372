-- ===== src/OAuth/Runs/Writes.antt =====
-- What each call of the authorization server writes.
pub mod Logins
pub mod Grants
use synamcps_server.Prelude.{
  ℕ, String, true, not, Option, none, some, List, [], ◌∷◌, ◌≡◌, ◌≢◌, Bool-cases, Option-cases, inl,
  inr, is_some, ltb, ◌||◌, ◌&&◌,
}
use synamcps_server.Prelude.Strings.{◌=ˢ◌, contains, text_differs}
use synamcps_server.Prelude.Maps.{update}
use synamcps_server.Models.{Principal}
use synamcps_server.Access.Tokens.{TokenStore, revoke_token}
use synamcps_server.OAuth.Redirects.{Url, redirect_uri_allowed, verify_pkce_s256}
use synamcps_server.OAuth.Redirects.Laws.{IsAllowed, redirect_uri_allowed_iff}
use synamcps_server.OAuth.Store.{
  Client, AuthorizationCode, RefreshToken, LoginSession, OauthStore, create_client, consume_code,
  consume_refresh, save_login_session, take_login_session, save_authorization_code,
  save_refresh_token, code_used, refresh_used, Taken, taken, not_taken, stored_client,
  stored_session,
}
use synamcps_server.OAuth.Server.{Env, Server, Provider, register, refused_uri, new_client}
use synamcps_server.OAuth.Server.Login.{
  AuthorizeRequest, new_session, new_code, authorize, authorize_client, complete_authorize,
  finish_login, finish_oidc, begin_callback, finish_callback, identify,
}
use synamcps_server.OAuth.Server.Grants.{
  FreshTexts, CodeRequest, TokenRequest, authorization_code, refresh_token, other_grant, token,
  token_authorization_code, token_refresh, grant_code, grant_refresh, answer, mint_tokens,
  new_refresh, principal_of_subject, with_revoked,
}
use synamcps_server.OAuth.Server.Grants.Exchange.{mint_tokens-cases, minted}

module _ (parse_url : String → Option Url) (patterns : List String) where
  -- A client with the id exists, registered the redirect URI, which is allowed, and there is a challenge.
  pub record IsBound (s : OauthStore) (client_id redirect_uri challenge : String) : Type 0 where
    pub client : Client
    pub exists : s.clients client_id ≡ some client
    pub registered : contains client.redirect_uris redirect_uri ≡ true
    pub allowed : IsAllowed parse_url redirect_uri client.redirect_uris patterns
    pub challenged : challenge ≢ ""

-- `NewCode` and `NewHash` are what is known of the texts of new codes and the digests of new refresh tokens.
module _ (parse_url : String → Option Url) (patterns : List String)
    (NewCode NewHash : String → Type 0) where
  -- One write of a map, with what is known of it.
  pub data Write : Server → Server → Type 0 where
    client_made :
        (s : Server) (id : String) (c : Client)
        → s.oauth.clients id ≡ none
        → Write s
            (record s { oauth = record s.oauth { clients = update s.oauth.clients id (some c) } })
    session_saved :
        (s : Server) (id : String) (sess : LoginSession)
        → IsBound parse_url patterns s.oauth sess.client_id sess.redirect_uri sess.code_challenge
        → Write s
            (record s { oauth = record s.oauth { logins = update s.oauth.logins id (some sess) } })
    session_taken :
        (s : Server) (id : String)
        → Write s (record s { oauth = record s.oauth { logins = update s.oauth.logins id none } })
    code_made :
        (s : Server) (code : AuthorizationCode)
        → IsBound parse_url patterns s.oauth code.client_id code.redirect_uri code.code_challenge
        → NewCode code.code
        → Write s (record s {
          oauth = record s.oauth { codes = update s.oauth.codes code.code (some code) };
        })
    code_marked :
        (s : Server) (now : ℕ) (raw : String) (code : AuthorizationCode)
        → s.oauth.codes raw ≡ some code
        → Write s (record s { oauth = code_used s.oauth now raw code })
    refresh_made :
        (s : Server) (t : RefreshToken)
        → NewHash t.token_hash
        → Write s (record s {
          oauth = record s.oauth { refresh = update s.oauth.refresh t.token_hash (some t) };
        })
    refresh_marked :
        (s : Server) (now : ℕ) (hash : String) (t : RefreshToken)
        → s.oauth.refresh hash ≡ some t
        → Write s (record s { oauth = refresh_used s.oauth now hash t })
    tokens_changed : (s : Server) (tokens : TokenStore) → Write s (record s { tokens = tokens })

  pub data Writes (s : Server) : Server → Type 0 where
    unchanged : Writes s s
    then_write : {t u : Server} → Writes s t → Write t u → Writes s u

  pub one : {s t : Server} → Write s t → Writes s t
  one w = then_write unchanged w

  pub and_then : {s t u : Server} → Writes s t → Writes t u → Writes s u
  and_then first unchanged = first
  and_then first (then_write more w) = then_write (and_then first more) w
