-- ===== src/Examples/Grants.antt =====
-- The theorems on runs of the authorization server at a concrete client, code and token.
use mathlib.Core.List.{Memᴰ}
use synamcps_server.Prelude.{
  String, some, [], ◌∷◌, ◌≡◌, ◌≢◌, ◌⊎◌, refl, arith, Bool-cases, inl, inr, subst, eq_iff,
}
use synamcps_server.Prelude.Strings.{◌=ˢ◌, contains}
use synamcps_server.Models.{AccessToken}
use synamcps_server.Access.Tokens.{
  unknown_token, refused, revoked_or_expired, new_token, create_token, resolve_token,
}
use synamcps_server.Access.Tokens.Laws.{same_some, none_differs}
use synamcps_server.Access.Tokens.Runs.{here}
use synamcps_server.Access.Users.{user_by_subject_key}
use synamcps_server.OAuth.Store.{AuthorizationCode, LoginSession, consume_code, consume_refresh}
use synamcps_server.OAuth.Server.{Server, Response, issued}
use synamcps_server.OAuth.Server.Login.{AuthorizeRequest, authorize, finish_login}
use synamcps_server.OAuth.Server.Grants.{
  other_grant, token_input, response_of, storages_of, invalid_grant, token, grant_refresh, answer,
  mint_tokens, mint_for, mint_created, token_authorization_code, token_refresh,
}
use synamcps_server.OAuth.Server.Grants.Flow.{request_for}
use synamcps_server.OAuth.Server.Grants.Revocation.{refresh_revokes}
use synamcps_server.OAuth.Runs.{Site, Steps, authorize_step, token_step}
use synamcps_server.OAuth.Runs as Runs
use synamcps_server.OAuth.Runs.Writes.{IsBound}
use synamcps_server.OAuth.Runs.Bound.{IsConsistent, Steps-IsConsistent}
use synamcps_server.OAuth.Runs.Spent.{Anything, code_single_use}
use synamcps_server.OAuth.Runs.Rotation.{refresh_single_use}
use synamcps_server.Examples.{alice}
use synamcps_server.Examples.Tokens.{hash_token, one_token-IsIndexed, leads_to_it}
use synamcps_server.Examples.Login.{
  patterns, callback, parse_url, env, app, code, refresh, session, server, world, fresh, request,
  callback-IsAllowed,
}

abbrev exchanged : Server × Response
exchanged =
    token_authorization_code env (finish_login env server 50 "fresh code" "login" session alice).0
      60 fresh (request_for "fresh code" "verifier" session)

abbrev made : AccessToken
made = new_token hash_token 60 "t-2" "new" (token_input env 60 alice ("st-1" ∷ []))

app-IsBound : IsBound parse_url patterns server.oauth "app" callback "challenge"
unfolding contains
app-IsBound = record {
  client = app;
  exists = refl;
  registered = refl;
  allowed = callback-IsAllowed;
  challenged = λ e. absurd (ground (arith, eq_iff "challenge" ""));
}

code_there : (raw : String) (c : AuthorizationCode) → server.oauth.codes raw ≡ some c → code ≡ c
code_there raw c e = elim (Bool-cases (raw =ˢ "code")) [
  | inl found ↦ same_some refl (rw found at e)
  | inr away ↦ absurd (none_differs refl (rw away at e))
]

world-IsConsistent : IsConsistent parse_url patterns world
world-IsConsistent = record {
  sound = record {
    sessions = λ id sess e. absurd (none_differs refl e);
    codes = λ raw c e.
        subst
          (λ (x : AuthorizationCode).
            IsBound parse_url patterns server.oauth x.client_id x.redirect_uri x.code_challenge)
          (code_there raw c e) app-IsBound;
  };
  in_flight = λ sess m. absurd (not_there m);
}
  where
    not_there : {sess : LoginSession} → Memᴰ sess [] → ⊥
    not_there m = elim m [ ]

abbrev authorize_request : AuthorizeRequest
authorize_request = record {
  client_id = "app";
  redirect_uri = callback;
  response_type = "code";
  state = "xyz";
  scope = "";
  code_challenge = "challenge";
  code_challenge_method = "S256";
}

Steps-IsConsistent_example :
    IsConsistent parse_url patterns
      (record world { server = (authorize env server 50 "login" authorize_request).0 })
Steps-IsConsistent_example =
    Steps-IsConsistent parse_url patterns Anything Anything
      (Runs.next Runs.here (authorize_step env world 50 "login" authorize_request refl refl))
      world-IsConsistent

abbrev after_code : Site
after_code = record world { server = (token_authorization_code env server 50 fresh request).0 }

code_single_use_example :
    token_authorization_code env
      (token env after_code.server 55 fresh (other_grant "password")).0
      60
      fresh
      request
    ≡ (
      (token env after_code.server 55 fresh (other_grant "password")).0,
      invalid_grant "authorization code already used",
    )
unfolding consume_code
code_single_use_example =
    code_single_use parse_url patterns env env world
      (record after_code {
        server = (token env after_code.server 55 fresh (other_grant "password")).0;
      })
      50 60 fresh fresh request request (record code { used_at = some 50 }) world-IsConsistent refl
      (Runs.next Runs.here (token_step env after_code 55 fresh (other_grant "password") tt)) refl

abbrev after_refresh : Site
after_refresh = record world { server = (token_refresh env server 50 fresh "refresh" "app").0 }

refresh_differs : env.hash_opaque "again" ≢ env.hash_opaque "refresh"
refresh_differs e = absurd (ground (arith, eq_iff "another" "digest"))

refresh_single_use_example :
    token_refresh env
      (token env after_refresh.server 55 fresh (other_grant "password")).0
      60
      fresh
      "refresh"
      ""
    ≡ (
      (token env after_refresh.server 55 fresh (other_grant "password")).0,
      invalid_grant "refresh token revoked",
    )
unfolding consume_refresh
refresh_single_use_example =
    refresh_single_use parse_url patterns env env world
      (record after_refresh {
        server = (token env after_refresh.server 55 fresh (other_grant "password")).0;
      })
      50 60 fresh fresh "refresh" "refresh" "app" "" (record refresh { revoked_at = some 50 })
      world-IsConsistent refl refresh_differs
      (Runs.next Runs.here
        (token_step env after_refresh 55 fresh (other_grant "password") refresh_differs))
      refl

refreshed :
    (token_refresh env server 50 fresh "refresh" "app").1 ≡ issued (response_of env fresh "new" "")
unfolding token_refresh consume_refresh grant_refresh answer mint_tokens mint_for mint_created
    storages_of create_token user_by_subject_key
refreshed = refl

other_token : hash_token "new" ≢ hash_token "secret"
other_token e = absurd (ground (arith, eq_iff "another" "digest"))

refresh_revokes_example :
    ((resolve_token hash_token
        (token_refresh env server 50 fresh "refresh" "app").0.tokens
        60
        "secret").1
      ≡ unknown_token)
    ⊎ ((resolve_token hash_token
          (token_refresh env server 50 fresh "refresh" "app").0.tokens
          60
          "secret").1
        ≡ refused revoked_or_expired)
unfolding create_token
refresh_revokes_example =
    refresh_revokes env server 50 60 fresh "refresh" "app" "secret" refresh
      (response_of env fresh "new" "") (token_refresh env server 50 fresh "refresh" "app").0.tokens
      one_token-IsIndexed refl leads_to_it refl refl other_token refreshed here
