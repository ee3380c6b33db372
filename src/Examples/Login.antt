-- ===== src/Examples/Login.antt =====
-- The theorems on the authorization server at a concrete client, code and token.
use synamcps_server.Prelude.{
  String, true, false, Option, none, some, List, [], ◌∷◌, ◌≡◌, ◌↔◌, refl, if◌then◌else◌,
}
use synamcps_server.Prelude.Strings.{codes, ◌=ˢ◌, contains}
use synamcps_server.Prelude.Runes.{has_prefix, ◌=ʳ◌}
use synamcps_server.Models.{read_write}
use synamcps_server.OAuth.Redirects.{Url, redirect_uri_allowed, url_allowed, match_patterns}
use synamcps_server.OAuth.Redirects.Laws.{IsAllowed, redirect_uri_allowed_iff}
use synamcps_server.OAuth.Store.{Client, AuthorizationCode, RefreshToken, LoginSession}
use synamcps_server.OAuth.Server.{Env, Server}
use synamcps_server.OAuth.Server.Grants.{FreshTexts, CodeRequest}
use synamcps_server.OAuth.Server.Grants.Flow.{request_for}
use synamcps_server.OAuth.Runs.{Site}
use synamcps_server.Examples.{alice}
use synamcps_server.Examples.Tokens.{hash_token, one_token}

abbrev pub patterns : List String
patterns = "https://app.example/*" ∷ []

abbrev pub callback : String
callback = "https://app.example/cb"

abbrev pub app_url : Url
app_url = record {
  scheme = codes "https";
  host = codes "app.example";
  hostname = codes "app.example";
  fragment = [];
}

abbrev pub parse_url : String → Option Url
parse_url text = if text =ˢ callback then some app_url else none

abbrev pub env : Env
env = record {
  config = record {
    allowed_redirect_uri_patterns = patterns;
    authorization_code_ttl_seconds = 300;
    access_token_ttl_hours = 24;
    refresh_token_ttl_hours = 720;
    default_token_mode = read_write;
  };
  admin = record { enabled = false; username = ""; password_env_ref = "" };
  providers = [];
  has_access = true;
  users = [];
  ensure_principal = λ p. some "st-1";
  readable_storage_ids = λ p. some [];
  exchange_oidc_code = λ p c. none;
  principal_of_token = λ t. none;
  subject_key = λ p. p.subject_key;
  parse_url = parse_url;
  equal_fold = λ a b. a =ˢ b;
  challenge_of = λ v. if v =ˢ "verifier" then "challenge" else "";
  hash_opaque = λ v. if v =ˢ "refresh" then "digest" else "another";
  hash_token = hash_token;
  getenv = λ s. [];
  compares = λ h p. false;
}

redirect_uri_allowed_iff_example :
    (redirect_uri_allowed parse_url callback (callback ∷ []) patterns ≡ true)
    ↔ IsAllowed parse_url callback (callback ∷ []) patterns
redirect_uri_allowed_iff_example =
    redirect_uri_allowed_iff parse_url callback (callback ∷ []) patterns

pub callback-IsAllowed : IsAllowed parse_url callback (callback ∷ []) patterns
unfolding redirect_uri_allowed url_allowed match_patterns contains has_prefix ◌=ʳ◌
callback-IsAllowed = (redirect_uri_allowed_iff parse_url callback (callback ∷ []) patterns).0 refl

abbrev pub app : Client
app = record {
  client_id = "app";
  client_name = "App";
  redirect_uris = callback ∷ [];
  token_endpoint_auth_method = "none";
  created_at = 1;
}

abbrev pub code : AuthorizationCode
code = record {
  code = "code";
  client_id = "app";
  subject_key = "user:internal:alice";
  principal = alice;
  redirect_uri = callback;
  scope = "";
  code_challenge = "challenge";
  code_challenge_method = "S256";
  expires_at = 90;
  used_at = none;
  created_at = 1;
}

abbrev pub refresh : RefreshToken
refresh = record {
  token_hash = "digest";
  client_id = "app";
  subject_key = "user:internal:alice";
  access_token_id = "t-1";
  expires_at = 90;
  revoked_at = none;
  created_at = 1;
}

abbrev pub session : LoginSession
session = record {
  id = "login";
  client_id = "app";
  redirect_uri = callback;
  scope = "";
  state = "xyz";
  code_challenge = "challenge";
  code_challenge_method = "S256";
  provider_name = "";
  expires_at = 90;
  created_at = 1;
}

abbrev pub server : Server
server = record {
  oauth = record {
    clients = λ id. if id =ˢ "app" then some app else none;
    codes = λ c. if c =ˢ "code" then some code else none;
    refresh = λ h. if h =ˢ "digest" then some refresh else none;
    logins = λ id. none;
  };
  tokens = one_token;
}

abbrev pub world : Site
world = record { server = server; in_flight = [] }

abbrev pub fresh : FreshTexts
fresh = record { token_id = "t-2"; raw_token = "new"; raw_refresh = "again" }

abbrev pub request : CodeRequest
request = request_for "code" "verifier" session
