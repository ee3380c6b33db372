-- ===== src/OAuth/Runs/Bound.antt =====
-- Whatever calls run, every login session and every code is of a client that registered its redirect URI.
use mathlib.Core.List.{Memᴰ}
use synamcps_server.Prelude.{String, Option, List}
use synamcps_server.OAuth.Redirects.{Url}
use synamcps_server.OAuth.Store.{LoginSession}
use synamcps_server.OAuth.Server.Login.{begin_login, begin_oidc, begin_callback}
use synamcps_server.OAuth.Runs.{
  Site, Step, Steps, here, next, register_step, authorize_step, begin_login_step, finish_login_step,
  begin_oidc_step, finish_oidc_step, begin_callback_step, finish_callback_step, token_step,
}
use synamcps_server.OAuth.Runs.InFlight.{
  begun_bound, begin_login-bound, begin_oidc-bound, begin_callback-bound,
}
use synamcps_server.OAuth.Runs.Writes.{Writes, unchanged}
use synamcps_server.OAuth.Runs.Writes.Logins.{
  register-Writes, authorize-Writes, finish_login-Writes, finish_oidc-Writes, begin_callback-Writes,
  finish_callback-Writes,
}
use synamcps_server.OAuth.Runs.Writes.Grants.{token-Writes}
use synamcps_server.OAuth.Runs.Sound.{
  IsBound-keeps, SessionIsBound, IsSound, Writes-clients, Writes-IsSound,
}

module _ (parse_url : String → Option Url) (patterns : List String) where
  -- The store is sound, and so is every session that a handler goes on with.
  pub record IsConsistent (w : Site) : Type 0 where
    pub sound : IsSound parse_url patterns w.server.oauth
    pub in_flight :
        (sess : LoginSession)
        → Memᴰ sess w.in_flight
        → SessionIsBound parse_url patterns w.server.oauth sess

  module _ (NewCode NewHash : String → Type 0) where
    pub Step-Writes :
        {w v : Site}
        → Step parse_url patterns NewCode NewHash w v
        → IsConsistent w
        → Writes parse_url patterns NewCode NewHash w.server v.server
    Step-Writes (register_step env w now uuid uris name method new) c =
        register-Writes parse_url patterns NewCode NewHash env w.server now uuid uris name method
          new
    Step-Writes (authorize_step env w now uuid r parses same) c =
        authorize-Writes parse_url patterns NewCode NewHash env w.server now uuid r parses same
    Step-Writes (begin_login_step env w now id username password) c = unchanged
    Step-Writes (finish_login_step env w now code id sess p m new) c =
        finish_login-Writes parse_url patterns NewCode NewHash env w.server now code id sess p
          (c.in_flight sess m) new
    Step-Writes (begin_oidc_step env w now id provider) c = unchanged
    Step-Writes (finish_oidc_step env w now uuid sess provider m) c =
        finish_oidc-Writes parse_url patterns NewCode NewHash env w.server now uuid sess provider
          (c.in_flight sess m)
    Step-Writes (begin_callback_step env w now id code) c =
        begin_callback-Writes parse_url patterns NewCode NewHash env w.server now id code
    Step-Writes (finish_callback_step env w now fresh code sess provider m new) c =
        finish_callback-Writes parse_url patterns NewCode NewHash env w.server now fresh code sess
          provider (c.in_flight sess m) new
    Step-Writes (token_step env w now fresh r new) c =
        token-Writes parse_url patterns NewCode NewHash env w.server now fresh r new

    -- The sessions in flight after a step are those before it, and one that the store had.
    Step-in_flight :
        {w v : Site}
        → Step parse_url patterns NewCode NewHash w v
        → IsConsistent w
        → ((sess : LoginSession)
            → SessionIsBound parse_url patterns w.server.oauth sess
            → SessionIsBound parse_url patterns v.server.oauth sess)
        → (sess : LoginSession) → Memᴰ sess v.in_flight
        → SessionIsBound parse_url patterns v.server.oauth sess
    Step-in_flight (register_step env w now uuid uris name method new) c keep sess m =
        keep sess (c.in_flight sess m)
    Step-in_flight (authorize_step env w now uuid r parses same) c keep sess m =
        keep sess (c.in_flight sess m)
    Step-in_flight (begin_login_step env w now id username password) c keep sess m =
        begun_bound parse_url patterns w.server.oauth
          (begin_login env w.server now id username password) w.in_flight
          (begin_login-bound parse_url patterns env w.server now id username password c.sound)
          c.in_flight sess m
    Step-in_flight (finish_login_step env w now code id sess p m new) c keep x n =
        keep x (c.in_flight x n)
    Step-in_flight (begin_oidc_step env w now id provider) c keep sess m =
        begun_bound parse_url patterns w.server.oauth (begin_oidc env w.server now id provider)
          w.in_flight (begin_oidc-bound parse_url patterns env w.server now id provider c.sound)
          c.in_flight sess m
    Step-in_flight (finish_oidc_step env w now uuid sess provider m) c keep x n =
        keep x (c.in_flight x n)
    Step-in_flight (begin_callback_step env w now id code) c keep sess m =
        let after = begin_callback env w.server now id code in
        begun_bound parse_url patterns after.0.oauth after.1 w.in_flight
          (λ x p e.
            keep x (begin_callback-bound parse_url patterns env w.server now id code c.sound x p e))
          (λ x n. keep x (c.in_flight x n)) sess m
    Step-in_flight (finish_callback_step env w now fresh code sess provider m new) c keep x n =
        keep x (c.in_flight x n)
    Step-in_flight (token_step env w now fresh r new) c keep sess m = keep sess (c.in_flight sess m)

    pub Step-IsConsistent :
        {w v : Site} → Step parse_url patterns NewCode NewHash w v → IsConsistent w → IsConsistent v
    Step-IsConsistent {w} {v} step c =
        let ws = Step-Writes step c in
        record {
          sound = Writes-IsSound parse_url patterns NewCode NewHash ws c.sound;
          in_flight = Step-in_flight step c (λ sess b.
              IsBound-keeps parse_url patterns w.server.oauth v.server.oauth
                (Writes-clients parse_url patterns NewCode NewHash ws) b);
        }

    -- Whatever calls run one after another or in between, every login session and every code is of a client
    -- that exists, for a redirect URI that it registered and that is allowed, and has a challenge.
    pub Steps-IsConsistent :
        {w v : Site}
        → Steps parse_url patterns NewCode NewHash w v
        → IsConsistent w
        → IsConsistent v
    Steps-IsConsistent here c = c
    Steps-IsConsistent (next steps step) c = Step-IsConsistent step (Steps-IsConsistent steps c)
