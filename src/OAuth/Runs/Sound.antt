-- ===== src/OAuth/Runs/Sound.antt =====
-- Every write leaves the sessions and codes of the store bound to clients.
use synamcps_server.Prelude.{String, Option, none, some, List, ◌≡◌, refl, ap, ◌∙◌, subst, inl, inr}
use synamcps_server.Prelude.Strings.{differs_text}
use synamcps_server.Prelude.Maps.{update}
use synamcps_server.Access.Tokens.Laws.{update-cases, update_away, none_differs, same_some}
use synamcps_server.OAuth.Redirects.{Url}
use synamcps_server.OAuth.Store.{Client, AuthorizationCode, LoginSession, OauthStore}
use synamcps_server.OAuth.Server.{Server}
use synamcps_server.OAuth.Runs.Writes.{
  IsBound, Write, Writes, unchanged, then_write, client_made, session_saved, session_taken,
  code_made, code_marked, refresh_made, refresh_marked, tokens_changed,
}

-- every client that was there is there
abbrev pub KeepsClients : OauthStore → OauthStore → Type 0
KeepsClients s t = (id : String) (c : Client) → s.clients id ≡ some c → t.clients id ≡ some c

module _ (parse_url : String → Option Url) (patterns : List String) where
  pub IsBound-keeps :
      (s t : OauthStore) {client_id redirect_uri challenge : String}
      → KeepsClients s t
      → IsBound parse_url patterns s client_id redirect_uri challenge
      → IsBound parse_url patterns t client_id redirect_uri challenge
  IsBound-keeps s t keeps b = record {
    client = b.client;
    exists = keeps _ b.client b.exists;
    registered = b.registered;
    allowed = b.allowed;
    challenged = b.challenged;
  }

  abbrev pub SessionIsBound : OauthStore → LoginSession → Type 0
  SessionIsBound s sess =
      IsBound parse_url patterns s sess.client_id sess.redirect_uri sess.code_challenge

  abbrev pub CodeIsBound : OauthStore → AuthorizationCode → Type 0
  CodeIsBound s code =
      IsBound parse_url patterns s code.client_id code.redirect_uri code.code_challenge

  -- Every session and every code of the store is bound.
  pub record IsSound (s : OauthStore) : Type 0 where
    pub sessions :
        (id : String) (sess : LoginSession) → s.logins id ≡ some sess → SessionIsBound s sess
    pub codes :
        (raw : String) (code : AuthorizationCode) → s.codes raw ≡ some code → CodeIsBound s code

  -- what is written over a map of bound things is bound, and so is what was there
  written :
      {V : Type 0} (P : V → Type 0) (f : String → Option V) (k : String) (v : Option V)
      → ((x : V) → v ≡ some x → P x)
      → ((j : String) (x : V) → f j ≡ some x → P x)
      → (j : String) (x : V) → update f k v j ≡ some x
      → P x
  written P f k v new old j x e = elim (update-cases f k j v e) [
    | inl (_, at) ↦ new x at
    | inr (_, at) ↦ old j x at
  ]

  module _ (NewCode NewHash : String → Type 0) where
    Write-clients :
        {s t : Server} → Write parse_url patterns NewCode NewHash s t → KeepsClients s.oauth t.oauth
    Write-clients (client_made s id c absent) k d e =
        update_away s.oauth.clients id k (some c)
          (differs_text id k (λ same. none_differs absent (ap s.oauth.clients same ∙ e)))
        ∙ e
    Write-clients (session_saved s id sess b) k d e = e
    Write-clients (session_taken s id) k d e = e
    Write-clients (code_made s code b new) k d e = e
    Write-clients (code_marked s now raw code at) k d e = e
    Write-clients (refresh_made s t new) k d e = e
    Write-clients (refresh_marked s now hash t at) k d e = e
    Write-clients (tokens_changed s tokens) k d e = e

    -- what was there is still bound after a write, and what is written is
    IsSound-Write :
        {s t : Server} (w : Write parse_url patterns NewCode NewHash s t)
        → ((id : String) (sess : LoginSession)
            → s.oauth.logins id ≡ some sess
            → SessionIsBound t.oauth sess)
        → ((raw : String) (code : AuthorizationCode)
            → s.oauth.codes raw ≡ some code
            → CodeIsBound t.oauth code)
        → IsSound t.oauth
    IsSound-Write (client_made s id c absent) sessions codes = record {
      sessions = sessions;
      codes = codes;
    }
    IsSound-Write {s} {t} (session_saved _ id sess b) sessions codes = record {
      sessions =
          written (SessionIsBound t.oauth) s.oauth.logins id (some sess)
            (λ x e.
              subst (SessionIsBound t.oauth) (same_some refl e)
                (IsBound-keeps s.oauth t.oauth (λ k d f. f) b))
            sessions;
      codes = codes;
    }
    IsSound-Write {s} {t} (session_taken _ id) sessions codes = record {
      sessions =
          written (SessionIsBound t.oauth) s.oauth.logins id none
            (λ x e. absurd (none_differs refl e)) sessions;
      codes = codes;
    }
    IsSound-Write {s} {t} (code_made _ code b new) sessions codes = record {
      sessions = sessions;
      codes =
          written (CodeIsBound t.oauth) s.oauth.codes code.code (some code)
            (λ x e.
              subst (CodeIsBound t.oauth) (same_some refl e)
                (IsBound-keeps s.oauth t.oauth (λ k d f. f) b))
            codes;
    }
    IsSound-Write {s} {t} (code_marked _ now raw code at) sessions codes = record {
      sessions = sessions;
      codes =
          written (CodeIsBound t.oauth) s.oauth.codes raw
            (some (record code { used_at = some now }))
            (λ x e.
              subst (CodeIsBound t.oauth) (same_some refl e)
                (IsBound-keeps t.oauth t.oauth (λ k d f. f) (codes raw code at)))
            codes;
    }
    IsSound-Write (refresh_made s t new) sessions codes = record {
      sessions = sessions;
      codes = codes;
    }
    IsSound-Write (refresh_marked s now hash t at) sessions codes = record {
      sessions = sessions;
      codes = codes;
    }
    IsSound-Write (tokens_changed s tokens) sessions codes = record {
      sessions = sessions;
      codes = codes;
    }

    Write-IsSound :
        {s t : Server}
        → Write parse_url patterns NewCode NewHash s t
        → IsSound s.oauth
        → IsSound t.oauth
    Write-IsSound {s} {t} w sound =
        let keeps = Write-clients w in
        IsSound-Write w
          (λ id sess e. IsBound-keeps s.oauth t.oauth keeps (sound.sessions id sess e))
          (λ raw code e. IsBound-keeps s.oauth t.oauth keeps (sound.codes raw code e))

    pub Writes-clients :
        {s t : Server}
        → Writes parse_url patterns NewCode NewHash s t
        → KeepsClients s.oauth t.oauth
    Writes-clients unchanged k d e = e
    Writes-clients (then_write ws w) k d e = Write-clients w k d (Writes-clients ws k d e)

    pub Writes-IsSound :
        {s t : Server}
        → Writes parse_url patterns NewCode NewHash s t
        → IsSound s.oauth
        → IsSound t.oauth
    Writes-IsSound unchanged sound = sound
    Writes-IsSound (then_write ws w) sound = Write-IsSound w (Writes-IsSound ws sound)
