-- ===== src/SecureBus/Service/Put.antt =====
-- What publishing a policy leaves: a valid document of agents with live keys as the current policy.
use synamcps_server.Prelude.{
  String, Option, none, some, List, [], ◌∷◌, ◌++◌, ◌≡◌, inl, inr, refl, sym, subst, arith, eq_refl,
  last?-append, Option-cases,
}
use synamcps_server.Prelude.Maps.{Dict}
use synamcps_server.Prelude.Ints.{pos}
use synamcps_server.Crypto.{Bytes}
use synamcps_server.AgentKeys.{Key}
use synamcps_server.Policy.{Scope}
use synamcps_server.SecureBus.Document.{Document, DocumentError, AgentRef, validate_document}
use synamcps_server.SecureBus.Document.Laws.{IsValid, validate_document_iff}
use synamcps_server.SecureBus.Service.{
  SignedPolicy, Service, Env, Result, ok, err, BusError, kind_mismatch, topic_of, check_agent_keys,
  next_version, store_policy, topic_document, put_checked, put_policy, found, get_policy,
  current_policy,
}

-- The keys of the agents are known and not revoked.
abbrev pub LiveKeys : (String → Result (Option Key)) → Dict AgentRef → Type 0
LiveKeys get_key [] = Unit
LiveKeys get_key ((name, a) ∷ agents) =
    ((k : Key) × (get_key a.key_id ≡ ok (some k)) × (k.revoked_at ≡ none)) × LiveKeys get_key agents

check_agent_keys-LiveKeys :
    (get_key : String → Result (Option Key)) (agents : Dict AgentRef)
    → check_agent_keys get_key agents ≡ none
    → LiveKeys get_key agents
unfolding check_agent_keys
check_agent_keys-LiveKeys get_key [] h = tt
check_agent_keys-LiveKeys get_key ((name, a) ∷ agents) h =
    go (check_agent_keys-LiveKeys get_key agents) (get_key a.key_id) refl
  where
    some_error : (e : BusError) → some e ≡ none → ⊥
    some_error e x = ground arith

    go :
        (check_agent_keys get_key agents ≡ none → LiveKeys get_key agents)
        → (r : Result (Option Key)) → get_key a.key_id ≡ r
        → LiveKeys get_key ((name, a) ∷ agents)
    go rest (err e) g = absurd (some_error e (rw (g, check_agent_keys) at h))
    go rest (ok none) g = absurd (some_error _ (rw (g, check_agent_keys) at h))
    go rest (ok (some k)) g = elim (Option-cases k.revoked_at) [
      | inl live ↦ ((k, g, live), rest (rw (g, live, check_agent_keys) at h))
      | inr (t, gone) ↦ absurd (some_error _ (rw (g, gone, check_agent_keys) at h))
    ]

-- The last policy of the topic is the one that was put, signed, of the next version.
abbrev pub Newest : Env → Service → Service → String → Document → SignedPolicy → Type 0
Newest env s s' o doc sp =
    (sp.version ≡ next_version (s.policies o))
    × (sp.document ≡ record doc { version = pos (next_version (s.policies o)) })
    × (s'.policies o ≡ s.policies o ++ sp ∷ [])

abbrev Stored : Env → Service → String → Document → Service × Result SignedPolicy → Type 0
Stored env s o doc (s', err e) = s' ≡ s
Stored env s o doc (s', ok sp) =
    IsValid doc × LiveKeys env.get_key doc.agents × Newest env s s' o doc sp

store_policy-Stored :
    (env : Env) (s : Service) (o : String) (doc : Document) (signed : Option (Bytes × Bytes))
    → IsValid doc
    → LiveKeys env.get_key doc.agents
    → Stored env s o doc
        (store_policy env s o (record doc { version = pos (next_version (s.policies o)) }) signed)
unfolding store_policy
store_policy-Stored env s o doc none valid live = refl
store_policy-Stored env s o doc (some (hash, sig)) valid live =
    (valid, live, (refl, refl, rw (eq_refl o) refl))

put_checked-Stored :
    (env : Env) (s : Service) (o : String) (doc : Document) (e : Option DocumentError)
    (k : Option BusError)
    → validate_document doc ≡ e
    → check_agent_keys env.get_key doc.agents ≡ k
    → Stored env s o doc (put_checked env s o doc e k)
unfolding put_checked
put_checked-Stored env s o doc (some e) k valid live = refl
put_checked-Stored env s o doc none (some e) valid live = refl
put_checked-Stored env s o doc none none valid live =
    store_policy-Stored env s o doc _ ((validate_document_iff doc).0 valid)
      (check_agent_keys-LiveKeys env.get_key doc.agents live)

abbrev pub PolicyPut :
    Env → Service → Option Scope → Document → Service × Result SignedPolicy → Type 0
PolicyPut env s scope doc (s', err e) = s' ≡ s
PolicyPut env s scope doc (s', ok sp) =
    (o : String) × (topic_of scope ≡ some o)
    × IsValid (topic_document env o doc)
    × LiveKeys env.get_key (topic_document env o doc).agents
    × (current_policy s' scope ≡ ok sp)
    × Newest env s s' o (topic_document env o doc) sp

current_of :
    (s : Service) (scope : Option Scope) (o : String) (before : List SignedPolicy)
    (sp : SignedPolicy)
    → topic_of scope ≡ some o
    → s.policies o ≡ before ++ sp ∷ []
    → current_policy s scope ≡ ok sp
unfolding current_policy get_policy found
current_of s scope o before sp top e =
    rw (top, e, last?-append before sp, current_policy, get_policy) refl

Stored-put :
    (env : Env) (s : Service) (scope : Option Scope) (o : String) (doc : Document)
    (out : Service × Result SignedPolicy)
    → topic_of scope ≡ some o
    → Stored env s o (topic_document env o doc) out
    → PolicyPut env s scope doc out
Stored-put env s scope o doc (s', err e) top st = st
Stored-put env s scope o doc (s', ok sp) top (valid, live, newest) =
    (o, top, valid, live, current_of s' scope o (s.policies o) sp top newest.2, newest)

put_off_topic :
    (env : Env) (s : Service) (scope : Option Scope) (doc : Document)
    → topic_of scope ≡ none
    → put_policy env s scope doc ≡ (s, err kind_mismatch)
unfolding put_policy
put_off_topic env s scope doc h = rw (h, put_policy) refl

put_on_topic :
    (env : Env) (s : Service) (scope : Option Scope) (doc : Document) (o : String)
    → topic_of scope ≡ some o
    → put_policy env s scope doc
      ≡ put_checked env s o
          (topic_document env o doc)
          (validate_document (topic_document env o doc))
          (check_agent_keys env.get_key (topic_document env o doc).agents)
unfolding put_policy
put_on_topic env s scope doc o h = rw (h, put_policy) refl

put_topic :
    (env : Env) (s : Service) (scope : Option Scope) (doc : Document) (top : Option String)
    → topic_of scope ≡ top
    → PolicyPut env s scope doc (put_policy env s scope doc)
put_topic env s scope doc none h =
    subst (PolicyPut env s scope doc) (sym (put_off_topic env s scope doc h)) refl
put_topic env s scope doc (some o) h =
    subst (PolicyPut env s scope doc) (sym (put_on_topic env s scope doc o h)) (
      Stored-put env s scope o doc _ h
        (put_checked-Stored env s o (topic_document env o doc) _ _ refl refl))

-- A policy is refused and nothing changes, or the document, made the topic's own, is valid, every
-- key of its agents is known and not revoked, and it becomes the topic's current policy, under the
-- next version and after all earlier ones, which stay.
pub put_policy-PolicyPut :
    (env : Env) (s : Service) (scope : Option Scope) (doc : Document)
    → PolicyPut env s scope doc (put_policy env s scope doc)
put_policy-PolicyPut env s scope doc = put_topic env s scope doc _ refl
