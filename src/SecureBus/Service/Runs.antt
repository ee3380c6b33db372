-- ===== src/SecureBus/Service/Runs.antt =====
-- The runs of the service: any interleaving of the parts of its operations that run under the lock.
use synamcps_server.Prelude.{ℕ, String, Option, none, some, ◌≡◌, inl, inr, refl, ap, Option-cases}
use synamcps_server.Prelude.Ints.{ℤ}
use synamcps_server.Policy.{Scope}
use synamcps_server.SecureBus.Document.{Document, Condition}
use synamcps_server.SecureBus.Service.{
  SignedPolicy, Attestation, Service, Env, Result, ok, err, new_service, topic_of, put_policy,
}
use synamcps_server.SecureBus.Service.Publish.{PublishInput, Draft, draft_message, commit_message}
use synamcps_server.SecureBus.Service.Attest.{
  AttestInput, draft_attestation, unsigned_attestation, commit_attestation,
}
use synamcps_server.SecureBus.Service.Attest.Laws.{Vouched, draft_attestation-Vouched}
use synamcps_server.SecureBus.Service.Consume.{
  store_progress, consume_resolved, consume_under, consume,
}
use synamcps_server.SecureBus.Service.Invariant.{
  WellFormed, new_service-WellFormed, put_policy-WellFormed, commit_message-WellFormed,
  commit_attestation-WellFormed,
}

abbrev pub SameLogs : Service → Service → Type 0
SameLogs s s' =
    (s'.policies ≡ s.policies)
    × (s'.messages ≡ s.messages)
    × (s'.attests ≡ s.attests)
    × (s'.events ≡ s.events)

module _ {J : Type 0} (decode : J → Option Condition) where
  consume_resolved-logs :
      (s : Service) (o consumer : String) (doc : Document) (found : Option Condition) (max : ℕ)
      → SameLogs s (consume_resolved s o consumer doc found max).0
  unfolding consume_resolved store_progress
  consume_resolved-logs s o consumer doc none max = (refl, refl, refl, refl)
  consume_resolved-logs s o consumer doc (some c) max = (refl, refl, refl, refl)

  consume_under-logs :
      (s : Service) (o consumer name : String) (ad_hoc : Option J) (max : ℕ)
      (r : Result SignedPolicy)
      → SameLogs s (consume_under decode s o consumer name ad_hoc max r).0
  unfolding consume_under
  consume_under-logs s o consumer name ad_hoc max (err e) = (refl, refl, refl, refl)
  consume_under-logs s o consumer name ad_hoc max (ok pol) =
      consume_resolved-logs s o consumer _ _ max

  pub consume-logs :
      (s : Service) (scope : Option Scope) (consumer name : String) (ad_hoc : Option J) (max : ℤ)
      → SameLogs s (consume decode s scope consumer name ad_hoc max).0
  unfolding consume
  consume-logs s scope consumer name ad_hoc max = elim (Option-cases (topic_of scope)) [
    | inl e ↦ rw (e, consume) (refl, refl, refl, refl)
    | inr (o, e) ↦ rw (e, consume) (consume_under-logs s o _ name ad_hoc _ _)
  ]

  -- One step. A draft is one that some caller made of some state, be it this one, an earlier one or
  -- another.
  pub data Step : Service → Service → Type 0 where
    put_policy_step :
        {s : Service} (env : Env) (scope : Option Scope) (doc : Document)
        → Step s (put_policy env s scope doc).0
    publish_step :
        {s : Service} (env : Env) (seen : Service) (scope : Option Scope) (i : PublishInput)
        (d : Draft)
        → draft_message env seen scope i ≡ ok d
        → Step s (commit_message env.crypto s d).0
    attest_step :
        {s : Service} (env : Env) (seen : Service) (scope : Option Scope) (i : AttestInput)
        (a : Attestation)
        → draft_attestation env seen scope i ≡ ok a
        → Step s (commit_attestation s a).0
    consume_step :
        {s : Service} (scope : Option Scope) (consumer name : String) (ad_hoc : Option J) (max : ℤ)
        → Step s (consume decode s scope consumer name ad_hoc max).0

  pub data Run (s : Service) : Service → Type 0 where
    here : Run s s
    next : {t u : Service} → Run s t → Step t u → Run s u

  logs-WellFormed : (s t : Service) → SameLogs s t → WellFormed s → WellFormed t
  logs-WellFormed s t (p, m, a, e) w = record {
    versions = λ o. rw (ap (λ f. f o) p) (w.versions o);
    messages = λ o. rw (ap (λ f. f o) m) (w.messages o);
    attests = λ o. rw (ap (λ f. f o) a) (w.attests o);
    events = λ o. rw (ap (λ f. f o) e) (w.events o);
    one_word = λ o i k. rw (ap (λ f. f o) a) (w.one_word o i k);
  }

  unsuperseded :
      (env : Env) (s : Service) (scope : Option Scope) (i : AttestInput) (a : Attestation)
      → Vouched env s scope i a
      → a.superseded_at ≡ none
  unfolding unsigned_attestation
  unsuperseded env s scope i a v = ap (λ x. x.superseded_at) v.13

  Step-WellFormed : {s t : Service} → Step s t → WellFormed s → WellFormed t
  Step-WellFormed {s} (put_policy_step env scope doc) w = put_policy-WellFormed env s scope doc w
  Step-WellFormed {s} (publish_step env seen scope i d h) w =
      commit_message-WellFormed env.crypto s d w
  Step-WellFormed {s} (attest_step env seen scope i a h) w =
      commit_attestation-WellFormed s a
        (unsuperseded env seen scope i a (draft_attestation-Vouched env seen scope i a h)) w
  Step-WellFormed {s} (consume_step scope consumer name ad_hoc max) w =
      logs-WellFormed s _ (consume-logs s scope consumer name ad_hoc max) w

  -- Whatever ran, the versions of a topic's policies and the ids of its messages, attestations and
  -- events count from 1 with none left out, and a signer has at most one attestation of a message
  -- that is not superseded.
  pub Run-WellFormed : {s : Service} → Run new_service s → WellFormed s
  Run-WellFormed here = new_service-WellFormed
  Run-WellFormed (next run step) = Step-WellFormed step (Run-WellFormed run)
