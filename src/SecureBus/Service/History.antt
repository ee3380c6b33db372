-- ===== src/SecureBus/Service/History.antt =====
-- What no run of the service changes: the messages that were published.
use synamcps_server.Prelude.Lists.{append_nil, append_assoc}
use synamcps_server.Prelude.{
  ℕ, ◌+◌, String, Bool, Option, none, some, List, [], ◌∷◌, ◌++◌, ◌≡◌, inl, inr, refl, ap, ◌∙◌,
  arith, eq_iff, length, find?, ◌==◌, Option-cases, Bool-cases,
}
use synamcps_server.Prelude.Strings.{◌=ˢ◌}
use synamcps_server.Crypto.{Bytes, Crypto}
use synamcps_server.Policy.{Scope}
use synamcps_server.SecureBus.Document.{Document, DocumentError, Condition}
use synamcps_server.SecureBus.Service.{
  Message, Attestation, Service, Env, Result, ok, err, BusError, topic_of, store_policy,
  put_checked, put_policy, topic_document,
}
use synamcps_server.SecureBus.Service.Publish.{Draft, append_message, commit_message}
use synamcps_server.SecureBus.Service.Attest.{commit_attestation, get_message}
use synamcps_server.SecureBus.Service.Consume.{consume}
use synamcps_server.SecureBus.Service.Runs.{
  consume-logs, Step, put_policy_step, publish_step, attest_step, consume_step, Run, here, next,
}

abbrev pub Extends : Service → Service → Type 0
Extends s t = (o : String) → (rest : List Message) × (t.messages o ≡ s.messages o ++ rest)

same_messages : (s t : Service) → t.messages ≡ s.messages → Extends s t
same_messages s t e o = ([], ap (λ f. f o) e ∙ append_nil (s.messages o))

put_checked-messages :
    (env : Env) (s : Service) (o : String) (doc : Document) (e : Option DocumentError)
    (k : Option BusError)
    → (put_checked env s o doc e k).0.messages ≡ s.messages
unfolding put_checked
put_checked-messages env s o doc (some e) k = refl
put_checked-messages env s o doc none (some e) = refl
put_checked-messages env s o doc none none = stored env s o _ _
  where
    stored :
        (env : Env) (s : Service) (o : String) (doc : Document) (signed : Option (Bytes × Bytes))
        → (store_policy env s o doc signed).0.messages ≡ s.messages
    stored env s o doc none = unfold store_policy in refl
    stored env s o doc (some (hash, sig)) = unfold store_policy in refl

put_policy-messages :
    (env : Env) (s : Service) (scope : Option Scope) (doc : Document)
    → (put_policy env s scope doc).0.messages ≡ s.messages
unfolding put_policy
put_policy-messages env s scope doc = elim (Option-cases (topic_of scope)) [
  | inl e ↦ rw (e, put_policy) refl
  | inr (o, e) ↦ rw (e, put_policy) (put_checked-messages env s o (topic_document env o doc) _ _)
]

append_message-Extends :
    (s : Service) (o : String) (r : Result Message) → Extends s (append_message s o r).0
unfolding append_message
append_message-Extends s o (err e) j = same_messages s s refl j
append_message-Extends s o (ok m) j = elim (Bool-cases (o =ˢ j)) [
  | inl same ↦
      let e = (eq_iff o j).0 same in
      (
        record m { id = length (s.messages o) + 1 } ∷ [],
        rw same (ap (λ k. s.messages k ++ record m { id = length (s.messages o) + 1 } ∷ []) e),
      )
  | inr away ↦ ([], rw away (append_nil (s.messages j)))
]

commit_message-Extends :
    (crypto : Crypto) (s : Service) (d : Draft) → Extends s (commit_message crypto s d).0
unfolding commit_message
commit_message-Extends crypto s d = append_message-Extends s d.object_id _

commit_attestation-messages :
    (s : Service) (a : Attestation) → (commit_attestation s a).0.messages ≡ s.messages
unfolding commit_attestation
commit_attestation-messages s a = refl

find?-append {ℓ} :
    {A : Type ℓ} (p : A → Bool) (xs ys : List A) (x : A)
    → find? p xs ≡ some x
    → find? p (xs ++ ys) ≡ some x
find?-append p [] ys x h = absurd (ground arith)
find?-append p (y ∷ xs) ys x h = ground (arith, find?-append p xs ys x)

module _ {J : Type 0} (decode : J → Option Condition) where
  Step-Extends : {s t : Service} → Step decode s t → Extends s t
  Step-Extends {s} (put_policy_step env scope doc) =
      same_messages s (put_policy env s scope doc).0 (put_policy-messages env s scope doc)
  Step-Extends {s} (publish_step env seen scope i d h) = commit_message-Extends env.crypto s d
  Step-Extends {s} (attest_step env seen scope i a h) =
      same_messages s (commit_attestation s a).0 (commit_attestation-messages s a)
  Step-Extends {s} (consume_step scope consumer name ad_hoc max) =
      same_messages s (consume decode s scope consumer name ad_hoc max).0
        (consume-logs decode s scope consumer name ad_hoc max).1

  Run-Extends : {s t : Service} → Run decode s t → Extends s t
  Run-Extends {s} here o = same_messages s s refl o
  Run-Extends {s} (next run step) o =
      let (before, e) = Run-Extends run o in
      let (after, f) = Step-Extends step o in
      (before ++ after, f ∙ ap (λ l. l ++ after) e ∙ append_assoc (s.messages o) before after)

  -- A message that can be read is read the same ever after, whatever runs: no operation changes or
  -- removes one, and none gets its id.
  pub Run-get_message :
      (s t : Service) (o : String) (id : ℕ) (m : Message)
      → Run decode s t
      → get_message s o id ≡ some m
      → get_message t o id ≡ some m
  unfolding get_message
  Run-get_message s t o id m run h =
      let (rest, e) = Run-Extends run o in
      rw e (find?-append (λ x. x.id == id) (s.messages o) rest m h)
