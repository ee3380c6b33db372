-- ===== src/SecureBus/Service/Invariant.antt =====
-- The service under any interleaving of its operations: each part that runs under the lock is a
-- step, and what a caller prepared outside it may be of any state.
use synamcps_server.Prelude.{
  suc, ◌+◌, String, Option, none, some, List, [], ◌∷◌, ◌≡◌, inl, inr, refl, ap, arith, length,
  last?, map, Option-cases,
}
use synamcps_server.Prelude.Numbered.{Numbered, Numbered-append, Numbered-last, Numbered-map}
use synamcps_server.Prelude.Maps.{update-All}
use synamcps_server.Crypto.{Bytes, Crypto}
use synamcps_server.Policy.{Scope}
use synamcps_server.SecureBus.Document.{Document, DocumentError}
use synamcps_server.SecureBus.Service.{
  SignedPolicy, Message, Attestation, Service, Env, Result, ok, err, BusError, new_service,
  topic_of, next_version, store_policy, put_checked, put_policy, topic_document,
}
use synamcps_server.SecureBus.Service.Publish.{Draft, append_message, commit_message}
use synamcps_server.SecureBus.Service.Attest.{supersede, commit_attestation}
use synamcps_server.SecureBus.Service.Attest.Words.{OneWord, OneWord-append}

-- The versions and ids of a topic count from 1 with none left out, and a signer has one live word
-- on a message at most.
pub record WellFormed (s : Service) : Type 0 where
  pub versions : (o : String) → Numbered (λ p. p.version) 1 (s.policies o)
  pub messages : (o : String) → Numbered (λ m. m.id) 1 (s.messages o)
  pub attests : (o : String) → Numbered (λ a. a.id) 1 (s.attests o)
  pub events : (o : String) → Numbered (λ e. e.id) 1 (s.events o)
  pub one_word : (o : String) → OneWord (s.attests o)

pub new_service-WellFormed : WellFormed new_service
new_service-WellFormed = record {
  versions = λ o. tt;
  messages = λ o. tt;
  attests = λ o. tt;
  events = λ o. tt;
  one_word = λ o i k. ground arith;
}

next_version-length :
    (versions : List SignedPolicy)
    → Numbered (λ p. p.version) 1 versions
    → next_version versions ≡ 1 + length versions
unfolding next_version
next_version-length versions h = elim (Option-cases (last? versions)) [
  | inl e ↦ rw (e, next_version) (empty versions e)
  | inr (sp, e) ↦
      rw (e, next_version) (ground (arith, Numbered-last (λ p. p.version) 1 versions sp h e))
]
  where
    some_last : (y : SignedPolicy) (ys : List SignedPolicy) → last? (y ∷ ys) ≡ none → ⊥
    some_last y [] e = ground arith
    some_last y (z ∷ zs) e = some_last z zs e

    empty : (xs : List SignedPolicy) → last? xs ≡ none → 1 ≡ 1 + length xs
    empty [] e = refl
    empty (x ∷ []) e = ground arith
    empty (x ∷ y ∷ ys) e = absurd (some_last y ys e)

store_policy-WellFormed :
    (env : Env) (s : Service) (o : String) (doc : Document) (signed : Option (Bytes × Bytes))
    → WellFormed s
    → WellFormed (store_policy env s o doc signed).0
unfolding store_policy
store_policy-WellFormed env s o doc none w = w
store_policy-WellFormed env s o doc (some (hash, sig)) w = record {
  versions = update-All (Numbered (λ p. p.version) 1) s.policies o _ w.versions (
      Numbered-append (λ p. p.version) 1 (s.policies o) _ (w.versions o)
        (next_version-length (s.policies o) (w.versions o)));
  messages = w.messages;
  attests = w.attests;
  events = w.events;
  one_word = w.one_word;
}

put_checked-WellFormed :
    (env : Env) (s : Service) (o : String) (doc : Document) (e : Option DocumentError)
    (k : Option BusError)
    → WellFormed s
    → WellFormed (put_checked env s o doc e k).0
unfolding put_checked
put_checked-WellFormed env s o doc (some e) k w = w
put_checked-WellFormed env s o doc none (some e) w = w
put_checked-WellFormed env s o doc none none w = store_policy-WellFormed env s o _ _ w

pub put_policy-WellFormed :
    (env : Env) (s : Service) (scope : Option Scope) (doc : Document)
    → WellFormed s
    → WellFormed (put_policy env s scope doc).0
unfolding put_policy
put_policy-WellFormed env s scope doc w = elim (Option-cases (topic_of scope)) [
  | inl e ↦ rw (e, put_policy) w
  | inr (o, e) ↦
      rw (e, put_policy) (put_checked-WellFormed env s o (topic_document env o doc) _ _ w)
]

append_message-WellFormed :
    (s : Service) (o : String) (r : Result Message)
    → WellFormed s
    → WellFormed (append_message s o r).0
unfolding append_message
append_message-WellFormed s o (err e) w = w
append_message-WellFormed s o (ok m) w = record {
  versions = w.versions;
  messages =
      update-All (Numbered (λ m. m.id) 1) s.messages o _ w.messages
        (Numbered-append (λ m. m.id) 1 (s.messages o) _ (w.messages o) (omega arith));
  attests = w.attests;
  events =
      update-All (Numbered (λ e. e.id) 1) s.events o _ w.events
        (Numbered-append (λ e. e.id) 1 (s.events o) _ (w.events o) (omega arith));
  one_word = w.one_word;
}

pub commit_message-WellFormed :
    (crypto : Crypto) (s : Service) (d : Draft)
    → WellFormed s
    → WellFormed (commit_message crypto s d).0
unfolding commit_message
commit_message-WellFormed crypto s d w = append_message-WellFormed s d.object_id _ w

supersede-id : (att a : Attestation) → (supersede att a).id ≡ a.id
unfolding supersede
supersede-id att a = ground arith

length-map {ℓ κ} :
    {A : Type ℓ} {B : Type κ} (f : A → B) (xs : List A) → length (map f xs) ≡ length xs
length-map f [] = refl
length-map f (x ∷ xs) = ap suc (length-map f xs)

pub commit_attestation-WellFormed :
    (s : Service) (a : Attestation)
    → a.superseded_at ≡ none
    → WellFormed s
    → WellFormed (commit_attestation s a).0
unfolding commit_attestation
commit_attestation-WellFormed s a free w = record {
  versions = w.versions;
  messages = w.messages;
  attests = update-All (Numbered (λ a. a.id) 1) s.attests a.object_id _ w.attests (
      Numbered-append (λ a. a.id) 1 (map (supersede a) (s.attests a.object_id)) _
        (Numbered-map (λ a. a.id) (supersede a) (supersede-id a) 1 (s.attests a.object_id)
          (w.attests a.object_id))
        (rw length-map (omega arith)));
  events =
      update-All (Numbered (λ e. e.id) 1) s.events a.object_id _ w.events (
        Numbered-append (λ e. e.id) 1 (s.events a.object_id) _ (w.events a.object_id)
          (omega arith));
  one_word =
      update-All OneWord s.attests a.object_id _ w.one_word
        (OneWord-append a (s.attests a.object_id) _ refl refl free (w.one_word a.object_id));
}
