-- ===== src/SecureBus/Service/Publish/Drafts.antt =====
-- What a draft of a message has made sure of.
use synamcps_server.Prelude.{String, true, Option, none, some, ◌≡◌, inl, inr, refl, Bool-cases}
use synamcps_server.Json.{end}
use synamcps_server.Crypto.{Bytes, Crypto, verify_agent_sig, hash_text}
use synamcps_server.AgentKeys.{Key}
use synamcps_server.Policy.{Scope}
use synamcps_server.SecureBus.Document.{may}
use synamcps_server.SecureBus.Service.{
  SignedPolicy, Message, Service, Env, Result, ok, err, topic_of,
}
use synamcps_server.SecureBus.Service.Publish.{
  PublishInput, Draft, envelope_of, caller_key, named_policy, allowed, unsigned_message, hashed,
  check_draft, draft_allowed, draft_keyed, draft_message,
}

-- A signature of the message's own envelope, and the hash of that envelope.
abbrev pub Sealed : Crypto → String → Key → Bytes → Message → Type 0
Sealed crypto o key sig m =
    (verify_agent_sig crypto key.algorithm key.public_key sig (envelope_of o m) ≡ true)
    × (m.hash ≡ hash_text crypto (envelope_of o m))

pub hashed-envelope :
    (crypto : Crypto) (o : String) (m : Message)
    → envelope_of o (hashed crypto o m) ≡ envelope_of o m
unfolding envelope_of hashed
hashed-envelope crypto o m = refl

pub hashed-Sealed :
    (crypto : Crypto) (o : String) (key : Key) (sig : Bytes) (m : Message)
    → verify_agent_sig crypto key.algorithm key.public_key sig (envelope_of o m) ≡ true
    → Sealed crypto o key sig (hashed crypto o m)
hashed-Sealed crypto o key sig m h = (rw hashed-envelope h, unfold hashed envelope_of in refl)

-- The message has what the caller asked for.
abbrev pub Carries : Env → PublishInput → Message → Type 0
Carries env i m =
    (m.author_key_id ≡ i.key_id)
    × (m.policy_version ≡ i.policy_version)
    × (m.policy_hash ≡ i.policy_hash)
    × (m.nonce ≡ i.nonce)
    × (m.signature ≡ i.signature)
    × (m.payload ≡ (elim i.payload [ none ↦ end | some p ↦ p ]))
    × (m.created_at ≡ (elim i.created_at [ none ↦ env.now | some t ↦ t ]))

-- The draft of a caller whose key an agent of the named policy has, and whose signature is right.
abbrev pub Drafted : Env → Service → Option Scope → PublishInput → Draft → Type 0
Drafted env s scope i d =
    (topic_of scope ≡ some d.object_id)
    × (caller_key env i.key_id i.subject_key i.token_id ≡ ok d.key)
    × (named_policy env s scope d.object_id i.policy_version i.policy_hash ≡ ok d.policy)
    × (allowed d.policy "publish" i.key_id ≡ true)
    × (env.crypto.decode_b64 i.signature ≡ some d.sig)
    × Carries env i d.msg
    × Sealed env.crypto d.object_id d.key d.sig d.msg

abbrev Checked : Env → String → Key → SignedPolicy → Message → Option Bytes → Result Draft → Type 0
Checked env o key policy m found (err e) = Unit
Checked env o key policy m found (ok d) =
    (d.object_id ≡ o)
    × (d.key ≡ key)
    × (d.policy ≡ policy)
    × (found ≡ some d.sig)
    × (d.msg ≡ hashed env.crypto o m)
    × Sealed env.crypto o key d.sig d.msg

check_draft-Checked :
    (env : Env) (o : String) (key : Key) (policy : SignedPolicy) (m : Message)
    (found : Option Bytes)
    → Checked env o key policy m found (check_draft env o key policy m found)
unfolding check_draft
check_draft-Checked env o key policy m none = tt
check_draft-Checked env o key policy m (some sig) =
    elim (Bool-cases
      (verify_agent_sig env.crypto key.algorithm key.public_key sig (envelope_of o m))) [
        | inl good ↦
            rw good (refl, refl, refl, refl, refl, hashed-Sealed env.crypto o key sig m good)
        | inr bad ↦ rw bad tt
      ]

abbrev Outcome : Env → Service → Option Scope → PublishInput → Result Draft → Type 0
Outcome env s scope i (err e) = Unit
Outcome env s scope i (ok d) = Drafted env s scope i d

carries :
    (env : Env) (i : PublishInput) (o : String)
    → Carries env i (hashed env.crypto o (unsigned_message env o i))
unfolding hashed unsigned_message
carries env i o = (refl, refl, refl, refl, refl, refl, refl)

Checked-Outcome :
    (env : Env) (s : Service) (scope : Option Scope) (i : PublishInput) (o : String) (key : Key)
    (policy : SignedPolicy) (r : Result Draft)
    → topic_of scope ≡ some o
    → caller_key env i.key_id i.subject_key i.token_id ≡ ok key
    → named_policy env s scope o i.policy_version i.policy_hash ≡ ok policy
    → allowed policy "publish" i.key_id ≡ true
    → Checked env o key policy (unsigned_message env o i) (env.crypto.decode_b64 i.signature) r
    → Outcome env s scope i r
Checked-Outcome env s scope i o key policy (err e) top k named may c = tt
Checked-Outcome env s scope i o key policy (ok d) top k named may (eo, ek, ep, found, em, sealed) =
    rw (eo, ek, ep) (top, k, named, may, found, rw em (carries env i o), sealed)

draft_allowed-Outcome :
    (env : Env) (s : Service) (scope : Option Scope) (i : PublishInput) (o : String) (key : Key)
    (r : Result SignedPolicy)
    → topic_of scope ≡ some o
    → caller_key env i.key_id i.subject_key i.token_id ≡ ok key
    → named_policy env s scope o i.policy_version i.policy_hash ≡ r
    → Outcome env s scope i (draft_allowed env o i key r)
unfolding draft_allowed
draft_allowed-Outcome env s scope i o key (err e) top k named = tt
draft_allowed-Outcome env s scope i o key (ok policy) top k named =
    elim (Bool-cases (allowed policy "publish" i.key_id)) [
      | inl may ↦ rw may (
          Checked-Outcome env s scope i o key policy _ top k named may
            (check_draft-Checked env o key policy (unsigned_message env o i) _))
      | inr no_may ↦ rw no_may tt
    ]

draft_keyed-Outcome :
    (env : Env) (s : Service) (scope : Option Scope) (i : PublishInput) (o : String)
    (r : Result Key)
    → topic_of scope ≡ some o
    → caller_key env i.key_id i.subject_key i.token_id ≡ r
    → Outcome env s scope i (draft_keyed env s scope o i r)
unfolding draft_keyed
draft_keyed-Outcome env s scope i o (err e) top k = tt
draft_keyed-Outcome env s scope i o (ok key) top k =
    draft_allowed-Outcome env s scope i o key _ top k refl

draft_topic :
    (env : Env) (s : Service) (scope : Option Scope) (i : PublishInput) (top : Option String)
    → topic_of scope ≡ top
    → Outcome env s scope i (draft_message env s scope i)
unfolding draft_message
draft_topic env s scope i none h = rw (h, Outcome) tt
draft_topic env s scope i (some o) h =
    rw (h, Outcome) (draft_keyed-Outcome env s scope i o _ h refl)

pub draft_message-Drafted :
    (env : Env) (s : Service) (scope : Option Scope) (i : PublishInput) (d : Draft)
    → draft_message env s scope i ≡ ok d
    → Drafted env s scope i d
draft_message-Drafted env s scope i d h = rw h at (draft_topic env s scope i _ refl)
