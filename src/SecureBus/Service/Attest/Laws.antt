-- ===== src/SecureBus/Service/Attest/Laws.antt =====
-- An agent's attestation of a message supersedes its earlier ones, and is checked like a message.
use synamcps_server.SecureBus.Service.Attest.Words.{live, OneWord, live_new, OneWord-append}
use synamcps_server.Prelude.{
  ◌+◌, String, true, false, Option, none, some, [], ◌∷◌, ◌≡◌, inl, inr, refl, ◌≢◌, length,
  Bool-cases, subst, eq_refl,
}
use synamcps_server.Crypto.{Bytes, verify_agent_sig}
use synamcps_server.AgentKeys.{Key}
use synamcps_server.Policy.{Scope}
use synamcps_server.SecureBus.Service.{
  SignedPolicy, Message, Attestation, Service, Env, Result, ok, err, topic_of,
}
use synamcps_server.SecureBus.Service.Publish.{caller_key, named_policy, allowed}
use synamcps_server.SecureBus.Service.Publish.Callers.{IsOwnKey, IsAgentOf}
use synamcps_server.SecureBus.Service.Attest.{
  AttestInput, get_message, attestation_envelope, too_long, unsigned_attestation, known_status,
  sign_checked, on_message, attest_allowed, attest_keyed, draft_attestation, commit_attestation,
  attest,
}

-- What an attestation that is let through has made sure of.
abbrev pub Vouched : Env → Service → Option Scope → AttestInput → Attestation → Type 0
Vouched env s scope i a =
    (o : String) × (key : Key) × (policy : SignedPolicy) × (m : Message) × (sig : Bytes) × (topic_of
        scope
      ≡ some o)
    × (caller_key env i.key_id i.subject_key i.token_id ≡ ok key)
    × (named_policy env s scope o i.policy_version "" ≡ ok policy)
    × (allowed policy "attest" i.key_id ≡ true)
    × (known_status i.status ≡ true)
    × (too_long policy.document.attestation.comment_max_bytes i.comment ≡ false)
    × (get_message s o i.message_id ≡ some m)
    × (env.crypto.decode_b64 i.signature ≡ some sig)
    × (a ≡ unsigned_attestation env o i m)
    × (verify_agent_sig env.crypto key.algorithm key.public_key sig (attestation_envelope a) ≡ true)

abbrev Vouching : Env → Service → Option Scope → AttestInput → Result Attestation → Type 0
Vouching env s scope i (err e) = Unit
Vouching env s scope i (ok a) = Vouched env s scope i a

module _ (env : Env) (s : Service) (scope : Option Scope) (i : AttestInput) where
  signed-Vouching :
      (o : String) (key : Key) (policy : SignedPolicy) (m : Message) (found : Option Bytes)
      → topic_of scope ≡ some o
      → caller_key env i.key_id i.subject_key i.token_id ≡ ok key
      → named_policy env s scope o i.policy_version "" ≡ ok policy
      → allowed policy "attest" i.key_id ≡ true
      → known_status i.status ≡ true
      → too_long policy.document.attestation.comment_max_bytes i.comment ≡ false
      → get_message s o i.message_id ≡ some m
      → env.crypto.decode_b64 i.signature ≡ found
      → Vouching env s scope i (sign_checked env key (unsigned_attestation env o i m) found)
  unfolding sign_checked
  signed-Vouching o key policy m none top k named may status short there sig = tt
  signed-Vouching o key policy m (some bytes) top k named may status short there sig =
      elim (Bool-cases (
        verify_agent_sig env.crypto key.algorithm key.public_key bytes
          (attestation_envelope (unsigned_attestation env o i m)))) [
            | inl good ↦ rw good (
              o, key, policy, m, bytes, top, k, named, may, status, short, there, sig, refl, good,
            )
            | inr bad ↦ rw bad tt
          ]

  message-Vouching :
      (o : String) (key : Key) (policy : SignedPolicy) (found : Option Message)
      → topic_of scope ≡ some o
      → caller_key env i.key_id i.subject_key i.token_id ≡ ok key
      → named_policy env s scope o i.policy_version "" ≡ ok policy
      → allowed policy "attest" i.key_id ≡ true
      → known_status i.status ≡ true
      → too_long policy.document.attestation.comment_max_bytes i.comment ≡ false
      → get_message s o i.message_id ≡ found
      → Vouching env s scope i (on_message env o i key found)
  unfolding on_message
  message-Vouching o key policy none top k named may status short there = tt
  message-Vouching o key policy (some m) top k named may status short there =
      signed-Vouching o key policy m _ top k named may status short there refl

  allowed-Vouching :
      (o : String) (key : Key) (r : Result SignedPolicy)
      → topic_of scope ≡ some o
      → caller_key env i.key_id i.subject_key i.token_id ≡ ok key
      → named_policy env s scope o i.policy_version "" ≡ r
      → Vouching env s scope i (attest_allowed env s o i key r)
  unfolding attest_allowed
  allowed-Vouching o key (err e) top k named = tt
  allowed-Vouching o key (ok policy) top k named =
      elim (Bool-cases (allowed policy "attest" i.key_id)) [
        | inr no_may ↦ rw no_may tt
        | inl may ↦ elim (Bool-cases (known_status i.status)) [
          | inr unknown ↦ rw (may, unknown) tt
          | inl status ↦
              elim (Bool-cases (too_long policy.document.attestation.comment_max_bytes i.comment)) [
                | inl long ↦ rw (may, status, long) tt
                | inr short ↦
                    rw (may, status, short)
                      (message-Vouching o key policy _ top k named may status short refl)
              ]
        ]
      ]

  keyed-Vouching :
      (o : String) (r : Result Key)
      → topic_of scope ≡ some o
      → caller_key env i.key_id i.subject_key i.token_id ≡ r
      → Vouching env s scope i (attest_keyed env s scope o i r)
  unfolding attest_keyed
  keyed-Vouching o (err e) top k = tt
  keyed-Vouching o (ok key) top k = allowed-Vouching o key _ top k refl

  topic-Vouching :
      (top : Option String)
      → topic_of scope ≡ top
      → Vouching env s scope i (draft_attestation env s scope i)
  unfolding draft_attestation
  topic-Vouching none h = rw (h, Vouching) tt
  topic-Vouching (some o) h = rw (h, Vouching) (keyed-Vouching o _ h refl)

  -- An attestation that is let through to the lock is by the caller's own key, which an agent has
  -- that the named policy lets attest, with a known status and a comment within the policy's limit,
  -- on a message of the topic, and its signature binds it to that message's hash.
  pub draft_attestation-Vouched :
      (a : Attestation) → draft_attestation env s scope i ≡ ok a → Vouched env s scope i a
  draft_attestation-Vouched a h = subst (Vouching env s scope i) h (topic-Vouching _ refl)

-- The commit of an attestation adds it, with the next id, as its signer's only live word on the
-- message; where every signer had one live word on a message at most, that stays so.
pub commit_attestation-OneWord :
    (s : Service) (a : Attestation)
    → a.superseded_at ≡ none
    → OneWord (s.attests a.object_id)
    → OneWord ((commit_attestation s a).0.attests a.object_id)
      × (live a.message_id a.signer_key_id ((commit_attestation s a).0.attests a.object_id)
          ≡ (commit_attestation s a).1 ∷ [])
      × ((commit_attestation s a).1.id ≡ length (s.attests a.object_id) + 1)
unfolding commit_attestation
commit_attestation-OneWord s a free one = (
  rw (eq_refl a.object_id) (OneWord-append a (s.attests a.object_id) _ refl refl free one),
  rw (eq_refl a.object_id) (live_new a (s.attests a.object_id) _ refl refl free),
  refl,
)

-- An attestation says what the call asks for, of the message `m` of the topic `o`.
abbrev pub SaysAsAsked : Env → String → AttestInput → Message → Attestation → Type 0
SaysAsAsked env o i m att =
    (att.object_id ≡ o)
    × (att.message_id ≡ i.message_id)
    × (att.message_hash ≡ m.hash)
    × (att.signer_key_id ≡ i.key_id)
    × (att.policy_version ≡ i.policy_version)
    × (att.status ≡ i.status)
    × (att.comment ≡ i.comment)
    × (att.signature ≡ i.signature)
    × (att.created_at ≡ (elim i.created_at [ none ↦ env.now | some t ↦ t ]))
    × (att.superseded_at ≡ none)

-- What an attestation comes to: its signature is checked over the envelope of the very attestation
-- that is stored and returned.
abbrev pub Attested :
    Env → Service → Option Scope → AttestInput → Service × Result Attestation → Type 0
Attested env s scope i (s', err e) = s' ≡ s
Attested env s scope i (s', ok att) =
    (a : Attestation) × (v : Vouched env s scope i a) × (att
      ≡ record a { id = length (s.attests v.0) + 1 })
    × SaysAsAsked env v.0 i v.3 att
    × (verify_agent_sig env.crypto v.1.algorithm v.1.public_key v.4 (attestation_envelope att)
        ≡ true)
    × (live i.message_id i.key_id (s'.attests v.0) ≡ att ∷ [])
    × ((p : String) → v.0 ≢ p → s'.attests p ≡ s.attests p)
    × (s'.messages ≡ s.messages)
    × (s'.policies ≡ s.policies)
    × IsOwnKey env i.key_id i.subject_key i.token_id v.1
    × IsAgentOf v.2.document v.2.document.rules.attest i.key_id
