-- ===== src/SecureBus/Service/Verify.antt =====
-- `Verify`, `listAttestations` and `Keys` of internal/securebus/service.go.
pub mod Laws
use synamcps_server.Prelude.{
  ℕ, String, Bool, true, false, Option, none, some, List, [], ◌∷◌, ◌&&◌, if◌then◌else◌, is_some,
  ◌==◌, keep, map,
}
use synamcps_server.Prelude.Strings.{◌=ˢ◌}
use synamcps_server.Prelude.Ints.{ℤ}
use synamcps_server.Prelude.Maps.{Dict}
use synamcps_server.Crypto.{Bytes, Envelope, Crypto, verify_agent_sig, hash_text}
use synamcps_server.AgentKeys.{Key}
use synamcps_server.Policy.{Scope}
use synamcps_server.SecureBus.Document.{Document, AgentRef}
use synamcps_server.SecureBus.Service.{
  SignedPolicy, Message, Attestation, Service, Env, Result, ok, err, kind_mismatch, not_found,
  topic_of, current_policy,
}
use synamcps_server.SecureBus.Service.Publish.{envelope_of}
use synamcps_server.SecureBus.Service.Attest.{get_message, attestation_envelope}

pub record AttestationCheck : Type 0 where
  pub signer_key_id : String
  pub status : String
  pub signature_ok : Bool
  pub key_revoked_at : Option ℕ
  pub superseded : Bool

pub record VerifyResult : Type 0 where
  pub message : Message
  pub attestations : List Attestation
  pub signature_ok : Bool
  pub hash_ok : Bool
  pub policy_version : ℤ
  pub attestation_checks : List AttestationCheck

unfoldable pub list_attestations : Service → String → ℕ → List Attestation
list_attestations s object_id message_id =
    keep (λ a. a.message_id == message_id) (s.attests object_id)

-- `k, ok, _ := s.keys.Get(...)`: a store that fails has no key
abbrev pub key_of : Result (Option Key) → Option Key
key_of (err e) = none
key_of (ok k) = k

signature_of : Crypto → Option Key → Option Bytes → Envelope → Bool
signature_of crypto none sig envelope = false
signature_of crypto (some k) none envelope = false
signature_of crypto (some k) (some sig) envelope =
    verify_agent_sig crypto k.algorithm k.public_key sig envelope

unfoldable pub attestation_check : Env → Attestation → AttestationCheck
unfolding signature_of
attestation_check env a =
    let key = key_of (env.get_key a.signer_key_id) in
    record {
      signer_key_id = a.signer_key_id;
      status = a.status;
      signature_ok =
          signature_of env.crypto key (env.crypto.decode_b64 a.signature) (attestation_envelope a);
      key_revoked_at = elim key [ none ↦ none | some k ↦ k.revoked_at ];
      superseded = is_some a.superseded_at;
    }

unfoldable pub verify_message : Env → Service → String → Message → VerifyResult
unfolding signature_of
verify_message env s object_id m =
    let atts = list_attestations s object_id m.id in
    record {
      message = m;
      attestations = atts;
      signature_ok =
          signature_of env.crypto (key_of (env.get_key m.author_key_id))
            (env.crypto.decode_b64 m.signature) (envelope_of object_id m);
      hash_ok = hash_text env.crypto (envelope_of object_id m) =ˢ m.hash;
      policy_version = m.policy_version;
      attestation_checks = map (attestation_check env) atts;
    }

-- `Verify`
unfoldable pub verify : Env → Service → Option Scope → ℕ → Result VerifyResult
verify env s scope message_id = elim (topic_of scope) [
  | none ↦ err kind_mismatch
  | some object_id ↦ elim (get_message s object_id message_id) [
    | none ↦ err not_found
    | some m ↦ ok (verify_message env s object_id m)
  ]
]

-- the loop of `Keys`
unfoldable pub keys_of : (String → Result (Option Key)) → Dict AgentRef → Result (List Key)
keys_of get_key [] = ok []
keys_of get_key ((name, a) ∷ agents) =
    let rest = keys_of get_key agents in
    elim (get_key a.key_id) [
      | err e ↦ err e
      | ok none ↦ rest
      | ok (some k) ↦ elim rest [ err e ↦ err e | ok ks ↦ ok (k ∷ ks) ]
    ]

-- `Keys`
unfoldable pub keys : Env → Service → Option Scope → Result (List Key)
keys env s scope = elim (current_policy s scope) [
  | err e ↦ err e
  | ok pol ↦ keys_of env.get_key pol.document.agents
]
