-- ===== src/SecureBus/Service/Attest.antt =====
-- `Attest` of internal/securebus/service.go, in its two parts: `draft_attestation` up to the lock,
-- `commit_attestation` under it.
pub mod Words
pub mod Laws
use synamcps_server.Prelude.{
  ℕ, ◌+◌, String, Bool, true, false, Option, none, some, List, [], ◌∷◌, ◌++◌, ◌&&◌, ◌||◌, not,
  if◌then◌else◌, length, find?, is_some, ltb, ◌==◌, map,
}
use synamcps_server.Prelude.Strings.{◌=ˢ◌, codes}
use synamcps_server.Prelude.Runes.{widths}
use synamcps_server.Prelude.Ints.{ℤ, pos, negsuc}
use synamcps_server.Prelude.Maps.{update}
use synamcps_server.Crypto.{Bytes, Envelope, Crypto, attestation, verify_agent_sig}
use synamcps_server.AgentKeys.{Key}
use synamcps_server.Policy.{Scope}
use synamcps_server.SecureBus.Service.{
  SignedPolicy, Message, Attestation, Event, Service, Env, Result, ok, err, kind_mismatch,
  forbidden_by_policy, invalid_signature, not_found, bad_status, comment_too_long, topic_of,
}
use synamcps_server.SecureBus.Service.Publish.{caller_key, named_policy, allowed}

pub record AttestInput : Type 0 where
  pub key_id : String
  pub subject_key : String
  pub token_id : String
  pub message_id : ℕ
  pub policy_version : ℤ
  pub status : String
  pub comment : String
  pub created_at : Option ℕ
  pub signature : String

-- `getMessage`
unfoldable pub get_message : Service → String → ℕ → Option Message
get_message s object_id id = find? (λ m. m.id == id) (s.messages object_id)

-- the envelope of an attestation, as `Attest` signs it and as `Verify` makes it again
unfoldable pub attestation_envelope : Attestation → Envelope
attestation_envelope a =
    attestation (pos a.message_id) a.message_hash a.policy_version a.signer_key_id a.status
      a.comment a.created_at

-- `len(in.Comment) > maxComment`; a limit of 0 stands for 4096
unfoldable pub too_long : ℤ → String → Bool
too_long (pos n) comment = ltb (if n == 0 then 4096 else n) (widths (codes comment))
too_long (negsuc n) comment = true

abbrev pub known_status : String → Bool
known_status status = not (not (status =ˢ "ok") && not (status =ˢ "deny"))

unfoldable pub unsigned_attestation : Env → String → AttestInput → Message → Attestation
unsigned_attestation env object_id i m = record {
  id = 0;
  object_id = object_id;
  message_id = i.message_id;
  signer_key_id = i.key_id;
  policy_version = i.policy_version;
  status = i.status;
  comment = i.comment;
  message_hash = m.hash;
  signature = i.signature;
  created_at = elim i.created_at [ none ↦ env.now | some t ↦ t ];
  superseded_at = none;
}

sign_checked : Env → Key → Attestation → Option Bytes → Result Attestation
sign_checked env key a none = err invalid_signature
sign_checked env key a (some sig) =
    if verify_agent_sig env.crypto key.algorithm key.public_key sig (attestation_envelope a)
    then ok a
    else err invalid_signature

on_message : Env → String → AttestInput → Key → Option Message → Result Attestation
unfolding sign_checked
on_message env object_id i key none = err not_found
on_message env object_id i key (some m) =
    sign_checked env key (unsigned_attestation env object_id i m)
      (env.crypto.decode_b64 i.signature)

attest_allowed :
    Env → Service → String → AttestInput → Key → Result SignedPolicy → Result Attestation
unfolding on_message
attest_allowed env s object_id i key (err e) = err e
attest_allowed env s object_id i key (ok policy) =
    if not (allowed policy "attest" i.key_id)
    then err forbidden_by_policy
    else if not (known_status i.status)
    then err bad_status
    else if too_long policy.document.attestation.comment_max_bytes i.comment
    then err comment_too_long
    else on_message env object_id i key (get_message s object_id i.message_id)

attest_keyed : Env → Service → Option Scope → String → AttestInput → Result Key → Result Attestation
unfolding attest_allowed
attest_keyed env s scope object_id i (err e) = err e
attest_keyed env s scope object_id i (ok key) =
    attest_allowed env s object_id i key (named_policy env s scope object_id i.policy_version "")

unfoldable pub draft_attestation : Env → Service → Option Scope → AttestInput → Result Attestation
unfolding attest_keyed
draft_attestation env s scope i = elim (topic_of scope) [
  | none ↦ err kind_mismatch
  | some object_id ↦
      attest_keyed env s scope object_id i (caller_key env i.key_id i.subject_key i.token_id)
]

-- the signer's earlier attestation of the message gives way
unfoldable pub supersede : Attestation → Attestation → Attestation
supersede att a =
    if a.message_id == att.message_id
      && a.signer_key_id =ˢ att.signer_key_id
      && not (is_some a.superseded_at)
    then record a { superseded_at = some att.created_at }
    else a

unfoldable pub commit_attestation : Service → Attestation → Service × Attestation
commit_attestation s a =
    let o = a.object_id in
    let att = record a { id = length (s.attests o) + 1 } in
    let ev : Event = record {
      id = length (s.events o) + 1;
      object_id = o;
      kind = "attestation_added";
      message_id = a.message_id;
      attestation_id = some att.id;
      created_at = a.created_at;
    } in
    (
      record s {
        attests = update s.attests o (map (supersede a) (s.attests o) ++ att ∷ []);
        events = update s.events o (s.events o ++ ev ∷ []);
      },
      att,
    )

-- `Attest`, with nothing in between
unfoldable pub attest : Env → Service → Option Scope → AttestInput → Service × Result Attestation
attest env s scope i = elim (draft_attestation env s scope i) [
  | err e ↦ (s, err e)
  | ok a ↦ (let (s', att) = commit_attestation s a in (s', ok att))
]
