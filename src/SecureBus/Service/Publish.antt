-- ===== src/SecureBus/Service/Publish.antt =====
-- `Publish` of internal/securebus/service.go. `draft_message` is the part up to the lock: it reads
-- the keys and the policies and makes the message. `commit_message` is the part under the lock, so
-- other operations may run in between.
pub mod Callers
pub mod Drafts
pub mod Laws
use synamcps_server.Prelude.{
  ℕ, ◌+◌, String, Bool, true, false, Option, none, some, List, [], ◌∷◌, ◌++◌, ◌&&◌, ◌||◌, not,
  if◌then◌else◌, length, last?,
}
use synamcps_server.Prelude.Strings.{◌=ˢ◌}
use synamcps_server.Prelude.Ints.{ℤ}
use synamcps_server.Prelude.Maps.{update}
use synamcps_server.Json.{Fields, end}
use synamcps_server.Crypto.{Bytes, Envelope, Crypto, message, verify_agent_sig, hash_text}
use synamcps_server.AgentKeys.{Key, belongs_to_caller}
use synamcps_server.Policy.{Scope}
use synamcps_server.SecureBus.Document.{Document, agent_name_for_key, may}
use synamcps_server.SecureBus.Service.{
  SignedPolicy, Message, Event, Service, Env, Result, ok, err, key_not_allowed, stale_policy,
  forbidden_by_policy, invalid_signature, prev_hash_required, prev_hash_mismatch, kind_mismatch,
  topic_of, current_policy, load_policy_version, accept_policy_version,
}

pub record PublishInput : Type 0 where
  pub key_id : String
  pub subject_key : String
  pub token_id : String
  pub policy_version : ℤ
  pub policy_hash : String
  pub nonce : String
  pub created_at : Option ℕ
  pub payload : Option Fields
  pub signature : String
  pub prev_hash : String

-- What is kept between the two parts: the topic, the key, the policy, the signature's bytes, and the
-- message, without its id.
pub record Draft : Type 0 where
  pub object_id : String
  pub key : Key
  pub policy : SignedPolicy
  pub sig : Bytes
  pub msg : Message

-- the envelope of a message, as `Publish` signs it and as `Verify` makes it again
unfoldable pub envelope_of : String → Message → Envelope
envelope_of object_id m =
    message object_id m.policy_version m.policy_hash m.author_key_id m.nonce m.created_at m.payload
      m.prev_hash

-- the caller's key
unfoldable pub caller_key : Env → String → String → String → Result Key
caller_key env key_id subject_key token_id = elim (env.get_key key_id) [
  | err e ↦ err e
  | ok none ↦ err key_not_allowed
  | ok (some key) ↦
      if belongs_to_caller key subject_key token_id then ok key else err key_not_allowed
]

-- the policy that the caller names: the current one, or the one before it while it is in its grace
unfoldable pub named_policy :
    Env → Service → Option Scope → String → ℤ → String → Result SignedPolicy
named_policy env s scope object_id version hash = elim (current_policy s scope) [
  | err e ↦ err e
  | ok cur ↦
      if accept_policy_version env cur version hash
      then load_policy_version s object_id version
      else err stale_policy
]

-- the caller's key is an agent's that the policy lets do this
unfoldable pub allowed : SignedPolicy → String → String → Bool
allowed policy rule key_id = elim (agent_name_for_key policy.document key_id) [
  | none ↦ false
  | some agent_name ↦ may policy.document rule agent_name
]

unfoldable pub unsigned_message : Env → String → PublishInput → Message
unsigned_message env object_id i = record {
  id = 0;
  object_id = object_id;
  author_key_id = i.key_id;
  policy_version = i.policy_version;
  policy_hash = i.policy_hash;
  nonce = i.nonce;
  payload = elim i.payload [ none ↦ end | some p ↦ p ];
  hash = "";
  prev_hash = i.prev_hash;
  signature = i.signature;
  created_at = elim i.created_at [ none ↦ env.now | some t ↦ t ];
}

-- the message with the hash of its envelope
unfoldable pub hashed : Crypto → String → Message → Message
hashed crypto object_id m = record m { hash = hash_text crypto (envelope_of object_id m) }

unfoldable pub check_draft :
    Env → String → Key → SignedPolicy → Message → Option Bytes → Result Draft
check_draft env object_id key policy m none = err invalid_signature
check_draft env object_id key policy m (some sig) =
    if verify_agent_sig env.crypto key.algorithm key.public_key sig (envelope_of object_id m)
    then ok (record {
      object_id = object_id;
      key = key;
      policy = policy;
      sig = sig;
      msg = hashed env.crypto object_id m;
    })
    else err invalid_signature

unfoldable pub draft_allowed :
    Env → String → PublishInput → Key → Result SignedPolicy → Result Draft
unfolding check_draft unsigned_message
draft_allowed env object_id i key (err e) = err e
draft_allowed env object_id i key (ok policy) =
    if allowed policy "publish" i.key_id
    then check_draft env object_id key policy (unsigned_message env object_id i)
        (env.crypto.decode_b64 i.signature)
    else err forbidden_by_policy

unfoldable pub draft_keyed :
    Env → Service → Option Scope → String → PublishInput → Result Key → Result Draft
unfolding draft_allowed
draft_keyed env s scope object_id i (err e) = err e
draft_keyed env s scope object_id i (ok key) =
    draft_allowed env object_id i key
      (named_policy env s scope object_id i.policy_version i.policy_hash)

unfoldable pub draft_message : Env → Service → Option Scope → PublishInput → Result Draft
unfolding draft_keyed
draft_message env s scope i = elim (topic_of scope) [
  | none ↦ err kind_mismatch
  | some object_id ↦
      draft_keyed env s scope object_id i (caller_key env i.key_id i.subject_key i.token_id)
]

-- the chain of a topic: the previous hash is filled in where there is none, and the signature must
-- then be one of the envelope with it
unfoldable pub chained : Crypto → Draft → Option Message → Result Message
chained crypto d none = ok d.msg
chained crypto d (some prev) =
    if not d.policy.document.chain
    then ok d.msg
    else if d.msg.prev_hash =ˢ ""
    then (let linked = hashed crypto d.object_id (record d.msg { prev_hash = prev.hash }) in
        if verify_agent_sig crypto d.key.algorithm d.key.public_key d.sig
          (envelope_of d.object_id linked)
        then ok linked
        else err prev_hash_required)
    else if not (d.msg.prev_hash =ˢ prev.hash)
    then err prev_hash_mismatch
    else ok d.msg

unfoldable pub append_message : Service → String → Result Message → Service × Result Message
append_message s o (err e) = (s, err e)
append_message s o (ok m) =
    let msg = record m { id = length (s.messages o) + 1 } in
    let ev : Event = record {
      id = length (s.events o) + 1;
      object_id = o;
      kind = "message_published";
      message_id = msg.id;
      attestation_id = none;
      created_at = msg.created_at;
    } in
    (
      record s {
        messages = update s.messages o (s.messages o ++ msg ∷ []);
        events = update s.events o (s.events o ++ ev ∷ []);
      },
      ok msg,
    )

unfoldable pub commit_message : Crypto → Service → Draft → Service × Result Message
unfolding append_message
commit_message crypto s d =
    append_message s d.object_id (chained crypto d (last? (s.messages d.object_id)))

-- `Publish`, with nothing in between
unfoldable pub publish : Env → Service → Option Scope → PublishInput → Service × Result Message
unfolding draft_message commit_message
publish env s scope i = elim (draft_message env s scope i) [
  | err e ↦ (s, err e)
  | ok d ↦ commit_message env.crypto s d
]
