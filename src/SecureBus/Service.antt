-- ===== src/SecureBus/Service.antt =====
-- internal/securebus/service.go with no database: the state of the service, what an operation takes
-- from its surroundings, and the versions of a topic's policy.
--
-- `Commit` and `Rollback` of a scope with no transaction do nothing, and are left out. A message id
-- in a request is a natural number: the code answers a negative one as it answers 0, with no message.
pub mod Publish
pub mod Attest
pub mod Verify
pub mod Consume
pub mod Invariant
pub mod Runs
pub mod History
pub mod Policies
pub mod Put
use synamcps_server.Prelude.{
  ℕ, zero, suc, ◌+◌, ◌*◌, String, Bool, true, false, Option, none, some, List, [], ◌∷◌, ◌++◌, ◌&&◌,
  ◌||◌, not, if◌then◌else◌, is_some, ◌==◌, leb, last?, find?,
}
use synamcps_server.Prelude.Strings.{◌=ˢ◌}
use synamcps_server.Prelude.Ints.{ℤ, pos, negsuc, is_nat, or_default, at_most_zero}
use synamcps_server.Prelude.Maps.{Dict, update}
use synamcps_server.Json.{Fields}
use synamcps_server.Models.{ObjectKind, securebus}
use synamcps_server.Crypto.{Bytes, Crypto}
use synamcps_server.AgentKeys.{Key}
use synamcps_server.Policy.{Scope}
use synamcps_server.SecureBus.Document.{
  Document, AgentRef, DocumentError, validate_document, policy_schema_id,
}

pub record SignedPolicy : Type 0 where
  pub document : Document
  pub hash : String
  pub signature : String
  pub signer_kid : String
  pub version : ℕ
  pub created_at : ℕ

pub record Message : Type 0 where
  pub id : ℕ
  pub object_id : String
  pub author_key_id : String
  pub policy_version : ℤ
  pub policy_hash : String
  pub nonce : String
  pub payload : Fields
  pub hash : String
  pub prev_hash : String
  pub signature : String
  pub created_at : ℕ

pub record Attestation : Type 0 where
  pub id : ℕ
  pub object_id : String
  pub message_id : ℕ
  pub signer_key_id : String
  pub policy_version : ℤ
  pub status : String
  pub comment : String
  pub message_hash : String
  pub signature : String
  pub created_at : ℕ
  pub superseded_at : Option ℕ

pub record Event : Type 0 where
  pub id : ℕ
  pub object_id : String
  pub kind : String
  pub message_id : ℕ
  pub attestation_id : Option ℕ
  pub created_at : ℕ

-- the filter that a subscription keeps is written and never read, so it is no part of the model
pub record Subscription : Type 0 where
  pub consumer : String
  pub last_event_id : ℕ

-- The maps of the service, by the id of the object; a missing entry is the zero value.
pub record Service : Type 0 where
  pub policies : String → List SignedPolicy
  pub messages : String → List Message
  pub attests : String → List Attestation
  pub events : String → List Event
  pub subs : String → String → Subscription
  pub delivered : String → String → List ℕ

pub data BusError : Type 0 where
  kind_mismatch key_store_failed key_not_allowed key_missing_or_revoked : BusError
  signing_failed not_found stale_policy forbidden_by_policy invalid_signature : BusError
  prev_hash_required prev_hash_mismatch bad_status comment_too_long unknown_condition : BusError
  invalid_document : DocumentError → BusError

pub data Result {ℓ} (A : Type ℓ) : Type ℓ where
  ok : A → Result A
  err : BusError → Result A

-- What an operation takes from its surroundings: the clock (and its text), the key store, the
-- signer of the policies, the cryptography, and the grace of `NewService` (in nanoseconds).
pub record Env : Type 0 where
  pub now : ℕ
  pub now_text : String
  pub get_key : String → Result (Option Key)
  pub kid : String
  pub sign_document : Document → Option (Bytes × Bytes)
  pub crypto : Crypto
  pub grace : ℕ

-- the grace of `NewService`: seconds, 5 minutes where they are not positive
unfoldable pub grace_of : ℤ → ℕ
grace_of grace_seconds = or_default grace_seconds 300 * 1000000000

abbrev pub new_service : Service
new_service = record {
  policies = λ o. [];
  messages = λ o. [];
  attests = λ o. [];
  events = λ o. [];
  subs = λ o c. record { consumer = ""; last_event_id = 0 };
  delivered = λ o c. [];
}

-- `scope == nil || scope.Kind() != ObjectKindSecureBus`, else the id of the object
unfoldable pub topic_of : Option Scope → Option String
topic_of none = none
topic_of (some scope) = elim scope.object.kind [ securebus ↦ some scope.object.id | _ ↦ none ]

-- the loop of `PutPolicy` over the agents
unfoldable pub check_agent_keys : (String → Result (Option Key)) → Dict AgentRef → Option BusError
check_agent_keys get_key [] = none
check_agent_keys get_key ((name, a) ∷ agents) = elim (get_key a.key_id) [
  | err e ↦ some e
  | ok none ↦ some key_missing_or_revoked
  | ok (some k) ↦
      if is_some k.revoked_at then some key_missing_or_revoked else check_agent_keys get_key agents
]

unfoldable pub next_version : List SignedPolicy → ℕ
next_version versions = elim (last? versions) [ none ↦ 1 | some sp ↦ sp.version + 1 ]

unfoldable pub store_policy :
    Env → Service → String → Document → Option (Bytes × Bytes) → Service × Result SignedPolicy
store_policy env s object_id doc none = (s, err signing_failed)
store_policy env s object_id doc (some (hash, sig)) =
    let sp : SignedPolicy = record {
      document = doc;
      hash = env.crypto.b64 hash;
      signature = env.crypto.b64 sig;
      signer_kid = env.kid;
      version = next_version (s.policies object_id);
      created_at = env.now;
    } in
    (record s { policies = update s.policies object_id (s.policies object_id ++ sp ∷ []) }, ok sp)

-- what `PutPolicy` makes of the document before it checks it
unfoldable pub topic_document : Env → String → Document → Document
topic_document env object_id doc = record doc {
  topic_id = object_id;
  schema = policy_schema_id;
  issued_at = if doc.issued_at =ˢ "" then env.now_text else doc.issued_at;
}

unfoldable pub put_checked :
    Env
    → Service
    → String
    → Document
    → Option DocumentError
    → Option BusError
    → Service × Result SignedPolicy
unfolding store_policy
put_checked env s object_id doc (some e) keys = (s, err (invalid_document e))
put_checked env s object_id doc none (some e) = (s, err e)
put_checked env s object_id doc none none =
    let versioned = record doc { version = pos (next_version (s.policies object_id)) } in
    store_policy env s object_id versioned (env.sign_document versioned)

-- `PutPolicy`
unfoldable pub put_policy : Env → Service → Option Scope → Document → Service × Result SignedPolicy
unfolding put_checked
put_policy env s scope doc = elim (topic_of scope) [
  | none ↦ (s, err kind_mismatch)
  | some object_id ↦
      let d = topic_document env object_id doc in
      put_checked env s object_id d (validate_document d) (check_agent_keys env.get_key d.agents)
]

unfoldable pub found {ℓ} : {A : Type ℓ} → Option A → Result A
found none = err not_found
found (some a) = ok a

-- `GetPolicy`: the last version where none is asked for
unfoldable pub get_policy : Service → Option Scope → ℤ → Result SignedPolicy
unfolding found
get_policy s scope version = elim (topic_of scope) [
  | none ↦ err kind_mismatch
  | some object_id ↦
      if at_most_zero version
      then found (last? (s.policies object_id))
      else found (find? (λ sp. is_nat version sp.version) (s.policies object_id))
]

unfoldable pub current_policy : Service → Option Scope → Result SignedPolicy
current_policy s scope = get_policy s scope (pos 0)

unfoldable pub load_policy_version : Service → String → ℤ → Result SignedPolicy
unfolding found
load_policy_version s object_id version =
    found (find? (λ sp. is_nat version sp.version) (s.policies object_id))

-- `wantVersion == current.Version-1`
abbrev pub is_before : ℤ → ℕ → Bool
is_before (pos a) n = suc a == n
is_before (negsuc zero) n = 0 == n
is_before (negsuc (suc a)) n = false

-- `acceptPolicyVersion`
unfoldable pub accept_policy_version : Env → SignedPolicy → ℤ → String → Bool
accept_policy_version env current want_version want_hash =
    (is_nat want_version current.version && (want_hash =ˢ "" || want_hash =ˢ current.hash))
    || (is_before want_version current.version && leb env.now (current.created_at + env.grace))
