-- ===== src/Examples/Topics.antt =====
-- The theorems on policies, conditions, messages and attestations at a concrete topic.
use mathlib.Core.List as List
use mathlib.Core.List.{Memᴰ}
use synamcps_server.Prelude.{
  ◌↔◌, ◌⊎◌, inl, inr, String, true, false, none, some, [], ◌∷◌, ◌≡◌, refl, arith, eq_iff, ap, sym,
  ◌∙◌,
}
use synamcps_server.Prelude.Strings.{contains}
use synamcps_server.Prelude.Maps.{insert, lookup}
use synamcps_server.Prelude.Ints.{pos}
use synamcps_server.Models.{securebus, group, read_write}
use synamcps_server.Policy.{Scope}
use synamcps_server.SecureBus.Document.{
  AgentRef, Condition, Document, validate_document, agent_name_for_key,
}
use synamcps_server.SecureBus.Document.Agents.{Unambiguous, agent_name_for_key_iff}
use synamcps_server.SecureBus.Document.Laws.{IsValid, validate_document_iff}
use synamcps_server.SecureBus.Condition.{MessageView, match_condition}
use synamcps_server.SecureBus.Condition.Laws.{Meets, match_condition-Meets}
use synamcps_server.SecureBus.Service.{
  SignedPolicy, Service, Env, ok, new_service, current_policy, get_policy, topic_of,
  accept_policy_version, load_policy_version, put_policy,
}
use synamcps_server.SecureBus.Service.Publish.{PublishInput, publish, named_policy}
use synamcps_server.SecureBus.Service.Publish.Laws.{Published, publish-Published}
use synamcps_server.Prelude.Numbered.{Numbered}
use synamcps_server.SecureBus.Service.Policies.{InForce, named_policy-InForce}
use synamcps_server.SecureBus.Service.Put.{PolicyPut, put_policy-PolicyPut}
use synamcps_server.Examples.{alice, toy_crypto}
use synamcps_server.Examples.Keys.{writer_key}

abbrev pub topic : Scope
topic = record {
  object = record {
    id = "bus-1";
    kind = securebus;
    owner_subject_key = "user:internal:alice";
    visibility = group;
    backend = "";
  };
  method = "publish";
  access = record {
    object_id = "bus-1";
    kind = securebus;
    subject_key = "user:internal:alice";
    token_id = "t-1";
    mode = read_write;
    methods = "publish" ∷ [];
  };
  principal = alice;
  in_tx = false;
  mem = true;
}

abbrev reviewed : Condition
reviewed = record {
  authors = "writer" ∷ [];
  require = record { agent = "reviewer"; status = "ok" } ∷ [];
  min_ok = pos 1;
  any_deny = some false;
  mode = "";
}

abbrev pub document : Document
document = record {
  schema = "synamcps.securebus.policy/v1";
  topic_id = "bus-1";
  version = pos 1;
  issued_at = "2025-01-01T00:00:00Z";
  chain = true;
  agents =
      ("writer", record { key_id = "k_1"; alg = "ed25519"; public_key = "AQ" })
      ∷ ("reviewer", record { key_id = "k_2"; alg = "ed25519"; public_key = "Ag" })
      ∷ [];
  rules = record {
    publish = "writer" ∷ [];
    attest = "writer" ∷ "reviewer" ∷ [];
    subscribe = "reviewer" ∷ [];
  };
  attestation = record { statuses = []; comment_max_bytes = pos 0; supersede = true };
  conditions = ("reviewed", reviewed) ∷ [];
}

validate_document_iff_example : (validate_document document ≡ none) ↔ IsValid document
validate_document_iff_example = validate_document_iff document

agent_of :
    (m : String) (a : AgentRef)
    → Memᴰ (m, a) document.agents
    → ((m ≡ "writer") × (a.key_id ≡ "k_1")) ⊎ ((m ≡ "reviewer") × (a.key_id ≡ "k_2"))
agent_of m a mem = elim (List.Memᴰ.cases_cons mem) [
  | inl p ↦ inl (ap (λ x. x.0) p, ap (λ x. x.1.key_id) p)
  | inr later ↦ elim (List.Memᴰ.cases_cons later) [
    | inl p ↦ inr (ap (λ x. x.0) p, ap (λ x. x.1.key_id) p)
    | inr none_left ↦ absurd (List.Memᴰ.not-nil none_left)
  ]
]

keys_differ : ◌≡◌ {A = String} "k_1" "k_2" → ⊥
keys_differ e = ground (arith, eq_iff "k_1" "k_2")

one_key_each : Unambiguous document.agents
one_key_each m n a b in_m in_n same = elim (agent_of m a in_m) [
  | inl (em, ka) ↦ elim (agent_of n b in_n) [
    | inl (en, kb) ↦ em ∙ sym en
    | inr (en, kb) ↦ absurd (keys_differ (sym ka ∙ same ∙ kb))
  ]
  | inr (em, ka) ↦ elim (agent_of n b in_n) [
    | inl (en, kb) ↦ absurd (keys_differ (sym kb ∙ sym same ∙ ka))
    | inr (en, kb) ↦ em ∙ sym en
  ]
]

agent_name_for_key_iff_example :
    (agent_name_for_key document "k_2" ≡ some "reviewer")
    ↔ ((a : AgentRef) × Memᴰ ("reviewer", a) document.agents × (a.key_id ≡ "k_2"))
agent_name_for_key_iff_example = agent_name_for_key_iff document "k_2" "reviewer" one_key_each

abbrev accepted_message : MessageView
accepted_message = record {
  author_key_id = "k_1";
  author_name = "writer";
  attestations = record { agent_name = "reviewer"; key_id = "k_2"; status = "ok" } ∷ [];
}

accepted_matches : match_condition reviewed accepted_message ≡ true
unfolding match_condition contains insert lookup
accepted_matches = refl

match_condition-Meets_example : Meets reviewed accepted_message
match_condition-Meets_example = match_condition-Meets reviewed accepted_message accepted_matches

abbrev pub env : Env
env = record {
  now = 1000;
  now_text = "2025-01-01T00:00:00Z";
  get_key = λ id. ok (some (record writer_key { key_id = id }));
  kid = "syna-policy-1";
  sign_document = λ d. some (42 ∷ [], 43 ∷ []);
  crypto = toy_crypto;
  grace = 300;
}

abbrev pub signed : SignedPolicy
signed = record {
  document = document;
  hash = "Kg";
  signature = "Kg";
  signer_kid = "syna-policy-1";
  version = 1;
  created_at = 900;
}

abbrev pub service : Service
service = record new_service { policies = λ o. signed ∷ [] }

put_policy-PolicyPut_example :
    PolicyPut env service (some topic) document (put_policy env service (some topic) document)
put_policy-PolicyPut_example = put_policy-PolicyPut env service (some topic) document

names_current : named_policy env service (some topic) "bus-1" (pos 1) "Kg" ≡ ok signed
unfolding named_policy current_policy get_policy topic_of accept_policy_version load_policy_version
names_current = refl

one_version : Numbered (λ (a : SignedPolicy). a.version) 1 (service.policies "bus-1")
one_version = (refl, tt)

topic-bus : topic_of (some topic) ≡ some "bus-1"
unfolding topic_of
topic-bus = refl

named_policy-InForce_example : InForce env service "bus-1" (pos 1) "Kg" signed
named_policy-InForce_example =
    named_policy-InForce env service (some topic) "bus-1" (pos 1) "Kg" signed topic-bus one_version
      names_current

abbrev pub request : PublishInput
request = record {
  key_id = "k_1";
  subject_key = "user:internal:alice";
  token_id = "t-1";
  policy_version = pos 1;
  policy_hash = "Kg";
  nonce = "n-1";
  created_at = some 990;
  payload = none;
  signature = "good";
  prev_hash = "";
}

publish-Published_example :
    Published env service (some topic) request (publish env service (some topic) request)
publish-Published_example = publish-Published env service (some topic) request
