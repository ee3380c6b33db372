-- ===== src/Examples/Delivery.antt =====
-- The theorems on messages, attestations, consumption and runs at a concrete topic.
use synamcps_server.Prelude.{String, Option, none, some, [], ◌∷◌, ◌≡◌, refl, ap, arith}
use synamcps_server.Prelude.Strings.{contains}
use synamcps_server.Prelude.Ints.{pos}
use synamcps_server.Json.{end}
use synamcps_server.AgentKeys.{Key, belongs_to_caller}
use synamcps_server.Crypto.{verify_agent_sig, hash_text}
use synamcps_server.SecureBus.Document.{Condition, agent_name_for_key, may}
use synamcps_server.SecureBus.Service.{
  Message, Attestation, Service, ok, err, new_service, current_policy, get_policy, topic_of,
  accept_policy_version, load_policy_version, put_policy,
}
use synamcps_server.SecureBus.Service.Publish.{
  publish, caller_key, named_policy, allowed, chained, hashed,
}
use synamcps_server.SecureBus.Service.Attest.{AttestInput, get_message}
use synamcps_server.SecureBus.Service.Attest.Words.{OneWord}
use synamcps_server.SecureBus.Service.Verify.Laws.{Verifies, HasKeyOf, publish-Verifies}
use synamcps_server.SecureBus.Service.Consume.{consume}
use synamcps_server.SecureBus.Service.Consume.Laws.{Consumed, consume-Consumed}
use synamcps_server.SecureBus.Service.Invariant.{WellFormed}
use synamcps_server.SecureBus.Service.Runs.{
  put_policy_step, consume_step, here, next, Run-WellFormed,
}
use synamcps_server.SecureBus.Service.History.{Run-get_message}
use synamcps_server.Examples.Keys.{writer_key}
use synamcps_server.Examples.Topics.{topic, document, env, service, request}

abbrev published : Message
published = record {
  id = 1;
  object_id = "bus-1";
  author_key_id = "k_1";
  policy_version = pos 1;
  policy_hash = "Kg";
  nonce = "n-1";
  payload = end;
  hash = "Kg";
  prev_hash = "";
  signature = "good";
  created_at = 990;
}

publishes : (publish env service (some topic) request).1 ≡ ok published
unfolding publish topic_of caller_key belongs_to_caller named_policy current_policy get_policy
    accept_policy_version load_policy_version allowed agent_name_for_key may contains
    verify_agent_sig chained hashed hash_text
publishes = refl

has_key :
    (key : Key) → caller_key env "k_1" "user:internal:alice" "t-1" ≡ ok key → HasKeyOf env "k_1" key
unfolding caller_key belongs_to_caller
has_key key h = (
  writer_key,
  refl,
  ap (λ r. elim r [ ok k ↦ k.algorithm | err e ↦ "" ]) h,
  ap (λ r. elim r [ ok k ↦ k.public_key | err e ↦ [] ]) h,
)

publish-Verifies_example :
    Verifies env (publish env service (some topic) request).0 (some topic) published
publish-Verifies_example =
    publish-Verifies env env service (some topic) request published (λ o. tt) refl has_key publishes

abbrev with_message : Service
with_message = record service {
  messages = λ o. published ∷ [];
  events = λ o.
      record {
        id = 1;
        object_id = o;
        kind = "message_published";
        message_id = 1;
        attestation_id = none;
        created_at = 990;
      }
      ∷ [];
}

abbrev attestation : AttestInput
attestation = record {
  key_id = "k_2";
  subject_key = "user:internal:alice";
  token_id = "t-1";
  message_id = 1;
  policy_version = pos 1;
  status = "ok";
  comment = "fine";
  created_at = some 995;
  signature = "good";
}

abbrev word : Attestation
word = record {
  id = 0;
  object_id = "bus-1";
  message_id = 1;
  signer_key_id = "k_2";
  policy_version = pos 1;
  status = "deny";
  comment = "";
  message_hash = "Kg";
  signature = "good";
  created_at = 996;
  superseded_at = none;
}

abbrev with_word : Service
with_word = record with_message { attests = λ o. record word { id = 1 } ∷ [] }

one_word : OneWord (with_word.attests "bus-1")
one_word i k = ground arith

abbrev no_filter : String → Option Condition
no_filter raw = none

consume-Consumed_example :
    Consumed no_filter with_message
      (some topic)
      ""
      ""
      none
      (pos 5)
      (consume no_filter with_message (some topic) "" "" none (pos 5))
consume-Consumed_example = consume-Consumed no_filter with_message (some topic) "" "" none (pos 5)

Run-WellFormed_example : WellFormed (put_policy env new_service (some topic) document).0
Run-WellFormed_example =
    Run-WellFormed no_filter (next here (put_policy_step env (some topic) document))

has_published : get_message with_message "bus-1" 1 ≡ some published
unfolding get_message
has_published = refl

Run-get_message_example :
    get_message (consume no_filter with_message (some topic) "" "" none (pos 5)).0 "bus-1" 1
    ≡ some published
Run-get_message_example =
    Run-get_message no_filter with_message
      (consume no_filter with_message (some topic) "" "" none (pos 5)).0 "bus-1" 1 published
      (next here (consume_step (some topic) "" "" none (pos 5))) has_published
