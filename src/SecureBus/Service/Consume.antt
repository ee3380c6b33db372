-- ===== src/SecureBus/Service/Consume.antt =====
-- internal/securebus/consume.go with no database: the delivery of a topic's messages to a consumer.
pub mod Loop
pub mod Passed
pub mod Laws
use synamcps_server.Prelude.{
  ℕ, suc, String, Bool, true, false, Option, none, some, List, [], ◌∷◌, ◌++◌, ◌&&◌, ◌||◌, not,
  if◌then◌else◌, length, find?, is_some, leb, ◌==◌, any,
}
use synamcps_server.Prelude.Strings.{◌=ˢ◌}
use synamcps_server.Prelude.Ints.{ℤ, or_default}
use synamcps_server.Prelude.Maps.{update}
use synamcps_server.Policy.{Scope}
use synamcps_server.SecureBus.Document.{Document, Condition, agent_name_for_key}
use synamcps_server.SecureBus.Condition.{
  AttestationView, MessageView, match_condition, resolve_condition,
}
use synamcps_server.SecureBus.Service.{
  SignedPolicy, Message, Attestation, Event, Subscription, Service, Result, ok, err, kind_mismatch,
  unknown_condition, topic_of, current_policy,
}

-- `findMsg`
unfoldable pub find_msg : List Message → ℕ → Option Message
find_msg msgs id = find? (λ m. m.id == id) msgs

-- `author, _ := doc.AgentNameForKey(...)`
abbrev pub name_or_empty : Option String → String
name_or_empty none = ""
name_or_empty (some name) = name

attestation_views : Document → ℕ → List Attestation → List AttestationView
attestation_views doc message_id [] = []
attestation_views doc message_id (a ∷ atts) =
    let rest = attestation_views doc message_id atts in
    if not (a.message_id == message_id) || is_some a.superseded_at
    then rest
    else record {
      agent_name = name_or_empty (agent_name_for_key doc a.signer_key_id);
      key_id = a.signer_key_id;
      status = a.status;
    }
      ∷ rest

-- `messageViewLocked`
unfoldable pub message_view : Service → String → Document → Message → MessageView
unfolding attestation_views
message_view s object_id doc m = record {
  author_key_id = m.author_key_id;
  author_name = name_or_empty (agent_name_for_key doc m.author_key_id);
  attestations = attestation_views doc m.id (s.attests object_id);
}

-- Where a delivery stands: what is to be returned, the messages this consumer has had, the cursor.
pub record Progress : Type 0 where
  pub out : List Message
  pub done : List ℕ
  pub last : ℕ

-- `_, done := m[id]`
abbrev pub has_id : List ℕ → ℕ → Bool
has_id done id = any (λ i. i == id) done

-- the message that an event delivers: one that the consumer has not had, and that matches
unfoldable pub to_deliver : (Message → Bool) → List Message → List ℕ → ℕ → Option Message
to_deliver matches msgs done id =
    if has_id done id
    then none
    else (elim (find_msg msgs id) [ none ↦ none | some m ↦ if matches m then some m else none ])

unfoldable pub deliver : Progress → ℕ → Message → Progress
deliver p id m = record { out = p.out ++ m ∷ []; done = m.id ∷ p.done; last = id }

-- the loop over the events, which ends early when `max` messages are there
unfoldable pub consume_events :
    (Message → Bool) → List Message → ℕ → List Event → Progress → Progress
unfolding deliver
consume_events matches msgs max [] p = p
consume_events matches msgs max (ev ∷ evs) p = elim (leb ev.id p.last) [
  | true ↦ consume_events matches msgs max evs p
  | false ↦ elim (to_deliver matches msgs p.done ev.message_id) [
    | none ↦ consume_events matches msgs max evs (record p { last = ev.id })
    | some m ↦ elim (leb max (length (deliver p ev.id m).out)) [
      | true ↦ deliver p ev.id m
      | false ↦ consume_events matches msgs max evs (deliver p ev.id m)
    ]
  ]
]

unfoldable pub start : Service → String → String → Progress
start s object_id consumer = record {
  out = [];
  done = s.delivered object_id consumer;
  last = (s.subs object_id consumer).last_event_id;
}

-- a delivery under a condition
unfoldable pub deliver_matching : Service → String → String → Document → Condition → ℕ → Progress
deliver_matching s object_id consumer doc cond max =
    consume_events (λ m. match_condition cond (message_view s object_id doc m))
      (s.messages object_id) max (s.events object_id) (start s object_id consumer)

unfoldable pub store_progress : Service → String → String → Progress → Service
store_progress s object_id consumer p = record s {
  subs =
      update s.subs object_id (
        update (s.subs object_id) consumer
          (record { consumer = consumer; last_event_id = p.last }));
  delivered = update s.delivered object_id (update (s.delivered object_id) consumer p.done);
}

unfoldable pub consume_resolved :
    Service → String → String → Document → Option Condition → ℕ → Service × Result (List Message)
unfolding store_progress
consume_resolved s object_id consumer doc none max = (s, err unknown_condition)
consume_resolved s object_id consumer doc (some cond) max =
    let p = deliver_matching s object_id consumer doc cond max in
    (store_progress s object_id consumer p, ok p.out)

unfoldable pub consume_under :
    {J : Type 0}
    → (J → Option Condition)
    → Service
    → String
    → String
    → String
    → Option J
    → ℕ
    → Result SignedPolicy
    → Service × Result (List Message)
unfolding consume_resolved
consume_under decode s object_id consumer name ad_hoc max (err e) = (s, err e)
consume_under decode s object_id consumer name ad_hoc max (ok pol) =
    consume_resolved s object_id consumer pol.document
      (resolve_condition decode pol.document name ad_hoc) max

-- `if consumer == "" { consumer = "default" }`
unfoldable pub consumer_of : String → String
consumer_of consumer = if consumer =ˢ "" then "default" else consumer

-- `Consume`
unfoldable pub consume :
    {J : Type 0}
    → (J → Option Condition)
    → Service
    → Option Scope
    → String
    → String
    → Option J
    → ℤ
    → Service × Result (List Message)
unfolding consume_under
consume decode s scope consumer name ad_hoc max = elim (topic_of scope) [
  | none ↦ (s, err kind_mismatch)
  | some object_id ↦
      consume_under decode s object_id (consumer_of consumer) name ad_hoc (or_default max 10)
        (current_policy s scope)
]
