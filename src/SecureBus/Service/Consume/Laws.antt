-- ===== src/SecureBus/Service/Consume/Laws.antt =====
-- A consumer gets a message at most once, in the order of the events, and misses none that matched
-- when its events were passed.
use mathlib.Core.List.{Memᴰ}
use synamcps_server.Prelude.{
  ℕ, zero, suc, ◌≤◌, ◌<◌, String, Bool, true, Option, none, some, List, ◌≡◌, refl, sym, subst,
  arith, eq_refl, length,
}
use synamcps_server.Prelude.Numbered.{Numbered}
use synamcps_server.Prelude.Ints.{ℤ, pos, negsuc, or_default}
use synamcps_server.Policy.{Scope}
use synamcps_server.SecureBus.Document.{Document, Condition}
use synamcps_server.SecureBus.Condition.{match_condition, resolve_condition}
use synamcps_server.SecureBus.Service.{
  SignedPolicy, Message, Event, Service, Result, ok, err, kind_mismatch, topic_of, current_policy,
}
use synamcps_server.SecureBus.Service.Consume.{
  find_msg, message_view, has_id, consume_events, start, deliver_matching, store_progress,
  consume_resolved, consume_under, consumer_of, consume,
}
use synamcps_server.SecureBus.Service.Consume.Loop.{
  Fresh, consume_events-Goes, consume_events-bound,
}
use synamcps_server.SecureBus.Service.Consume.Passed.{
  consume_events-Handles, consume_events-Exhausts,
}

-- What a consumption of a topic under a condition returns and leaves: from the cursor of the
-- consumer on, messages that it had not had, each once.
abbrev pub Received :
    Service → Service → String → String → Document → Condition → ℕ → List Message → Type 0
Received s s' o consumer doc cond max out =
    (length out ≤ max)
    × Fresh (λ m. match_condition cond (message_view s o doc m)) (s.messages o)
        (s.delivered o consumer) out (s'.delivered o consumer)
    × ((s.subs o consumer).last_event_id ≤ (s'.subs o consumer).last_event_id)

-- No event that the cursor has passed in this consumption is lost: if its message matched, the
-- consumer has had it; and when fewer messages than the most come, every event was passed.
abbrev pub Complete :
    Service → Service → String → String → Document → Condition → ℕ → List Message → Type 0
Complete s s' o consumer doc cond max out =
    ((e : Event) (m : Message)
      → Memᴰ e (s.events o)
      → (s.subs o consumer).last_event_id < e.id
      → e.id ≤ (s'.subs o consumer).last_event_id
      → find_msg (s.messages o) e.message_id ≡ some m
      → match_condition cond (message_view s o doc m) ≡ true
      → has_id (s'.delivered o consumer) e.message_id ≡ true)
    × (length out < max
        → (e : Event) → Memᴰ e (s.events o)
        → e.id ≤ (s'.subs o consumer).last_event_id)

module _ {J : Type 0} (decode : J → Option Condition) (s : Service) (scope : Option Scope)
    (consumer name : String) (ad_hoc : Option J) (max : ℤ) where
  abbrev pub Consumed : Service × Result (List Message) → Type 0
  Consumed (s', err e) = s' ≡ s
  Consumed (s', ok out) =
      (o : String) × (pol : SignedPolicy) × (cond : Condition) × (topic_of scope ≡ some o)
      × (current_policy s scope ≡ ok pol)
      × (resolve_condition decode pol.document name ad_hoc ≡ some cond)
      × Received s s' o (consumer_of consumer) pol.document cond (or_default max 10) out
      × (Numbered (λ e. e.id) 1 (s.events o)
          → Complete s s' o (consumer_of consumer) pol.document cond (or_default max 10) out)

  received :
      (o : String) (doc : Document) (cond : Condition) (most : ℕ)
      → 0 < most
      → Received s
          (store_progress s o
            (consumer_of consumer)
            (deliver_matching s o (consumer_of consumer) doc cond most))
          o
          (consumer_of consumer)
          doc
          cond
          most
          (deliver_matching s o (consumer_of consumer) doc cond most).out
  unfolding deliver_matching store_progress start
  received o doc cond most some_room =
      let matches : Message → Bool = λ m. match_condition cond (message_view s o doc m) in
      let p0 = start s o (consumer_of consumer) in
      let (le, new, out, fresh) = consume_events-Goes matches (s.messages o) most (s.events o) p0 in
      (
        consume_events-bound matches (s.messages o) most (s.events o) p0 some_room,
        rw (eq_refl o, eq_refl (consumer_of consumer))
            (subst
              (λ ms.
                Fresh matches (s.messages o) p0.done ms
                  (consume_events matches (s.messages o) most (s.events o) p0).done)
              (sym out) fresh),
        rw (eq_refl o, eq_refl (consumer_of consumer)) le,
      )

  complete :
      (o : String) (doc : Document) (cond : Condition) (most : ℕ)
      → Numbered (λ e. e.id) 1 (s.events o)
      → Complete s
          (store_progress s o
            (consumer_of consumer)
            (deliver_matching s o (consumer_of consumer) doc cond most))
          o
          (consumer_of consumer)
          doc
          cond
          most
          (deliver_matching s o (consumer_of consumer) doc cond most).out
  unfolding deliver_matching store_progress start
  complete o doc cond most numbered =
      let matches : Message → Bool = λ m. match_condition cond (message_view s o doc m) in
      let p0 = start s o (consumer_of consumer) in
      let (mono, passed) = consume_events-Handles matches (s.messages o) most (s.events o) p0 in
      let (le, all) = consume_events-Exhausts matches (s.messages o) most (s.events o) p0 in
      rw (eq_refl o, eq_refl (consumer_of consumer)) (passed 1 numbered, all)

  consume_resolved-Consumed :
      (o : String) (pol : SignedPolicy) (found : Option Condition)
      → topic_of scope ≡ some o
      → current_policy s scope ≡ ok pol
      → resolve_condition decode pol.document name ad_hoc ≡ found
      → Consumed
          (consume_resolved s o (consumer_of consumer) pol.document found (or_default max 10))
  unfolding consume_resolved
  consume_resolved-Consumed o pol none top cur cond = refl
  consume_resolved-Consumed o pol (some c) top cur cond = (
    o,
    pol,
    c,
    top,
    cur,
    cond,
    received o pol.document c (or_default max 10) (positive max),
    complete o pol.document c (or_default max 10),
  )
    where
      positive : (i : ℤ) → 0 < or_default i 10
      positive (pos zero) = omega arith
      positive (pos (suc n)) = omega arith
      positive (negsuc n) = omega arith

  consume_under-Consumed :
      (o : String) (r : Result SignedPolicy)
      → topic_of scope ≡ some o
      → current_policy s scope ≡ r
      → Consumed (consume_under decode s o (consumer_of consumer) name ad_hoc (or_default max 10) r)
  unfolding consume_under
  consume_under-Consumed o (err e) top cur = refl
  consume_under-Consumed o (ok pol) top cur = consume_resolved-Consumed o pol _ top cur refl

  no_topic :
      topic_of scope ≡ none
      → consume decode s scope consumer name ad_hoc max ≡ (s, err kind_mismatch)
  unfolding consume
  no_topic h = rw (h, consume) refl

  on_topic :
      (o : String)
      → topic_of scope ≡ some o
      → consume decode s scope consumer name ad_hoc max
        ≡ consume_under decode s o
            (consumer_of consumer)
            name
            ad_hoc
            (or_default max 10)
            (current_policy s scope)
  unfolding consume
  on_topic o h = rw (h, consume) refl

  consume_topic :
      (top : Option String)
      → topic_of scope ≡ top
      → Consumed (consume decode s scope consumer name ad_hoc max)
  consume_topic none h = subst Consumed (sym (no_topic h)) refl
  consume_topic (some o) h = subst Consumed (sym (on_topic o h)) (consume_under-Consumed o _ h refl)

  -- A consumption is refused and changes nothing, or it resolves a condition under the current
  -- policy and returns at most `max` messages (10 where `max` is not positive), each a message of
  -- the topic that matches, that the consumer had not had, and that it is then marked to have had,
  -- and never moves the cursor back. Where the events are numbered from 1, every message of an
  -- event that the cursor passed has been delivered if it matched, and when fewer than `max` are
  -- returned the cursor has passed all events.
  pub consume-Consumed : Consumed (consume decode s scope consumer name ad_hoc max)
  consume-Consumed = consume_topic _ refl
