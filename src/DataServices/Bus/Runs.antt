-- ===== src/DataServices/Bus/Runs.antt =====
-- Any sequence of calls on buses in memory, as one consumer of one bus sees it.
use synamcps_server.Prelude.Lists.{append_nil, append_assoc}
use synamcps_server.Prelude.{
  ℕ, suc, String, Option, none, some, List, [], ◌∷◌, ◌++◌, ◌≡◌, refl, sym, ap, ◌∙◌, subst, eq_iff,
  eq_refl, if◌then◌else◌, Bool-cases, Option-cases, inl, inr, take,
}
use synamcps_server.Prelude.Strings.{◌=ˢ◌}
use synamcps_server.Prelude.Ints.{ℤ}
use synamcps_server.Json.{Fields}
use synamcps_server.Models.{DataObject}
use synamcps_server.Policy.{Scope}
use synamcps_server.DataServices.{Result, ok, err, payload_of}
use synamcps_server.DataServices.Bus.{
  Event, Service, bus_of, is_kafka, mem_produce, produce, consume, consumer_name,
}
use synamcps_server.DataServices.Bus.Laws.{
  IsWellFormed, pending, consumed, mem_consume-consumed, consumed_own, consumed-IsWellFormed,
  produced_own, produced-IsWellFormed, max_of-suc, move_offset_object, move_offset_consumer,
  pending_mem,
}

-- A call of some caller.
pub data Operation : Type 0 where
  produce_op : Option Scope → ℕ → Option Fields → Operation
  consume_op : Option Scope → ℕ → String → ℤ → Operation

-- The bus in memory that a scope is for: none for another kind of object or behind Kafka.
abbrev pub target_of : Option DataObject → Option String
target_of none = none
target_of (some object) = if is_kafka object then none else some object.id

abbrev pub target : Option Scope → Option String
target scope = target_of (bus_of scope)

abbrev pub event_of : Result Event → List Event
event_of (err e) = []
event_of (ok e) = e ∷ []

abbrev pub events_of : Result (List Event) → List Event
events_of (err e) = []
events_of (ok events) = events

-- the events of an answer, if it was for the bus
abbrev pub for_bus : String → Option String → List Event → List Event
for_bus o none events = []
for_bus o (some j) events = if j =ˢ o then events else []

-- the events of an answer, if it was for the consumer
abbrev pub for_consumer : String → String → List Event → List Event
for_consumer c d events = if d =ˢ c then events else []

-- The state after a sequence of calls.
unfoldable pub run : Service → List Operation → Service
run s [] = s
run s (produce_op scope now p ∷ ops) = run (produce s now scope p).0 ops
run s (consume_op scope now d max ∷ ops) = run (consume s now scope d max).0 ops

-- The events that the calls of Produce for a bus returned.
unfoldable pub published : String → Service → List Operation → List Event
published o s [] = []
published o s (produce_op scope now p ∷ ops) =
    for_bus o (target scope) (event_of (produce s now scope p).1)
    ++ published o (produce s now scope p).0 ops
published o s (consume_op scope now d max ∷ ops) = published o (consume s now scope d max).0 ops

-- The events that a consumer's calls of Consume on a bus returned.
unfoldable pub received : String → String → Service → List Operation → List Event
received o c s [] = []
received o c s (produce_op scope now p ∷ ops) = received o c (produce s now scope p).0 ops
received o c s (consume_op scope now d max ∷ ops) =
    for_bus o (target scope)
      (for_consumer c (consumer_name d) (events_of (consume s now scope d max).1))
    ++ received o c (consume s now scope d max).0 ops

produced_here :
    (s : Service)
    → IsWellFormed s
    → (o c : String) (now : ℕ) (p : Fields)
    → pending (mem_produce s o now p).0 o c
      ≡ pending s o c ++ for_bus o (some o) ((mem_produce s o now p).1 ∷ [])
produced_here s w o c now p = rw (eq_refl o) (produced_own s w o c now p)

mem_produced :
    (s : Service)
    → IsWellFormed s
    → (o c j : String) (now : ℕ) (p : Fields)
    → pending (mem_produce s j now p).0 o c
      ≡ pending s o c ++ for_bus o (some j) ((mem_produce s j now p).1 ∷ [])
unfolding mem_produce
mem_produced s w o c j now p = elim (Bool-cases (j =ˢ o)) [
  | inl here ↦
      subst
        (λ i.
          pending (mem_produce s j now p).0 i c
          ≡ pending s i c ++ for_bus i (some j) ((mem_produce s j now p).1 ∷ []))
        ((eq_iff j o).0 here) (produced_here s w j c now p)
  | inr away ↦ rw away (append_nil (pending s o c))
]

consumed_here :
    (s : Service)
    → IsWellFormed s
    → (o c d : String) (max : ℕ)
    → for_consumer c d (take (suc max) (pending s o d)) ++ pending (consumed s o d max) o c
      ≡ pending s o c
consumed_here s w o c d max = elim (Bool-cases (d =ˢ c)) [
  | inl mine ↦ rw mine (
      subst
        (λ a. take (suc max) (pending s o d) ++ pending (consumed s o d max) o a ≡ pending s o a)
        ((eq_iff d c).0 mine) (consumed_own s w o d max))
  | inr other ↦
      rw other (pending_mem s o d o c _ (s.offs o c) (move_offset_consumer s o d c _ other))
]

mem_consumed :
    (s : Service)
    → IsWellFormed s
    → (o c j d : String) (max : ℕ)
    → for_bus o (some j) (for_consumer c d (take (suc max) (pending s j d)))
        ++ pending (consumed s j d max) o c
      ≡ pending s o c
mem_consumed s w o c j d max = elim (Bool-cases (j =ˢ o)) [
  | inl here ↦ rw here (
      subst
        (λ i.
          for_consumer c d (take (suc max) (pending s j d)) ++ pending (consumed s j d max) i c
          ≡ pending s i c)
        ((eq_iff j o).0 here) (consumed_here s w j c d max))
  | inr away ↦ rw away (pending_mem s j d o c _ (s.offs o c) (move_offset_object s j d o c _ away))
]

produce_keeps :
    (s : Service)
    → IsWellFormed s
    → (o c : String) (now : ℕ) (scope : Option Scope) (p : Option Fields)
    → IsWellFormed (produce s now scope p).0
      × (pending (produce s now scope p).0 o c
          ≡ pending s o c ++ for_bus o (target scope) (event_of (produce s now scope p).1))
unfolding produce
produce_keeps s w o c now scope p = elim (Option-cases (bus_of scope)) [
  | inl e ↦ rw (e, produce) (w, append_nil (pending s o c))
  | inr (object, e) ↦ elim (Bool-cases (is_kafka object)) [
    | inl kafka ↦ rw (e, kafka, produce) (w, append_nil (pending s o c))
    | inr memory ↦
        rw (e, memory, produce)
          (
            produced-IsWellFormed s w object.id now (payload_of p),
            mem_produced s w o c object.id now (payload_of p),
          )
  ]
]

consume_keeps :
    (s : Service)
    → IsWellFormed s
    → (o c : String) (now : ℕ) (scope : Option Scope) (d : String) (max : ℤ)
    → IsWellFormed (consume s now scope d max).0
      × (for_bus o
              (target scope)
              (for_consumer c (consumer_name d) (events_of (consume s now scope d max).1))
            ++ pending (consume s now scope d max).0 o c
          ≡ pending s o c)
unfolding consume
consume_keeps s w o c now scope d max = elim (Option-cases (bus_of scope)) [
  | inl e ↦ rw (e, consume) (w, refl)
  | inr (object, e) ↦ elim (Bool-cases (is_kafka object)) [
    | inl kafka ↦ rw (e, kafka, consume) (w, refl)
    | inr memory ↦
        let (k, f) = max_of-suc max in
        rw (e, memory, consume, f, mem_consume-consumed s w object.id (consumer_name d) k)
          (
            consumed-IsWellFormed s w object.id (consumer_name d) k,
            mem_consumed s w o c object.id (consumer_name d) k,
          )
  ]
]

-- From a state whose events are numbered from 1 with no consumer ahead of them, whatever calls run
-- on whatever buses: what a consumer received of a bus in memory, in order, and what it has yet to
-- read are together what it had yet to read and what was published on the bus since, in order. So a
-- consumer misses nothing and receives nothing twice, whatever other consumers read. The state
-- after the calls is of that form again.
pub run_in_order :
    (o c : String) (s : Service)
    → IsWellFormed s
    → (ops : List Operation)
    → IsWellFormed (run s ops)
      × (received o c s ops ++ pending (run s ops) o c ≡ pending s o c ++ published o s ops)
unfolding run received published
run_in_order o c s w [] = (w, append_nil (pending s o c))
run_in_order o c s w (produce_op scope now p ∷ ops) =
    let (w', e) = produce_keeps s w o c now scope p in
    let (w'', f) = run_in_order o c (produce s now scope p).0 w' ops in
    (
      w'',
      f
          ∙ ap (λ l. l ++ published o (produce s now scope p).0 ops) e
          ∙ append_assoc (pending s o c) _ _,
    )
run_in_order o c s w (consume_op scope now d max ∷ ops) =
    let (w', e) = consume_keeps s w o c now scope d max in
    let s' = (consume s now scope d max).0 in
    let (w'', f) = run_in_order o c s' w' ops in
    (
      w'',
      append_assoc _ (received o c s' ops) _
          ∙ ap
              (λ l.
                for_bus o (target scope)
                  (for_consumer c (consumer_name d) (events_of (consume s now scope d max).1))
                ++ l)
              f
          ∙ sym (append_assoc _ (pending s' o c) _)
          ∙ ap (λ l. l ++ published o s' ops) e,
    )
