-- ===== src/DataServices/Bus.antt =====
-- internal/bus/service.go: a log of events for each object, that every consumer reads at its own
-- offset, in memory or behind Kafka.
pub mod Loop
pub mod Laws
pub mod Runs
use Prim.Native.String.{◌++◌}
use mathlib.Core.List as List
use synamcps_server.Prelude.{
  ℕ, zero, suc, ◌+◌, ltb, leb, ◌&&◌, String, Bool, true, false, Option, none, some, List, [], ◌∷◌,
  if◌then◌else◌, length, last?, map, not,
}
use synamcps_server.Prelude.Strings.{◌=ˢ◌}
use synamcps_server.Prelude.Ints.{ℤ, pos, negsuc}
use synamcps_server.Prelude.Maps.{update}
use synamcps_server.Json.{Fields}
use synamcps_server.Models.{DataObject, bus}
use synamcps_server.Policy.{Scope}
use synamcps_server.DataServices.{
  Result, ok, err, kind_mismatch, backend_not_configured, payload_of,
}

pub record Event : Type 0 where
  pub id : ℕ
  pub payload : Fields
  pub created_at : ℕ

-- Kafka, by its answers for a topic's name: payloads that its JSON decodes to.
pub record Kafka : Type 0 where
  pub produce : String → Fields → Result (Unit {0})
  pub consume : String → String → ℕ → Result (List Fields)

-- A consumer with no offset is at 0, in Go's map as here.
pub record Service : Type 0 where
  pub mem : String → List Event
  pub offs : String → String → ℕ
  pub kafka : Option Kafka

-- `scope == nil || scope.Kind() != ObjectKindBus`, else the object
unfoldable pub bus_of : Option Scope → Option DataObject
bus_of none = none
bus_of (some scope) = elim scope.object.kind [ bus ↦ some scope.object | _ ↦ none ]

abbrev pub is_kafka : DataObject → Bool
is_kafka object = object.backend =ˢ "kafka"

-- `"syna."+scope.ObjectID()`
abbrev pub topic_name : DataObject → String
topic_name object = "syna." ++ object.id

unfoldable pub with_kafka {ℓ} : {A : Type ℓ} → Service → (Kafka → Result A) → Result A
with_kafka s ask = elim s.kafka [ none ↦ err backend_not_configured | some kafka ↦ ask kafka ]

unfoldable pub kafka_produced : ℕ → Fields → Result (Unit {0}) → Result Event
kafka_produced now p (err e) = err e
kafka_produced now p (ok _) = ok (record { id = 0; payload = p; created_at = now })

unfoldable pub kafka_events : ℕ → Result (List Fields) → Result (List Event)
kafka_events now (err e) = err e
kafka_events now (ok raws) = ok (map (λ p. record { id = 0; payload = p; created_at = now }) raws)

-- `if consumer == "" { consumer = "default" }`
abbrev pub consumer_name : String → String
consumer_name consumer = if consumer =ˢ "" then "default" else consumer

-- `if max <= 0 { max = 10 }`
abbrev pub max_of : ℤ → ℕ
max_of (pos zero) = 10
max_of (pos (suc n)) = suc n
max_of (negsuc n) = 10

unfoldable pub mem_produce : Service → String → ℕ → Fields → Service × Event
mem_produce s o now p =
    let e : Event = record { id = length (s.mem o) + 1; payload = p; created_at = now } in
    (record s { mem = update s.mem o (List.◌++◌ (s.mem o) (e ∷ [])) }, e)

-- The loop over the log: an event behind the last is appended, and the loop ends when `max` are.
unfoldable pub read_loop : ℕ → ℕ → List Event → List Event → List Event
read_loop last max out [] = out
read_loop last max out (e ∷ events) =
    let out' = if ltb last e.id then List.◌++◌ out (e ∷ []) else out in
    let rest = read_loop last max out' events in
    if ltb last e.id && leb max (length out') then out' else rest

-- `if len(out) > 0 { s.offs[scope.ObjectID()][consumer] = out[len(out)-1].ID }`
unfoldable pub move_offset : Service → String → String → Option Event → Service
move_offset s o consumer none = s
move_offset s o consumer (some e) = record s {
  offs = update s.offs o (update (s.offs o) consumer e.id);
}

unfoldable pub mem_consume : Service → String → String → ℕ → Service × List Event
mem_consume s o consumer max =
    let out = read_loop (s.offs o consumer) max [] (s.mem o) in
    (move_offset s o consumer (last? out), out)

-- `Produce`
unfoldable pub produce : Service → ℕ → Option Scope → Option Fields → Service × Result Event
produce s now scope payload = elim (bus_of scope) [
  | none ↦ (s, err kind_mismatch)
  | some object ↦
      if is_kafka object
      then (
        s,
        with_kafka s (λ kafka.
            kafka_produced now (payload_of payload)
              (kafka.produce (topic_name object) (payload_of payload))),
      )
      else (let (s', e) = mem_produce s object.id now (payload_of payload) in (s', ok e))
]

-- `Consume`
unfoldable pub consume : Service → ℕ → Option Scope → String → ℤ → Service × Result (List Event)
consume s now scope consumer max = elim (bus_of scope) [
  | none ↦ (s, err kind_mismatch)
  | some object ↦
      if is_kafka object
      then (
        s,
        with_kafka s (λ kafka.
            kafka_events now
              (kafka.consume (topic_name object) (consumer_name consumer) (max_of max))),
      )
      else (let (s', out) = mem_consume s object.id (consumer_name consumer) (max_of max) in
          (s', ok out))
]
