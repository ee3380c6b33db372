-- ===== src/DataServices/Queue.antt =====
-- internal/queue/service.go: a queue for each object, in memory or behind an AMQP broker.
pub mod Laws
use Prim.Native.String.{◌++◌}
use mathlib.Core.List as List
use synamcps_server.Prelude.{
  ℕ, ◌+◌, String, Bool, true, false, Option, none, some, List, [], ◌∷◌, if◌then◌else◌, length,
}
use synamcps_server.Prelude.Strings.{◌=ˢ◌}
use synamcps_server.Prelude.Maps.{update}
use synamcps_server.Json.{Fields}
use synamcps_server.Models.{DataObject, queue}
use synamcps_server.Policy.{Scope}
use synamcps_server.DataServices.{
  Result, ok, err, kind_mismatch, backend_not_configured, payload_of,
}

pub record Message : Type 0 where
  pub id : ℕ
  pub payload : Fields
  pub created_at : ℕ

-- The broker, by its answers for a queue's name: payloads that its JSON decodes to.
pub record Amqp : Type 0 where
  pub enqueue : String → Fields → Result (Unit {0})
  pub dequeue : String → Result (Option Fields)
  pub peek : String → Result (Option Fields)
  pub size : String → Result ℕ

pub record Service : Type 0 where
  pub mem : String → List Message
  pub amqp : Option Amqp

-- `scope == nil || scope.Kind() != ObjectKindQueue`, else the object
unfoldable pub queue_of : Option Scope → Option DataObject
queue_of none = none
queue_of (some scope) = elim scope.object.kind [ queue ↦ some scope.object | _ ↦ none ]

abbrev pub is_rabbitmq : DataObject → Bool
is_rabbitmq object = object.backend =ˢ "rabbitmq"

-- `"syna."+scope.ObjectID()`
abbrev pub broker_name : DataObject → String
broker_name object = "syna." ++ object.id

unfoldable pub broker {ℓ} : {A : Type ℓ} → Service → (Amqp → Result A) → Result A
broker s ask = elim s.amqp [ none ↦ err backend_not_configured | some amqp ↦ ask amqp ]

unfoldable pub broker_message : ℕ → Result (Option Fields) → Result (Option Message)
broker_message now (err e) = err e
broker_message now (ok none) = ok none
broker_message now (ok (some p)) = ok (some (record { id = 0; payload = p; created_at = now }))

unfoldable pub broker_enqueued : ℕ → Fields → Result (Unit {0}) → Result Message
broker_enqueued now p (err e) = err e
broker_enqueued now p (ok _) = ok (record { id = 0; payload = p; created_at = now })

unfoldable pub mem_enqueue : Service → String → ℕ → Fields → Service × Message
mem_enqueue s o now p =
    let m : Message = record { id = length (s.mem o) + 1; payload = p; created_at = now } in
    (record s { mem = update s.mem o (List.◌++◌ (s.mem o) (m ∷ [])) }, m)

unfoldable pub mem_dequeue_from : Service → String → List Message → Service × Option Message
mem_dequeue_from s o [] = (s, none)
mem_dequeue_from s o (m ∷ rest) = (record s { mem = update s.mem o rest }, some m)

unfoldable pub mem_dequeue : Service → String → Service × Option Message
unfolding mem_dequeue_from
mem_dequeue s o = mem_dequeue_from s o (s.mem o)

unfoldable pub mem_peek : Service → String → Option Message
mem_peek s o = elim (s.mem o) [ [] ↦ none | m ∷ rest ↦ some m ]

-- `Enqueue`
unfoldable pub enqueue : Service → ℕ → Option Scope → Option Fields → Service × Result Message
unfolding mem_enqueue
enqueue s now scope payload = elim (queue_of scope) [
  | none ↦ (s, err kind_mismatch)
  | some object ↦
      if is_rabbitmq object
      then (
        s,
        broker s (λ amqp.
            broker_enqueued now (payload_of payload)
              (amqp.enqueue (broker_name object) (payload_of payload))),
      )
      else (let (s', m) = mem_enqueue s object.id now (payload_of payload) in (s', ok m))
]

-- `Dequeue`
unfoldable pub dequeue : Service → ℕ → Option Scope → Service × Result (Option Message)
unfolding mem_dequeue
dequeue s now scope = elim (queue_of scope) [
  | none ↦ (s, err kind_mismatch)
  | some object ↦
      if is_rabbitmq object
      then (s, broker s (λ amqp. broker_message now (amqp.dequeue (broker_name object))))
      else (let (s', m) = mem_dequeue s object.id in (s', ok m))
]

-- `Peek`; a message of the broker has no time
unfoldable pub peek : Service → Option Scope → Result (Option Message)
peek s scope = elim (queue_of scope) [
  | none ↦ err kind_mismatch
  | some object ↦
      if is_rabbitmq object
      then broker s (λ amqp. broker_message 0 (amqp.peek (broker_name object)))
      else ok (mem_peek s object.id)
]

-- `Size`
unfoldable pub size : Service → Option Scope → Result ℕ
size s scope = elim (queue_of scope) [
  | none ↦ err kind_mismatch
  | some object ↦
      if is_rabbitmq object
      then broker s (λ amqp. amqp.size (broker_name object))
      else ok (length (s.mem object.id))
]
