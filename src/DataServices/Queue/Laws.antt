-- ===== src/DataServices/Queue/Laws.antt =====
-- A queue in memory is first in, first out, and loses nothing.
use synamcps_server.Prelude.Lists.{append_nil, append_assoc}
use synamcps_server.Prelude.{
  ℕ, String, Option, none, some, List, [], ◌∷◌, ◌++◌, ◌≡◌, refl, sym, ap, ◌∙◌, subst, eq_iff,
  if◌then◌else◌, Bool-cases, Option-cases, inl, inr,
}
use synamcps_server.Prelude.Strings.{◌=ˢ◌}
use synamcps_server.Json.{Fields}
use synamcps_server.Models.{DataObject}
use synamcps_server.Policy.{Scope}
use synamcps_server.DataServices.{Result, ok, err, payload_of}
use synamcps_server.DataServices.Queue.{
  Message, Service, queue_of, is_rabbitmq, mem_enqueue, mem_dequeue_from, enqueue, dequeue,
}

-- A call of some caller.
pub data Operation : Type 0 where
  enqueue_op : Option Scope → ℕ → Option Fields → Operation
  dequeue_op : Option Scope → ℕ → Operation

-- The queue in memory that a scope is for: none for another kind of object or behind a broker.
abbrev pub target_of : Option DataObject → Option String
target_of none = none
target_of (some object) = if is_rabbitmq object then none else some object.id

abbrev pub target : Option Scope → Option String
target scope = target_of (queue_of scope)

abbrev pub message_of : Result Message → Option Message
message_of (err e) = none
message_of (ok m) = some m

abbrev pub dequeued_of : Result (Option Message) → Option Message
dequeued_of (err e) = none
dequeued_of (ok m) = m

abbrev pub added : String → String → Message → List Message → List Message
added o j m rest = if j =ˢ o then m ∷ rest else rest

abbrev pub taken_by : String → String → Option Message → List Message → List Message
taken_by o j none rest = rest
taken_by o j (some m) rest = added o j m rest

-- the message of an answer, if it was for the queue
abbrev pub counted : String → Option String → Option Message → List Message → List Message
counted o none m rest = rest
counted o (some j) m rest = taken_by o j m rest

-- The state after a sequence of calls.
unfoldable pub run : Service → List Operation → Service
run s [] = s
run s (enqueue_op scope now p ∷ ops) = run (enqueue s now scope p).0 ops
run s (dequeue_op scope now ∷ ops) = run (dequeue s now scope).0 ops

-- The messages that the calls of Enqueue for a queue returned.
unfoldable pub put : String → Service → List Operation → List Message
put o s [] = []
put o s (enqueue_op scope now p ∷ ops) =
    counted o (target scope) (message_of (enqueue s now scope p).1)
      (put o (enqueue s now scope p).0 ops)
put o s (dequeue_op scope now ∷ ops) = put o (dequeue s now scope).0 ops

-- The messages that the calls of Dequeue for a queue returned.
unfoldable pub taken : String → Service → List Operation → List Message
taken o s [] = []
taken o s (enqueue_op scope now p ∷ ops) = taken o (enqueue s now scope p).0 ops
taken o s (dequeue_op scope now ∷ ops) =
    counted o (target scope) (dequeued_of (dequeue s now scope).1)
      (taken o (dequeue s now scope).0 ops)

enqueued :
    (s : Service) (o j : String) (now : ℕ) (p : Fields) (rest : List Message)
    → (mem_enqueue s j now p).0.mem o ++ rest ≡ s.mem o ++ added o j (mem_enqueue s j now p).1 rest
unfolding mem_enqueue
enqueued s o j now p rest = elim (Bool-cases (j =ˢ o)) [
  | inl mine ↦ rw mine (
      subst
        (λ k.
          (s.mem j ++ (mem_enqueue s j now p).1 ∷ []) ++ rest
          ≡ s.mem k ++ (mem_enqueue s j now p).1 ∷ rest)
        ((eq_iff j o).0 mine) (append_assoc (s.mem j) ((mem_enqueue s j now p).1 ∷ []) rest))
  | inr other ↦ rw other refl
]

dequeued_from :
    (s : Service) (o j : String) (q rest : List Message)
    → s.mem j ≡ q
    → taken_by o j (mem_dequeue_from s j q).1 ((mem_dequeue_from s j q).0.mem o ++ rest)
      ≡ s.mem o ++ rest
unfolding mem_dequeue_from
dequeued_from s o j [] rest e = refl
dequeued_from s o j (m ∷ q) rest e = elim (Bool-cases (j =ˢ o)) [
  | inl mine ↦ rw mine (ap (λ l. l ++ rest) (sym e ∙ ap s.mem ((eq_iff j o).0 mine)))
  | inr other ↦ rw other refl
]

taken_by-append :
    (o j : String) (m : Option Message) (xs ys : List Message)
    → taken_by o j m xs ++ ys ≡ taken_by o j m (xs ++ ys)
taken_by-append o j none xs ys = refl
taken_by-append o j (some m) xs ys = elim (Bool-cases (j =ˢ o)) [
  | inl mine ↦ rw mine refl
  | inr other ↦ rw other refl
]

counted-append :
    (o : String) (t : Option String) (m : Option Message) (xs ys : List Message)
    → counted o t m xs ++ ys ≡ counted o t m (xs ++ ys)
counted-append o none m xs ys = refl
counted-append o (some j) m xs ys = taken_by-append o j m xs ys

enqueue_keeps :
    (s : Service) (o : String) (now : ℕ) (scope : Option Scope) (p : Option Fields)
    (rest : List Message)
    → (enqueue s now scope p).0.mem o ++ rest
      ≡ s.mem o ++ counted o (target scope) (message_of (enqueue s now scope p).1) rest
unfolding enqueue
enqueue_keeps s o now scope p rest = elim (Option-cases (queue_of scope)) [
  | inl e ↦ rw (e, enqueue) refl
  | inr (object, e) ↦ elim (Bool-cases (is_rabbitmq object)) [
    | inl broker ↦ rw (e, broker, enqueue) refl
    | inr memory ↦ rw (e, memory, enqueue) (enqueued s o object.id now (payload_of p) rest)
  ]
]

dequeue_keeps :
    (s : Service) (o : String) (now : ℕ) (scope : Option Scope) (rest : List Message)
    → counted o
        (target scope)
        (dequeued_of (dequeue s now scope).1)
        ((dequeue s now scope).0.mem o ++ rest)
      ≡ s.mem o ++ rest
unfolding dequeue
dequeue_keeps s o now scope rest = elim (Option-cases (queue_of scope)) [
  | inl e ↦ rw (e, dequeue) refl
  | inr (object, e) ↦ elim (Bool-cases (is_rabbitmq object)) [
    | inl broker ↦ rw (e, broker, dequeue) refl
    | inr memory ↦ rw (e, memory, dequeue) (dequeued_from s o object.id (s.mem object.id) rest refl)
  ]
]

-- Whatever calls run on whatever queues, what Dequeue returned of a queue in memory, in order, and
-- what is left on it are together what was on it and what Enqueue put on it, in order: nothing is
-- lost, doubled or overtaken.
pub run_fifo :
    (o : String) (s : Service) (ops : List Operation)
    → taken o s ops ++ (run s ops).mem o ≡ s.mem o ++ put o s ops
unfolding taken run put
run_fifo o s [] = append_nil (s.mem o)
run_fifo o s (enqueue_op scope now p ∷ ops) =
    let s' = (enqueue s now scope p).0 in
    run_fifo o s' ops ∙ enqueue_keeps s o now scope p (put o s' ops)
run_fifo o s (dequeue_op scope now ∷ ops) =
    let s' = (dequeue s now scope).0 in
    let m = dequeued_of (dequeue s now scope).1 in
    counted-append o (target scope) m (taken o s' ops) _
    ∙ ap (counted o (target scope) m) (run_fifo o s' ops)
    ∙ dequeue_keeps s o now scope (put o s' ops)
