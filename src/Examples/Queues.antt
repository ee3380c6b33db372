-- ===== src/Examples/Queues.antt =====
-- The theorems on queues and buses at a concrete queue and a concrete bus.
use synamcps_server.Prelude.{false, true, none, some, List, [], ◌∷◌, ◌++◌, length, ◌≡◌, refl}
use synamcps_server.Json.{end}
use synamcps_server.Policy.{Scope}
use synamcps_server.DataServices.Queue.{Service, queue_of, enqueue, dequeue}
use synamcps_server.DataServices.Queue.Laws.{
  Operation, enqueue_op, dequeue_op, run, put, taken, run_fifo,
}
use synamcps_server.Prelude.{arith}
use synamcps_server.Prelude.Ints.{pos, negsuc}
use synamcps_server.Models.{bus, group}
use synamcps_server.DataServices.Bus
use synamcps_server.DataServices.Bus.Runs
use synamcps_server.DataServices.Bus.Laws.{IsWellFormed, pending}
use synamcps_server.Examples.{alice, queue_object, queue_access}

abbrev queue_scope : Scope
queue_scope = record {
  object = queue_object;
  method = "enqueue";
  access = queue_access;
  principal = alice;
  in_tx = false;
  mem = true;
}

abbrev no_messages : Service
no_messages = record { mem = λ o. []; amqp = none }

abbrev calls : List Operation
calls =
    enqueue_op (some queue_scope) 1 none
    ∷ enqueue_op (some queue_scope) 2 (some end)
    ∷ dequeue_op (some queue_scope) 3
    ∷ enqueue_op none 4 none
    ∷ []

one_taken : length (taken "q-1" no_messages calls) ≡ 1
unfolding taken run queue_of dequeue enqueue
one_taken = refl

run_fifo_example :
    taken "q-1" no_messages calls ++ (run no_messages calls).mem "q-1" ≡ put "q-1" no_messages calls
run_fifo_example = run_fifo "q-1" no_messages calls

abbrev bus_scope : Scope
bus_scope = record {
  object = record {
    id = "b-1";
    kind = bus;
    owner_subject_key = "user:internal:alice";
    visibility = group;
    backend = "";
  };
  method = "produce";
  access = queue_access;
  principal = alice;
  in_tx = false;
  mem = true;
}

abbrev no_events : Bus.Service
no_events = record { mem = λ o. []; offs = λ o c. 0; kafka = none }

no_events-IsWellFormed : IsWellFormed no_events
no_events-IsWellFormed o = (tt, λ c. omega arith)

abbrev bus_calls : List Runs.Operation
bus_calls =
    Runs.produce_op (some bus_scope) 1 none
    ∷ Runs.produce_op (some bus_scope) 2 (some end)
    ∷ Runs.consume_op (some bus_scope) 3 "" (pos 1)
    ∷ Runs.consume_op (some bus_scope) 4 "other" (pos 0)
    ∷ Runs.consume_op (some bus_scope) 5 "default" (negsuc 0)
    ∷ Runs.produce_op (some bus_scope) 6 none
    ∷ []

two_received : length (Runs.received "b-1" "default" no_events bus_calls) ≡ 2
unfolding Runs.received Bus.bus_of Bus.consume Bus.produce Bus.mem_consume Bus.read_loop
    Bus.mem_produce Bus.move_offset
two_received = refl

run_in_order_example :
    IsWellFormed (Runs.run no_events bus_calls)
    × (Runs.received "b-1" "default" no_events bus_calls
          ++ pending (Runs.run no_events bus_calls) "b-1" "default"
        ≡ Runs.published "b-1" no_events bus_calls)
run_in_order_example = Runs.run_in_order "b-1" "default" no_events no_events-IsWellFormed bus_calls
