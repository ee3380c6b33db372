-- ===== src/Ingest/Worker.antt =====
-- internal/knowledge/ingest/worker.go: how a job is handled, and the loop that runs until no job is
-- claimable, with no other caller of the store and no cancellation.
pub mod Laws
pub mod Idle
use Prim.Native.String.{◌++◌}
use synamcps_server.Prelude.{
  ℕ, zero, suc, ◌+◌, String, Bool, true, false, Option, none, some, List, if◌then◌else◌, ◌⊎◌, inl,
  inr,
}
use synamcps_server.Prelude.Ints.{ℤ, pos, or_default}
use synamcps_server.Ingest.Jobs.{
  Job, JobStore, JobKind, ingest, delete_vectors, other, Marked, marked, not_marked, enqueue_job,
  claim, has_pending, mark_completed, mark_failed,
}
use synamcps_server.Ingest.Pipeline.{
  Result, ok, err, World, Env, process_ingest, process_delete_vectors, on_job_terminal_failure,
}

-- The store, the pipeline's world, and how many calls were made, for which the clock and the
-- generator of ids are asked.
pub record State (Vec : Type 0) : Type 0 where
  pub store : JobStore
  pub world : World Vec
  pub calls : ℕ

pub record Outside : Type 0 where
  pub now : ℕ → ℕ
  pub uuid : ℕ → String

-- `errUnknownJobKind`
abbrev pub unknown_job_kind : String → String
unknown_job_kind kind = "unknown ingest job kind: " ++ kind

module _ {Vec : Type 0} where
  -- the switch of `handleJob`
  unfoldable pub process : Env Vec → Outside → State Vec → Job → World Vec × Result (Unit {0})
  process env out s job = elim job.kind [
    | ingest ↦ process_ingest env (out.uuid s.calls) (out.now s.calls) s.world job.doc_id
    | delete_vectors ↦ process_delete_vectors s.world job.doc_id
    | other kind ↦ (s.world, err (unknown_job_kind kind))
  ]

  unfoldable pub after_failure :
      World Vec → ℕ → Job → String → JobStore × Marked → World Vec × JobStore
  after_failure w now job cause (store, not_marked e) = (w, store)
  after_failure w now job cause (store, marked true) = (w, store)
  after_failure w now job cause (store, marked false) =
      (on_job_terminal_failure w now job cause, store)

  unfoldable pub after_process :
      Outside → State Vec → Job → World Vec × Result (Unit {0}) → State Vec
  unfolding after_failure
  after_process out s job (w, ok u) = record {
    store = (mark_completed s.store (out.now s.calls) job.id).0;
    world = w;
    calls = suc s.calls;
  }
  after_process out s job (w, err cause) =
      let now = out.now s.calls in
      let (w', store) = after_failure w now job cause (mark_failed s.store now job.id cause) in
      record { store = store; world = w'; calls = suc s.calls }

  -- `handleJob`
  unfoldable pub handle_job : Env Vec → Outside → State Vec → Job → State Vec
  unfolding process after_process
  handle_job env out s job = after_process out s job (process env out s job)

  module _ (range : List Job → List Job) (env : Env Vec) (out : Outside) where
    -- one round of `ProcessUntilIdle`: `none` is that it sleeps, for a job that another caller runs
    unfoldable pub idle_round : State Vec → JobStore × Option Job → Option (State Vec) ⊎ State Vec
    unfolding handle_job
    idle_round s (store, some job) = inr (handle_job env out (record s { store = store }) job)
    idle_round s (store, none) =
        inl (if has_pending range store then none else some (record s { store = store }))

    unfoldable pub idle_next :
        (State Vec → Option (State Vec))
        → State Vec
        → Option (State Vec) ⊎ State Vec
        → Option (State Vec)
    idle_next again s (inl none) = again s
    idle_next again s (inl (some done)) = some done
    idle_next again s (inr next) = again next

    -- `ProcessUntilIdle`, with fuel; `none` is that the fuel ran out
    unfoldable pub process_until_idle : ℕ → State Vec → Option (State Vec)
    unfolding idle_round idle_next
    process_until_idle zero s = none
    process_until_idle (suc fuel) s =
        idle_next (process_until_idle fuel) s (idle_round s (claim range s.store (out.now s.calls)))

-- `EnqueueDelete`
unfoldable pub enqueue_delete : (List Job → List Job) → JobStore → ℕ → String → ℤ → JobStore × Job
unfolding enqueue_job
enqueue_delete range s now doc_id max_attempts =
    enqueue_job range s now doc_id delete_vectors (pos (or_default max_attempts 3))
