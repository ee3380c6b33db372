-- ===== src/Ingest/Jobs/Steps.antt =====
-- What the callers of a job store and its worker do to it, one call after another.
use synamcps_server.Prelude.{ℕ, ◌≤◌, String, some, List, ◌≡◌, ◌≢◌, true, ◌||◌, length, keep, All}
use synamcps_server.Prelude.Ints.{ℤ}
use synamcps_server.Prelude.Numbered.{Numbered}
use synamcps_server.Ingest.Jobs.{
  Job, JobStore, JobKind, is_pending, is_running, is_active, get_job, enqueue_job, claim,
  mark_completed, mark_failed, recover_stale,
}

-- Jobs are numbered from 1, and none is tried more often than it may be.
pub record IsNumbered (s : JobStore) : Type 0 where
  pub numbered : Numbered (λ (j : Job). j.id) 1 s.jobs
  pub counted : s.seq ≡ length s.jobs
  pub attempts : All (λ (j : Job). j.attempts ≤ j.max_attempts) s.jobs

-- A document has, besides, one job of a kind at most that is pending or running.
pub record IsWellFormed (s : JobStore) : Type 0 where
  pub numbering : IsNumbered s
  pub one_active :
      (doc_id : String) (kind : JobKind) → length (keep (is_active doc_id kind) s.jobs) ≤ 1

-- A call of the store, with any arguments.
pub data Step (range : List Job → List Job) : JobStore → JobStore → Type 0 where
  enqueue_step :
      (s : JobStore) (now : ℕ) (doc_id : String) (kind : JobKind) (max_attempts : ℤ)
      → Step range s (enqueue_job range s now doc_id kind max_attempts).0
  claim_step : (s : JobStore) (now : ℕ) → Step range s (claim range s now).0
  complete_step : (s : JobStore) (now id : ℕ) → Step range s (mark_completed s now id).0
  fail_step :
      (s : JobStore) (now id : ℕ) (text : String) → Step range s (mark_failed s now id text).0
  recover_step : (s : JobStore) (now : ℕ) → Step range s (recover_stale s now)

pub data Steps (range : List Job → List Job) (s : JobStore) : JobStore → Type 0 where
  here : Steps range s s
  next : {t u : JobStore} → Steps range s t → Step range t u → Steps range s u

-- Whether a call fails no job that is over already, which the store itself does not look at.
abbrev pub FailsUnfinished :
    {range : List Job → List Job} {s t : JobStore} → Step range s t → Type 0
FailsUnfinished (enqueue_step s now doc_id kind max_attempts) = Unit
FailsUnfinished (claim_step s now) = Unit
FailsUnfinished (complete_step s now id) = Unit
FailsUnfinished (fail_step s now id text) =
    (j : Job) → get_job id s.jobs ≡ some j → (is_pending j.status || is_running j.status) ≡ true
FailsUnfinished (recover_step s now) = Unit

abbrev pub AllFailUnfinished :
    {range : List Job → List Job} {s t : JobStore} → Steps range s t → Type 0
AllFailUnfinished here = Unit
AllFailUnfinished (next steps step) = AllFailUnfinished steps × FailsUnfinished step

-- Whether a call marks a job other than the one of the id.
abbrev pub MarksOther : {range : List Job → List Job} {s t : JobStore} → ℕ → Step range s t → Type 0
MarksOther id (enqueue_step s now doc_id kind max_attempts) = Unit
MarksOther id (claim_step s now) = Unit
MarksOther id (complete_step s now k) = k ≢ id
MarksOther id (fail_step s now k text) = k ≢ id
MarksOther id (recover_step s now) = Unit

abbrev pub AllMarkOther :
    {range : List Job → List Job} {s t : JobStore} → ℕ → Steps range s t → Type 0
AllMarkOther id here = Unit
AllMarkOther id (next steps step) = AllMarkOther id steps × MarksOther id step
