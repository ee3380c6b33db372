-- ===== src/Ingest/Jobs.antt =====
-- internal/knowledge/ingest/jobstore.go, the store in memory. The key of a job in the Go map is the
-- text of `job-` and a number; here it is the number. The order in which the runtime goes over the
-- map is the argument `range`.
pub mod Laws
pub mod Steps
pub mod Numbering
pub mod Active
pub mod Invariant
pub mod Stuck
use synamcps_server.Prelude.{
  ℕ, suc, ◌+◌, ◌==◌, leb, ltb, String, Bool, true, false, Option, none, some, List, [], ◌∷◌, map,
  ◌&&◌, ◌||◌, if◌then◌else◌, find?, keep, any,
}
use synamcps_server.Prelude.Strings.{◌=ˢ◌}
use synamcps_server.Prelude.Ints.{ℤ, or_default}

pub data JobKind : Type 0 where
  ingest delete_vectors : JobKind
  other : String → JobKind

pub data JobStatus : Type 0 where
  pending running completed failed : JobStatus

pub record Job : Type 0 where
  pub id : ℕ
  pub doc_id : String
  pub kind : JobKind
  pub status : JobStatus
  pub attempts : ℕ
  pub max_attempts : ℕ
  pub last_error : String
  pub created_at : ℕ
  pub updated_at : ℕ
  pub started_at : Option ℕ
  pub completed_at : Option ℕ

-- `wake` is the channel of one place that wakes the worker: whether it is full.
pub record JobStore : Type 0 where
  pub jobs : List Job
  pub seq : ℕ
  pub wake : Bool

pub data JobError : Type 0 where
  job_not_found : ℕ → JobError

pub data Marked : Type 0 where
  marked : Bool → Marked
  not_marked : JobError → Marked

abbrev pub new_store : JobStore
new_store = record { jobs = []; seq = 0; wake = false }

abbrev pub is_pending : JobStatus → Bool
is_pending pending = true
is_pending running = false
is_pending completed = false
is_pending failed = false

abbrev pub is_running : JobStatus → Bool
is_running pending = false
is_running running = true
is_running completed = false
is_running failed = false

infix 50 ◌=ᵏ◌
abbrev pub ◌=ᵏ◌ : JobKind → JobKind → Bool
ingest =ᵏ ingest = true
ingest =ᵏ delete_vectors = false
ingest =ᵏ other b = false
delete_vectors =ᵏ ingest = false
delete_vectors =ᵏ delete_vectors = true
delete_vectors =ᵏ other b = false
other a =ᵏ ingest = false
other a =ᵏ delete_vectors = false
other a =ᵏ other b = a =ˢ b

-- the test of the loop of `Enqueue`
unfoldable pub is_active : String → JobKind → Job → Bool
is_active doc_id kind j =
    j.doc_id =ˢ doc_id && j.kind =ᵏ kind && (is_pending j.status || is_running j.status)

-- the test of the loops of `Claim` and `HasPending`
unfoldable pub is_claimable : Job → Bool
is_claimable j = is_pending j.status && ltb j.attempts j.max_attempts

-- `s.jobs[job.ID] = job`
unfoldable pub put_job : Job → List Job → List Job
put_job job [] = job ∷ []
put_job job (j ∷ jobs) = if j.id == job.id then job ∷ jobs else j ∷ put_job job jobs

-- `job, ok := s.jobs[jobID]`
abbrev pub get_job : ℕ → List Job → Option Job
get_job id jobs = find? (λ j. j.id == id) jobs

abbrev pub new_job : ℕ → ℕ → String → JobKind → ℕ → Job
new_job seq now doc_id kind max_attempts = record {
  id = seq;
  doc_id = doc_id;
  kind = kind;
  status = pending;
  attempts = 0;
  max_attempts = max_attempts;
  last_error = "";
  created_at = now;
  updated_at = now;
  started_at = none;
  completed_at = none;
}

-- The first job that was created before all others, as sorting by the time leaves it in front.
unfoldable pub earliest : Job → List Job → Job
earliest j [] = j
earliest j (k ∷ jobs) = earliest (if ltb k.created_at j.created_at then k else j) jobs

abbrev pub started : ℕ → Job → Job
started now job = record job {
  status = running;
  attempts = job.attempts + 1;
  updated_at = now;
  started_at = some now;
}

unfoldable pub claim_first : JobStore → ℕ → List Job → JobStore × Option Job
claim_first s now [] = (s, none)
claim_first s now (j ∷ jobs) =
    let job = started now (earliest j jobs) in (record s { jobs = put_job job s.jobs }, some job)

module _ (range : List Job → List Job) where
  -- `Enqueue`
  unfoldable pub enqueue_job : JobStore → ℕ → String → JobKind → ℤ → JobStore × Job
  enqueue_job s now doc_id kind max_attempts = elim (find? (is_active doc_id kind) (range s.jobs)) [
    | some j ↦ (s, j)
    | none ↦
        let job = new_job (suc s.seq) now doc_id kind (or_default max_attempts 3) in
        (record { jobs = put_job job s.jobs; seq = suc s.seq; wake = true }, job)
  ]

  -- `Claim`
  unfoldable pub claim : JobStore → ℕ → JobStore × Option Job
  unfolding claim_first
  claim s now = claim_first s now (keep is_claimable (range s.jobs))

  -- `HasPending`
  unfoldable pub has_pending : JobStore → Bool
  has_pending s = any is_claimable (range s.jobs)

-- `MarkCompleted`
unfoldable pub mark_completed : JobStore → ℕ → ℕ → JobStore × Option JobError
mark_completed s now id = elim (get_job id s.jobs) [
  | none ↦ (s, some (job_not_found id))
  | some job ↦ (
    record s {
      jobs =
          put_job (record job { status = completed; updated_at = now; completed_at = some now })
            s.jobs;
    },
    none,
  )
]

abbrev pub gave_up : ℕ → String → Job → Job
gave_up now text cur = record cur { last_error = text; updated_at = now; status = failed }

abbrev pub put_back : ℕ → String → Job → Job
put_back now text cur = record cur { last_error = text; updated_at = now; status = pending }

-- `MarkFailed`, by the id of the job; the answer is whether it will be tried again
unfoldable pub mark_failed : JobStore → ℕ → ℕ → String → JobStore × Marked
mark_failed s now id text = elim (get_job id s.jobs) [
  | none ↦ (s, not_marked (job_not_found id))
  | some cur ↦
      if leb cur.max_attempts cur.attempts
      then (record s { jobs = put_job (gave_up now text cur) s.jobs }, marked false)
      else (record s { jobs = put_job (put_back now text cur) s.jobs; wake = true }, marked true)
]

-- `RecoverStale`, which in memory takes every running job for a stale one
unfoldable pub recovered : ℕ → Job → Job
recovered now j = if is_running j.status then record j { status = pending; updated_at = now } else j

unfoldable pub recover_stale : JobStore → ℕ → JobStore
recover_stale s now = record s { jobs = map (recovered now) s.jobs }
