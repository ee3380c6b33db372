-- ===== src/Ingest/Worker/Idle.antt =====
-- The loop of the worker ends, and leaves no job undone.
use mathlib.Core.List as List
use mathlib.Core.List.{Memᴰ}
use synamcps_server.Prelude.{
  ℕ, zero, suc, ◌+◌, ◌-◌, ◌≤◌, ◌<◌, ◌==◌, leb, String, Bool, true, false, Option, none, some, List,
  [], ◌∷◌, ◌≡◌, ◌⊎◌, inl, inr, refl, sym, ap, ◌∙◌, subst, arith, Bool-cases, All, any,
  if◌then◌else◌,
}
use synamcps_server.Prelude.Numbered.{Numbered}
use synamcps_server.Ingest.Jobs.{
  Job, JobStore, JobStatus, pending, running, completed, failed, is_pending, is_running,
  is_claimable, put_job, get_job, started, put_back, gave_up, claim, has_pending, mark_completed,
  mark_failed, Marked, marked, not_marked,
}
use synamcps_server.Ingest.Jobs.Laws.{
  IsRange, put_job-Numbered, put_job-All, get_job-put_job_self, get_job-mem, Claimed, claim-Claimed,
}
use synamcps_server.Ingest.Pipeline.{Result, ok, err, World, Env}
use synamcps_server.Ingest.Worker.{
  State, Outside, after_failure, after_process, handle_job, process, idle_round, idle_next,
  process_until_idle,
}

-- Not under way, and claimable if it waits.
abbrev pub IsFresh : Job → Type 0
IsFresh j =
    (is_running j.status ≡ false) × (is_pending j.status ≡ true → j.attempts < j.max_attempts)

abbrev pub IsFinished : Job → Type 0
IsFinished j = (j.status ≡ completed) ⊎ (j.status ≡ failed)

-- No job is under way, and every one that waits has attempts left.
abbrev pub IsReady : JobStore → Type 0
IsReady s = Numbered (λ (j : Job). j.id) 1 s.jobs × All IsFresh s.jobs

-- the attempts that a job has left
abbrev pub attempts_left : Job → ℕ
attempts_left j = if is_pending j.status then j.max_attempts - j.attempts else 0

abbrev pub all_attempts_left : List Job → ℕ
all_attempts_left [] = 0
all_attempts_left (j ∷ jobs) = attempts_left j + all_attempts_left jobs

put_job-left :
    (job old : Job) (jobs : List Job)
    → get_job job.id jobs ≡ some old
    → all_attempts_left (put_job job jobs) + attempts_left old
      ≡ all_attempts_left jobs + attempts_left job
unfolding put_job
put_job-left job old [] e = absurd (ground arith)
put_job-left job old (j ∷ jobs) e = elim (Bool-cases (j.id == job.id)) [
  | inl here ↦ rw here (let same : j ≡ old = ground arith in omega (arith, ap attempts_left same))
  | inr away ↦ rw away (omega (arith, put_job-left job old jobs (ground arith)))
]

put_job-put_job :
    (a b : Job) (jobs : List Job) → a.id ≡ b.id → put_job a (put_job b jobs) ≡ put_job a jobs
unfolding put_job
put_job-put_job a b [] e = ground arith
put_job-put_job a b (j ∷ jobs) e = ground (arith, put_job-put_job a b jobs)

any-none :
    (p : Job → Bool) (jobs : List Job)
    → ((j : Job) → Memᴰ j jobs → p j ≡ false)
    → any p jobs ≡ false
any-none p [] h = refl
any-none p (j ∷ jobs) h =
    rw (h j (List.Memᴰ.head refl)) (any-none p jobs (λ k m. h k (List.Memᴰ.tail m)))

finished_status :
    (st : JobStatus)
    → is_running st ≡ false
    → is_pending st ≡ false
    → (st ≡ completed) ⊎ (st ≡ failed)
finished_status pending r h = absurd (ground arith)
finished_status running r h = absurd (ground arith)
finished_status completed r h = inl refl
finished_status failed r h = inr refl

IsFresh-IsFinished : (j : Job) → IsFresh j → is_claimable j ≡ false → IsFinished j
unfolding is_claimable
IsFresh-IsFinished j h c = elim (Bool-cases (is_pending j.status)) [
  | inl waits ↦ absurd (ground (arith, h.1 waits))
  | inr done ↦ finished_status j.status h.0 done
]

All-IsFinished :
    (jobs : List Job)
    → All IsFresh jobs
    → ((j : Job) → Memᴰ j jobs → is_claimable j ≡ false)
    → All IsFinished jobs
All-IsFinished [] h c = tt
All-IsFinished (j ∷ jobs) h c = (
  IsFresh-IsFinished j h.0 (c j (List.Memᴰ.head refl)),
  All-IsFinished jobs h.1 (λ k m. c k (List.Memᴰ.tail m)),
)

-- What handling a job writes in its place.
abbrev Outcome : JobStore → Job → List Job → Type 0
Outcome s job jobs =
    (job' : Job) × (jobs ≡ put_job job' s.jobs)
    × (job'.id ≡ job.id)
    × IsFresh job'
    × (attempts_left job' ≤ job.max_attempts - job.attempts)

module _ {Vec : Type 0} (env : Env Vec) (out : Outside) where
  after_failure-store :
      (w : World Vec) (now : ℕ) (job : Job) (cause : String) (r : JobStore × Marked)
      → (after_failure w now job cause r).1 ≡ r.0
  unfolding after_failure
  after_failure-store w now job cause (store, not_marked e) = refl
  after_failure-store w now job cause (store, marked true) = refl
  after_failure-store w now job cause (store, marked false) = refl

  failed-Outcome :
      (s : JobStore) (now : ℕ) (job : Job) (cause : String)
      → get_job job.id s.jobs ≡ some job
      → Outcome s job (mark_failed s now job.id cause).0.jobs
  unfolding mark_failed
  failed-Outcome s now job cause found = elim (Bool-cases (leb job.max_attempts job.attempts)) [
    | inl last ↦
        rw (mark_failed, found, last)
          (gave_up now cause job, refl, refl, (refl, λ h. absurd (ground arith)), omega arith)
    | inr more ↦
        rw (mark_failed, found, more)
          (put_back now cause job, refl, refl, (refl, λ h. ground arith), omega arith)
  ]

  completed-Outcome :
      (s : JobStore) (now : ℕ) (job : Job)
      → get_job job.id s.jobs ≡ some job
      → Outcome s job (mark_completed s now job.id).0.jobs
  unfolding mark_completed
  completed-Outcome s now job found =
      rw (mark_completed, found) (_, refl, refl, (refl, λ h. absurd (ground arith)), omega arith)

  processed-Outcome :
      (s : State Vec) (job : Job) (done : World Vec × Result (Unit {0}))
      → get_job job.id s.store.jobs ≡ some job
      → Outcome s.store job (after_process out s job done).store.jobs
  unfolding after_process
  processed-Outcome s job (w, ok u) found = completed-Outcome s.store (out.now s.calls) job found
  processed-Outcome s job (w, err cause) found =
      subst (λ (t : JobStore). Outcome s.store job t.jobs)
        (sym (
          after_failure-store w (out.now s.calls) job cause
            (mark_failed s.store (out.now s.calls) job.id cause)))
        (failed-Outcome s.store (out.now s.calls) job cause found)

  handle_job-Outcome :
      (s : State Vec) (job : Job)
      → get_job job.id s.store.jobs ≡ some job
      → Outcome s.store job (handle_job env out s job).store.jobs
  unfolding handle_job
  handle_job-Outcome s job found = processed-Outcome s job (process env out s job) found

  claimable_left :
      (old : Job)
      → is_claimable old ≡ true
      → suc (old.max_attempts - (old.attempts + 1)) ≤ attempts_left old
  unfolding is_claimable
  claimable_left old h = ground arith

  -- A round that takes a job leaves fewer attempts, and a store that is ready again.
  round_lem :
      (s : State Vec) (c : JobStore) (now : ℕ) (job : Job)
      → IsReady s.store
      → Claimed s.store now c (some job)
      → IsReady (handle_job env out (record s { store = c }) job).store
        × (all_attempts_left (handle_job env out (record s { store = c }) job).store.jobs
            < all_attempts_left s.store.jobs)
  round_lem s c now job ready (old, mem, claimable, e, f, least) =
      let begun = started now old in
      let found = get_job-mem 1 old s.store.jobs ready.0 mem in
      let at_c : get_job job.id c.jobs ≡ some job =
        subst (λ (d : JobStore). get_job job.id d.jobs ≡ some job) (sym f)
          (get_job-put_job_self job s.store.jobs) in
      let (job', jobs, same_id, fresh, left) =
        handle_job-Outcome (record s { store = c }) job at_c in
      let key : job'.id ≡ old.id = same_id ∙ ap (λ (a : Job). a.id) e in
      let found' : get_job job'.id s.store.jobs ≡ some old =
        subst (λ i. get_job i s.store.jobs ≡ some old) (sym key) found in
      let written : (handle_job env out (record s { store = c }) job).store.jobs
          ≡ put_job job' s.store.jobs =
        jobs
        ∙ ap (λ (d : JobStore). put_job job' d.jobs) f
        ∙ put_job-put_job job' job s.store.jobs same_id in
      let fewer : attempts_left job' < attempts_left old = omega (
        arith,
        left,
        claimable_left old claimable,
        ap (λ (a : Job). a.max_attempts) e,
        ap (λ (a : Job). a.attempts) e,
      ) in
      (
        (
          subst (Numbered (λ (j : Job). j.id) 1) (sym written)
              (put_job-Numbered 1 job' old s.store.jobs ready.0 found'),
          subst (All IsFresh) (sym written) (put_job-All IsFresh job' s.store.jobs ready.1 fresh),
        ),
        subst (λ l. all_attempts_left l < all_attempts_left s.store.jobs) (sym written)
            (omega (arith, put_job-left job' old s.store.jobs found', fewer)),
      )

  module _ (range : List Job → List Job) (is_range : IsRange range) where
    abbrev Done : Option (State Vec) → Type 0
    Done r = (t : State Vec) × (r ≡ some t) × All IsFinished t.store.jobs

    nothing_pending :
        (s t : JobStore) (now : ℕ)
        → IsReady s
        → Claimed s now t none
        → (has_pending range t ≡ false) × All IsFinished t.jobs
    unfolding has_pending
    nothing_pending s t now ready (same, idle) =
        subst (λ (u : JobStore). (any is_claimable (range u.jobs) ≡ false) × All IsFinished u.jobs)
          (sym same)
          (
            any-none is_claimable (range s.jobs) (λ j m. idle j ((is_range s.jobs j).0 m)),
            All-IsFinished s.jobs ready.1 idle,
          )

    step-Done :
        (fuel : ℕ) (s : State Vec) (c : JobStore × Option Job)
        → IsReady s.store
        → Claimed s.store (out.now s.calls) c.0 c.1
        → ((t : State Vec)
            → IsReady t.store
            → all_attempts_left t.store.jobs < all_attempts_left s.store.jobs
            → Done (process_until_idle range env out fuel t))
        → Done (
            idle_next range env out
              (process_until_idle range env out fuel)
              s
              (idle_round range env out s c))
    unfolding idle_next idle_round
    step-Done fuel s (c, none) ready claimed rest =
        let (quiet, finished) = nothing_pending s.store c (out.now s.calls) ready claimed in
        rw quiet (record s { store = c }, refl, finished)
    step-Done fuel s (c, some job) ready claimed rest =
        let (ready', fewer) = round_lem s c (out.now s.calls) job ready claimed in
        (rest (handle_job env out (record s { store = c }) job) ready' fewer)

    -- From a store with no job under way and no waiting job without attempts left, the loop ends,
    -- within as many rounds as attempts are left and one more, whatever the pipeline answers and
    -- whatever the order of the runtime; then every job is completed or failed.
    pub process_until_idle-Done :
        (fuel : ℕ) (s : State Vec)
        → IsReady s.store
        → all_attempts_left s.store.jobs < fuel
        → (t : State Vec) × (process_until_idle range env out fuel s ≡ some t)
          × All IsFinished t.store.jobs
    unfolding process_until_idle
    process_until_idle-Done zero s ready enough = absurd (omega arith)
    process_until_idle-Done (suc fuel) s ready enough =
        step-Done fuel s (claim range s.store (out.now s.calls)) ready
          (claim-Claimed range is_range s.store (out.now s.calls))
          (λ t ready' fewer. process_until_idle-Done fuel t ready' (omega (arith, fewer, enough)))
