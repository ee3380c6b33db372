-- ===== src/Ingest/Jobs/Stuck.antt =====
-- A job that is recovered on its last attempt.
use mathlib.Core.Option as Option
use synamcps_server.Prelude.{
  ℕ, suc, ◌≤◌, ◌==◌, leb, String, Bool, true, false, Option, none, some, List, [], ◌∷◌, ◌≡◌, ◌≢◌,
  refl, sym, ap, ◌∙◌, subst, arith, Bool-cases, Option-cases, inl, inr, find?, map, eq_refl,
}
use synamcps_server.Prelude.Ints.{ℤ}
use synamcps_server.Prelude.Numbered.{Numbered-bound}
use synamcps_server.Ingest.Jobs.{
  Job, JobStore, JobKind, ingest, delete_vectors, other, pending, running, ◌=ᵏ◌, is_active,
  is_claimable, put_job, get_job, started, recovered, enqueue_job, mark_completed, mark_failed,
  recover_stale,
}
use synamcps_server.Ingest.Jobs.Laws.{
  IsRange, get_job-mem, get_job-id, get_job-put_job_other, Claimed, claim-Claimed, mem_of_get_job,
}
use synamcps_server.Ingest.Jobs.Steps.{
  IsNumbered, MarksOther, AllMarkOther, Step, enqueue_step, claim_step, complete_step, fail_step,
  recover_step, Steps, here, next,
}
use synamcps_server.Ingest.Jobs.Active.{find?-none}
use synamcps_server.Ingest.Jobs.Numbering.{recovered-id, recover_stale-IsNumbered, Steps-IsNumbered}

-- A job that waits and may not be tried again.
abbrev pub IsStuck : Job → Type 0
IsStuck j = (j.status ≡ pending) × (j.max_attempts ≤ j.attempts)

stuck_not_claimable : (j : Job) → IsStuck j → is_claimable j ≡ false
unfolding is_claimable
stuck_not_claimable j h = ground arith

put_job-keeps :
    (s : JobStore) (id : ℕ) (j job : Job)
    → get_job id s.jobs ≡ some j
    → job.id ≢ j.id
    → get_job id (put_job job s.jobs) ≡ some j
put_job-keeps s id j job found away =
    get_job-put_job_other job id s.jobs (ground (arith, get_job-id id j s.jobs found)) ∙ found

same_job :
    (s : JobStore) (k id : ℕ) (i j : Job)
    → get_job k s.jobs ≡ some i
    → get_job id s.jobs ≡ some j
    → i.id ≡ j.id
    → i ≡ j
same_job s k id i j at_k at_id same =
    let keys : k ≡ id = sym (get_job-id k i s.jobs at_k) ∙ same ∙ get_job-id id j s.jobs at_id in
    Option.some-injective _ _ (sym at_k ∙ ap (λ n. get_job n s.jobs) keys ∙ at_id)

find?-first :
    (p : Job → Bool) (k : Job) (jobs : List Job) → p k ≡ true → find? p (k ∷ jobs) ≡ some k
find?-first p k jobs e = rw e refl

find?-later :
    (p : Job → Bool) (k : Job) (jobs : List Job) → p k ≡ false → find? p (k ∷ jobs) ≡ find? p jobs
find?-later p k jobs e = rw e refl

get_job-recovered :
    (id now : ℕ) (j : Job) (jobs : List Job)
    → get_job id jobs ≡ some j
    → get_job id (map (recovered now) jobs) ≡ some (recovered now j)
get_job-recovered id now j [] e = absurd (ground arith)
get_job-recovered id now j (k ∷ jobs) e = elim (Bool-cases (k.id == id)) [
  | inl at_id ↦
      find?-first (λ (a : Job). a.id == id) (recovered now k) (map (recovered now) jobs)
        (ap (λ n. n == id) (recovered-id now k) ∙ at_id)
      ∙ ap (λ a. some (recovered now a))
          (Option.some-injective _ _ (sym (find?-first (λ (a : Job). a.id == id) k jobs at_id) ∙ e))
  | inr away ↦
      find?-later (λ (a : Job). a.id == id) (recovered now k) (map (recovered now) jobs)
        (ap (λ n. n == id) (recovered-id now k) ∙ away)
      ∙ get_job-recovered id now j jobs
          (sym (find?-later (λ (a : Job). a.id == id) k jobs away) ∙ e)
]

recovered_waiting : (now : ℕ) (j : Job) → j.status ≡ pending → recovered now j ≡ j
unfolding recovered
recovered_waiting now j h = ground arith

module _ (range : List Job → List Job) (is_range : IsRange range) (id : ℕ) (j : Job)
    (stuck : IsStuck j) where
  Claimed-keeps :
      (s t : JobStore) (now : ℕ) (r : Option Job)
      → IsNumbered s
      → get_job id s.jobs ≡ some j
      → Claimed s now t r
      → get_job id t.jobs ≡ some j
  Claimed-keeps s t now none w found c =
      subst (λ (u : JobStore). get_job id u.jobs ≡ some j) (sym c.0) found
  Claimed-keeps s t now (some job) w found (old, mem, claimable, e, f, least) =
      let other : old.id ≢ j.id = λ same. absurd (
        ground (
          arith,
          stuck_not_claimable j stuck,
          ap is_claimable
              (same_job s old.id id old j (get_job-mem 1 old s.jobs w.numbered mem) found same),
        )) in
      subst (λ (u : JobStore). get_job id u.jobs ≡ some j) (sym f)
        (subst (λ (a : Job). get_job id (put_job a s.jobs) ≡ some j) (sym e)
          (put_job-keeps s id j (started now old) found other))

  marked_other :
      (s : JobStore) (k : ℕ) (i : Job)
      → get_job id s.jobs ≡ some j
      → get_job k s.jobs ≡ some i
      → k ≢ id
      → i.id ≢ j.id
  marked_other s k i found at_k apart =
      λ same. apart (sym (get_job-id k i s.jobs at_k) ∙ same ∙ get_job-id id j s.jobs found)

  new_other : (s : JobStore) → IsNumbered s → get_job id s.jobs ≡ some j → suc s.seq ≢ j.id
  new_other s w found e =
      let (at_id, below) = Numbered-bound (λ (a : Job). a.id) 1 s.jobs id j w.numbered found in
      absurd (omega (arith, w.counted, at_id, below, e))

  enqueue_keeps :
      (s : JobStore) (now : ℕ) (doc_id : String) (kind : JobKind) (max_attempts : ℤ)
      → IsNumbered s
      → get_job id s.jobs ≡ some j
      → get_job id (enqueue_job range s now doc_id kind max_attempts).0.jobs ≡ some j
  unfolding enqueue_job
  enqueue_keeps s now doc_id kind max_attempts w found =
      elim (Option-cases (find? (is_active doc_id kind) (range s.jobs))) [
        | inr (k, active) ↦ rw (enqueue_job, active) found
        | inl free ↦ rw (enqueue_job, free) (put_job-keeps s id j _ found (new_other s w found))
      ]

  complete_keeps :
      (s : JobStore) (now k : ℕ)
      → k ≢ id
      → get_job id s.jobs ≡ some j
      → get_job id (mark_completed s now k).0.jobs ≡ some j
  unfolding mark_completed
  complete_keeps s now k apart found = elim (Option-cases (get_job k s.jobs)) [
    | inl missing ↦ rw (mark_completed, missing) found
    | inr (i, at_k) ↦
        rw (mark_completed, at_k)
          (put_job-keeps s id j _ found (marked_other s k i found at_k apart))
  ]

  fail_keeps :
      (s : JobStore) (now k : ℕ) (text : String)
      → k ≢ id
      → get_job id s.jobs ≡ some j
      → get_job id (mark_failed s now k text).0.jobs ≡ some j
  unfolding mark_failed
  fail_keeps s now k text apart found = elim (Option-cases (get_job k s.jobs)) [
    | inl missing ↦ rw (mark_failed, missing) found
    | inr (i, at_k) ↦ elim (Bool-cases (leb i.max_attempts i.attempts)) [
      | inl last ↦
          rw (mark_failed, at_k, last)
            (put_job-keeps s id j _ found (marked_other s k i found at_k apart))
      | inr more ↦
          rw (mark_failed, at_k, more)
            (put_job-keeps s id j _ found (marked_other s k i found at_k apart))
    ]
  ]

  Step-stuck :
      {s t : JobStore}
      → (step : Step range s t) → MarksOther id step
      → IsNumbered s
      → get_job id s.jobs ≡ some j
      → get_job id t.jobs ≡ some j
  unfolding recover_stale
  Step-stuck (enqueue_step s now doc_id kind max_attempts) apart w found =
      enqueue_keeps s now doc_id kind max_attempts w found
  Step-stuck (claim_step s now) apart w found =
      Claimed-keeps s _ now _ w found (claim-Claimed range is_range s now)
  Step-stuck (complete_step s now k) apart w found = complete_keeps s now k apart found
  Step-stuck (fail_step s now k text) apart w found = fail_keeps s now k text apart found
  Step-stuck (recover_step s now) apart w found =
      get_job-recovered id now j s.jobs found ∙ ap some (recovered_waiting now j stuck.0)

  Steps-stuck :
      {s t : JobStore}
      → IsNumbered s
      → get_job id s.jobs ≡ some j
      → (steps : Steps range s t) → AllMarkOther id steps
      → get_job id t.jobs ≡ some j
  Steps-stuck w found here apart = found
  Steps-stuck w found (next steps step) (before, apart) =
      Step-stuck step apart (Steps-IsNumbered range is_range w steps)
        (Steps-stuck w found steps before)

=ᵏ-refl : (a : JobKind) → (a =ᵏ a) ≡ true
=ᵏ-refl ingest = refl
=ᵏ-refl delete_vectors = refl
=ᵏ-refl (other a) = eq_refl a

pub active_self : (j : Job) → j.status ≡ pending → is_active j.doc_id j.kind j ≡ true
unfolding is_active
active_self j h = rw (eq_refl j.doc_id, =ᵏ-refl j.kind, h) refl

-- A second job for a document is not made while one waits, whatever the order of the runtime.
enqueue_job-waiting :
    (range : List Job → List Job)
    → IsRange range
    → (s : JobStore) (now id : ℕ) (j : Job) (max_attempts : ℤ) → get_job id s.jobs ≡ some j
    → j.status ≡ pending
    → (enqueue_job range s now j.doc_id j.kind max_attempts).0 ≡ s
unfolding enqueue_job
enqueue_job-waiting range is_range s now id j max_attempts found waits =
    let p = is_active j.doc_id j.kind in
    elim (Option-cases (find? p (range s.jobs))) [
      | inl free ↦ absurd (
          ground (
            arith,
            active_self j waits,
            find?-none p j (range s.jobs) free
                ((is_range s.jobs j).1 (mem_of_get_job id j s.jobs found)),
          ))
      | inr (k, e) ↦ rw (enqueue_job, e) refl
    ]

recovered_running :
    (now : ℕ) (j : Job)
    → j.status ≡ running
    → recovered now j ≡ record j { status = pending; updated_at = now }
unfolding recovered
recovered_running now j h = rw (recovered, h) refl

-- A job that was running on its last attempt when RecoverStale ran waits ever after, as long as
-- nothing calls MarkCompleted or MarkFailed for it: whatever other calls follow, it is never claimed,
-- changed or removed, and enqueuing its document and kind changes nothing and makes no job.
pub recover_stale-stuck :
    (range : List Job → List Job)
    → IsRange range
    → (s : JobStore) (now id : ℕ) (j : Job) (t : JobStore) → IsNumbered s
    → get_job id s.jobs ≡ some j
    → j.status ≡ running
    → j.max_attempts ≤ j.attempts
    → (steps : Steps range (recover_stale s now) t) → AllMarkOther id steps
    → (get_job id t.jobs ≡ some (record j { status = pending; updated_at = now }))
      × ((later : ℕ) (max_attempts : ℤ)
          → (enqueue_job range t later j.doc_id j.kind max_attempts).0 ≡ t)
recover_stale-stuck range is_range s now id j t w found run last steps apart =
    let stuck = record j { status = pending; updated_at = now } in
    let waits : get_job id (recover_stale s now).jobs ≡ some stuck =
      unfold recover_stale in
      get_job-recovered id now j s.jobs found ∙ ap some (recovered_running now j run) in
    let still =
      Steps-stuck range is_range id stuck (refl, last) (recover_stale-IsNumbered s now w) waits
        steps apart in
    (
      still,
      λ later max_attempts.
          enqueue_job-waiting range is_range t later id stuck max_attempts still refl,
    )
