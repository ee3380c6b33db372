-- ===== src/Ingest/Jobs/Numbering.antt =====
-- Jobs are numbered in order, and tried no more often than allowed, whatever is called.
use synamcps_server.Prelude.{
  ℕ, suc, ◌+◌, ◌≤◌, leb, String, Bool, true, Option, none, some, List, [], ◌∷◌, ◌++◌, ◌≡◌, refl,
  sym, ap, ◌∙◌, subst, arith, Bool-cases, Option-cases, inl, inr, length, find?, All, map,
  length-append,
}
use synamcps_server.Prelude.Ints.{ℤ, or_default}
use synamcps_server.Prelude.Numbered.{Numbered, Numbered-append, Numbered-map}
use synamcps_server.Ingest.Jobs.{
  Job, JobStore, JobKind, is_active, is_claimable, put_job, get_job, new_job, started, gave_up,
  put_back, recovered, enqueue_job, mark_completed, mark_failed, recover_stale,
}
use synamcps_server.Ingest.Jobs.Laws.{
  IsRange, put_job-Numbered, length-put_job, put_job-All, get_job-mem, get_job-id, All-mem, Claimed,
  claim-Claimed, mem_of_get_job,
}
use synamcps_server.Ingest.Jobs.Steps.{
  IsNumbered, Step, enqueue_step, claim_step, complete_step, fail_step, recover_step, Steps, here,
  next,
}

pub put_job-new :
    (n : ℕ) (job : Job) (jobs : List Job)
    → Numbered (λ (j : Job). j.id) n jobs
    → n + length jobs ≤ job.id
    → put_job job jobs ≡ jobs ++ job ∷ []
unfolding put_job
put_job-new n job [] h le = refl
put_job-new n job (j ∷ jobs) h le = ground (arith, put_job-new (suc n) job jobs h.1)

-- A job that is written over an old one.
put_job-IsNumbered :
    (s : JobStore) (wake : Bool) (job old : Job)
    → IsNumbered s
    → get_job job.id s.jobs ≡ some old
    → job.attempts ≤ job.max_attempts
    → IsNumbered (record s { jobs = put_job job s.jobs; wake = wake })
put_job-IsNumbered s wake job old w found attempts = record {
  numbered = put_job-Numbered 1 job old s.jobs w.numbered found;
  counted = w.counted ∙ sym (length-put_job job old s.jobs found);
  attempts = put_job-All (λ (j : Job). j.attempts ≤ j.max_attempts) job s.jobs w.attempts attempts;
}

pub new-IsNumbered :
    (s : JobStore) (now max_attempts : ℕ) (doc_id : String) (kind : JobKind)
    → IsNumbered s
    → (put_job (new_job (suc s.seq) now doc_id kind max_attempts) s.jobs
        ≡ s.jobs ++ new_job (suc s.seq) now doc_id kind max_attempts ∷ [])
      × IsNumbered (record {
        jobs = put_job (new_job (suc s.seq) now doc_id kind max_attempts) s.jobs;
        seq = suc s.seq;
        wake = true;
      })
new-IsNumbered s now max_attempts doc_id kind w =
    let job = new_job (suc s.seq) now doc_id kind max_attempts in
    let appended = put_job-new 1 job s.jobs w.numbered (omega (arith, w.counted)) in
    (
      appended,
      record {
        numbered = subst (Numbered (λ (j : Job). j.id) 1) (sym appended) (
            Numbered-append (λ (j : Job). j.id) 1 s.jobs job w.numbered (omega (arith, w.counted)));
        counted = omega (arith, w.counted, ap length appended, length-append s.jobs (job ∷ []));
        attempts =
            put_job-All (λ (j : Job). j.attempts ≤ j.max_attempts) job s.jobs w.attempts
              (omega arith);
      },
    )

started-attempts :
    (now : ℕ) (old : Job) → is_claimable old ≡ true → (started now old).attempts ≤ old.max_attempts
unfolding is_claimable
started-attempts now old c = ground arith

Claimed-IsNumbered :
    (s t : JobStore) (now : ℕ) (r : Option Job) → Claimed s now t r → IsNumbered s → IsNumbered t
Claimed-IsNumbered s t now none c w = subst IsNumbered (sym c.0) w
Claimed-IsNumbered s t now (some job) (old, mem, claimable, e, f, least) w =
    subst IsNumbered (sym f) (
      subst (λ j. IsNumbered (record s { jobs = put_job j s.jobs })) (sym e)
        (put_job-IsNumbered s s.wake (started now old) old w
          (get_job-mem 1 old s.jobs w.numbered mem) (started-attempts now old claimable)))

-- A job that is written back under its id, with its document, kind and attempts.
abbrev pub SameWork : Job → Job → Type 0
SameWork job j =
    (job.id ≡ j.id)
    × (job.doc_id ≡ j.doc_id)
    × (job.kind ≡ j.kind)
    × (job.attempts ≡ j.attempts)
    × (job.max_attempts ≡ j.max_attempts)

pub at_own_id :
    (s : JobStore) (id : ℕ) (job j : Job)
    → get_job id s.jobs ≡ some j
    → job.id ≡ j.id
    → get_job job.id s.jobs ≡ some j
at_own_id s id job j found same =
    subst (λ i. get_job i s.jobs ≡ some j) (sym (same ∙ get_job-id id j s.jobs found)) found

marked-IsNumbered :
    (s : JobStore) (wake : Bool) (id : ℕ) (job j : Job)
    → IsNumbered s
    → get_job id s.jobs ≡ some j
    → SameWork job j
    → IsNumbered (record s { jobs = put_job job s.jobs; wake = wake })
marked-IsNumbered s wake id job j w found (same_id, doc, k, tries, most) =
    put_job-IsNumbered s wake job j w (at_own_id s id job j found same_id) (
      omega (
        arith,
        tries,
        most,
        All-mem (λ (a : Job). a.attempts ≤ a.max_attempts) j s.jobs w.attempts
            (mem_of_get_job id j s.jobs found),
      ))

length-map : (f : Job → Job) (jobs : List Job) → length (map f jobs) ≡ length jobs
length-map f [] = refl
length-map f (j ∷ jobs) = ap suc (length-map f jobs)

pub recovered-id : (now : ℕ) (j : Job) → (recovered now j).id ≡ j.id
unfolding recovered
recovered-id now j = ground arith

recovered-attempts :
    (now : ℕ) (jobs : List Job)
    → All (λ (j : Job). j.attempts ≤ j.max_attempts) jobs
    → All (λ (j : Job). j.attempts ≤ j.max_attempts) (map (recovered now) jobs)
unfolding recovered
recovered-attempts now [] h = tt
recovered-attempts now (j ∷ jobs) h = (ground arith, recovered-attempts now jobs h.1)

pub recover_stale-IsNumbered :
    (s : JobStore) (now : ℕ) → IsNumbered s → IsNumbered (recover_stale s now)
unfolding recover_stale
recover_stale-IsNumbered s now w = record {
  numbered =
      Numbered-map (λ (j : Job). j.id) (recovered now) (recovered-id now) 1 s.jobs w.numbered;
  counted = w.counted ∙ sym (length-map (recovered now) s.jobs);
  attempts = recovered-attempts now s.jobs w.attempts;
}

mark_completed-IsNumbered :
    (s : JobStore) (now id : ℕ) → IsNumbered s → IsNumbered (mark_completed s now id).0
unfolding mark_completed
mark_completed-IsNumbered s now id w = elim (Option-cases (get_job id s.jobs)) [
  | inl missing ↦ rw (mark_completed, missing) w
  | inr (j, found) ↦
      rw (mark_completed, found)
        (marked-IsNumbered s s.wake id _ j w found (refl, refl, refl, refl, refl))
]

mark_failed-IsNumbered :
    (s : JobStore) (now id : ℕ) (text : String)
    → IsNumbered s
    → IsNumbered (mark_failed s now id text).0
unfolding mark_failed
mark_failed-IsNumbered s now id text w = elim (Option-cases (get_job id s.jobs)) [
  | inl missing ↦ rw (mark_failed, missing) w
  | inr (j, found) ↦ elim (Bool-cases (leb j.max_attempts j.attempts)) [
    | inl last ↦
        rw (mark_failed, found, last)
          (marked-IsNumbered s s.wake id (gave_up now text j) j w found
            (refl, refl, refl, refl, refl))
    | inr more ↦
        rw (mark_failed, found, more)
          (marked-IsNumbered s true id (put_back now text j) j w found
            (refl, refl, refl, refl, refl))
  ]
]

module _ (range : List Job → List Job) (is_range : IsRange range) where
  enqueue_job-IsNumbered :
      (s : JobStore) (now : ℕ) (doc_id : String) (kind : JobKind) (max_attempts : ℤ)
      → IsNumbered s
      → IsNumbered (enqueue_job range s now doc_id kind max_attempts).0
  unfolding enqueue_job
  enqueue_job-IsNumbered s now doc_id kind max_attempts w =
      elim (Option-cases (find? (is_active doc_id kind) (range s.jobs))) [
        | inr (j, found) ↦ rw (enqueue_job, found) w
        | inl free ↦
            rw (enqueue_job, free)
              (new-IsNumbered s now (or_default max_attempts 3) doc_id kind w).1
      ]

  -- Whatever a call marks, jobs stay numbered and within their attempts.
  pub Step-IsNumbered : {s t : JobStore} → Step range s t → IsNumbered s → IsNumbered t
  Step-IsNumbered (enqueue_step s now doc_id kind max_attempts) w =
      enqueue_job-IsNumbered s now doc_id kind max_attempts w
  Step-IsNumbered (claim_step s now) w =
      Claimed-IsNumbered s _ now _ (claim-Claimed range is_range s now) w
  Step-IsNumbered (complete_step s now id) w = mark_completed-IsNumbered s now id w
  Step-IsNumbered (fail_step s now id text) w = mark_failed-IsNumbered s now id text w
  Step-IsNumbered (recover_step s now) w = recover_stale-IsNumbered s now w

  pub Steps-IsNumbered : {s t : JobStore} → IsNumbered s → Steps range s t → IsNumbered t
  Steps-IsNumbered w here = w
  Steps-IsNumbered w (next steps step) = Step-IsNumbered step (Steps-IsNumbered w steps)
