-- ===== src/Ingest/Jobs/Active.antt =====
-- How many pending or running jobs of a kind a document has after a call.
use mathlib.Core.List as List
use mathlib.Core.List.{Memᴰ}
use synamcps_server.Prelude.{
  ℕ, suc, ◌+◌, ◌≤◌, leb, String, Bool, true, false, Option, none, some, List, [], ◌∷◌, ◌++◌, ◌≡◌,
  refl, sym, ap, ◌∙◌, subst, arith, Bool-cases, Option-cases, inl, inr, if◌then◌else◌, length,
  find?, keep, map, eq_iff, ◌&&◌, ◌||◌,
}
use synamcps_server.Prelude.Strings.{◌=ˢ◌}
use synamcps_server.Prelude.Ints.{ℤ, or_default}
use synamcps_server.Ingest.Jobs.{
  Job, JobStore, JobKind, ingest, delete_vectors, other, is_pending, is_running, ◌=ᵏ◌, is_active,
  is_claimable, put_job, get_job, new_job, started, gave_up, put_back, recovered, enqueue_job,
  mark_completed, mark_failed, recover_stale,
}
use synamcps_server.Ingest.Jobs.Laws.{
  IsRange, length-keep-put_job, get_job-mem, Claimed, claim-Claimed,
}
use synamcps_server.Ingest.Jobs.Steps.{
  IsNumbered, IsWellFormed, FailsUnfinished, Step, enqueue_step, claim_step, complete_step,
  fail_step, recover_step,
}
use synamcps_server.Ingest.Jobs.Numbering.{SameWork, at_own_id, new-IsNumbered}

pub =ᵏ-eq : (a b : JobKind) → (a =ᵏ b) ≡ true → a ≡ b
=ᵏ-eq ingest ingest h = refl
=ᵏ-eq ingest delete_vectors h = absurd (ground arith)
=ᵏ-eq ingest (other b) h = absurd (ground arith)
=ᵏ-eq delete_vectors ingest h = absurd (ground arith)
=ᵏ-eq delete_vectors delete_vectors h = refl
=ᵏ-eq delete_vectors (other b) h = absurd (ground arith)
=ᵏ-eq (other a) ingest h = absurd (ground arith)
=ᵏ-eq (other a) delete_vectors h = absurd (ground arith)
=ᵏ-eq (other a) (other b) h = ap other ((eq_iff a b).0 h)

pub find?-none :
    (p : Job → Bool) (j : Job) (jobs : List Job) → find? p jobs ≡ none → Memᴰ j jobs → p j ≡ false
find?-none p j [] e m = absurd (List.Memᴰ.not-nil m)
find?-none p j (k ∷ jobs) e m = elim (Bool-cases (p k)) [
  | inl passes ↦ absurd (ground arith)
  | inr fails ↦ elim (List.Memᴰ.cases_cons m) [
    | inl same ↦ ap p same ∙ fails
    | inr later ↦ find?-none p j jobs (ground arith) later
  ]
]

keep-none :
    (p : Job → Bool) (jobs : List Job)
    → ((j : Job) → Memᴰ j jobs → p j ≡ false)
    → length (keep p jobs) ≡ 0
keep-none p [] h = refl
keep-none p (j ∷ jobs) h =
    rw (h j (List.Memᴰ.head refl)) (keep-none p jobs (λ k m. h k (List.Memᴰ.tail m)))

length-keep-append :
    (p : Job → Bool) (jobs : List Job) (job : Job)
    → length (keep p (jobs ++ job ∷ [])) ≡ length (keep p jobs) + (if p job then 1 else 0)
length-keep-append p [] job = ground arith
length-keep-append p (j ∷ jobs) job = ground (arith, length-keep-append p jobs job)

is_active-new :
    (seq now max_attempts : ℕ) (doc_id doc_id' : String) (kind kind' : JobKind)
    → is_active doc_id' kind' (new_job seq now doc_id kind max_attempts) ≡ true
    → (doc_id ≡ doc_id') × (kind ≡ kind')
unfolding is_active
is_active-new seq now max_attempts doc_id doc_id' kind kind' h =
    (ground (arith, eq_iff doc_id doc_id'), =ᵏ-eq kind kind' (ground arith))

-- A job that is written over an old one, and is active only if that was.
put_job-one_active :
    (s : JobStore) (job old : Job) (doc_id : String) (kind : JobKind)
    → get_job job.id s.jobs ≡ some old
    → (is_active doc_id kind job ≡ true → is_active doc_id kind old ≡ true)
    → length (keep (is_active doc_id kind) s.jobs) ≤ 1
    → length (keep (is_active doc_id kind) (put_job job s.jobs)) ≤ 1
put_job-one_active s job old doc_id kind found active one =
    omega (arith, one, length-keep-put_job (is_active doc_id kind) job old s.jobs found active)

new_active :
    (range : List Job → List Job)
    → IsRange range
    → (jobs : List Job) (seq now max_attempts : ℕ) (doc_id doc_id' : String) (kind kind' : JobKind)
    → find? (is_active doc_id kind) (range jobs) ≡ none
    → length (keep (is_active doc_id' kind') jobs) ≤ 1
    → length
        (keep (is_active doc_id' kind') (jobs ++ new_job seq now doc_id kind max_attempts ∷ []))
      ≤ 1
new_active range is_range jobs seq now max_attempts doc_id doc_id' kind kind' free one =
    let job = new_job seq now doc_id kind max_attempts in
    let count = length-keep-append (is_active doc_id' kind') jobs job in
    elim (Bool-cases (is_active doc_id' kind' job)) [
      | inr away ↦ ground (arith, count)
      | inl same ↦
          let (d, k) = is_active-new seq now max_attempts doc_id doc_id' kind kind' same in
          let nothing : length (keep (is_active doc_id kind) jobs) ≡ 0 =
            keep-none (is_active doc_id kind) jobs (λ j m.
              find?-none (is_active doc_id kind) j (range jobs) free ((is_range jobs j).1 m)) in
          let zero_before : length (keep (is_active doc_id' kind') jobs) ≡ 0 =
            subst (λ a. length (keep (is_active a kind') jobs) ≡ 0) d
              (subst (λ b. length (keep (is_active doc_id b) jobs) ≡ 0) k nothing) in
          ground (arith, count)
    ]

started-active :
    (now : ℕ) (old : Job) (doc_id : String) (kind : JobKind)
    → is_claimable old ≡ true
    → is_active doc_id kind (started now old) ≡ true
    → is_active doc_id kind old ≡ true
unfolding is_active is_claimable
started-active now old doc_id kind c h = ground arith

Claimed-one_active :
    (s t : JobStore) (now : ℕ) (r : Option Job) (doc_id : String) (kind : JobKind)
    → Claimed s now t r
    → IsNumbered s
    → length (keep (is_active doc_id kind) s.jobs) ≤ 1
    → length (keep (is_active doc_id kind) t.jobs) ≤ 1
Claimed-one_active s t now none doc_id kind c w one =
    subst (λ (u : JobStore). length (keep (is_active doc_id kind) u.jobs) ≤ 1) (sym c.0) one
Claimed-one_active s t now (some job) doc_id kind (old, mem, claimable, e, f, least) w one =
    subst (λ (u : JobStore). length (keep (is_active doc_id kind) u.jobs) ≤ 1) (sym f)
      (subst (λ j. length (keep (is_active doc_id kind) (put_job j s.jobs)) ≤ 1) (sym e)
        (put_job-one_active s (started now old) old doc_id kind
          (get_job-mem 1 old s.jobs w.numbered mem) (started-active now old doc_id kind claimable)
          one))

all_of : (a b c d : Bool) → (a && b && c) ≡ true → (c ≡ true → d ≡ true) → (a && b && d) ≡ true
all_of true true true d h f = f refl
all_of true true false d h f = absurd (ground arith)
all_of true false c d h f = absurd (ground arith)
all_of false b c d h f = absurd (ground arith)

-- a job that is written back, where it was active or is no more
marked-one_active :
    (s : JobStore) (id : ℕ) (job j : Job) (doc_id : String) (kind : JobKind)
    → get_job id s.jobs ≡ some j
    → SameWork job j
    → ((is_pending job.status || is_running job.status) ≡ true
        → (is_pending j.status || is_running j.status) ≡ true)
    → length (keep (is_active doc_id kind) s.jobs) ≤ 1
    → length (keep (is_active doc_id kind) (put_job job s.jobs)) ≤ 1
unfolding is_active
marked-one_active s id job j doc_id kind found (same_id, doc, k, tries, most) active one =
    put_job-one_active s job j doc_id kind (at_own_id s id job j found same_id)
      (λ h.
        rw (← doc, ← k)
          (all_of (job.doc_id =ˢ doc_id) (job.kind =ᵏ kind)
            (is_pending job.status || is_running job.status) _ h active))
      one

is_active-recovered :
    (now : ℕ) (j : Job) (doc_id : String) (kind : JobKind)
    → is_active doc_id kind (recovered now j) ≡ is_active doc_id kind j
unfolding is_active recovered
is_active-recovered now j doc_id kind = ground arith

length-keep-map :
    (p : Job → Bool) (f : Job → Job) (jobs : List Job)
    → ((j : Job) → p (f j) ≡ p j)
    → length (keep p (map f jobs)) ≡ length (keep p jobs)
length-keep-map p f [] h = refl
length-keep-map p f (j ∷ jobs) h = ground (arith, h j, length-keep-map p f jobs h)

mark_completed-one_active :
    (s : JobStore) (now id : ℕ) (doc_id : String) (kind : JobKind)
    → length (keep (is_active doc_id kind) s.jobs) ≤ 1
    → length (keep (is_active doc_id kind) (mark_completed s now id).0.jobs) ≤ 1
unfolding mark_completed
mark_completed-one_active s now id doc_id kind one = elim (Option-cases (get_job id s.jobs)) [
  | inl missing ↦ rw (mark_completed, missing) one
  | inr (j, found) ↦
      rw (mark_completed, found)
        (marked-one_active s id _ j doc_id kind found (refl, refl, refl, refl, refl)
          (λ h. absurd (ground arith)) one)
]

mark_failed-one_active :
    (s : JobStore) (now id : ℕ) (text doc_id : String) (kind : JobKind)
    → ((j : Job) → get_job id s.jobs ≡ some j → (is_pending j.status || is_running j.status) ≡ true)
    → length (keep (is_active doc_id kind) s.jobs) ≤ 1
    → length (keep (is_active doc_id kind) (mark_failed s now id text).0.jobs) ≤ 1
unfolding mark_failed
mark_failed-one_active s now id text doc_id kind run one = elim (Option-cases (get_job id s.jobs)) [
  | inl missing ↦ rw (mark_failed, missing) one
  | inr (j, found) ↦ elim (Bool-cases (leb j.max_attempts j.attempts)) [
    | inl last ↦
        rw (mark_failed, found, last)
          (marked-one_active s id (gave_up now text j) j doc_id kind found
            (refl, refl, refl, refl, refl) (λ h. run j found) one)
    | inr more ↦
        rw (mark_failed, found, more)
          (marked-one_active s id (put_back now text j) j doc_id kind found
            (refl, refl, refl, refl, refl) (λ h. run j found) one)
  ]
]

module _ (range : List Job → List Job) (is_range : IsRange range) where
  enqueue_job-one_active :
      (s : JobStore) (now : ℕ) (doc_id : String) (kind : JobKind) (max_attempts : ℤ)
      → IsWellFormed s
      → (doc_id' : String) (kind' : JobKind)
      → length
          (keep (is_active doc_id' kind') (enqueue_job range s now doc_id kind max_attempts).0.jobs)
        ≤ 1
  unfolding enqueue_job
  enqueue_job-one_active s now doc_id kind max_attempts w doc_id' kind' =
      elim (Option-cases (find? (is_active doc_id kind) (range s.jobs))) [
        | inr (j, found) ↦ rw (enqueue_job, found) (w.one_active doc_id' kind')
        | inl free ↦
            let most = or_default max_attempts 3 in
            rw (enqueue_job, free)
              (subst (λ jobs. length (keep (is_active doc_id' kind') jobs) ≤ 1)
                (sym (new-IsNumbered s now most doc_id kind w.numbering).0)
                (new_active range is_range s.jobs (suc s.seq) now most doc_id doc_id' kind kind'
                  free (w.one_active doc_id' kind')))
      ]

  pub Step-one_active :
      {s t : JobStore}
      → (step : Step range s t) → FailsUnfinished step
      → IsWellFormed s
      → (doc_id : String) (kind : JobKind) → length (keep (is_active doc_id kind) t.jobs) ≤ 1
  unfolding recover_stale
  Step-one_active (enqueue_step s now doc_id kind max_attempts) run w doc_id' kind' =
      enqueue_job-one_active s now doc_id kind max_attempts w doc_id' kind'
  Step-one_active (claim_step s now) run w doc_id kind =
      Claimed-one_active s _ now _ doc_id kind (claim-Claimed range is_range s now) w.numbering
        (w.one_active doc_id kind)
  Step-one_active (complete_step s now id) run w doc_id kind =
      mark_completed-one_active s now id doc_id kind (w.one_active doc_id kind)
  Step-one_active (fail_step s now id text) run w doc_id kind =
      mark_failed-one_active s now id text doc_id kind run (w.one_active doc_id kind)
  Step-one_active (recover_step s now) run w doc_id kind = omega (
    arith,
    w.one_active doc_id kind,
    length-keep-map (is_active doc_id kind) (recovered now) s.jobs
        (λ j. is_active-recovered now j doc_id kind),
  )
