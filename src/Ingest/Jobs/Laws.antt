-- ===== src/Ingest/Jobs/Laws.antt =====
-- What writing a job does to a store, and which job a claim takes.
use mathlib.Core.List as List
use mathlib.Core.List.{Memᴰ}
use synamcps_server.Prelude.{
  ℕ, suc, ◌≤◌, ◌==◌, ltb, Bool, true, false, Option, none, some, List, [], ◌∷◌, ◌≡◌, refl, sym, ap,
  ◌∙◌, subst, arith, Bool-cases, inl, inr, length, keep, All, ◌↔◌, find?-test,
}
use synamcps_server.Prelude.Numbered.{Numbered, Numbered-mem}
use synamcps_server.Ingest.Jobs.{
  Job, JobStore, is_claimable, put_job, get_job, earliest, started, claim, claim_first,
}

-- The order of a map's iteration has the entries and no others.
abbrev pub IsRange : (List Job → List Job) → Type 0
IsRange range = (jobs : List Job) (j : Job) → Memᴰ j (range jobs) ↔ Memᴰ j jobs

pub put_job-Numbered :
    (n : ℕ) (job old : Job) (jobs : List Job)
    → Numbered (λ (j : Job). j.id) n jobs
    → get_job job.id jobs ≡ some old
    → Numbered (λ (j : Job). j.id) n (put_job job jobs)
unfolding put_job
put_job-Numbered n job old [] h e = absurd (ground arith)
put_job-Numbered n job old (j ∷ jobs) h e = elim (Bool-cases (j.id == job.id)) [
  | inl here ↦ rw here (ground arith)
  | inr away ↦ rw away (h.0, put_job-Numbered (suc n) job old jobs h.1 (ground arith))
]

pub length-put_job :
    (job old : Job) (jobs : List Job)
    → get_job job.id jobs ≡ some old
    → length (put_job job jobs) ≡ length jobs
unfolding put_job
length-put_job job old [] e = absurd (ground arith)
length-put_job job old (j ∷ jobs) e = ground (arith, length-put_job job old jobs)

pub put_job-All {κ} :
    (P : Job → Type κ) (job : Job) (jobs : List Job) → All P jobs → P job → All P (put_job job jobs)
unfolding put_job
put_job-All P job [] h p = (p, tt)
put_job-All P job (j ∷ jobs) h p = elim (Bool-cases (j.id == job.id)) [
  | inl here ↦ rw here (p, h.1)
  | inr away ↦ rw away (h.0, put_job-All P job jobs h.1 p)
]

keep_first :
    (p : Job → Bool) (job old j : Job) (jobs : List Job)
    → j ≡ old
    → (p job ≡ true → p old ≡ true)
    → length (keep p (job ∷ jobs)) ≤ length (keep p (j ∷ jobs))
keep_first p job old j jobs e h = elim (Bool-cases (p job)) [
  | inl passes ↦ let passed : p j ≡ true = ap p e ∙ h passes in rw (passes, passed) (omega arith)
  | inr fails ↦ rw fails (elim (Bool-cases (p j)) [
    | inl passed ↦ rw passed (omega arith)
    | inr failed ↦ rw failed (omega arith)
  ])
]

-- where the new job passes a test only if the old one does, no more jobs pass it
pub length-keep-put_job :
    (p : Job → Bool) (job old : Job) (jobs : List Job)
    → get_job job.id jobs ≡ some old
    → (p job ≡ true → p old ≡ true)
    → length (keep p (put_job job jobs)) ≤ length (keep p jobs)
unfolding put_job
length-keep-put_job p job old [] e h = absurd (ground arith)
length-keep-put_job p job old (j ∷ jobs) e h = elim (Bool-cases (j.id == job.id)) [
  | inl here ↦ rw here (keep_first p job old j jobs (ground arith) h)
  | inr away ↦ ground (arith, length-keep-put_job p job old jobs (ground arith) h)
]

pub get_job-put_job_self :
    (job : Job) (jobs : List Job) → get_job job.id (put_job job jobs) ≡ some job
unfolding put_job
get_job-put_job_self job [] = ground arith
get_job-put_job_self job (j ∷ jobs) = ground (arith, get_job-put_job_self job jobs)

pub get_job-put_job_other :
    (job : Job) (id : ℕ) (jobs : List Job)
    → (job.id == id) ≡ false
    → get_job id (put_job job jobs) ≡ get_job id jobs
unfolding put_job
get_job-put_job_other job id [] h = ground arith
get_job-put_job_other job id (j ∷ jobs) h = ground (arith, get_job-put_job_other job id jobs)

pub get_job-mem :
    (n : ℕ) (j : Job) (jobs : List Job)
    → Numbered (λ (k : Job). k.id) n jobs
    → Memᴰ j jobs
    → get_job j.id jobs ≡ some j
get_job-mem n j [] h m = absurd (List.Memᴰ.not-nil m)
get_job-mem n j (k ∷ jobs) h m = elim (List.Memᴰ.cases_cons m) [
  | inl e ↦ rw (← e) (ground arith)
  | inr later ↦ ground (
    arith,
    get_job-mem (suc n) j jobs h.1 later,
    Numbered-mem (λ (a : Job). a.id) (suc n) jobs j h.1 later,
  )
]

pub get_job-id : (id : ℕ) (j : Job) (jobs : List Job) → get_job id jobs ≡ some j → j.id ≡ id
get_job-id id j jobs e = ground (arith, find?-test (λ (k : Job). k.id == id) jobs j e)

pub earliest-mem : (j : Job) (jobs : List Job) → Memᴰ (earliest j jobs) (j ∷ jobs)
unfolding earliest
earliest-mem j [] = List.Memᴰ.head refl
earliest-mem j (k ∷ jobs) = elim (Bool-cases (ltb k.created_at j.created_at)) [
  | inl sooner ↦ rw (earliest, sooner) (List.Memᴰ.tail (earliest-mem k jobs))
  | inr later ↦
      rw (earliest, later)
        (elim (List.Memᴰ.cases_cons (earliest-mem j jobs)) [
          | inl first ↦ List.Memᴰ.head first
          | inr rest ↦ List.Memᴰ.tail (List.Memᴰ.tail rest)
        ])
]

pub All-mem {κ} : (P : Job → Type κ) (j : Job) (jobs : List Job) → All P jobs → Memᴰ j jobs → P j
All-mem P j [] h m = absurd (List.Memᴰ.not-nil m)
All-mem P j (k ∷ jobs) h m = elim (List.Memᴰ.cases_cons m) [
  | inl e ↦ subst P (sym e) h.0
  | inr later ↦ All-mem P j jobs h.1 later
]

keep_pass :
    (p : Job → Bool) (k : Job) (jobs : List Job) → p k ≡ true → keep p (k ∷ jobs) ≡ k ∷ keep p jobs
keep_pass p k jobs e = rw e refl

keep_fail :
    (p : Job → Bool) (k : Job) (jobs : List Job) → p k ≡ false → keep p (k ∷ jobs) ≡ keep p jobs
keep_fail p k jobs e = rw e refl

pub keep-mem :
    (p : Job → Bool) (j : Job) (jobs : List Job) → Memᴰ j (keep p jobs) → Memᴰ j jobs × (p j ≡ true)
keep-mem p j [] m = absurd (List.Memᴰ.not-nil m)
keep-mem p j (k ∷ jobs) m = elim (Bool-cases (p k)) [
  | inl passes ↦ elim (List.Memᴰ.cases_cons (subst (Memᴰ j) (keep_pass p k jobs passes) m)) [
    | inl e ↦ (List.Memᴰ.head e, ap p e ∙ passes)
    | inr later ↦ let (mem, passed) = keep-mem p j jobs later in (List.Memᴰ.tail mem, passed)
  ]
  | inr fails ↦
      let (mem, passed) = keep-mem p j jobs (subst (Memᴰ j) (keep_fail p k jobs fails) m) in
      (List.Memᴰ.tail mem, passed)
]

pub mem_of_get_job : (id : ℕ) (j : Job) (jobs : List Job) → get_job id jobs ≡ some j → Memᴰ j jobs
mem_of_get_job id j [] e = absurd (ground arith)
mem_of_get_job id j (k ∷ jobs) e = elim (Bool-cases (k.id == id)) [
  | inl here ↦ List.Memᴰ.head (ground arith)
  | inr away ↦ List.Memᴰ.tail (mem_of_get_job id j jobs (ground arith))
]

pub mem-keep :
    (p : Job → Bool) (j : Job) (jobs : List Job) → Memᴰ j jobs → p j ≡ true → Memᴰ j (keep p jobs)
mem-keep p j [] m passed = absurd (List.Memᴰ.not-nil m)
mem-keep p j (k ∷ jobs) m passed = elim (Bool-cases (p k)) [
  | inl passes ↦ subst (Memᴰ j) (sym (keep_pass p k jobs passes)) (elim (List.Memᴰ.cases_cons m) [
    | inl e ↦ List.Memᴰ.head e
    | inr later ↦ List.Memᴰ.tail (mem-keep p j jobs later passed)
  ])
  | inr fails ↦ subst (Memᴰ j) (sym (keep_fail p k jobs fails)) (elim (List.Memᴰ.cases_cons m) [
    | inl e ↦ absurd (ground (arith, ap p e))
    | inr later ↦ mem-keep p j jobs later passed
  ])
]

earliest-le :
    (j k : Job) (jobs : List Job) → Memᴰ k (j ∷ jobs) → (earliest j jobs).created_at ≤ k.created_at
unfolding earliest
earliest-le j k [] m = omega (arith, ap (λ (a : Job). a.created_at) (List.Memᴰ.eq_of_singleton m))
earliest-le j k (i ∷ jobs) m =
    let at_i = earliest-le i i jobs (List.Memᴰ.head refl) in
    let at_j = earliest-le j j jobs (List.Memᴰ.head refl) in
    elim (Bool-cases (ltb i.created_at j.created_at)) [
      | inl sooner ↦
          rw (earliest, sooner)
            (elim (List.Memᴰ.cases_cons m) [
              | inl e ↦ ground (arith, at_i, ap (λ (a : Job). a.created_at) e)
              | inr later ↦ earliest-le i k jobs later
            ])
      | inr after ↦
          rw (earliest, after)
            (elim (List.Memᴰ.cases_cons m) [
              | inl e ↦ omega (arith, at_j, ap (λ (a : Job). a.created_at) e)
              | inr later ↦ elim (List.Memᴰ.cases_cons later) [
                | inl e ↦ ground (arith, at_j, ap (λ (a : Job). a.created_at) e)
                | inr rest ↦ earliest-le j k jobs (List.Memᴰ.tail rest)
              ]
            ])
    ]

-- What a claim takes: a pending job with attempts left, of those the one created first.
abbrev pub Claimed : JobStore → ℕ → JobStore → Option Job → Type 0
Claimed s now t none = (t ≡ s) × ((k : Job) → Memᴰ k s.jobs → is_claimable k ≡ false)
Claimed s now t (some job) =
    (old : Job) × Memᴰ old s.jobs
    × (is_claimable old ≡ true)
    × (job ≡ started now old)
    × (t ≡ record s { jobs = put_job job s.jobs })
    × ((k : Job) → Memᴰ k s.jobs → is_claimable k ≡ true → old.created_at ≤ k.created_at)

claim_first-Claimed :
    (range : List Job → List Job)
    → IsRange range
    → (s : JobStore) (now : ℕ) (found : List Job) → keep is_claimable (range s.jobs) ≡ found
    → Claimed s now (claim_first s now found).0 (claim_first s now found).1
unfolding claim_first
claim_first-Claimed range is_range s now [] e = (
  refl,
  λ k mem. elim (Bool-cases (is_claimable k)) [
    | inr free ↦ free
    | inl claimable ↦ absurd (
        List.Memᴰ.not-nil (
          subst (Memᴰ k) e
            (mem-keep is_claimable k (range s.jobs) ((is_range s.jobs k).1 mem) claimable)))
  ],
)
claim_first-Claimed range is_range s now (j ∷ jobs) e =
    let (mem, claimable) =
      keep-mem is_claimable (earliest j jobs) (range s.jobs)
        (subst (Memᴰ (earliest j jobs)) (sym e) (earliest-mem j jobs)) in
    (
      earliest j jobs,
      (is_range s.jobs (earliest j jobs)).0 mem,
      claimable,
      refl,
      refl,
      λ k m c.
          earliest-le j k jobs
            (subst (Memᴰ k) e (mem-keep is_claimable k (range s.jobs) ((is_range s.jobs k).1 m) c)),
    )

pub claim-Claimed :
    (range : List Job → List Job)
    → IsRange range
    → (s : JobStore) (now : ℕ) → Claimed s now (claim range s now).0 (claim range s now).1
unfolding claim
claim-Claimed range is_range s now = claim_first-Claimed range is_range s now _ refl
