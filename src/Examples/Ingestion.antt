-- ===== src/Examples/Ingestion.antt =====
-- The theorems on ingestion at a concrete text, job store and pipeline.
use mathlib.Core.Option as Option
use synamcps_server.Prelude.{
  ℕ, true, none, some, List, [], ◌∷◌, map, ◌≡◌, refl, sym, subst, ◌∙◌, arith, All, length, keep,
  ◌||◌,
}
use synamcps_server.Prelude.Strings.{Runes, codes}
use synamcps_server.Prelude.Ints.{ℤ, pos, negsuc, or_default, or_zero}
use synamcps_server.Models.{personal}
use synamcps_server.Ingest.Chunks.{join, fields, step_of, split_tokens, split_text}
use synamcps_server.Ingest.Chunks.Laws.{unwind, IsChunk, split_text_lem}
use synamcps_server.Ingest.Jobs.{
  Job, JobStore, new_store, new_job, started, pending, ingest, delete_vectors, is_pending,
  is_running, is_active, put_job, is_claimable, earliest, claim_first, recovered, get_job, claim,
  enqueue_job, mark_completed, mark_failed, recover_stale,
}
use synamcps_server.Ingest.Jobs.Laws.{IsRange}
use synamcps_server.Ingest.Jobs.Steps.{
  IsNumbered, IsWellFormed, Steps, here, next, enqueue_step, claim_step, complete_step, fail_step,
}
use synamcps_server.Ingest.Jobs.Invariant.{Steps-IsWellFormed}
use synamcps_server.Ingest.Jobs.Stuck.{recover_stale-stuck}
use synamcps_server.Ingest.Pipeline.{ok, World, Env}
use synamcps_server.Ingest.Pipeline.Saves.{SaveRequest, save, Saved, save-Saved}
use synamcps_server.Ingest.Worker.{State, Outside, handle_job, process_until_idle}
use synamcps_server.Ingest.Worker.Laws.{Handled, handle_job-Handled}
use synamcps_server.Ingest.Worker.Idle.{IsFinished, process_until_idle-Done}
use synamcps_server.Examples.{alice, document}

abbrev five_words : Runes
five_words = codes " one two  three four five "

three_chunks :
    split_text five_words (pos 2) (pos 0)
    ≡ some (codes "one two" ∷ codes "three four" ∷ codes "five" ∷ [])
unfolding split_text split_tokens join
three_chunks = refl

split_text_lem_example :
    (chunks : List Runes) × (split_text five_words (pos 2) (pos 1) ≡ some chunks)
    × (unwind (step_of (or_default (pos 2) 500) (or_zero (pos 1))) (map fields chunks)
        ≡ fields five_words)
    × All (IsChunk (or_default (pos 2) 500)) chunks
split_text_lem_example = split_text_lem five_words (pos 2) (pos 1)

-- the runtime goes over the jobs in the order in which they were made
abbrev in_order : List Job → List Job
in_order jobs = jobs

in_order-IsRange : IsRange in_order
in_order-IsRange jobs j = (λ m. m, λ m. m)

empty-IsWellFormed : IsWellFormed new_store
empty-IsWellFormed = record {
  numbering = record { numbered = tt; counted = refl; attempts = tt };
  one_active = λ doc_id kind. omega arith;
}

-- a job is enqueued, claimed and put back
abbrev enqueued : JobStore
enqueued = (enqueue_job in_order new_store 1 "d-1" ingest (negsuc 4)).0

abbrev claimed : JobStore
claimed = (claim in_order enqueued 2).0

abbrev three_steps : Steps in_order new_store (mark_failed claimed 3 1 "down").0
three_steps =
    next
      (next (next here (enqueue_step new_store 1 "d-1" ingest (negsuc 4))) (claim_step enqueued 2))
      (fail_step claimed 3 1 "down")

abbrev claimed_job : Job
claimed_job = started 2 (new_job 1 1 "d-1" ingest 3)

claimed-get_job : get_job 1 claimed.jobs ≡ some claimed_job
unfolding is_active is_claimable put_job earliest claim_first enqueue_job claim
claimed-get_job = refl

claimed-active :
    (j : Job)
    → get_job 1 claimed.jobs ≡ some j
    → (is_pending j.status || is_running j.status) ≡ true
claimed-active j h =
    subst (λ (k : Job). (is_pending k.status || is_running k.status) ≡ true)
      (Option.some-injective claimed_job j (sym claimed-get_job ∙ h)) refl

Steps-IsWellFormed_example : IsWellFormed (mark_failed claimed 3 1 "down").0
Steps-IsWellFormed_example =
    Steps-IsWellFormed in_order in_order-IsRange empty-IsWellFormed three_steps
      (((tt, tt), tt), claimed-active)

-- A job that was recovered while its worker was at it, and is failed late by that worker, waits
-- again beside the one that was enqueued after the other worker completed it.
abbrev recovered_late : JobStore
recovered_late = (claim in_order (recover_stale claimed 3) 4).0

abbrev failed_late : JobStore
failed_late =
    (mark_failed
      (enqueue_job in_order (mark_completed recovered_late 5 1).0 6 "d-1" ingest (pos 3)).0 7 1
      "late").0

failed_late-twice : length (keep (is_active "d-1" ingest) failed_late.jobs) ≡ 2
unfolding is_active is_claimable put_job earliest claim_first recovered enqueue_job claim
    recover_stale mark_completed mark_failed
failed_late-twice = refl

-- a job of one attempt, under way
abbrev last_try : Job
last_try = started 2 (new_job 1 1 "d-1" ingest 1)

abbrev under_way : JobStore
under_way = record { jobs = last_try ∷ new_job 2 1 "d-2" ingest 3 ∷ []; seq = 2; wake = true }

under_way-IsNumbered : IsNumbered under_way
under_way-IsNumbered = record {
  numbered = (refl, (refl, tt));
  counted = refl;
  attempts = (omega arith, (omega arith, tt));
}

-- the other job is claimed and completed
abbrev after_recovery : JobStore
after_recovery = (mark_completed (claim in_order (recover_stale under_way 9) 10).0 11 2).0

recover_stale-stuck_example :
    (get_job 1 after_recovery.jobs ≡ some (record last_try { status = pending; updated_at = 9 }))
    × ((later : ℕ) (max_attempts : ℤ)
        → (enqueue_job in_order after_recovery later "d-1" ingest max_attempts).0 ≡ after_recovery)
recover_stale-stuck_example =
    recover_stale-stuck in_order in_order-IsRange under_way 9 1 last_try after_recovery
      under_way-IsNumbered refl refl (omega arith)
      (next (next here (claim_step (recover_stale under_way 9) 10))
        (complete_step (claim in_order (recover_stale under_way 9) 10).0 11 2))
      ((tt, tt), ground arith)

-- A model that summarizes by the text itself, and whose vectors are lengths.
abbrev toy_env : Env ℕ
toy_env = record {
  chunk_size = pos 2;
  overlap = pos 0;
  large_doc_bytes = 0;
  summarize = λ body. ok (body, "toy");
  embed = λ text. ok (length text, "length");
  blob_get = none;
  blob_put = λ key body. ok tt;
  parse_uri = λ url. ok tt;
  trim_slashes = λ s. s;
  quote = λ s. s;
}

abbrev world : World ℕ
world = record { docs = λ id. some document; records = [] }

abbrev outside : Outside
outside = record { now = λ n. n; uuid = λ n. "u-1" }

abbrev busy : State ℕ
busy = record { store = under_way; world = world; calls = 7 }

handle_job-Handled_example :
    Handled toy_env outside busy last_try document (handle_job toy_env outside busy last_try)
handle_job-Handled_example =
    handle_job-Handled toy_env outside busy last_try document refl refl refl refl refl

abbrev waiting : JobStore
waiting = record {
  jobs = new_job 1 1 "d-1" ingest 3 ∷ new_job 2 1 "d-1" delete_vectors 3 ∷ [];
  seq = 2;
  wake = true;
}

abbrev waiting_state : State ℕ
waiting_state = record { store = waiting; world = world; calls = 0 }

process_until_idle-Done_example :
    (t : State ℕ) × (process_until_idle in_order toy_env outside 7 waiting_state ≡ some t)
    × All IsFinished t.store.jobs
process_until_idle-Done_example =
    process_until_idle-Done toy_env outside in_order in_order-IsRange 7 waiting_state
      ((refl, (refl, tt)), ((refl, λ h. omega arith), ((refl, λ h. omega arith), tt))) (omega arith)

abbrev save_request : SaveRequest
save_request = record {
  principal = alice;
  storage_id = "st-1";
  s3_prefix = "";
  raw_s3_key = "";
  title = "Notes";
  body = "one two three";
  mime_type = "text/plain";
  visibility = personal;
  group_ids = [];
  source = "";
  source_url = "";
  channel = "mcp";
}

save-Saved_example :
    Saved toy_env save_request "u-1" 5 world new_store
      (save toy_env in_order world new_store "u-1" 5 (pos 3) save_request)
save-Saved_example =
    save-Saved toy_env save_request "u-1" 5 in_order in_order-IsRange world new_store (pos 3)
      empty-IsWellFormed
