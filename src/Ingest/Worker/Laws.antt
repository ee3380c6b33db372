-- ===== src/Ingest/Worker/Laws.antt =====
-- What handling a job does to its document and to the job, together.
use synamcps_server.Prelude.{
  ℕ, ◌≤◌, ◌<◌, leb, String, false, some, ◌≡◌, ◌⊎◌, inl, inr, refl, sym, ap, ◌∙◌, subst, arith,
  Bool-cases, eq_refl,
}
use synamcps_server.Models.{DocumentRecord, DocumentStatus, ready}
use synamcps_server.Ingest.Jobs.{
  Job, JobStatus, pending, completed, ingest, get_job, put_back, gave_up, mark_completed,
  mark_failed,
}
use synamcps_server.Ingest.Jobs.Laws.{get_job-put_job_self}
use synamcps_server.Ingest.Pipeline.{
  Result, ok, err, World, Env, catalog_save, given_up, is_settled, process_ingest,
  on_job_terminal_failure,
}
use synamcps_server.Ingest.Pipeline.Laws.{IndexedDocument, Processed, process_ingest-Processed}
use synamcps_server.Ingest.Worker.{
  State, Outside, after_failure, after_process, handle_job, process,
}

module _ {Vec : Type 0} (env : Env Vec) (out : Outside) (s : State Vec) (job : Job)
    (doc : DocumentRecord) where
  -- The document and the job after a job was handled: ready and completed; as it was, with the job
  -- waiting to be tried again; or failed, with no attempts left.
  abbrev pub Handled : State Vec → Type 0
  Handled t =
      (job' : Job) × (doc' : DocumentRecord) × (get_job job.id t.store.jobs ≡ some job')
      × (t.world.docs job.doc_id ≡ some doc')
      × (((job'.status ≡ completed) × (doc'.status ≡ ready))
          ⊎ (((job'.status ≡ pending) × (job.attempts < job.max_attempts) × (doc' ≡ doc))
              ⊎ ((job'.status ≡ JobStatus.failed)
                  × (job.max_attempts ≤ job.attempts)
                  × (doc'.status ≡ DocumentStatus.failed))))

  completed_job :
      get_job job.id s.store.jobs ≡ some job
      → (job' : Job) × (get_job job.id (mark_completed s.store (out.now s.calls) job.id).0.jobs
          ≡ some job')
        × (job'.status ≡ completed)
  unfolding mark_completed
  completed_job found = rw (mark_completed, found) (_, get_job-put_job_self _ s.store.jobs, refl)

  saved_doc :
      (w : World Vec) (d : DocumentRecord)
      → d.doc_id ≡ job.doc_id
      → (doc' : DocumentRecord) × ((catalog_save w d).docs job.doc_id ≡ some doc')
        × (doc'.status ≡ d.status)
  unfolding catalog_save
  saved_doc w d e = rw (e, eq_refl job.doc_id) (_, refl, refl)

  gave_up_doc :
      (w : World Vec) (now : ℕ) (cause : String)
      → job.kind ≡ ingest
      → w.docs job.doc_id ≡ some doc
      → on_job_terminal_failure w now job cause ≡ catalog_save w (given_up doc now cause)
  unfolding on_job_terminal_failure
  gave_up_doc w now cause kind at_doc = rw (on_job_terminal_failure, kind, at_doc) refl

  failed_job :
      (w : World Vec) (cause : String)
      → job.kind ≡ ingest
      → get_job job.id s.store.jobs ≡ some job
      → doc.doc_id ≡ job.doc_id
      → w.docs job.doc_id ≡ some doc
      → Handled (after_process out s job (w, err cause))
  unfolding after_process mark_failed after_failure
  failed_job w cause kind found key at_doc = elim (Bool-cases (leb job.max_attempts job.attempts)) [
    | inr more ↦
        rw (mark_failed, found, more)
          (
            put_back (out.now s.calls) cause job,
            doc,
            get_job-put_job_self (put_back (out.now s.calls) cause job) s.store.jobs,
            at_doc,
            inr (inl (refl, ground arith, refl)),
          )
    | inl last ↦
        rw (mark_failed, found, last, gave_up_doc w (out.now s.calls) cause kind at_doc)
          (let job' = gave_up (out.now s.calls) cause job in
            let (doc', saved, status) = saved_doc w (given_up doc (out.now s.calls) cause) key in
            (
              job',
              doc',
              get_job-put_job_self job' s.store.jobs,
              saved,
              inr (inr (refl, ground arith, status)),
            ))
  ]

  handled :
      (done : World Vec × Result (Unit {0}))
      → job.kind ≡ ingest
      → get_job job.id s.store.jobs ≡ some job
      → doc.doc_id ≡ job.doc_id
      → s.world.docs job.doc_id ≡ some doc
      → IndexedDocument env (out.uuid s.calls) (out.now s.calls) s.world doc done
      → Handled (after_process out s job done)
  unfolding after_process
  handled (w, err cause) kind found key at_doc (docs, added, recs, of_doc) =
      failed_job w cause kind found key (ap (λ f. f job.doc_id) docs ∙ at_doc)
  handled (w, ok u) kind found key at_doc
        (
          body, summary, sm, em, main, parts, read, summed, embedded, saved, others, recs, of_doc,
          held, indexed,
        ) =
      let (job', at_job, done) = completed_job found in
      (job', _, at_job, sym (ap w.docs key) ∙ saved, inl (done, refl))

  ingest_process :
      job.kind ≡ ingest
      → process env out s job
        ≡ process_ingest env (out.uuid s.calls) (out.now s.calls) s.world job.doc_id
  unfolding process
  ingest_process kind = rw (process, kind) refl

  ingested :
      s.world.docs job.doc_id ≡ some doc
      → is_settled doc.status ≡ false
      → IndexedDocument env
          (out.uuid s.calls)
          (out.now s.calls)
          s.world
          doc
          (process_ingest env (out.uuid s.calls) (out.now s.calls) s.world job.doc_id)
  ingested at_doc unsettled =
      let done = process_ingest env (out.uuid s.calls) (out.now s.calls) s.world job.doc_id in
      let found : Processed env (out.uuid s.calls) (out.now s.calls) s.world (some doc) done =
        subst (λ d. Processed env (out.uuid s.calls) (out.now s.calls) s.world d done) at_doc
          (process_ingest-Processed env (out.uuid s.calls) (out.now s.calls) s.world job.doc_id) in
      rw unsettled at found

  -- Handling an indexing job that was claimed, for a document that the catalog has under its own id
  -- and that is neither ready nor being deleted, leaves job and document in agreement: completed and
  -- ready; or waiting to be tried again, with the document as it was; or, where no attempts are left,
  -- failed and failed.
  pub handle_job-Handled :
      job.kind ≡ ingest
      → get_job job.id s.store.jobs ≡ some job
      → doc.doc_id ≡ job.doc_id
      → s.world.docs job.doc_id ≡ some doc
      → is_settled doc.status ≡ false
      → Handled (handle_job env out s job)
  unfolding handle_job
  handle_job-Handled kind found key at_doc unsettled =
      subst (λ d. Handled (after_process out s job d)) (sym (ingest_process kind))
        (handled _ kind found key at_doc (ingested at_doc unsettled))
