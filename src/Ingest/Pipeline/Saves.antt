-- ===== src/Ingest/Pipeline/Saves.antt =====
-- `Save` and `prepareDocument` of internal/knowledge/ingest/pipeline.go: a document is stored as
-- being processed, and a job is enqueued for it.
use Prim.Native.String.{◌++◌}
use synamcps_server.Prelude.{
  ℕ, ◌⊎◌, sym, subst, suc, ltb, String, Bool, true, some, List, ◌≡◌, inl, inr, refl, ◌&&◌,
  if◌then◌else◌, Bool-cases, Option-cases, eq_refl, find?, find?-test, find?-mem,
}
use synamcps_server.Prelude.Strings.{codes, ◌=ˢ◌}
use synamcps_server.Prelude.Runes.{widths}
use synamcps_server.Prelude.Ints.{ℤ, or_default}
use synamcps_server.Models.{
  Principal, Visibility, public, group, personal, DocumentRecord, processing,
}
use synamcps_server.Ingest.Jobs.{Job, JobStore, ingest, is_active, enqueue_job, new_job, get_job}
use synamcps_server.Ingest.Jobs.Laws.{IsRange, get_job-mem, get_job-put_job_self}
use synamcps_server.Ingest.Jobs.Steps.{IsWellFormed}
use synamcps_server.Ingest.Jobs.Stuck.{active_self}
use synamcps_server.Ingest.Pipeline.{Result, ok, err, World, Env, default_storage_id, catalog_save}
use synamcps_server.Ingest.Pipeline.Laws.{Result-cases}

pub record SaveRequest : Type 0 where
  pub principal : Principal
  pub storage_id : String
  pub s3_prefix : String
  pub raw_s3_key : String
  pub title : String
  pub body : String
  pub mime_type : String
  pub visibility : Visibility
  pub group_ids : List String
  pub source : String
  pub source_url : String
  pub channel : String

-- `normalizeSource`
unfoldable pub normalize_source : String → String → String
normalize_source source channel =
    if source =ˢ ""
    then (if channel =ˢ "mcp"
        then "mcp"
        else if channel =ˢ "api"
        then "api"
        else if channel =ˢ "admin"
        then "admin"
        else "unknown")
    else source

-- `if req.Visibility == ""`
abbrev pub visibility_of : Visibility → Visibility
visibility_of public = public
visibility_of group = group
visibility_of personal = personal
visibility_of (Visibility.other v) = if v =ˢ "" then personal else Visibility.other v

module _ {Vec : Type 0} (env : Env Vec) where
  -- `url.ParseRequestURI` of an address that is given
  abbrev pub check_source_url : String → Result (Unit {0})
  check_source_url url = if url =ˢ "" then ok tt else env.parse_uri url

  abbrev pub source_key : SaveRequest → String → String
  source_key req uuid =
      env.trim_slashes (
        if req.s3_prefix =ˢ ""
        then "storages/" ++ (default_storage_id req.storage_id ++ "/")
        else req.s3_prefix)
      ++ ("/documents/" ++ (uuid ++ "/source.txt"))

  abbrev pub is_large : SaveRequest → Bool
  is_large req = ltb env.large_doc_bytes (widths (codes req.body)) && ltb 0 env.large_doc_bytes

  abbrev pub prepared : SaveRequest → String → ℕ → String → DocumentRecord
  prepared req uuid now s3_key = record {
    doc_id = uuid;
    storage_id = default_storage_id req.storage_id;
    owner_id = req.principal.user_id;
    visibility = visibility_of req.visibility;
    group_ids = req.group_ids;
    title = req.title;
    mime_type = req.mime_type;
    source = normalize_source req.source req.channel;
    source_url = req.source_url;
    source_hash = "";
    s3_key = s3_key;
    summary_chunk_id = "";
    status = processing;
    body = req.body;
    created_at = now;
    updated_at = now;
  }

  -- `prepareDocument`; a key of the raw document that is not given is empty already
  unfoldable pub prepare_document : SaveRequest → String → ℕ → Result DocumentRecord
  prepare_document req uuid now = elim (check_source_url req.source_url) [
    | err e ↦ err ("invalid sourceUrl: " ++ e)
    | ok u ↦
        if is_large req
        then (elim (env.blob_put (source_key req uuid) (codes req.body)) [
          | err e ↦ err e
          | ok v ↦ ok (prepared req uuid now (source_key req uuid))
        ])
        else ok (prepared req uuid now req.raw_s3_key)
  ]

  module _ (range : List Job → List Job) where
    unfoldable pub save_prepared :
        World Vec
        → JobStore
        → ℕ
        → ℤ
        → Result DocumentRecord
        → World Vec × JobStore × Result DocumentRecord
    save_prepared w s now max_attempts (err e) = (w, s, err e)
    save_prepared w s now max_attempts (ok doc) =
        (catalog_save w doc, (enqueue_job range s now doc.doc_id ingest max_attempts).0, ok doc)

    -- `Save`; the catalog and the job store are those in memory, which do not fail
    unfoldable pub save :
        World Vec
        → JobStore
        → String
        → ℕ
        → ℤ
        → SaveRequest
        → World Vec × JobStore × Result DocumentRecord
    unfolding save_prepared
    save w s uuid now max_attempts req =
        save_prepared w s now max_attempts (prepare_document req uuid now)

enqueue_job-active :
    (range : List Job → List Job)
    → IsRange range
    → (s : JobStore) (now : ℕ) (doc_id : String) (max_attempts : ℤ) → IsWellFormed s
    → (j : Job) × (get_job j.id (enqueue_job range s now doc_id ingest max_attempts).0.jobs
        ≡ some j)
      × (is_active doc_id ingest j ≡ true)
unfolding enqueue_job
enqueue_job-active range is_range s now doc_id max_attempts w =
    elim (Option-cases (find? (is_active doc_id ingest) (range s.jobs))) [
      | inr (j, found) ↦
          let mem =
            (is_range s.jobs j).0 (find?-mem (is_active doc_id ingest) (range s.jobs) j found) in
          rw (enqueue_job, found)
            (
              j,
              get_job-mem 1 j s.jobs w.numbering.numbered mem,
              find?-test (is_active doc_id ingest) (range s.jobs) j found,
            )
      | inl free ↦
          let job = new_job (suc s.seq) now doc_id ingest (or_default max_attempts 3) in
          rw (enqueue_job, free) (job, get_job-put_job_self job s.jobs, active_self job refl)
    ]

default_storage_id_idempotent :
    (id : String) → default_storage_id (default_storage_id id) ≡ default_storage_id id
default_storage_id_idempotent id = elim (Bool-cases (id =ˢ "")) [
  | inl empty ↦ rw empty refl
  | inr given ↦ rw (given, given) refl
]

module _ {Vec : Type 0} (env : Env Vec) (req : SaveRequest) (uuid : String) (now : ℕ) where
  -- What saving comes to.
  abbrev pub Saved : World Vec → JobStore → World Vec × JobStore × Result DocumentRecord → Type 0
  Saved w s (w', s', err e) = (w' ≡ w) × (s' ≡ s)
  Saved w s (w', s', ok doc) =
      (w'.docs uuid ≡ some doc)
      × (doc.doc_id ≡ uuid)
      × (doc.status ≡ processing)
      × (doc.owner_id ≡ req.principal.user_id)
      × (doc.body ≡ req.body)
      × (j : Job) × (get_job j.id s'.jobs ≡ some j)
      × (is_active uuid ingest j ≡ true)

  save_prepared-Saved :
      (range : List Job → List Job)
      → IsRange range
      → (w : World Vec) (s : JobStore) (max_attempts : ℤ) (s3_key : String) → IsWellFormed s
      → Saved w s
          (save_prepared env range w s now max_attempts (ok (prepared env req uuid now s3_key)))
  unfolding save_prepared catalog_save
  save_prepared-Saved range is_range w s max_attempts s3_key wf =
      let (j, at_job, active) = enqueue_job-active range is_range s now uuid max_attempts wf in
      (
        rw (eq_refl uuid, default_storage_id_idempotent req.storage_id) refl,
        refl,
        refl,
        refl,
        refl,
        j,
        at_job,
        active,
      )

  prepare_document_lem :
      ((e : String) × (prepare_document env req uuid now ≡ err e))
      ⊎ ((s3_key : String) × (prepare_document env req uuid now
            ≡ ok (prepared env req uuid now s3_key)))
  unfolding prepare_document
  prepare_document_lem = elim (Result-cases (check_source_url env req.source_url)) [
    | inl (e, bad) ↦ inl ("invalid sourceUrl: " ++ e, rw (prepare_document, bad) refl)
    | inr (u, good) ↦ elim (Bool-cases (is_large env req)) [
      | inr small ↦ inr (req.raw_s3_key, rw (prepare_document, good, small) refl)
      | inl large ↦ elim (Result-cases (env.blob_put (source_key env req uuid) (codes req.body))) [
        | inl (e, failed) ↦ inl (e, rw (prepare_document, good, large, failed) refl)
        | inr (v, put) ↦ inr (source_key env req uuid, rw (prepare_document, good, large, put) refl)
      ]
    ]
  ]

  -- A save is refused and changes nothing, or the document is in the catalog under the new id as one
  -- being processed, with the caller as its owner and the body that was sent, and the store has a
  -- pending or running job to index it.
  pub save-Saved :
      (range : List Job → List Job)
      → IsRange range
      → (w : World Vec) (s : JobStore) (max_attempts : ℤ) → IsWellFormed s
      → Saved w s (save env range w s uuid now max_attempts req)
  unfolding save save_prepared
  save-Saved range is_range w s max_attempts wf = elim prepare_document_lem [
    | inl (e, refused) ↦
        subst (λ r. Saved w s (save_prepared env range w s now max_attempts r)) (sym refused)
          (refl, refl)
    | inr (s3_key, accepted) ↦
        subst (λ r. Saved w s (save_prepared env range w s now max_attempts r)) (sym accepted)
          (save_prepared-Saved range is_range w s max_attempts s3_key wf)
  ]
