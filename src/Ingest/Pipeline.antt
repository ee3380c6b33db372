-- ===== src/Ingest/Pipeline.antt =====
-- internal/knowledge/ingest/pipeline.go, over the catalog and the vector store in memory
-- (internal/storage/meta/postgres/store.go and internal/storage/vector/pgvector/store.go with no
-- database). The models, the blob store and `url.ParseRequestURI` are what they answer.
pub mod Laws
pub mod Saves
use Prim.Native.String.{◌++◌}
use mathlib.Core.List as List
use synamcps_server.Prelude.{
  ℕ, suc, ltb, String, Bool, true, false, not, Option, none, some, List, [], ◌∷◌, ◌&&◌,
  if◌then◌else◌, keep, is_empty,
}
use synamcps_server.Prelude.Strings.{Runes, codes, ◌=ˢ◌}
use synamcps_server.Prelude.Runes.{widths}
use synamcps_server.Prelude.Ints.{ℤ}
use synamcps_server.Prelude.Maps.{update}
use synamcps_server.Models.{
  Principal, Visibility, personal, DocumentRecord, DocumentStatus, processing, ready, failed,
  deleting, ChunkId, summary_id, part_id, VectorPayload,
}
use synamcps_server.Ingest.Chunks.{split_text}
use synamcps_server.Ingest.Jobs.{Job, JobStore, JobKind, ingest, delete_vectors, other, enqueue_job}

pub data Result {ℓ} (A : Type ℓ) : Type ℓ where
  ok : A → Result A
  err : String → Result A

pub record Record (Vec : Type 0) : Type 0 where
  pub vector : Vec
  pub text : Runes
  pub payload : VectorPayload

-- What the pipeline writes to: the catalog's `docs` and the vector store's `records`.
pub record World (Vec : Type 0) : Type 0 where
  pub docs : String → Option DocumentRecord
  pub records : List (Record Vec)

-- The configuration, and what is not the server's own code. `quote` is what `%q` writes.
pub record Env (Vec : Type 0) : Type 0 where
  pub chunk_size : ℤ
  pub overlap : ℤ
  pub large_doc_bytes : ℕ
  pub summarize : Runes → Result (Runes × String)
  pub embed : Runes → Result (Vec × String)
  pub blob_get : Option (String → Result (Option Runes))
  pub blob_put : String → Runes → Result (Unit {0})
  pub parse_uri : String → Result (Unit {0})
  pub trim_slashes : String → String
  pub quote : String → String

-- `defaultStorageID`
abbrev pub default_storage_id : String → String
default_storage_id id = if id =ˢ "" then "legacy" else id

abbrev pub payload_of : DocumentRecord → ChunkId → Bool → VectorPayload
payload_of doc chunk_id is_summary = record {
  doc_id = doc.doc_id;
  storage_id = doc.storage_id;
  chunk_id = chunk_id;
  visibility = doc.visibility;
  owner_id = doc.owner_id;
  group_ids = doc.group_ids;
  is_summary = is_summary;
  source = doc.source;
  source_url = doc.source_url;
  s3_key = doc.s3_key;
}

abbrev pub finished : DocumentRecord → String → String → String → ℕ → DocumentRecord
finished doc uuid summary_model embedding_model now = record doc {
  status = ready;
  summary_chunk_id = uuid;
  source_hash = summary_model ++ (":" ++ embedding_model);
  updated_at = now;
}

abbrev pub is_settled : DocumentStatus → Bool
is_settled processing = false
is_settled ready = true
is_settled failed = false
is_settled deleting = true
is_settled (DocumentStatus.other s) = false

abbrev pub given_up : DocumentRecord → ℕ → String → DocumentRecord
given_up doc now cause = record doc {
  status = failed;
  updated_at = now;
  source_hash = if doc.source_hash =ˢ "" then cause else doc.source_hash;
}

module _ {Vec : Type 0} where
  -- `Store.Save` and `Store.Get` of the catalog
  unfoldable pub catalog_save : World Vec → DocumentRecord → World Vec
  catalog_save w doc = record w {
    docs =
        update w.docs doc.doc_id
          (some (record doc { storage_id = default_storage_id doc.storage_id }));
  }

  abbrev pub catalog_get : World Vec → String → Option DocumentRecord
  catalog_get w doc_id = w.docs doc_id

  -- `Store.Upsert` and `Store.DeleteByDocID` of the vector store
  unfoldable pub vector_upsert : World Vec → Record Vec → World Vec
  vector_upsert w r = record w { records = List.◌++◌ w.records (r ∷ []) }

  unfoldable pub delete_by_doc_id : World Vec → String → World Vec
  delete_by_doc_id w doc_id = record w {
    records = keep (λ r. not (r.payload.doc_id =ˢ doc_id)) w.records;
  }

  -- `documentBody`
  unfoldable pub document_body : Env Vec → DocumentRecord → Result Runes
  document_body env doc =
      if not (doc.body =ˢ "")
      then ok (codes doc.body)
      else if doc.s3_key =ˢ ""
      then ok []
      else elim env.blob_get [
        | none ↦ ok []
        | some get ↦ elim (get doc.s3_key) [
          | err e ↦ err e
          | ok none ↦
              err (
                "blob "
                ++ (env.quote doc.s3_key ++ (" not found for doc " ++ env.quote doc.doc_id)))
          | ok (some body) ↦ ok body
        ]
      ]

  -- the loop over the chunks, from the number `i`; the error of an embedding stops it
  unfoldable pub index_chunks :
      Env Vec → DocumentRecord → ℕ → List Runes → World Vec → World Vec × Result (Unit {0})
  unfolding vector_upsert
  index_chunks env doc i [] w = (w, ok tt)
  index_chunks env doc i (chunk ∷ chunks) w = elim (env.embed chunk) [
    | err e ↦ (w, err e)
    | ok (vec, model) ↦ index_chunks env doc (suc i) chunks (
        vector_upsert w (record {
          vector = vec;
          text = chunk;
          payload = payload_of doc (part_id doc.doc_id i) false;
        }))
  ]

  -- `splitText`, or the whole body where it has no words
  unfoldable pub chunks_of : Env Vec → Runes → List Runes
  chunks_of env body = elim (split_text body env.chunk_size env.overlap) [
    | none ↦ body ∷ []
    | some chunks ↦ if is_empty chunks then body ∷ [] else chunks
  ]

  unfoldable pub finish :
      DocumentRecord
      → String
      → String
      → String
      → ℕ
      → World Vec × Result (Unit {0})
      → World Vec × Result (Unit {0})
  unfolding catalog_save
  finish doc uuid summary_model embedding_model now (w, err e) = (w, err e)
  finish doc uuid summary_model embedding_model now (w, ok u) =
      (catalog_save w (finished doc uuid summary_model embedding_model now), ok tt)

  -- `ProcessIngest` from the summary on
  unfoldable pub index_document :
      Env Vec → String → ℕ → World Vec → DocumentRecord → Runes → World Vec × Result (Unit {0})
  unfolding vector_upsert index_chunks chunks_of finish
  index_document env uuid now w doc body = elim (env.summarize body) [
    | err e ↦ (w, err e)
    | ok (summary, summary_model) ↦ elim (env.embed summary) [
      | err e ↦ (w, err e)
      | ok (vec, embedding_model) ↦ finish doc uuid summary_model embedding_model now (
          index_chunks env doc 0 (chunks_of env body) (
            vector_upsert w (record {
              vector = vec;
              text = summary;
              payload = payload_of doc (summary_id uuid) true;
            })))
    ]
  ]

  unfoldable pub process_found :
      Env Vec → String → ℕ → World Vec → DocumentRecord → World Vec × Result (Unit {0})
  unfolding document_body index_document
  process_found env uuid now w doc =
      if is_settled doc.status then (w, ok tt) else elim (document_body env doc) [
        | err e ↦ (w, err e)
        | ok body ↦ index_document env uuid now w doc body
      ]

  -- `ProcessIngest`
  unfoldable pub process_ingest :
      Env Vec → String → ℕ → World Vec → String → World Vec × Result (Unit {0})
  unfolding process_found
  process_ingest env uuid now w doc_id = elim (catalog_get w doc_id) [
    | none ↦ (w, err ("document " ++ (env.quote doc_id ++ " not found")))
    | some doc ↦ process_found env uuid now w doc
  ]

  -- `ProcessDeleteVectors`
  unfoldable pub process_delete_vectors : World Vec → String → World Vec × Result (Unit {0})
  unfolding delete_by_doc_id
  process_delete_vectors w doc_id = (delete_by_doc_id w doc_id, ok tt)

  -- `onJobTerminalFailure`
  unfoldable pub on_job_terminal_failure : World Vec → ℕ → Job → String → World Vec
  unfolding catalog_save
  on_job_terminal_failure w now job cause = elim job.kind [
    | ingest ↦ elim (catalog_get w job.doc_id) [
      | none ↦ w
      | some doc ↦ catalog_save w (given_up doc now cause)
    ]
    | _ ↦ w
  ]
