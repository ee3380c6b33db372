-- ===== src/Ingest/Pipeline/Laws.antt =====
-- What indexing a document does to the catalog and the vector store, on every branch.
use Prim.Native.String as Text
use synamcps_server.Prelude.{
  ℕ, suc, String, true, false, Option, none, some, List, [], ◌∷◌, ◌++◌, ◌≡◌, ◌⊎◌, inl, inr, refl,
  ap, ◌∙◌, ◌≢◌, Bool, eq_refl, Bool-cases, All, append_assoc, append_nil, if◌then◌else◌,
}
use synamcps_server.Prelude.Strings.{Runes, differs_text}
use synamcps_server.Prelude.Maps.{update}
use synamcps_server.Models.{DocumentRecord, ready, ChunkId, part_id, summary_id}
use synamcps_server.Ingest.Pipeline.{
  Result, ok, err, Record, World, Env, catalog_save, vector_upsert, document_body,
  default_storage_id, payload_of, index_chunks, chunks_of, finish, index_document, is_settled,
  process_found, process_ingest,
}

pub Result-cases {ℓ} :
    {A : Type ℓ} (r : Result A) → ((e : String) × (r ≡ err e)) ⊎ ((a : A) × (r ≡ ok a))
Result-cases (ok a) = inr (a, refl)
Result-cases (err e) = inl (e, refl)

update_here {ℓ} :
    {A : Type ℓ} (f : String → A) (key : String) (value : A) → update f key value key ≡ value
update_here f key value = rw (eq_refl key) refl

update_other {ℓ} :
    {A : Type ℓ} (f : String → A) (key other : String) (value : A)
    → key ≢ other
    → update f key value other ≡ f other
update_other f key other value ne = rw (differs_text key other ne) refl

module _ {Vec : Type 0} where
  -- A record carries the document's id, storage, owner, visibility, groups and source.
  abbrev pub IsOf : DocumentRecord → Record Vec → Type 0
  IsOf doc r =
      (r.payload.doc_id ≡ doc.doc_id)
      × (r.payload.storage_id ≡ doc.storage_id)
      × (r.payload.owner_id ≡ doc.owner_id)
      × (r.payload.visibility ≡ doc.visibility)
      × (r.payload.group_ids ≡ doc.group_ids)
      × (r.payload.source ≡ doc.source)
      × (r.payload.source_url ≡ doc.source_url)
      × (r.payload.s3_key ≡ doc.s3_key)

  -- A record of a text under an id, with the vector of the model.
  abbrev pub Holds : Env Vec → Record Vec → Runes → ChunkId → Bool → Type 0
  Holds env r text id is_summary =
      (model : String) × (env.embed text ≡ ok (r.vector, model))
      × (r.text ≡ text)
      × (r.payload.chunk_id ≡ id)
      × (r.payload.is_summary ≡ is_summary)

  -- The records of a list of chunks, numbered from `i`.
  abbrev pub Indexed : Env Vec → DocumentRecord → ℕ → List Runes → List (Record Vec) → Type 0
  Indexed env doc i [] [] = Unit
  Indexed env doc i [] (r ∷ rs) = ⊥
  Indexed env doc i (c ∷ cs) [] = ⊥
  Indexed env doc i (c ∷ cs) (r ∷ rs) =
      Holds env r c (part_id doc.doc_id i) false × Indexed env doc (suc i) cs rs

  abbrev Chunked :
      Env Vec → DocumentRecord → ℕ → List Runes → World Vec → World Vec × Result (Unit {0}) → Type 0
  Chunked env doc i chunks w (w', err e) =
      (w'.docs ≡ w.docs)
      × (added : List (Record Vec)) × (w'.records ≡ w.records ++ added)
      × All (IsOf doc) added
  Chunked env doc i chunks w (w', ok u) =
      (w'.docs ≡ w.docs)
      × (added : List (Record Vec)) × (w'.records ≡ w.records ++ added)
      × All (IsOf doc) added
      × Indexed env doc i chunks added

  abbrev part_of : DocumentRecord → ℕ → Runes → Vec → Record Vec
  part_of doc i chunk vec = record {
    vector = vec;
    text = chunk;
    payload = payload_of doc (part_id doc.doc_id i) false;
  }

  more-Chunked :
      (env : Env Vec) (doc : DocumentRecord) (i : ℕ) (c : Runes) (cs : List Runes) (w : World Vec)
      (vec : Vec) (model : String) (done : World Vec × Result (Unit {0}))
      → env.embed c ≡ ok (vec, model)
      → Chunked env doc (suc i) cs (vector_upsert w (part_of doc i c vec)) done
      → Chunked env doc i (c ∷ cs) w done
  unfolding vector_upsert
  more-Chunked env doc i c cs w vec model (w', err e) embedded (docs, added, recs, of_doc) = (
    docs,
    part_of doc i c vec ∷ added,
    recs ∙ append_assoc w.records (part_of doc i c vec ∷ []) added,
    ((refl, refl, refl, refl, refl, refl, refl, refl), of_doc),
  )
  more-Chunked env doc i c cs w vec model (w', ok u) embedded (docs, added, recs, of_doc, indexed) =
      (
        docs,
        part_of doc i c vec ∷ added,
        recs ∙ append_assoc w.records (part_of doc i c vec ∷ []) added,
        ((refl, refl, refl, refl, refl, refl, refl, refl), of_doc),
        ((model, embedded, refl, refl, refl), indexed),
      )

  index_chunks-Chunked :
      (env : Env Vec) (doc : DocumentRecord) (i : ℕ) (chunks : List Runes) (w : World Vec)
      → Chunked env doc i chunks w (index_chunks env doc i chunks w)
  unfolding index_chunks
  index_chunks-Chunked env doc i [] w = (refl, [], append_nil w.records, tt, tt)
  index_chunks-Chunked env doc i (c ∷ cs) w = elim (Result-cases (env.embed c)) [
    | inl (e, failed) ↦ rw (index_chunks, failed) (refl, [], append_nil w.records, tt)
    | inr ((vec, model), embedded) ↦
        rw (index_chunks, embedded)
          (more-Chunked env doc i c cs w vec model _ embedded
            (index_chunks-Chunked env doc (suc i) cs (vector_upsert w (part_of doc i c vec))))
  ]

  -- What indexing a document that is not settled comes to.
  abbrev pub IndexedDocument :
      Env Vec → String → ℕ → World Vec → DocumentRecord → World Vec × Result (Unit {0}) → Type 0
  IndexedDocument env uuid now w doc (w', err e) =
      (w'.docs ≡ w.docs)
      × (added : List (Record Vec)) × (w'.records ≡ w.records ++ added)
      × All (IsOf doc) added
  IndexedDocument env uuid now w doc (w', ok u) =
      (body : Runes) × (summary : Runes) × (summary_model : String) × (embedding_model : String)
      × (main : Record Vec) × (parts : List (Record Vec)) × (document_body env doc ≡ ok body)
      × (env.summarize body ≡ ok (summary, summary_model))
      × (env.embed summary ≡ ok (main.vector, embedding_model))
      × (w'.docs doc.doc_id
          ≡ some (record doc {
            status = ready;
            summary_chunk_id = uuid;
            source_hash = Text.◌++◌ summary_model (Text.◌++◌ ":" embedding_model);
            storage_id = default_storage_id doc.storage_id;
            updated_at = now;
          }))
      × ((other : String) → doc.doc_id ≢ other → w'.docs other ≡ w.docs other)
      × (w'.records ≡ w.records ++ main ∷ parts)
      × All (IsOf doc) (main ∷ parts)
      × Holds env main summary (summary_id uuid) true
      × Indexed env doc 0 (chunks_of env body) parts

  indexed :
      (env : Env Vec) (uuid : String) (now : ℕ) (w : World Vec) (doc : DocumentRecord)
      (body summary : Runes) (vec : Vec) (summary_model embedding_model : String)
      (done : World Vec × Result (Unit {0}))
      → document_body env doc ≡ ok body
      → env.summarize body ≡ ok (summary, summary_model)
      → env.embed summary ≡ ok (vec, embedding_model)
      → Chunked env doc 0
          (chunks_of env body)
          (vector_upsert w (record {
            vector = vec;
            text = summary;
            payload = payload_of doc (summary_id uuid) true;
          }))
          done
      → IndexedDocument env uuid now w doc (finish doc uuid summary_model embedding_model now done)
  unfolding finish vector_upsert catalog_save
  indexed env uuid now w doc body summary vec sm em (w', err e) read summed embedded
        (docs, added, recs, of_doc) =
      let s : Record Vec = record {
        vector = vec;
        text = summary;
        payload = payload_of doc (summary_id uuid) true;
      } in
      (
        docs,
        s ∷ added,
        recs ∙ append_assoc w.records (s ∷ []) added,
        ((refl, refl, refl, refl, refl, refl, refl, refl), of_doc),
      )
  indexed env uuid now w doc body summary vec sm em (w', ok u) read summed embedded
        (docs, added, recs, of_doc, parts) =
      let s : Record Vec = record {
        vector = vec;
        text = summary;
        payload = payload_of doc (summary_id uuid) true;
      } in
      (
        body,
        summary,
        sm,
        em,
        s,
        added,
        read,
        summed,
        embedded,
        update_here w'.docs doc.doc_id _,
        λ other ne. update_other w'.docs doc.doc_id other _ ne ∙ ap (λ d. d other) docs,
        recs ∙ append_assoc w.records (s ∷ []) added,
        ((refl, refl, refl, refl, refl, refl, refl, refl), of_doc),
        (em, embedded, refl, refl, refl),
        parts,
      )

  index_document-Indexed :
      (env : Env Vec) (uuid : String) (now : ℕ) (w : World Vec) (doc : DocumentRecord)
      (body : Runes)
      → document_body env doc ≡ ok body
      → IndexedDocument env uuid now w doc (index_document env uuid now w doc body)
  unfolding index_document
  index_document-Indexed env uuid now w doc body read = elim (Result-cases (env.summarize body)) [
    | inl (e, failed) ↦ rw (index_document, failed) (refl, [], append_nil w.records, tt)
    | inr ((summary, sm), summed) ↦ elim (Result-cases (env.embed summary)) [
      | inl (e, failed) ↦ rw (index_document, summed, failed) (refl, [], append_nil w.records, tt)
      | inr ((vec, em), embedded) ↦
          rw (index_document, summed, embedded)
            (indexed env uuid now w doc body summary vec sm em _ read summed embedded
              (index_chunks-Chunked env doc 0 (chunks_of env body) _))
    ]
  ]

  -- What `ProcessIngest` comes to, by the document that the catalog has.
  abbrev pub Processed :
      Env Vec
      → String
      → ℕ
      → World Vec
      → Option DocumentRecord
      → World Vec × Result (Unit {0})
      → Type 0
  Processed env uuid now w none done = (e : String) × (done ≡ (w, err e))
  Processed env uuid now w (some doc) done =
      if is_settled doc.status then done ≡ (w, ok tt) else IndexedDocument env uuid now w doc done

  process_found-Processed :
      (env : Env Vec) (uuid : String) (now : ℕ) (w : World Vec) (doc : DocumentRecord)
      → Processed env uuid now w (some doc) (process_found env uuid now w doc)
  unfolding process_found
  process_found-Processed env uuid now w doc = elim (Bool-cases (is_settled doc.status)) [
    | inl settled ↦ rw (process_found, settled) refl
    | inr open_doc ↦ elim (Result-cases (document_body env doc)) [
      | inl (e, failed) ↦ rw (process_found, open_doc, failed) (refl, [], append_nil w.records, tt)
      | inr (body, read) ↦
          rw (process_found, open_doc, read) (index_document-Indexed env uuid now w doc body read)
    ]
  ]

  process_asked-Processed :
      (env : Env Vec) (uuid : String) (now : ℕ) (w : World Vec) (doc_id : String)
      (found : Option DocumentRecord)
      → w.docs doc_id ≡ found
      → Processed env uuid now w found (process_ingest env uuid now w doc_id)
  unfolding process_ingest
  process_asked-Processed env uuid now w doc_id none e = rw (process_ingest, e) (_, refl)
  process_asked-Processed env uuid now w doc_id (some doc) e =
      rw (process_ingest, e) (process_found-Processed env uuid now w doc)

  pub process_ingest-Processed :
      (env : Env Vec) (uuid : String) (now : ℕ) (w : World Vec) (doc_id : String)
      → Processed env uuid now w (w.docs doc_id) (process_ingest env uuid now w doc_id)
  process_ingest-Processed env uuid now w doc_id =
      process_asked-Processed env uuid now w doc_id _ refl
