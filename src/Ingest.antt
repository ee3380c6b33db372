-- ===== src/Ingest.antt =====
-- internal/knowledge/ingest: a saved document is cut into chunks, embedded and indexed by a worker
-- that takes jobs from a store. The pipeline is pipeline.go, the job store jobstore.go with no
-- database, the worker worker.go.
pub mod Chunks
pub mod Jobs
pub mod Pipeline
pub mod Worker
