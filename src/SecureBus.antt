-- ===== src/SecureBus.antt =====
-- internal/securebus: a topic whose messages and attestations are signed by agents under a signed,
-- versioned policy. The children are the policy document, the conditions on messages, the service's
-- state and operations (with no database), delivery, and verification.
pub mod Document
pub mod Condition
pub mod Service
