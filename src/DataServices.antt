-- ===== src/DataServices.antt =====
-- The services of the other data objects, with no database: internal/queue and internal/bus. As in
-- SecureBus, a map of the Go struct is a function of the object's id, and the commit of a scope with
-- no transaction does nothing.
pub mod Queue
pub mod Bus
use synamcps_server.Prelude.{ℕ, String, Option, none, some, Bool}
use synamcps_server.Json.{Fields, end}

pub data ServiceError : Type 0 where
  kind_mismatch backend_not_configured backend_failed : ServiceError

pub data Result {ℓ} (A : Type ℓ) : Type ℓ where
  ok : A → Result A
  err : ServiceError → Result A

-- `if payload == nil { payload = map[string]any{} }`
abbrev pub payload_of : Option Fields → Fields
payload_of none = end
payload_of (some p) = p
