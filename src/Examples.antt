-- ===== src/Examples.antt =====
-- Concrete callers, objects, keys and topics, on which the theorems are applied.
pub mod Access
pub mod Keys
pub mod Topics
pub mod Delivery
pub mod Proxy
pub mod Queues
pub mod Ingestion
pub mod Tokens
pub mod Login
pub mod Grants
use synamcps_server.Prelude.{
  ℕ, String, Bool, true, false, Option, none, some, List, [], ◌∷◌, length, ◌==◌, if◌then◌else◌,
}
use synamcps_server.Prelude.Ints.{pos}
use synamcps_server.Prelude.Strings.{Runes, codes, ◌=ˢ◌}
use synamcps_server.Crypto.{Bytes, Crypto}
use synamcps_server.Models.{
  Principal, AccessToken, AccessTokenStorage, AccessTokenObject, AclBinding, ObjectAclBinding,
  DataObject, AccessMode, read, read_write, storage_writer, queue, securebus, group,
  ApiAccessContext, EffectiveObjectAccess, DocumentRecord, processing, RateLimitPolicy,
}

abbrev pub issuer_hash : String → String
issuer_hash issuer = "0123456789ab"

abbrev pub subject_id : String → Runes
subject_id subject_key = codes "0123456789abcdef01234567"

abbrev pub alice : Principal
alice = record {
  user_id = "alice";
  issuer = "";
  groups = "staff" ∷ [];
  subject_key = "user:internal:alice";
  group_subject_keys = [];
  scopes = "platform_admin" ∷ [];
  auth_source = "internal";
}

abbrev pub no_limit : RateLimitPolicy
no_limit = record {
  enabled = false;
  requests_per_minute = pos 0;
  requests_per_hour = pos 0;
  requests_per_day = pos 0;
  burst = pos 0;
}

abbrev pub token : AccessToken
token = record {
  id = "t-1";
  owner_subject_key = "user:internal:alice";
  token_hash = "hash of t-1";
  name = "laptop";
  mode = read_write;
  allowed_permissions = "document.read" ∷ "document.create" ∷ [];
  rate_limit = no_limit;
  expires_at = none;
  revoked_at = none;
  last_used_at = none;
  created_by = "";
  created_at = 1;
}

abbrev pub storage_scopes : List AccessTokenStorage
storage_scopes =
    record {
      token_id = "t-1";
      storage_id = "st-1";
      max_mode = read_write;
      tool_allowlist = [];
      created_at = 0;
    }
    ∷ []

abbrev pub storage_acl : List AclBinding
storage_acl =
    record {
      storage_id = "st-1";
      subject_key = "user:internal:alice";
      role = storage_writer;
      expires_at = none;
    }
    ∷ []

abbrev pub queue_object : DataObject
queue_object = record {
  id = "q-1";
  kind = queue;
  owner_subject_key = "user:internal:alice";
  visibility = group;
  backend = "";
}

abbrev pub queue_access : EffectiveObjectAccess
queue_access = record {
  object_id = "q-1";
  kind = queue;
  subject_key = "user:internal:alice";
  token_id = "t-1";
  mode = read_write;
  methods = "enqueue" ∷ "dequeue" ∷ [];
}

abbrev pub object_scopes : List AccessTokenObject
object_scopes =
    record {
      token_id = "t-1";
      object_id = "q-1";
      max_mode = read_write;
      method_allowlist = "enqueue" ∷ [];
      created_at = 0;
    }
    ∷ []

abbrev pub object_acl : List ObjectAclBinding
object_acl =
    record {
      object_id = "q-1";
      subject_key = "user:internal:alice";
      role = storage_writer;
      expires_at = none;
    }
    ∷ []

abbrev pub context : ApiAccessContext
context = record {
  principal = alice;
  access_token = some token;
  allowed_storage = [];
  allowed_objects = object_scopes;
}

-- Texts are kept, the hash of every envelope is one byte, and a signature is right if it is that
-- byte and the key's first byte.
abbrev pub toy_crypto : Crypto
toy_crypto = record {
  hash_canonical = λ e. some (42 ∷ []);
  b64 = λ bytes. "Kg";
  decode_b64 = λ s. if s =ˢ "good" then some (42 ∷ 1 ∷ []) else some [];
  ed25519_verify = λ key hash sig. length sig == 2;
  is_p256_point = λ key. false;
  ecdsa_verify_asn1 = λ key hash sig. false;
  ecdsa_verify_raw = λ key hash sig. false;
}

abbrev pub document : DocumentRecord
document = record {
  doc_id = "d-1";
  storage_id = "st-1";
  owner_id = "alice";
  visibility = group;
  group_ids = [];
  title = "Notes";
  mime_type = "text/plain";
  source = "api";
  source_url = "";
  source_hash = "";
  s3_key = "";
  summary_chunk_id = "";
  status = processing;
  body = "one two three";
  created_at = 1;
  updated_at = 1;
}
