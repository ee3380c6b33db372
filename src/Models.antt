-- ===== src/Models.antt =====
-- internal/models/models.go: the value types that the components exchange, and the subject keys.
-- A Go string type that the code switches on is a data type with a constructor for any other text;
-- one that the code only puts into sets (permissions, methods, ids) is a text. Timestamps are
-- numbers, 0 for the zero time, and fields that no modelled function reads are left out.
use synamcps_server.Prelude.{Bool, ℕ, String, Option, List, [], ◌∷◌, ◌||◌, if◌then◌else◌, is_empty}
use synamcps_server.Prelude.Ints.{ℤ}
use synamcps_server.Prelude.Strings.{◌=ˢ◌}
use Prim.Native.String.{◌++◌}

pub data Visibility : Type 0 where
  public group personal : Visibility
  other : String → Visibility

pub data StorageRole : Type 0 where
  platform_admin storage_owner storage_admin storage_writer storage_reader group_admin : StorageRole
  other : String → StorageRole

pub data AccessMode : Type 0 where
  read read_write no_access : AccessMode
  other : String → AccessMode

pub data ObjectKind : Type 0 where
  storage variable counter table queue bus securebus schedule log git : ObjectKind
  other : String → ObjectKind

-- `string(kind)`
abbrev pub kind_text : ObjectKind → String
kind_text storage = "storage"
kind_text variable = "variable"
kind_text counter = "counter"
kind_text table = "table"
kind_text queue = "queue"
kind_text bus = "bus"
kind_text securebus = "securebus"
kind_text schedule = "schedule"
kind_text log = "log"
kind_text git = "git"
kind_text (ObjectKind.other s) = s

abbrev pub permission_storage_read : String
permission_storage_read = "storage.read"

abbrev pub permission_document_read : String
permission_document_read = "document.read"

abbrev pub permission_search_read : String
permission_search_read = "search.read"

abbrev pub permission_document_create : String
permission_document_create = "document.create"

abbrev pub permission_document_update : String
permission_document_update = "document.update"

abbrev pub permission_document_delete : String
permission_document_delete = "document.delete"

abbrev pub permission_acl_manage : String
permission_acl_manage = "acl.manage"

abbrev pub permission_token_manage : String
permission_token_manage = "token.policy.manage"

abbrev pub permission_storage_delete : String
permission_storage_delete = "storage.delete"

pub record Principal : Type 0 where
  pub user_id : String
  pub issuer : String
  pub groups : List String
  pub subject_key : String
  pub group_subject_keys : List String
  pub scopes : List String
  pub auth_source : String

pub record RateLimitPolicy : Type 0 where
  pub enabled : Bool
  pub requests_per_minute : ℤ
  pub requests_per_hour : ℤ
  pub requests_per_day : ℤ
  pub burst : ℤ

pub record AccessToken : Type 0 where
  pub id : String
  pub owner_subject_key : String
  pub token_hash : String
  pub name : String
  pub mode : AccessMode
  pub allowed_permissions : List String
  pub rate_limit : RateLimitPolicy
  pub expires_at : Option ℕ
  pub revoked_at : Option ℕ
  pub last_used_at : Option ℕ
  pub created_by : String
  pub created_at : ℕ

pub record AccessTokenStorage : Type 0 where
  pub token_id : String
  pub storage_id : String
  pub max_mode : AccessMode
  pub tool_allowlist : List String
  pub created_at : ℕ

pub record AccessTokenObject : Type 0 where
  pub token_id : String
  pub object_id : String
  pub max_mode : AccessMode
  pub method_allowlist : List String
  pub created_at : ℕ

pub record AclBinding : Type 0 where
  pub storage_id : String
  pub subject_key : String
  pub role : StorageRole
  pub expires_at : Option ℕ

pub record ObjectAclBinding : Type 0 where
  pub object_id : String
  pub subject_key : String
  pub role : StorageRole
  pub expires_at : Option ℕ

pub record DataObject : Type 0 where
  pub id : String
  pub kind : ObjectKind
  pub owner_subject_key : String
  pub visibility : Visibility
  pub backend : String

pub record EffectiveAccess : Type 0 where
  pub token_id : String
  pub storage_id : String
  pub subject_key : String
  pub permissions : List String
  pub mode : AccessMode

pub record EffectiveObjectAccess : Type 0 where
  pub object_id : String
  pub kind : ObjectKind
  pub subject_key : String
  pub token_id : String
  pub mode : AccessMode
  pub methods : List String

pub record ApiAccessContext : Type 0 where
  pub principal : Principal
  pub access_token : Option AccessToken
  pub allowed_storage : List AccessTokenStorage
  pub allowed_objects : List AccessTokenObject

pub data DocumentStatus : Type 0 where
  processing ready failed deleting : DocumentStatus
  other : String → DocumentStatus

pub record DocumentRecord : Type 0 where
  pub doc_id : String
  pub storage_id : String
  pub owner_id : String
  pub visibility : Visibility
  pub group_ids : List String
  pub title : String
  pub mime_type : String
  pub source : String
  pub source_url : String
  pub source_hash : String
  pub s3_key : String
  pub summary_chunk_id : String
  pub status : DocumentStatus
  pub body : String
  pub created_at : ℕ
  pub updated_at : ℕ

-- The parts of a document's text are numbered: the id that `Sprintf("%s-%d", docID, i)` makes of a
-- document and a number is the pair of the two.
pub data ChunkId : Type 0 where
  summary_id : String → ChunkId
  part_id : String → ℕ → ChunkId

pub record VectorPayload : Type 0 where
  pub doc_id : String
  pub storage_id : String
  pub chunk_id : ChunkId
  pub visibility : Visibility
  pub owner_id : String
  pub group_ids : List String
  pub is_summary : Bool
  pub source : String
  pub source_url : String
  pub s3_key : String

pub record User : Type 0 where
  pub id : String
  pub subject_key : String
  pub source : String
  pub external_subject : String
  pub email : String
  pub status : String
  pub password_hash : String

pub data SubjectKind : Type 0 where
  user group all_authenticated : SubjectKind
  other : String → SubjectKind

pub record SubjectRef : Type 0 where
  pub kind : SubjectKind
  pub source : String
  pub issuer : String
  pub external_id : String

-- `issuer_hash` is the first 12 digits of the issuer's SHA-1: what it returns is left open.
module _ (issuer_hash : String → String) where
  key_with : String → SubjectRef → String
  key_with prefix s =
      if s.source =ˢ "internal" || s.issuer =ˢ ""
      then prefix ++ (s.source ++ (":" ++ s.external_id))
      else prefix ++ (issuer_hash s.issuer ++ (":" ++ s.external_id))

  key_for : SubjectKind → SubjectRef → String
  unfolding key_with
  key_for SubjectKind.all_authenticated s = "all:authenticated"
  key_for SubjectKind.group s = key_with "group:" s
  key_for SubjectKind.user s = key_with "user:" s
  key_for (SubjectKind.other _) s = key_with "user:" s

  -- `SubjectRef.Key`
  unfoldable pub subject_ref_key : SubjectRef → String
  unfolding key_for
  subject_ref_key s = key_for s.kind s

  abbrev source_of : String → String
  source_of auth_source = if auth_source =ˢ "" then "internal" else auth_source

  unfoldable pub subject_key_for_principal : Principal → String
  unfolding subject_ref_key
  subject_key_for_principal p =
      if p.subject_key =ˢ ""
      then subject_ref_key (record {
        kind = SubjectKind.user;
        source = source_of p.auth_source;
        issuer = p.issuer;
        external_id = p.user_id;
      })
      else p.subject_key

  group_keys : String → String → List String → List String
  group_keys source issuer [] = []
  group_keys source issuer (g ∷ gs) =
      let rest = group_keys source issuer gs in
      let key =
        subject_ref_key (record {
          kind = SubjectKind.group;
          source = source;
          issuer = issuer;
          external_id = g;
        }) in
      if g =ˢ "" then rest else key ∷ rest

  unfoldable pub group_subject_keys_for_principal : Principal → List String
  unfolding group_keys subject_ref_key
  group_subject_keys_for_principal p =
      if is_empty p.group_subject_keys
      then group_keys (source_of p.auth_source) p.issuer p.groups
      else p.group_subject_keys
