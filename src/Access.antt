-- ===== src/Access.antt =====
-- internal/access/service.go and store.go: what the roles and the modes of access allow. The
-- evaluation for storages, for data objects, and the names of database roles are in the children.
pub mod Storage
pub mod Objects
pub mod Names
pub mod Visibility
pub mod Tokens
pub mod Users
use synamcps_server.Prelude.{String, List, [], ◌∷◌, Bool, true, false, if◌then◌else◌, ◌||◌}
use synamcps_server.Models.{
  StorageRole, storage_owner, storage_admin, storage_writer, storage_reader, AccessMode, read,
  read_write, no_access, permission_storage_read, permission_document_read, permission_search_read,
  permission_document_create, permission_document_update, permission_document_delete,
  permission_acl_manage, permission_token_manage, permission_storage_delete,
}

unfoldable pub role_permissions : StorageRole → List String
role_permissions storage_owner =
    permission_storage_read ∷ permission_document_read ∷ permission_search_read
    ∷ permission_document_create ∷ permission_document_update ∷ permission_document_delete
    ∷ permission_acl_manage ∷ permission_token_manage ∷ permission_storage_delete ∷ []
role_permissions storage_admin =
    permission_storage_read ∷ permission_document_read ∷ permission_search_read
    ∷ permission_document_create ∷ permission_document_update ∷ permission_document_delete
    ∷ permission_acl_manage ∷ permission_token_manage ∷ permission_storage_delete ∷ []
role_permissions storage_writer =
    permission_storage_read ∷ permission_document_read ∷ permission_search_read
    ∷ permission_document_create ∷ permission_document_update ∷ permission_document_delete ∷ []
role_permissions storage_reader =
    permission_storage_read ∷ permission_document_read ∷ permission_search_read ∷ []
role_permissions _ = []

unfoldable pub mode_permissions : AccessMode → List String
unfolding role_permissions
mode_permissions read_write = role_permissions storage_writer
mode_permissions read = role_permissions storage_reader
mode_permissions _ = []

abbrev pub is_none_mode : AccessMode → Bool
is_none_mode no_access = true
is_none_mode _ = false

abbrev pub is_read_mode : AccessMode → Bool
is_read_mode read = true
is_read_mode _ = false

unfoldable pub intersect_mode : AccessMode → AccessMode → AccessMode
intersect_mode a b =
    if is_none_mode a || is_none_mode b
    then no_access
    else if is_read_mode a || is_read_mode b
    then read
    else read_write
