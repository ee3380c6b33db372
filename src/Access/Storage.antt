-- ===== src/Access/Storage.antt =====
-- `evaluateStorageAccess` of internal/access/service.go: the access of a caller to one storage,
-- from the caller's ACL bindings and, for a token, its scopes.
pub mod Laws
use synamcps_server.Prelude.{
  String, Bool, true, false, Option, none, some, List, [], ◌∷◌, if◌then◌else◌, ◌&&◌, is_empty, keep,
}
use synamcps_server.Prelude.Strings.{◌=ˢ◌, contains, add, add_all}
use synamcps_server.Models.{
  Principal, AccessToken, AccessTokenStorage, AclBinding, EffectiveAccess, AccessMode, no_access,
  read_write, subject_key_for_principal,
}
use synamcps_server.Access.{role_permissions, mode_permissions, intersect_mode}

-- the loop that fills `userPerms`
acl_permissions : String → List AclBinding → List String → List String
acl_permissions storage_id [] user_perms = user_perms
acl_permissions storage_id (b ∷ acl) user_perms = acl_permissions storage_id acl (
    if b.storage_id =ˢ storage_id then add_all (role_permissions b.role) user_perms else user_perms)

-- the loop over the token's scopes: the first that names the storage decides
pub scope_mode : AccessToken → String → List AccessTokenStorage → AccessMode
scope_mode token storage_id [] = no_access
scope_mode token storage_id (scope ∷ token_scopes) =
    if scope.storage_id =ˢ storage_id
    then intersect_mode token.mode scope.max_mode
    else scope_mode token storage_id token_scopes

token_mode : Option AccessToken → List AccessTokenStorage → String → AccessMode
unfolding scope_mode
token_mode none token_scopes storage_id = read_write
token_mode (some token) token_scopes storage_id = scope_mode token storage_id token_scopes

-- a platform administrator with no binding on the storage has the permission asked for
with_platform_admin : Principal → Option AccessToken → String → List String → List String
with_platform_admin p none permission user_perms =
    if is_empty user_perms && contains p.scopes "platform_admin"
    then add permission user_perms
    else user_perms
with_platform_admin p (some token) permission user_perms = user_perms

cap_by_token : Option AccessToken → AccessMode → List String → List String
cap_by_token none mode user_perms = user_perms
cap_by_token (some token) mode user_perms =
    let effective = keep (contains (mode_permissions mode)) user_perms in
    if is_empty token.allowed_permissions
    then effective
    else keep (contains token.allowed_permissions) effective

abbrev pub token_id_of : Option AccessToken → String
token_id_of none = ""
token_id_of (some token) = token.id

module _ (issuer_hash : String → String) where
  unfoldable pub evaluate_storage_access :
      Principal
      → Option AccessToken
      → List AccessTokenStorage
      → List AclBinding
      → String
      → String
      → EffectiveAccess × Bool
  unfolding acl_permissions token_mode with_platform_admin cap_by_token
  evaluate_storage_access p token token_scopes acl storage_id permission =
      let user_perms = with_platform_admin p token permission (acl_permissions storage_id acl []) in
      let mode = token_mode token token_scopes storage_id in
      let effective = cap_by_token token mode user_perms in
      (
        record {
          token_id = token_id_of token;
          storage_id = storage_id;
          subject_key = subject_key_for_principal issuer_hash p;
          permissions = effective;
          mode = mode;
        },
        contains effective permission,
      )
