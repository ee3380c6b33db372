-- ===== src/Access/Objects.antt =====
-- `evaluateObjectAccess` of internal/access/objects.go: the access of a caller to one method of a
-- data object.
pub mod Laws
pub mod Safety
use Prim.Native.String.{◌++◌}
use synamcps_server.Prelude.{
  String, Bool, true, false, Option, none, some, List, [], ◌∷◌, if◌then◌else◌, ◌&&◌, ◌||◌, not,
  is_empty, keep,
}
use synamcps_server.Prelude.Strings.{◌=ˢ◌, contains, add_all}
use synamcps_server.Models.{
  Principal, AccessToken, AccessTokenObject, ObjectAclBinding, DataObject, EffectiveObjectAccess,
  ObjectKind, kind_text, StorageRole, storage_owner, storage_admin, storage_writer, storage_reader,
  AccessMode, read, read_write, no_access, subject_key_for_principal,
}
use synamcps_server.DataObj.{methods, has_method, is_mutating}
use synamcps_server.Access.{is_none_mode, is_read_mode, intersect_mode}
use synamcps_server.Access.Storage.{token_id_of}

unfoldable pub methods_for_role : ObjectKind → StorageRole → List String
methods_for_role kind storage_owner = methods kind
methods_for_role kind storage_admin = methods kind
methods_for_role kind storage_writer = methods kind
methods_for_role kind storage_reader = keep (λ m. not (is_mutating m)) (methods kind)
methods_for_role kind _ = []

unfoldable pub methods_for_mode : ObjectKind → AccessMode → List String
methods_for_mode kind read_write = methods kind
methods_for_mode kind read = keep (λ m. not (is_mutating m)) (methods kind)
methods_for_mode kind _ = []

-- the loop that fills `userMethods`, and `hasACL`
acl_methods : DataObject → List ObjectAclBinding → List String × Bool → List String × Bool
acl_methods obj [] found = found
acl_methods obj (b ∷ acl) (user_methods, has_acl) = acl_methods obj acl (
    if b.object_id =ˢ obj.id
    then (add_all (methods_for_role obj.kind b.role) user_methods, true)
    else (user_methods, has_acl))

-- the first scope that names the object
pub find_scope : String → List AccessTokenObject → Option AccessTokenObject
find_scope object_id [] = none
find_scope object_id (scope ∷ scopes) =
    if scope.object_id =ˢ object_id then some scope else find_scope object_id scopes

-- the scope's allowlist, by the bare method name or with the kind in front
abbrev pub allowlisted : AccessTokenObject → ObjectKind → String → Bool
allowlisted scope kind method =
    is_empty scope.method_allowlist
    || contains scope.method_allowlist method
    || contains scope.method_allowlist (kind_text kind ++ ("_" ++ method))

-- the mode of a token caller; `none` where the loop returns early
scoped_mode : AccessToken → Option AccessTokenObject → ObjectKind → String → Option AccessMode
scoped_mode token none kind method = some no_access
scoped_mode token (some scope) kind method =
    if allowlisted scope kind method then some (intersect_mode token.mode scope.max_mode) else none

abbrev pub no_object_access : EffectiveObjectAccess × Bool
no_object_access = (
  record {
    object_id = "";
    kind = ObjectKind.other "";
    subject_key = "";
    token_id = "";
    mode = AccessMode.other "";
    methods = [];
  },
  false,
)

-- a token with no method from the ACL has what its mode allows
token_methods : ObjectKind → AccessMode → List String → List String
token_methods kind mode user_methods =
    let allowed_by_mode = methods_for_mode kind mode in
    let filtered = keep (contains allowed_by_mode) user_methods in
    if is_empty user_methods then add_all allowed_by_mode filtered else filtered

module _ (issuer_hash : String → String) where
  grant :
      Principal
      → Option AccessToken
      → DataObject
      → String
      → AccessMode
      → List String
      → EffectiveObjectAccess × Bool
  grant p token obj method mode user_methods =
      if is_mutating method && is_read_mode mode then no_object_access else (
        record {
          object_id = obj.id;
          kind = obj.kind;
          subject_key = subject_key_for_principal issuer_hash p;
          token_id = token_id_of token;
          mode = mode;
          methods = user_methods;
        },
        contains user_methods method,
      )

  evaluate_token_mode :
      Principal
      → AccessToken
      → DataObject
      → String
      → List String
      → Option AccessMode
      → EffectiveObjectAccess × Bool
  unfolding token_methods grant
  evaluate_token_mode p token obj method user_methods none = no_object_access
  evaluate_token_mode p token obj method user_methods (some mode) =
      if is_none_mode mode
      then no_object_access
      else grant p (some token) obj method mode (token_methods obj.kind mode user_methods)

  evaluate_with :
      Principal
      → Option AccessToken
      → List AccessTokenObject
      → DataObject
      → String
      → List String × Bool
      → EffectiveObjectAccess × Bool
  unfolding find_scope scoped_mode evaluate_token_mode grant
  evaluate_with p none scopes obj method (user_methods, has_acl) =
      grant p none obj method read_write (
        if not has_acl && contains p.scopes "platform_admin"
        then add_all (methods obj.kind) user_methods
        else user_methods)
  evaluate_with p (some token) scopes obj method (user_methods, has_acl) =
      evaluate_token_mode p token obj method user_methods
        (scoped_mode token (find_scope obj.id scopes) obj.kind method)

  unfoldable pub evaluate_object_access :
      Principal
      → Option AccessToken
      → List AccessTokenObject
      → List ObjectAclBinding
      → DataObject
      → String
      → EffectiveObjectAccess × Bool
  unfolding acl_methods evaluate_with
  evaluate_object_access p token scopes acl obj method =
      evaluate_with p token scopes obj method (acl_methods obj acl ([], false))

  -- `CanAccessObject`, with what the store returned for the object and for the caller's bindings
  unfoldable pub can_access_object :
      Principal
      → Option AccessToken
      → List AccessTokenObject
      → Option DataObject
      → List ObjectAclBinding
      → String
      → EffectiveObjectAccess × Bool
  unfolding evaluate_object_access
  can_access_object p token scopes none acl method = no_object_access
  can_access_object p token scopes (some obj) acl method =
      if has_method obj.kind method
      then evaluate_object_access p token scopes acl obj method
      else no_object_access
