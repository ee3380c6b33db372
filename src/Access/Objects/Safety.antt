-- ===== src/Access/Objects/Safety.antt =====
-- What the object evaluation never allows.
use synamcps_server.Prelude.{
  String, Bool, true, false, Option, none, some, List, [], ◌∷◌, ◌≡◌, refl, sym, ◌∙◌, arith, ◌&&◌,
  ◌||◌, not, any, Bool-cases, inl, inr, &&_true,
}
use synamcps_server.Prelude.Strings.{◌=ˢ◌, contains, contains-keep, contains-nil}
use synamcps_server.Models.{
  Principal, AccessToken, AccessTokenObject, ObjectAclBinding, DataObject, ObjectKind, AccessMode,
  read, read_write, StorageRole, storage_owner, storage_admin, storage_writer, storage_reader,
}
use synamcps_server.DataObj.{methods, has_method, is_mutating}
use synamcps_server.Access.{intersect_mode}
use synamcps_server.Access.Storage.Laws.{is_write_mode}
use synamcps_server.Access.Objects.{
  methods_for_role, methods_for_mode, find_scope, allowlisted, evaluate_object_access,
}
use synamcps_server.Access.Objects.Laws.{object_grants, scope_spec, evaluate_object_access_lem}

role_methods_known :
    (kind : ObjectKind) (role : StorageRole) (w : String)
    → contains (methods_for_role kind role) w ≡ true
    → contains (methods kind) w ≡ true
unfolding methods_for_role
role_methods_known kind storage_owner w h = h
role_methods_known kind storage_admin w h = h
role_methods_known kind storage_writer w h = h
role_methods_known kind storage_reader w h =
    ground (arith, contains-keep (λ m. not (is_mutating m)) (methods kind) w)
role_methods_known kind _ w h = ground (arith, contains-nil w)

mode_methods_known :
    (kind : ObjectKind) (mode : AccessMode) (w : String)
    → contains (methods_for_mode kind mode) w ≡ true
    → contains (methods kind) w ≡ true
unfolding methods_for_mode
mode_methods_known kind read_write w h = h
mode_methods_known kind read w h =
    ground (arith, contains-keep (λ m. not (is_mutating m)) (methods kind) w)
mode_methods_known kind _ w h = ground (arith, contains-nil w)

grants_known :
    (acl : List ObjectAclBinding) (obj : DataObject) (w : String)
    → object_grants acl obj w ≡ true
    → contains (methods obj.kind) w ≡ true
grants_known [] obj w h = ground arith
grants_known (b ∷ acl) obj w h =
    ground (arith, grants_known acl obj w, role_methods_known obj.kind b.role w)

mode_writes :
    (kind : ObjectKind) (a b : AccessMode) (w : String)
    → is_mutating w ≡ true
    → contains (methods_for_mode kind (intersect_mode a b)) w ≡ true
    → (is_write_mode a ≡ true) × (is_write_mode b ≡ true)
unfolding methods_for_mode intersect_mode
mode_writes kind a b w m h =
    ground (arith, contains-keep (λ m. not (is_mutating m)) (methods kind) w, contains-nil w)

-- Some scope on the object lists the method (or has no list), and its mode writes if the method
-- mutates.
abbrev pub lets_through : DataObject → String → AccessTokenObject → Bool
lets_through obj method scope =
    scope.object_id =ˢ obj.id
    && (allowlisted scope obj.kind method
        && (not (is_mutating method) || is_write_mode scope.max_mode))

write_or_not : (m w : Bool) → (m ≡ true → w ≡ true) → (not m || w) ≡ true
write_or_not true w f = f refl
write_or_not false w f = refl

scope_spec_through :
    (token : AccessToken) (s : AccessTokenObject) (acl : List ObjectAclBinding) (obj : DataObject)
    (method : String)
    → scope_spec token (some s) acl obj method ≡ true
    → (allowlisted s obj.kind method ≡ true)
      × ((not (is_mutating method) || is_write_mode s.max_mode) ≡ true)
      × ((not (is_mutating method) || is_write_mode token.mode) ≡ true)
      × (contains (methods obj.kind) method ≡ true)
scope_spec_through token s acl obj method h =
    let (listed, rest) = &&_true (allowlisted s obj.kind method) _ h in
    let by_mode : contains (methods_for_mode obj.kind (intersect_mode token.mode s.max_mode)) method
        ≡ true =
      (&&_true _ _ rest).0 in
    (
      listed,
      write_or_not (is_mutating method) _
          (λ m. (mode_writes obj.kind token.mode s.max_mode method m by_mode).1),
      write_or_not (is_mutating method) _
          (λ m. (mode_writes obj.kind token.mode s.max_mode method m by_mode).0),
      mode_methods_known obj.kind (intersect_mode token.mode s.max_mode) method by_mode,
    )

find_scope_through :
    (token : AccessToken) (scopes : List AccessTokenObject) (acl : List ObjectAclBinding)
    (obj : DataObject) (method : String)
    → scope_spec token (find_scope obj.id scopes) acl obj method ≡ true
    → (any (lets_through obj method) scopes ≡ true)
      × ((not (is_mutating method) || is_write_mode token.mode) ≡ true)
      × (contains (methods obj.kind) method ≡ true)
unfolding find_scope
find_scope_through token [] acl obj method h = ground arith
find_scope_through token (s ∷ scopes) acl obj method h = elim (Bool-cases (s.object_id =ˢ obj.id)) [
  | inl here ↦ rw here (
      let (listed, scope_writes, token_writes, known) =
        scope_spec_through token s acl obj method (rw here at h) in
      (rw (listed, scope_writes), token_writes, known))
  | inr away ↦ rw away (find_scope_through token scopes acl obj method (rw away at h))
]

-- A token is allowed a method only if some scope on the object lists it (or has no list), and, where
-- the method mutates, the modes of the token and of that scope write: a token or a scope limited to
-- reading never lets a mutating method through.
pub token_never_mutates_unless :
    (issuer_hash : String → String) (p : Principal) (token : AccessToken)
    (scopes : List AccessTokenObject) (acl : List ObjectAclBinding) (obj : DataObject)
    (method : String)
    → (evaluate_object_access issuer_hash p (some token) scopes acl obj method).1 ≡ true
    → (any (lets_through obj method) scopes ≡ true)
      × ((not (is_mutating method) || is_write_mode token.mode) ≡ true)
token_never_mutates_unless issuer_hash p token scopes acl obj method h =
    let (through, writes, known) =
      find_scope_through token scopes acl obj method
        (sym (evaluate_object_access_lem issuer_hash p (some token) scopes acl obj method) ∙ h) in
    (through, writes)

-- No caller, by bindings, scopes or administration, is allowed a method outside the closed set of
-- the object's kind.
pub access_in_method_set :
    (issuer_hash : String → String) (p : Principal) (token : Option AccessToken)
    (scopes : List AccessTokenObject) (acl : List ObjectAclBinding) (obj : DataObject)
    (method : String)
    → (evaluate_object_access issuer_hash p token scopes acl obj method).1 ≡ true
    → has_method obj.kind method ≡ true
unfolding has_method
access_in_method_set issuer_hash p none scopes acl obj method h = ground (
  arith,
  evaluate_object_access_lem issuer_hash p none scopes acl obj method,
  grants_known acl obj method,
)
access_in_method_set issuer_hash p (some token) scopes acl obj method h =
    (find_scope_through token scopes acl obj method
      (sym (evaluate_object_access_lem issuer_hash p (some token) scopes acl obj method) ∙ h)).2
