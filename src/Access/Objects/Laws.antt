-- ===== src/Access/Objects/Laws.antt =====
-- `evaluateObjectAccess` against a description by the bindings, the scopes and the method sets.
use synamcps_server.Prelude.{
  String, Bool, true, false, Option, none, some, List, [], ◌∷◌, ◌≡◌, refl, ◌∙◌, arith, ◌&&◌, ◌||◌,
  not, is_empty, any, Bool-cases, inl, inr,
}
use synamcps_server.Prelude.Strings.{
  ◌=ˢ◌, contains, add_all, contains-keep, contains-add_all, contains-nil, is_empty-add_all,
}
use synamcps_server.Models.{
  Principal, AccessToken, AccessTokenObject, ObjectAclBinding, DataObject, ObjectKind, AccessMode,
  read, no_access,
}
use synamcps_server.DataObj.{methods, is_mutating}
use synamcps_server.Access.{intersect_mode, is_none_mode, is_read_mode}
use synamcps_server.Access.Objects.{
  methods_for_role, methods_for_mode, acl_methods, find_scope, allowlisted, scoped_mode,
  token_methods, evaluate_token_mode, evaluate_object_access,
}

-- Some binding of the caller on the object has a role with the method.
abbrev pub object_grants : List ObjectAclBinding → DataObject → String → Bool
object_grants acl obj method =
    any (λ b. b.object_id =ˢ obj.id && contains (methods_for_role obj.kind b.role) method) acl

-- Some binding of the caller on the object has a role with any method at all.
abbrev pub object_has_grant : List ObjectAclBinding → DataObject → Bool
object_has_grant acl obj =
    any (λ b. b.object_id =ˢ obj.id && not (is_empty (methods_for_role obj.kind b.role))) acl

abbrev pub object_bound : List ObjectAclBinding → DataObject → Bool
object_bound acl obj = any (λ b. b.object_id =ˢ obj.id) acl

abbrev pub scope_spec :
    AccessToken → Option AccessTokenObject → List ObjectAclBinding → DataObject → String → Bool
scope_spec token none acl obj method = false
scope_spec token (some scope) acl obj method =
    allowlisted scope obj.kind method
    && (contains (methods_for_mode obj.kind (intersect_mode token.mode scope.max_mode)) method
        && (object_grants acl obj method || not (object_has_grant acl obj)))

abbrev pub object_access_spec :
    Principal
    → Option AccessToken
    → List AccessTokenObject
    → List ObjectAclBinding
    → DataObject
    → String
    → Bool
object_access_spec p none scopes acl obj method =
    object_grants acl obj method
    || (not (object_bound acl obj)
        && (contains p.scopes "platform_admin" && contains (methods obj.kind) method))
object_access_spec p (some token) scopes acl obj method =
    scope_spec token (find_scope obj.id scopes) acl obj method

contains-acl_methods :
    (obj : DataObject) (acl : List ObjectAclBinding) (found : List String) (bound : Bool)
    (w : String)
    → contains (acl_methods obj acl (found, bound)).0 w
      ≡ (object_grants acl obj w || contains found w)
unfolding acl_methods
contains-acl_methods obj [] found bound w = refl
contains-acl_methods obj (b ∷ acl) found bound w = elim (Bool-cases (b.object_id =ˢ obj.id)) [
  | inl here ↦ rw here (
      ground (
        arith,
        contains-acl_methods obj acl (add_all (methods_for_role obj.kind b.role) found) true w,
        contains-add_all (methods_for_role obj.kind b.role) found w,
      ))
  | inr away ↦ ground (arith, contains-acl_methods obj acl found bound w)
]

is_empty-acl_methods :
    (obj : DataObject) (acl : List ObjectAclBinding) (found : List String) (bound : Bool)
    → is_empty (acl_methods obj acl (found, bound)).0
      ≡ (not (object_has_grant acl obj) && is_empty found)
unfolding acl_methods
is_empty-acl_methods obj [] found bound = refl
is_empty-acl_methods obj (b ∷ acl) found bound = elim (Bool-cases (b.object_id =ˢ obj.id)) [
  | inl here ↦ rw here (
      ground (
        arith,
        is_empty-acl_methods obj acl (add_all (methods_for_role obj.kind b.role) found) true,
        is_empty-add_all (methods_for_role obj.kind b.role) found,
      ))
  | inr away ↦ ground (arith, is_empty-acl_methods obj acl found bound)
]

bound-acl_methods :
    (obj : DataObject) (acl : List ObjectAclBinding) (found : List String) (bound : Bool)
    → (acl_methods obj acl (found, bound)).1 ≡ (object_bound acl obj || bound)
unfolding acl_methods
bound-acl_methods obj [] found bound = refl
bound-acl_methods obj (b ∷ acl) found bound = elim (Bool-cases (b.object_id =ˢ obj.id)) [
  | inl here ↦ rw here (
      ground
        (arith, bound-acl_methods obj acl (add_all (methods_for_role obj.kind b.role) found) true))
  | inr away ↦ ground (arith, bound-acl_methods obj acl found bound)
]

contains-token_methods :
    (kind : ObjectKind) (mode : AccessMode) (user_methods : List String) (w : String)
    → contains (token_methods kind mode user_methods) w ≡ (
        contains (methods_for_mode kind mode) w
        && (contains user_methods w || is_empty user_methods))
unfolding token_methods
contains-token_methods kind mode [] w =
    contains-add_all (methods_for_mode kind mode) [] w ∙ ground (arith, contains-nil w)
contains-token_methods kind mode (m ∷ ms) w =
    contains-keep (contains (methods_for_mode kind mode)) (m ∷ ms) w ∙ ground arith

-- A mutating method is in no method set of the mode `read`.
read_excludes :
    (kind : ObjectKind) (mode : AccessMode) (w : String)
    → (is_mutating w && is_read_mode mode) ≡ true
    → contains (methods_for_mode kind mode) w ≡ false
unfolding methods_for_mode
read_excludes kind read w h =
    contains-keep (λ m. not (is_mutating m)) (methods kind) w ∙ ground arith
read_excludes kind _ w h = ground arith

none_excludes :
    (kind : ObjectKind) (mode : AccessMode) (w : String)
    → is_none_mode mode ≡ true
    → contains (methods_for_mode kind mode) w ≡ false
unfolding methods_for_mode
none_excludes kind no_access w h = contains-nil w
none_excludes kind _ w h = ground arith

module _ (issuer_hash : String → String) where
  evaluate_token_mode_lem :
      (p : Principal) (token : AccessToken) (obj : DataObject) (method : String)
      (user_methods : List String) (mode : AccessMode)
      → (evaluate_token_mode issuer_hash p token obj method user_methods (some mode)).1 ≡ (
          contains (methods_for_mode obj.kind mode) method
          && (contains user_methods method || is_empty user_methods))
  unfolding evaluate_token_mode
  evaluate_token_mode_lem p token obj method user_methods mode = ground (
    arith,
    none_excludes obj.kind mode method,
    read_excludes obj.kind mode method,
    contains-token_methods obj.kind mode user_methods method,
  )

  -- The decision for a token, by the first scope that names the object.
  evaluate_scope_lem :
      (p : Principal) (token : AccessToken) (scope : Option AccessTokenObject)
      (acl : List ObjectAclBinding) (obj : DataObject) (method : String)
      → (evaluate_token_mode issuer_hash p token obj method
          (acl_methods obj acl ([], false)).0
          (scoped_mode token scope obj.kind method)).1
        ≡ scope_spec token scope acl obj method
  unfolding scoped_mode
  evaluate_scope_lem p token none acl obj method = unfold evaluate_token_mode in refl
  evaluate_scope_lem p token (some scope) acl obj method =
      elim (Bool-cases (allowlisted scope obj.kind method)) [
        | inl listed ↦ rw listed (
            evaluate_token_mode_lem p token obj method _ (intersect_mode token.mode scope.max_mode)
            ∙ ground (
              arith,
              contains-acl_methods obj acl [] false method,
              contains-nil method,
              is_empty-acl_methods obj acl [] false,
            ))
        | inr hidden ↦ rw hidden (unfold evaluate_token_mode in refl)
      ]

  -- For every caller, object and method, the decision is exactly the description: without a token a
  -- binding's role has the method, or the caller has no binding on the object, is a platform
  -- administrator, and the kind has the method; with a token the first scope on the object lists
  -- the method (or has no list), the mode of token and scope has it, and a binding's role has it or
  -- no binding on the object has any method.
  pub evaluate_object_access_lem :
      (p : Principal) (token : Option AccessToken) (scopes : List AccessTokenObject)
      (acl : List ObjectAclBinding) (obj : DataObject) (method : String)
      → (evaluate_object_access issuer_hash p token scopes acl obj method).1
        ≡ object_access_spec p token scopes acl obj method
  unfolding evaluate_object_access
  evaluate_object_access_lem p none scopes acl obj method = ground (
    arith,
    contains-acl_methods obj acl [] false method,
    contains-nil method,
    bound-acl_methods obj acl [] false,
    contains-add_all (methods obj.kind) (acl_methods obj acl ([], false)).0 method,
  )
  evaluate_object_access_lem p (some token) scopes acl obj method =
      evaluate_scope_lem p token (find_scope obj.id scopes) acl obj method
