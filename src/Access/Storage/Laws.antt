-- ===== src/Access/Storage/Laws.antt =====
-- `evaluateStorageAccess` against a description by the bindings, the scopes and the token alone.
use synamcps_server.Prelude.{
  &&_true, ◌⊎◌, sym, String, Bool, true, false, Option, none, some, List, [], ◌∷◌, ◌≡◌, refl, sym,
  ◌∙◌, arith, ◌&&◌, ◌||◌, not, is_empty, keep, any, eq_iff, Bool-cases, inl, inr, ◌⊎◌, &&_true,
}
use synamcps_server.Prelude.Strings.{
  ◌=ˢ◌, contains, add_all, contains-keep, contains-add, contains-add_all, contains-nil,
  is_empty-add_all,
}
use synamcps_server.Models.{
  no_access, read, permission_acl_manage, permission_token_manage, permission_storage_delete,
  Principal, AccessToken, AccessTokenStorage, AclBinding, AccessMode, no_access, read,
  permission_acl_manage, permission_token_manage, permission_storage_delete,
}
use synamcps_server.Access.{
  is_read_mode, is_none_mode, role_permissions, mode_permissions, intersect_mode,
}
use synamcps_server.Access.Storage.{
  acl_permissions, scope_mode, cap_by_token, evaluate_storage_access,
}

-- Some binding of the caller on the storage has a role with the permission.
abbrev pub grants : List AclBinding → String → String → Bool
grants acl storage_id permission =
    any (λ b. b.storage_id =ˢ storage_id && contains (role_permissions b.role) permission) acl

-- Some binding of the caller on the storage has a role with any permission at all.
abbrev pub has_grant : List AclBinding → String → Bool
has_grant acl storage_id =
    any (λ b. b.storage_id =ˢ storage_id && not (is_empty (role_permissions b.role))) acl

-- The token's own list of permissions, if it has one, holds the permission.
abbrev pub token_permits : AccessToken → String → Bool
token_permits token permission =
    is_empty token.allowed_permissions || contains token.allowed_permissions permission

-- What the caller is allowed, by the kind of caller.
abbrev pub storage_access_spec :
    Principal
    → Option AccessToken
    → List AccessTokenStorage
    → List AclBinding
    → String
    → String
    → Bool
storage_access_spec p none token_scopes acl storage_id permission =
    grants acl storage_id permission
    || (not (has_grant acl storage_id) && contains p.scopes "platform_admin")
storage_access_spec p (some token) token_scopes acl storage_id permission =
    grants acl storage_id permission
    && (contains (mode_permissions (scope_mode token storage_id token_scopes)) permission
        && token_permits token permission)

contains-acl_permissions :
    (storage_id : String) (acl : List AclBinding) (user_perms : List String) (w : String)
    → contains (acl_permissions storage_id acl user_perms) w
      ≡ (grants acl storage_id w || contains user_perms w)
unfolding acl_permissions
contains-acl_permissions storage_id [] user_perms w = refl
contains-acl_permissions storage_id (b ∷ acl) user_perms w =
    elim (Bool-cases (b.storage_id =ˢ storage_id)) [
      | inl here ↦ rw here (
          ground (
            arith,
            contains-acl_permissions storage_id acl (add_all (role_permissions b.role) user_perms)
                w,
            contains-add_all (role_permissions b.role) user_perms w,
          ))
      | inr away ↦ rw away (contains-acl_permissions storage_id acl user_perms w)
    ]

is_empty-acl_permissions :
    (storage_id : String) (acl : List AclBinding) (user_perms : List String)
    → is_empty (acl_permissions storage_id acl user_perms)
      ≡ (not (has_grant acl storage_id) && is_empty user_perms)
unfolding acl_permissions
is_empty-acl_permissions storage_id [] user_perms = refl
is_empty-acl_permissions storage_id (b ∷ acl) user_perms =
    elim (Bool-cases (b.storage_id =ˢ storage_id)) [
      | inl here ↦ rw here (
          ground (
            arith,
            is_empty-acl_permissions storage_id acl (add_all (role_permissions b.role) user_perms),
            is_empty-add_all (role_permissions b.role) user_perms,
          ))
      | inr away ↦ rw away (is_empty-acl_permissions storage_id acl user_perms)
    ]

contains-cap_by_token :
    (token : AccessToken) (mode : AccessMode) (user_perms : List String) (w : String)
    → contains (cap_by_token (some token) mode user_perms) w
      ≡ (contains user_perms w && (contains (mode_permissions mode) w && token_permits token w))
unfolding cap_by_token
contains-cap_by_token token mode user_perms w = ground (
  arith,
  contains-keep (contains (mode_permissions mode)) user_perms w,
  contains-keep (contains token.allowed_permissions)
      (keep (contains (mode_permissions mode)) user_perms) w,
)

mode_lacks_admin :
    (mode : AccessMode)
    → (contains (mode_permissions mode) permission_acl_manage ≡ false)
      × (contains (mode_permissions mode) permission_token_manage ≡ false)
      × (contains (mode_permissions mode) permission_storage_delete ≡ false)
unfolding mode_permissions contains
mode_lacks_admin read = (refl, refl, refl)
mode_lacks_admin _ = (refl, refl, refl)

-- A mode that neither withholds access nor limits it to reading.
abbrev pub is_write_mode : AccessMode → Bool
is_write_mode mode = not (is_none_mode mode) && not (is_read_mode mode)

mode_lacks : (w : String) → contains (mode_permissions no_access) w ≡ false
unfolding mode_permissions
mode_lacks w = contains-nil w

-- What the meet of two modes has beyond reading, both modes write.
intersect_mode_writes :
    (a b : AccessMode) (w : String)
    → contains (mode_permissions (intersect_mode a b)) w ≡ true
    → (contains (mode_permissions read) w ≡ true)
      ⊎ ((is_write_mode a ≡ true) × (is_write_mode b ≡ true))
unfolding intersect_mode
intersect_mode_writes a b w h = ground (arith, mode_lacks w)

-- A scope on the storage whose mode writes.
abbrev pub writable_scope : String → AccessTokenStorage → Bool
writable_scope storage_id s = s.storage_id =ˢ storage_id && is_write_mode s.max_mode

abbrev pub Scoped : AccessToken → String → List AccessTokenStorage → String → Type 0
Scoped token storage_id token_scopes w =
    (any (λ s. s.storage_id =ˢ storage_id) token_scopes ≡ true)
    × ((contains (mode_permissions read) w ≡ true)
        ⊎ ((is_write_mode token.mode ≡ true)
            × (any (writable_scope storage_id) token_scopes ≡ true)))

scope_mode-Scoped :
    (token : AccessToken) (storage_id : String) (token_scopes : List AccessTokenStorage)
    (w : String)
    → contains (mode_permissions (scope_mode token storage_id token_scopes)) w ≡ true
    → Scoped token storage_id token_scopes w
unfolding scope_mode
scope_mode-Scoped token storage_id [] w h = cc (h, mode_lacks w)
scope_mode-Scoped token storage_id (s ∷ token_scopes) w h =
    elim (Bool-cases (s.storage_id =ˢ storage_id)) [
      | inl here ↦ rw here (ground (arith, intersect_mode_writes token.mode s.max_mode w))
      | inr away ↦ ground (arith, scope_mode-Scoped token storage_id token_scopes w)
    ]

module _ (issuer_hash : String → String) where
  -- For every caller, storage and permission, the decision is exactly the description: without a
  -- token a binding's role grants the permission, or there is no binding that grants anything and
  -- the caller is a platform administrator; with a token a binding grants it, the mode of the first
  -- scope on the storage has it, and the token's own list, where it has one, has it.
  pub evaluate_storage_access_lem :
      (p : Principal) (token : Option AccessToken) (token_scopes : List AccessTokenStorage)
      (acl : List AclBinding) (storage_id permission : String)
      → (evaluate_storage_access issuer_hash p token token_scopes acl storage_id permission).1
        ≡ storage_access_spec p token token_scopes acl storage_id permission
  unfolding evaluate_storage_access
  evaluate_storage_access_lem p none token_scopes acl storage_id permission = ground (
    arith,
    contains-acl_permissions storage_id acl [] permission,
    contains-nil permission,
    is_empty-acl_permissions storage_id acl [],
    contains-add permission (acl_permissions storage_id acl []) permission,
    eq_iff permission permission,
  )
  evaluate_storage_access_lem p (some token) token_scopes acl storage_id permission =
      contains-cap_by_token token (scope_mode token storage_id token_scopes) _ permission
      ∙ ground
          (arith, contains-acl_permissions storage_id acl [] permission, contains-nil permission)

  -- Whatever its scopes and its own list say, a token is never allowed to manage bindings, to
  -- manage tokens or to delete a storage, even when its owner is.
  pub token_never_administers :
      (p : Principal) (token : AccessToken) (token_scopes : List AccessTokenStorage)
      (acl : List AclBinding) (storage_id : String)
      → let allowed = λ (permission : String).
        (evaluate_storage_access issuer_hash p
          (some token)
          token_scopes
          acl
          storage_id
          permission).1 in
        (allowed permission_acl_manage ≡ false)
        × (allowed permission_token_manage ≡ false)
        × (allowed permission_storage_delete ≡ false)
  token_never_administers p token token_scopes acl storage_id =
      let decide = evaluate_storage_access_lem p (some token) token_scopes acl storage_id in
      let mode = scope_mode token storage_id token_scopes in
      (
        decide permission_acl_manage ∙ ground (arith, mode_lacks_admin mode),
        decide permission_token_manage ∙ ground (arith, mode_lacks_admin mode),
        decide permission_storage_delete ∙ ground (arith, mode_lacks_admin mode),
      )

  -- A token reaches only a storage that one of its scopes names, only with a permission that a
  -- binding grants and that its own list, where it has one, holds; and if that is no permission of
  -- a reader, the token's mode writes, and so does that of a scope on the storage.
  pub token_narrows :
      (p : Principal) (token : AccessToken) (token_scopes : List AccessTokenStorage)
      (acl : List AclBinding) (storage_id permission : String)
      → (evaluate_storage_access issuer_hash p
          (some token)
          token_scopes
          acl
          storage_id
          permission).1
        ≡ true
      → (grants acl storage_id permission ≡ true)
        × (token_permits token permission ≡ true)
        × Scoped token storage_id token_scopes permission
  token_narrows p token token_scopes acl storage_id permission h =
      let spec =
        sym (evaluate_storage_access_lem p (some token) token_scopes acl storage_id permission)
        ∙ h in
      let (granted, rest) = &&_true _ _ spec in
      let (by_mode, permitted) = &&_true _ _ rest in
      (granted, permitted, scope_mode-Scoped token storage_id token_scopes permission by_mode)
