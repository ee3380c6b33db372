-- ===== src/Policy/Service.antt =====
-- The access service as the opener's `ObjectAccess` (internal/access/objects.go): the store's
-- objects and bindings are the fields of `Store`, and `subject_id` is the digest of a subject key.
use synamcps_server.Prelude.{
  String, Bool, true, false, Option, none, some, List, [], ◌∷◌, ◌≡◌, ◌≢◌, ◌≤◌, refl, arith, length,
  all, Bool-cases, inl, inr, ◌&&◌, ◌||◌, ltb, ◌==◌, &&_true,
}
use synamcps_server.Prelude.Strings.{Runes}
use synamcps_server.Models.{
  Principal, AccessToken, ObjectAclBinding, DataObject, EffectiveObjectAccess, ApiAccessContext,
  subject_key_for_principal,
}
use synamcps_server.DataObj.{has_method}
use synamcps_server.Access.Names.{
  role_rune, safe_role_name, role_name_for_token, role_name_for_subject,
}
use synamcps_server.Access.Names.Laws.{role_name_for_token-safe, role_name_for_subject-safe}
use synamcps_server.Access.Objects.{can_access_object}
use synamcps_server.Policy.{
  ok, err, invalid_role, ObjectAccess, Database, Scope, policy_safe_role_name, enter_with, began,
  begin_tx, check_access, check_object, open_scope,
}

pub record Store : Type 0 where
  pub objects : String → Option DataObject
  pub object_acl_for : Principal → List ObjectAclBinding

module _ (issuer_hash : String → String) (subject_id : String → Runes) where
  -- `DataPlaneRoleName`
  abbrev pub data_plane_role_name : Principal → Option AccessToken → Runes
  data_plane_role_name p none =
      role_name_for_subject subject_id (subject_key_for_principal issuer_hash p)
  data_plane_role_name p (some token) = role_name_for_token token.id

  abbrev pub service_access : Store → ObjectAccess
  service_access store = record {
    get_object = λ id. ok (store.objects id);
    can_access_object = λ p token scopes object_id method. ok (
        can_access_object issuer_hash p token scopes (store.objects object_id)
          (store.object_acl_for p) method);
    data_plane_role = λ p token. ok (data_plane_role_name p token);
  }

all_dash :
    (name : Runes) → all role_rune name ≡ true → all (λ c. role_rune c || c == b'-') name ≡ true
all_dash [] h = refl
all_dash (c ∷ name) h = ground (arith, all_dash name)

and_three : (a b c : Bool) → a ≡ true → b ≡ true → c ≡ true → ((a && b) && c) ≡ true
and_three a b c p q r = ground arith

-- What internal/access calls a safe role name, internal/policy does too.
pub policy_safe_role_name_of :
    (name : Runes) → safe_role_name name ≡ true → policy_safe_role_name name ≡ true
unfolding safe_role_name policy_safe_role_name
policy_safe_role_name_of [] h = h
policy_safe_role_name_of (c ∷ name) h = elim (Bool-cases (ltb 63 (length (c ∷ name)))) [
  | inl long ↦ cc (h, long)
  | inr short ↦ rw short (
      let (runes, prefix) = &&_true _ _ (rw short at h) in
      let (first, rest) = &&_true (role_rune c) (all role_rune name) runes in
      and_three _ _ _ first (all_dash name rest) prefix)
]

enter_with_valid :
    (db : Database) (scope : Scope) (object_id : String) (role : Runes)
    → policy_safe_role_name role ≡ true
    → (began (enter_with db scope object_id (ok role))).0 ≢ err invalid_role
unfolding enter_with
enter_with_valid db scope object_id role safe h = ground arith

module _ (issuer_hash : String → String) (subject_id : String → Runes)
    (digits : (s : String)
      → (all role_rune (subject_id s) ≡ true) × (length (subject_id s) ≤ 53)) where
  data_plane_role_name-safe :
      (p : Principal) (token : Option AccessToken)
      → policy_safe_role_name (data_plane_role_name issuer_hash subject_id p token) ≡ true
  data_plane_role_name-safe p none =
      policy_safe_role_name_of _ (role_name_for_subject-safe subject_id _ (digits _).0 (digits _).1)
  data_plane_role_name-safe p (some token) =
      policy_safe_role_name_of _ (role_name_for_token-safe token.id)

  begin_tx_valid :
      (db : Database) (scope : Scope) (object_id : String) (role : Runes)
      → policy_safe_role_name role ≡ true
      → (begin_tx db scope object_id (ok role)).0 ≢ err invalid_role
  unfolding begin_tx
  begin_tx_valid db scope object_id role safe h = elim (Bool-cases db.configured) [
    | inl on ↦ elim (Bool-cases db.begins) [
      | inl begun ↦ enter_with_valid db scope object_id role safe (rw (on, begun) at h)
      | inr failed ↦ ground arith
    ]
    | inr off ↦ ground arith
  ]

  check_access_valid :
      (store : Store) (db : Database) (p : Principal) (ctx : ApiAccessContext) (obj : DataObject)
      (object_id method : String) (eff : EffectiveObjectAccess) (allowed : Bool)
      → (check_access
          (service_access issuer_hash subject_id store)
          db
          p
          ctx
          obj
          object_id
          method
          (ok (eff, allowed))).0
        ≢ err invalid_role
  unfolding check_access
  check_access_valid store db p ctx obj object_id method eff false h = ground arith
  check_access_valid store db p ctx obj object_id method eff true h =
      begin_tx_valid db _ object_id _ (data_plane_role_name-safe p ctx.access_token) h

  check_object_valid :
      (store : Store) (db : Database) (p : Principal) (ctx : ApiAccessContext)
      (object_id method : String) (found : Option DataObject)
      → (check_object
          (service_access issuer_hash subject_id store)
          db
          p
          ctx
          object_id
          method
          (ok found)).0
        ≢ err invalid_role
  unfolding check_object
  check_object_valid store db p ctx object_id method none h = ground arith
  check_object_valid store db p ctx object_id method (some obj) h =
      elim (Bool-cases (has_method obj.kind method)) [
        | inl known ↦ check_access_valid store db p ctx obj object_id method _ _ (rw known at h)
        | inr unknown ↦ ground arith
      ]

  -- With the access service behind it, `Open` never stops at "invalid data plane role": every role
  -- name that the service makes passes the opener's own check, where the digest of a subject key is
  -- at most 53 runes that a role name may hold.
  pub open_scope_role_valid :
      (store : Store) (db : Database) (p : Principal) (ctx : ApiAccessContext)
      (object_id method : String)
      → (open_scope
          (some (service_access issuer_hash subject_id store))
          db
          p
          ctx
          object_id
          method).0
        ≢ err invalid_role
  unfolding open_scope
  open_scope_role_valid store db p ctx object_id method =
      check_object_valid store db p ctx object_id method (store.objects object_id)
