-- ===== src/Policy.antt =====
-- internal/policy/scope.go: `Opener.Open`, which checks the caller against a data object and a
-- method and opens the transaction in which the method runs. The database is the list of what is
-- asked of it, and its answers are the fields of `Database`.
pub mod Laws
pub mod Service
use synamcps_server.Prelude.{
  ℕ, String, Bool, true, false, Option, none, some, List, [], ◌∷◌, ◌&&◌, ◌||◌, if◌then◌else◌,
  is_empty, length, ltb, all, map, ◌==◌, not,
}
use synamcps_server.Prelude.Strings.{Runes, codes}
use synamcps_server.Prelude.Runes.{has_prefix}
use synamcps_server.Models.{
  Principal, AccessToken, AccessTokenStorage, AccessTokenObject, DataObject, ObjectKind,
  EffectiveObjectAccess, ApiAccessContext,
}
use synamcps_server.DataObj.{has_method}
use synamcps_server.Access.Names.{role_rune}

pub data OpenError : Type 0 where
  forbidden unknown_method object_not_found invalid_role database_failed : OpenError
  store_failed : String → OpenError

pub data Result {ℓ} (A : Type ℓ) : Type ℓ where
  ok : A → Result A
  err : OpenError → Result A

-- The interface `ObjectAccess`; the access service implements it (Policy/Service).
pub record ObjectAccess : Type 0 where
  pub get_object : String → Result (Option DataObject)
  pub can_access_object :
      Principal
      → Option AccessToken
      → List AccessTokenObject
      → String
      → String
      → Result (EffectiveObjectAccess × Bool)
  pub data_plane_role : Principal → Option AccessToken → Result Runes

-- What the database answers: whether there is one, and which statements it accepts.
pub record Database : Type 0 where
  pub configured : Bool
  pub begins : Bool
  pub sets_config : Bool
  pub sets_role : Bool

pub data Statement : Type 0 where
  begin rollback : Statement
  set_object_ids : String → Statement
  set_local_role : Runes → Statement

pub record Scope : Type 0 where
  pub object : DataObject
  pub method : String
  pub access : EffectiveObjectAccess
  pub principal : Principal
  pub in_tx : Bool
  pub mem : Bool

-- the loop of `safeRoleName`: a dash may stand anywhere but first
abbrev dash_role_rune : ℕ → Bool
dash_role_rune c = role_rune c || c == b'-'

abbrev role_runes : Runes → Bool
role_runes [] = true
role_runes (c ∷ rest) = role_rune c && all dash_role_rune rest

unfoldable pub policy_safe_role_name : Runes → Bool
policy_safe_role_name name =
    if is_empty name || ltb 63 (length name)
    then false
    else role_runes name && has_prefix name (codes "syna_")

abbrev pub object_scope : AccessTokenStorage → AccessTokenObject
object_scope st = record {
  token_id = st.token_id;
  object_id = st.storage_id;
  max_mode = st.max_mode;
  method_allowlist = st.tool_allowlist;
  created_at = st.created_at;
}

-- legacy storage scopes stand in where the context has no object scopes
abbrev pub scopes_of : ApiAccessContext → List AccessTokenObject
scopes_of ctx =
    if is_empty ctx.allowed_objects
    then map object_scope ctx.allowed_storage
    else ctx.allowed_objects

-- the transaction of an allowed call: its answer, and the statements after `begin`
enter_role : Database → Scope → String → Runes → Result Scope × List Statement
enter_role db scope object_id role =
    if is_empty role
    then if db.sets_config
      then (ok scope, set_object_ids object_id ∷ [])
      else (err database_failed, set_object_ids object_id ∷ rollback ∷ [])
    else if policy_safe_role_name role
    then if db.sets_config
      then (ok scope, set_object_ids object_id ∷ set_local_role role ∷ [])
      else (err database_failed, set_object_ids object_id ∷ rollback ∷ [])
    else (err invalid_role, rollback ∷ [])

enter_with : Database → Scope → String → Result Runes → Result Scope × List Statement
unfolding enter_role
enter_with db scope object_id (err e) = (err e, rollback ∷ [])
enter_with db scope object_id (ok role) = enter_role db scope object_id role

abbrev began : Result Scope × List Statement → Result Scope × List Statement
began (answer, statements) = (answer, begin ∷ statements)

begin_tx : Database → Scope → String → Result Runes → Result Scope × List Statement
unfolding enter_with
begin_tx db scope object_id role =
    if db.configured
    then if db.begins then began (enter_with db scope object_id role) else (err database_failed, [])
    else (ok scope, [])

check_access :
    ObjectAccess
    → Database
    → Principal
    → ApiAccessContext
    → DataObject
    → String
    → String
    → Result (EffectiveObjectAccess × Bool)
    → Result Scope × List Statement
unfolding begin_tx
check_access oa db p ctx obj object_id method (err e) = (err e, [])
check_access oa db p ctx obj object_id method (ok (eff, allowed)) =
    if allowed
    then begin_tx db
        (record {
          object = obj;
          method = method;
          access = eff;
          principal = p;
          in_tx = db.configured;
          mem = not db.configured;
        })
        object_id (oa.data_plane_role p ctx.access_token)
    else (err forbidden, [])

check_object :
    ObjectAccess
    → Database
    → Principal
    → ApiAccessContext
    → String
    → String
    → Result (Option DataObject)
    → Result Scope × List Statement
unfolding check_access
check_object oa db p ctx object_id method (err e) = (err e, [])
check_object oa db p ctx object_id method (ok none) = (err object_not_found, [])
check_object oa db p ctx object_id method (ok (some obj)) =
    if has_method obj.kind method
    then check_access oa db p ctx obj object_id method
        (oa.can_access_object p ctx.access_token (scopes_of ctx) object_id method)
    else (err unknown_method, [])

-- an opener with no access service refuses everything
unfoldable pub open_scope :
    Option ObjectAccess
    → Database
    → Principal
    → ApiAccessContext
    → String
    → String
    → Result Scope × List Statement
unfolding check_object
open_scope none db p ctx object_id method = (err forbidden, [])
open_scope (some oa) db p ctx object_id method =
    check_object oa db p ctx object_id method (oa.get_object object_id)
