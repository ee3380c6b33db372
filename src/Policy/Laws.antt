-- ===== src/Policy/Laws.antt =====
-- What `Open` has checked when it returns a scope, and what it leaves behind when it does not.
use synamcps_server.Prelude.{
  ℕ, String, Bool, true, false, Option, none, some, List, ◌≡◌, refl, arith, not, length, keep,
  Bool-cases, inl, inr, if◌then◌else◌, any, eq_iff,
}
use synamcps_server.Prelude.Strings.{Runes, ◌=ˢ◌}
use synamcps_server.Models.{Principal, DataObject, EffectiveObjectAccess, ApiAccessContext}
use synamcps_server.DataObj.{has_method}
use synamcps_server.Policy.{
  Result, ok, err, ObjectAccess, Database, Statement, begin, rollback, set_object_ids, Scope,
  scopes_of, enter_with, began, begin_tx, check_access, check_object, open_scope,
}

abbrev is_begin : Statement → Bool
is_begin begin = true
is_begin _ = false

abbrev is_rollback : Statement → Bool
is_rollback rollback = true
is_rollback _ = false

abbrev restricts_to : String → Statement → Bool
restricts_to object_id (set_object_ids id) = id =ˢ object_id
restricts_to object_id _ = false

abbrev pub begins : List Statement → ℕ
begins statements = length (keep is_begin statements)

abbrev pub rollbacks : List Statement → ℕ
rollbacks statements = length (keep is_rollback statements)

-- A refused call has rolled back what it began; an accepted one has one open transaction, limited
-- to the object, where the scope says that it runs in one, and no statement elsewhere.
abbrev pub Settled : String → Result Scope × List Statement → Type 0
Settled object_id (err e, statements) = begins statements ≡ rollbacks statements
Settled object_id (ok scope, statements) =
    (rollbacks statements ≡ 0)
    × (begins statements ≡ (if scope.in_tx then 1 else 0))
    × (any (restricts_to object_id) statements ≡ scope.in_tx)
    × (scope.mem ≡ not scope.in_tx)

-- What the checks made sure of before a scope was returned.
abbrev pub Checked :
    ObjectAccess
    → Principal
    → ApiAccessContext
    → String
    → String
    → Result Scope × List Statement
    → Type 0
Checked oa p ctx object_id method (err e, statements) = Unit
Checked oa p ctx object_id method (ok scope, statements) =
    (oa.get_object object_id ≡ ok (some scope.object))
    × (has_method scope.object.kind method ≡ true)
    × (oa.can_access_object p ctx.access_token (scopes_of ctx) object_id method
        ≡ ok (scope.access, true))
    × (scope.method ≡ method)

enter_with-Settled :
    (db : Database) (scope : Scope) (object_id : String) (role : Result Runes)
    → scope.in_tx ≡ true
    → scope.mem ≡ false
    → Settled object_id (began (enter_with db scope object_id role))
unfolding enter_with
enter_with-Settled db scope object_id (err e) t m = refl
enter_with-Settled db scope object_id (ok role) t m = ground (arith, eq_iff object_id object_id)

begin_tx-Settled :
    (db : Database) (scope : Scope) (object_id : String) (role : Result Runes)
    → scope.in_tx ≡ db.configured
    → scope.mem ≡ not db.configured
    → Settled object_id (begin_tx db scope object_id role)
unfolding begin_tx
begin_tx-Settled db scope object_id role t m = elim (Bool-cases db.configured) [
  | inl on ↦ elim (Bool-cases db.begins) [
    | inl begun ↦
        rw (on, begun) (enter_with-Settled db scope object_id role (rw on at t) (rw on at m))
    | inr failed ↦ rw (on, failed)
  ]
  | inr off ↦ rw off (ground arith)
]

module _ (oa : ObjectAccess) (db : Database) (p : Principal) (ctx : ApiAccessContext)
    (object_id method : String) where
  check_access-Settled :
      (obj : DataObject) (decision : Result (EffectiveObjectAccess × Bool))
      → Settled object_id (check_access oa db p ctx obj object_id method decision)
  unfolding check_access
  check_access-Settled obj (err e) = refl
  check_access-Settled obj (ok (eff, false)) = refl
  check_access-Settled obj (ok (eff, true)) = begin_tx-Settled db _ object_id _ refl refl

  check_object-Settled :
      (found : Result (Option DataObject))
      → Settled object_id (check_object oa db p ctx object_id method found)
  unfolding check_object
  check_object-Settled (err e) = refl
  check_object-Settled (ok none) = refl
  check_object-Settled (ok (some obj)) = elim (Bool-cases (has_method obj.kind method)) [
    | inl known ↦ rw known (check_access-Settled obj _)
    | inr unknown ↦ rw unknown refl
  ]

-- No call leaves a transaction behind: a refused one has rolled back exactly what it began, and an
-- accepted one has one open transaction limited to the object it was asked for, or, with no
-- database, none.
pub open_scope-Settled :
    (oa : Option ObjectAccess) (db : Database) (p : Principal) (ctx : ApiAccessContext)
    (object_id method : String)
    → Settled object_id (open_scope oa db p ctx object_id method)
unfolding open_scope
open_scope-Settled none db p ctx object_id method = refl
open_scope-Settled (some oa) db p ctx object_id method =
    check_object-Settled oa db p ctx object_id method (oa.get_object object_id)

module _ (oa : ObjectAccess) (db : Database) (p : Principal) (ctx : ApiAccessContext)
    (object_id method : String) where
  begin_tx-Checked :
      (scope : Scope) (role : Result Runes)
      → oa.get_object object_id ≡ ok (some scope.object)
      → has_method scope.object.kind method ≡ true
      → oa.can_access_object p ctx.access_token (scopes_of ctx) object_id method
        ≡ ok (scope.access, true)
      → scope.method ≡ method
      → Checked oa p ctx object_id method (begin_tx db scope object_id role)
  unfolding begin_tx enter_with
  begin_tx-Checked scope (err e) found known allowed same = elim (Bool-cases db.configured) [
    | inl on ↦ elim (Bool-cases db.begins) [
      | inl begun ↦ rw (on, begun) tt
      | inr failed ↦ rw (on, failed) tt
    ]
    | inr off ↦ rw off (found, known, allowed, same)
  ]
  begin_tx-Checked scope (ok role) found known allowed same = ground arith

  check_access-Checked :
      (obj : DataObject) (decision : Result (EffectiveObjectAccess × Bool))
      → oa.get_object object_id ≡ ok (some obj)
      → has_method obj.kind method ≡ true
      → oa.can_access_object p ctx.access_token (scopes_of ctx) object_id method ≡ decision
      → Checked oa p ctx object_id method (check_access oa db p ctx obj object_id method decision)
  unfolding check_access
  check_access-Checked obj (err e) found known decided = tt
  check_access-Checked obj (ok (eff, false)) found known decided = tt
  check_access-Checked obj (ok (eff, true)) found known decided =
      begin_tx-Checked _ _ found known decided refl

  check_object-Checked :
      (found : Result (Option DataObject))
      → oa.get_object object_id ≡ found
      → Checked oa p ctx object_id method (check_object oa db p ctx object_id method found)
  unfolding check_object
  check_object-Checked (err e) same = tt
  check_object-Checked (ok none) same = tt
  check_object-Checked (ok (some obj)) same = elim (Bool-cases (has_method obj.kind method)) [
    | inl known ↦ rw known (check_access-Checked obj _ same known refl)
    | inr unknown ↦ rw unknown tt
  ]

-- A scope is returned only for an object that the store has, a method of its kind's closed set, and
-- a caller whom the access service allowed that method on that object, with the token's object
-- scopes or, where there are none, its storage scopes; the scope carries that object, that method
-- and the access that the service computed.
pub open_scope-Checked :
    (oa : ObjectAccess) (db : Database) (p : Principal) (ctx : ApiAccessContext)
    (object_id method : String)
    → Checked oa p ctx object_id method (open_scope (some oa) db p ctx object_id method)
unfolding open_scope
open_scope-Checked oa db p ctx object_id method =
    check_object-Checked oa db p ctx object_id method (oa.get_object object_id) refl
