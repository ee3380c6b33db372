-- ===== src/Examples/Access.antt =====
-- The theorems on access, names, visibility and scopes at concrete callers and objects.
use synamcps_server.Prelude.{◌||◌, true, some, [], ◌∷◌, ◌≡◌, refl, arith, eq_iff}
use synamcps_server.Prelude.Strings.{◌=ˢ◌, contains, add_all}
use synamcps_server.Models.{DocumentRecord, group, subject_key_for_principal}
use synamcps_server.DataObj.{methods, is_mutating}
use synamcps_server.Access.{role_permissions, mode_permissions, intersect_mode}
use synamcps_server.Access.Storage.{evaluate_storage_access}
use synamcps_server.Access.Storage.Laws.{storage_access_spec, evaluate_storage_access_lem}
use synamcps_server.Access.Objects.{methods_for_role, methods_for_mode, evaluate_object_access}
use synamcps_server.Access.Objects.Laws.{object_access_spec, evaluate_object_access_lem}
use synamcps_server.Access.Visibility.{
  can_write_visibility, can_delete_document, policy_can_write, policy_can_delete,
}
use synamcps_server.Access.Visibility.Laws.{administers, visibility_rules_differ}
use synamcps_server.Policy.{ObjectAccess, Database, open_scope}
use synamcps_server.Policy.Laws.{Checked, open_scope-Checked}
use synamcps_server.Policy.Service.{Store, service_access}
use synamcps_server.Examples.{
  document, issuer_hash, subject_id, alice, token, storage_scopes, storage_acl, queue_object,
  object_scopes, object_acl, context,
}

evaluate_storage_access_lem_example :
    (evaluate_storage_access issuer_hash alice
      (some token)
      storage_scopes
      storage_acl
      "st-1"
      "document.create").1
    ≡ storage_access_spec alice (some token) storage_scopes storage_acl "st-1" "document.create"
evaluate_storage_access_lem_example =
    evaluate_storage_access_lem issuer_hash alice (some token) storage_scopes storage_acl "st-1"
      "document.create"

creates_document :
    (evaluate_storage_access issuer_hash alice
      (some token)
      storage_scopes
      storage_acl
      "st-1"
      "document.create").1
    ≡ true
unfolding evaluate_storage_access contains add_all role_permissions mode_permissions intersect_mode
creates_document = refl

evaluate_object_access_lem_example :
    (evaluate_object_access issuer_hash alice
      (some token)
      object_scopes
      object_acl
      queue_object
      "enqueue").1
    ≡ object_access_spec alice (some token) object_scopes object_acl queue_object "enqueue"
evaluate_object_access_lem_example =
    evaluate_object_access_lem issuer_hash alice (some token) object_scopes object_acl queue_object
      "enqueue"

enqueues :
    (evaluate_object_access issuer_hash alice
      (some token)
      object_scopes
      object_acl
      queue_object
      "enqueue").1
    ≡ true
unfolding evaluate_object_access methods_for_role methods_for_mode methods contains add_all
    intersect_mode is_mutating
enqueues = refl

abbrev group_document : DocumentRecord
group_document = record document {
  doc_id = "d-1";
  owner_id = "alice";
  visibility = group;
  group_ids = "staff" ∷ [];
}

visibility_rules_differ_example :
    (can_write_visibility alice group ("staff" ∷ [])
      ≡ (policy_can_write alice group ("staff" ∷ []) || administers alice group))
    × (can_delete_document issuer_hash alice group_document ≡ (
        policy_can_delete alice group_document
        || "alice" =ˢ subject_key_for_principal issuer_hash alice
        || administers alice group))
visibility_rules_differ_example =
    visibility_rules_differ issuer_hash alice group_document
      (λ e. ground (arith, eq_iff "alice" ""))

abbrev store : Store
store = record { objects = λ id. some queue_object; object_acl_for = λ p. object_acl }

abbrev object_access : ObjectAccess
object_access = service_access issuer_hash subject_id store

abbrev database : Database
database = record { configured = true; begins = true; sets_config = true; sets_role = true }

open_scope-Checked_example :
    Checked object_access alice context "q-1" "enqueue"
      (open_scope (some object_access) database alice context "q-1" "enqueue")
open_scope-Checked_example = open_scope-Checked object_access database alice context "q-1" "enqueue"
