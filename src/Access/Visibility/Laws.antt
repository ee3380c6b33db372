-- ===== src/Access/Visibility/Laws.antt =====
-- What the visibility rules promise, and how the rules of the two packages differ.
use synamcps_server.Prelude.{String, Bool, true, false, ◌||◌, ◌≡◌, ◌≢◌, ◌⊎◌, arith, eq_iff, ◌↔◌}
use synamcps_server.Prelude.Strings.{◌=ˢ◌, contains}
use synamcps_server.Models.{
  Visibility, public, personal, Principal, DocumentRecord, subject_key_for_principal,
}
use synamcps_server.Access.Visibility.{
  can_write_visibility, can_delete_document, can_read, policy_can_write, policy_can_delete,
}

-- A public document and a platform administrator.
abbrev pub administers : Principal → Visibility → Bool
administers p public = contains p.scopes "platform_admin"
administers p _ = false

-- How the rules of the two packages differ, for a document that has an owner. The newer one (access)
-- lets a principal write exactly what the older one (policy) does, and a platform administrator public
-- documents; and it lets a principal delete exactly what the older one does, what its subject key
-- owns, and a platform administrator public documents.
pub visibility_rules_differ :
    (issuer_hash : String → String) (p : Principal) (d : DocumentRecord)
    → d.owner_id ≢ ""
    → (can_write_visibility p d.visibility d.group_ids
        ≡ (policy_can_write p d.visibility d.group_ids || administers p d.visibility))
      × (can_delete_document issuer_hash p d ≡ (
          policy_can_delete p d
          || d.owner_id =ˢ subject_key_for_principal issuer_hash p
          || administers p d.visibility))
unfolding policy_can_write can_write_visibility policy_can_delete can_delete_document
visibility_rules_differ issuer_hash p d owned = (ground arith, ground (arith, eq_iff d.owner_id ""))

-- A personal document is read only by the user whose id owns it, and deleted only by the user whose
-- id or subject key owns it, whatever the scopes.
pub personal_documents_private :
    (issuer_hash : String → String) (p : Principal) (d : DocumentRecord)
    → d.visibility ≡ personal
    → ((can_read p d ≡ true) ↔ (d.owner_id ≡ p.user_id))
      × ((can_delete_document issuer_hash p d ≡ true)
          → (d.owner_id ≢ "")
            × ((d.owner_id ≡ p.user_id) ⊎ (d.owner_id ≡ subject_key_for_principal issuer_hash p)))
unfolding can_read can_delete_document
personal_documents_private issuer_hash p d v = (
  ground (arith, eq_iff d.owner_id p.user_id),
  λ h. ground (
    arith,
    eq_iff d.owner_id "",
    eq_iff d.owner_id p.user_id,
    eq_iff d.owner_id (subject_key_for_principal issuer_hash p),
  ),
)
