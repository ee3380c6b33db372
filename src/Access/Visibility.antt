-- ===== src/Access/Visibility.antt =====
-- internal/access/visibility.go, internal/policy/access_filter.go and `Intersects` of
-- internal/strutil/strings.go: the rules for a document by its visibility.
pub mod Laws
use synamcps_server.Prelude.{
  String, Bool, true, false, List, [], ◌∷◌, ◌&&◌, ◌||◌, if◌then◌else◌, any,
}
use synamcps_server.Prelude.Strings.{◌=ˢ◌, contains}
use synamcps_server.Models.{
  Visibility, public, group, personal, Principal, DocumentRecord, subject_key_for_principal,
}

-- the set of the first list's texts is asked for each of the second's
unfoldable pub intersects : List String → List String → Bool
intersects a b = any (contains a) b

can_write_by : Principal → Visibility → List String → Bool
can_write_by p public group_ids =
    contains p.scopes "knowledge.write.public" || contains p.scopes "platform_admin"
can_write_by p personal group_ids = true
can_write_by p group group_ids = intersects group_ids p.groups
can_write_by p (Visibility.other _) group_ids = false

unfoldable pub can_write_visibility : Principal → Visibility → List String → Bool
unfolding can_write_by intersects
can_write_visibility = can_write_by

can_delete_by : Principal → Visibility → Bool
can_delete_by p public =
    contains p.scopes "knowledge.delete.public" || contains p.scopes "platform_admin"
can_delete_by p group = contains p.scopes "knowledge.delete.group"
can_delete_by p _ = false

module _ (issuer_hash : String → String) where
  owns_document : Principal → DocumentRecord → Bool
  owns_document p d =
      if d.owner_id =ˢ ""
      then false
      else d.owner_id =ˢ p.user_id || d.owner_id =ˢ subject_key_for_principal issuer_hash p

  unfoldable pub can_delete_document : Principal → DocumentRecord → Bool
  unfolding owns_document can_delete_by
  can_delete_document p d = if owns_document p d then true else can_delete_by p d.visibility

-- `CanRead` of internal/policy
can_read_by : Principal → DocumentRecord → Visibility → Bool
can_read_by p d public = true
can_read_by p d personal = d.owner_id =ˢ p.user_id
can_read_by p d group = intersects d.group_ids p.groups || d.owner_id =ˢ p.user_id
can_read_by p d (Visibility.other _) = false

unfoldable pub can_read : Principal → DocumentRecord → Bool
unfolding can_read_by intersects
can_read p d = can_read_by p d d.visibility

-- `CanWrite` of internal/policy
policy_write_by : Principal → Visibility → List String → Bool
policy_write_by p public group_ids = contains p.scopes "knowledge.write.public"
policy_write_by p personal group_ids = true
policy_write_by p group group_ids = intersects group_ids p.groups
policy_write_by p (Visibility.other _) group_ids = false

unfoldable pub policy_can_write : Principal → Visibility → List String → Bool
unfolding policy_write_by intersects
policy_can_write = policy_write_by

policy_delete_by : Principal → Visibility → Bool
policy_delete_by p public = contains p.scopes "knowledge.delete.public"
policy_delete_by p group = contains p.scopes "knowledge.delete.group"
policy_delete_by p _ = false

-- `CanDelete` of internal/policy
unfoldable pub policy_can_delete : Principal → DocumentRecord → Bool
unfolding policy_delete_by
policy_can_delete p d = if d.owner_id =ˢ p.user_id then true else policy_delete_by p d.visibility
