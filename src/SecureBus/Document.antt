-- ===== src/SecureBus/Document.antt =====
-- internal/securebus/policy.go: the policy document, its validation, and what it lets an agent do.
-- A Go map is the list of its entries in the order that the runtime happens to go over them.
pub mod Agents
pub mod Laws
use synamcps_server.Prelude.{
  ℕ, String, Bool, true, false, Option, none, some, List, [], ◌∷◌, ◌&&◌, ◌||◌, not, if◌then◌else◌,
  is_empty, is_some,
}
use synamcps_server.Prelude.Strings.{◌=ˢ◌, contains}
use synamcps_server.Prelude.Ints.{ℤ, pos, negsuc, at_most_zero}
use synamcps_server.Prelude.Maps.{Dict, lookup}

abbrev pub policy_schema_id : String
policy_schema_id = "synamcps.securebus.policy/v1"

pub record AgentRef : Type 0 where
  pub key_id : String
  pub alg : String
  pub public_key : String

pub record Rules : Type 0 where
  pub publish : List String
  pub attest : List String
  pub subscribe : List String

pub record AttestationPolicy : Type 0 where
  pub statuses : List String
  pub comment_max_bytes : ℤ
  pub supersede : Bool

pub record ConditionRequire : Type 0 where
  pub agent : String
  pub status : String

pub record Condition : Type 0 where
  pub authors : List String
  pub require : List ConditionRequire
  pub min_ok : ℤ
  pub any_deny : Option Bool
  pub mode : String

pub record Document : Type 0 where
  pub schema : String
  pub topic_id : String
  pub version : ℤ
  pub issued_at : String
  pub chain : Bool
  pub agents : Dict AgentRef
  pub rules : Rules
  pub attestation : AttestationPolicy
  pub conditions : Dict Condition

pub data DocumentError : Type 0 where
  unsupported_schema topic_required bad_version issued_at_required agents_required : DocumentError
  invalid_agent unsupported_alg : String → DocumentError
  unknown_agent : String → String → DocumentError
  condition_author condition_require condition_status : String → String → DocumentError

-- the first error of two checks in a row
abbrev pub or_else : Option DocumentError → Option DocumentError → Option DocumentError
or_else none e = e
or_else (some e) _ = some e

pub check_agents : Dict AgentRef → Option DocumentError
check_agents [] = none
check_agents ((name, a) ∷ agents) =
    let rest = check_agents agents in
    if name =ˢ "" || a.key_id =ˢ "" || a.public_key =ˢ ""
    then some (invalid_agent name)
    else if not (a.alg =ˢ "ed25519") && not (a.alg =ˢ "ecdsa-p256")
    then some (unsupported_alg name)
    else rest

pub check_names : Dict AgentRef → String → List String → Option DocumentError
check_names agents role [] = none
check_names agents role (n ∷ names) =
    let rest = check_names agents role names in
    if is_some (lookup n agents) then rest else some (unknown_agent role n)

pub check_authors : Dict AgentRef → String → List String → Option DocumentError
check_authors agents name [] = none
check_authors agents name (a ∷ authors) =
    let rest = check_authors agents name authors in
    if is_some (lookup a agents) then rest else some (condition_author name a)

pub check_require : Dict AgentRef → String → List ConditionRequire → Option DocumentError
check_require agents name [] = none
check_require agents name (r ∷ require) =
    let rest = check_require agents name require in
    if is_some (lookup r.agent agents)
    then if not (r.status =ˢ "ok") && not (r.status =ˢ "deny")
      then some (condition_status name r.status)
      else rest
    else some (condition_require name r.agent)

pub check_conditions : Dict AgentRef → Dict Condition → Option DocumentError
unfolding check_authors check_require
check_conditions agents [] = none
check_conditions agents ((name, c) ∷ conditions) =
    or_else (check_authors agents name c.authors)
      (or_else (check_require agents name c.require) (check_conditions agents conditions))

-- `ValidateDocument`; the defaults that it sets for the attestation policy are set in its own copy
-- of the document and are lost, so they are no part of the model
unfoldable pub validate_document : Document → Option DocumentError
unfolding check_agents check_names check_conditions
validate_document doc =
    if not (doc.schema =ˢ policy_schema_id)
    then some unsupported_schema
    else if doc.topic_id =ˢ ""
    then some topic_required
    else if at_most_zero doc.version
    then some bad_version
    else if doc.issued_at =ˢ ""
    then some issued_at_required
    else if is_empty doc.agents
    then some agents_required
    else or_else (check_agents doc.agents) (
        or_else (check_names doc.agents "publish" doc.rules.publish) (
          or_else (check_names doc.agents "attest" doc.rules.attest) (
            or_else (check_names doc.agents "subscribe" doc.rules.subscribe)
              (check_conditions doc.agents doc.conditions))))

-- the first agent, in the order of the map, whose key it is
unfoldable pub name_for_key : Dict AgentRef → String → Option String
name_for_key [] key_id = none
name_for_key ((name, a) ∷ agents) key_id =
    if a.key_id =ˢ key_id then some name else name_for_key agents key_id

unfoldable pub agent_name_for_key : Document → String → Option String
unfolding name_for_key
agent_name_for_key d key_id = name_for_key d.agents key_id

unfoldable pub may : Document → String → String → Bool
may d rule agent_name =
    if rule =ˢ "publish"
    then contains d.rules.publish agent_name
    else if rule =ˢ "attest"
    then contains d.rules.attest agent_name
    else if rule =ˢ "subscribe"
    then contains d.rules.subscribe agent_name
    else false
