-- ===== src/SecureBus/Document/Laws.antt =====
-- What an accepted policy document guarantees.
use synamcps_server.Prelude.{
  String, true, false, none, List, [], ◌∷◌, ◌≡◌, ◌≢◌, ◌⊎◌, ◌↔◌, refl, is_empty, is_some, arith,
  eq_iff, All,
}
use synamcps_server.Prelude.Strings.{text_differs, differs_text, ◌=ˢ◌}
use synamcps_server.Prelude.Ints.{at_most_zero}
use synamcps_server.Prelude.Maps.{Dict, lookup}
use synamcps_server.SecureBus.Document.{
  AgentRef, ConditionRequire, Condition, Document, policy_schema_id, check_agents, check_names,
  check_authors, check_require, check_conditions, validate_document,
}

abbrev pub WellFormedAgent : String × AgentRef → Type 0
WellFormedAgent (name, a) =
    (name ≢ "")
    × (a.key_id ≢ "")
    × (a.public_key ≢ "")
    × ((a.alg ≡ "ed25519") ⊎ (a.alg ≡ "ecdsa-p256"))

abbrev pub Known : Dict AgentRef → String → Type 0
Known agents name = is_some (lookup name agents) ≡ true

abbrev pub WellFormedRequire : Dict AgentRef → ConditionRequire → Type 0
WellFormedRequire agents r = Known agents r.agent × ((r.status ≡ "ok") ⊎ (r.status ≡ "deny"))

abbrev pub WellFormedCondition : Dict AgentRef → String × Condition → Type 0
WellFormedCondition agents (name, c) =
    All (Known agents) c.authors × All (WellFormedRequire agents) c.require

-- What ValidateDocument asks of a document. The JSON schema policy_schema.json, which the program
-- embeds and never reads, asks more: of the quorum, the mode and the attestation's settings.
pub record IsValid (doc : Document) : Type 0 where
  pub schema : doc.schema ≡ policy_schema_id
  pub topic : doc.topic_id ≢ ""
  pub version : at_most_zero doc.version ≡ false
  pub issued : doc.issued_at ≢ ""
  pub has_agents : doc.agents ≢ []
  pub agents : All WellFormedAgent doc.agents
  pub publishers : All (Known doc.agents) doc.rules.publish
  pub attesters : All (Known doc.agents) doc.rules.attest
  pub subscribers : All (Known doc.agents) doc.rules.subscribe
  pub conditions : All (WellFormedCondition doc.agents) doc.conditions

check_agents_iff :
    (agents : Dict AgentRef) → (check_agents agents ≡ none) ↔ All WellFormedAgent agents
unfolding check_agents
check_agents_iff [] = (λ h. tt, λ h. refl)
check_agents_iff ((name, a) ∷ agents) = (
  λ h. ground (
    arith,
    check_agents_iff agents,
    eq_iff name "",
    eq_iff a.key_id "",
    eq_iff a.public_key "",
    eq_iff a.alg "ed25519",
    eq_iff a.alg "ecdsa-p256",
  ),
  λ h. ground (
    arith,
    check_agents_iff agents,
    eq_iff name "",
    eq_iff a.key_id "",
    eq_iff a.public_key "",
    eq_iff a.alg "ed25519",
    eq_iff a.alg "ecdsa-p256",
  ),
)

check_names_iff :
    (agents : Dict AgentRef) (role : String) (names : List String)
    → (check_names agents role names ≡ none) ↔ All (Known agents) names
unfolding check_names
check_names_iff agents role [] = (λ h. tt, λ h. refl)
check_names_iff agents role (n ∷ names) = (
  λ h. ground (arith, check_names_iff agents role names),
  λ h. ground (arith, check_names_iff agents role names),
)

check_authors_iff :
    (agents : Dict AgentRef) (name : String) (authors : List String)
    → (check_authors agents name authors ≡ none) ↔ All (Known agents) authors
unfolding check_authors
check_authors_iff agents name [] = (λ h. tt, λ h. refl)
check_authors_iff agents name (a ∷ authors) = (
  λ h. ground (arith, check_authors_iff agents name authors),
  λ h. ground (arith, check_authors_iff agents name authors),
)

check_require_iff :
    (agents : Dict AgentRef) (name : String) (require : List ConditionRequire)
    → (check_require agents name require ≡ none) ↔ All (WellFormedRequire agents) require
unfolding check_require
check_require_iff agents name [] = (λ h. tt, λ h. refl)
check_require_iff agents name (r ∷ require) = (
  λ h.
      ground (
        arith,
        check_require_iff agents name require,
        eq_iff r.status "ok",
        eq_iff r.status "deny",
      ),
  λ h.
      ground (
        arith,
        check_require_iff agents name require,
        eq_iff r.status "ok",
        eq_iff r.status "deny",
      ),
)

check_conditions_iff :
    (agents : Dict AgentRef) (conditions : Dict Condition)
    → (check_conditions agents conditions ≡ none) ↔ All (WellFormedCondition agents) conditions
unfolding check_conditions
check_conditions_iff agents [] = (λ h. tt, λ h. refl)
check_conditions_iff agents ((name, c) ∷ conditions) = (
  λ h. ground (
    arith,
    check_conditions_iff agents conditions,
    check_authors_iff agents name c.authors,
    check_require_iff agents name c.require,
  ),
  λ h. ground (
    arith,
    check_conditions_iff agents conditions,
    check_authors_iff agents name c.authors,
    check_require_iff agents name c.require,
  ),
)

abbrev Passes : Document → Type 0
Passes doc =
    ((doc.schema =ˢ policy_schema_id) ≡ true)
    × ((doc.topic_id =ˢ "") ≡ false)
    × (at_most_zero doc.version ≡ false)
    × ((doc.issued_at =ˢ "") ≡ false)
    × (is_empty doc.agents ≡ false)
    × (check_agents doc.agents ≡ none)
    × (check_names doc.agents "publish" doc.rules.publish ≡ none)
    × (check_names doc.agents "attest" doc.rules.attest ≡ none)
    × (check_names doc.agents "subscribe" doc.rules.subscribe ≡ none)
    × (check_conditions doc.agents doc.conditions ≡ none)

passes : (doc : Document) → validate_document doc ≡ none → Passes doc
unfolding validate_document
passes doc h = ground arith

passed : (doc : Document) → Passes doc → validate_document doc ≡ none
unfolding validate_document
passed doc h = ground arith

some_agent : (agents : Dict AgentRef) → (is_empty agents ≡ false) ↔ (agents ≢ [])
some_agent agents = (λ h e. ground arith, λ h. ground arith)

-- ValidateDocument passes a document exactly when it has the schema's name, a topic, a version of at
-- least 1, an issue time, some agents, each with a name, a key and a known algorithm, rules whose
-- names are agents, and conditions whose authors and requirements are agents, with required statuses
-- ok or deny. It asks nothing of a condition's quorum and mode or of the attestation's settings.
pub validate_document_iff : (doc : Document) → (validate_document doc ≡ none) ↔ IsValid doc
validate_document_iff doc = (
  λ h.
      let (
        schema, topic, version, issued, some_agents, agents, pub_names, att_names, sub_names, conds,
      ) =
        passes doc h in
      record {
        schema = (eq_iff doc.schema policy_schema_id).0 schema;
        topic = text_differs doc.topic_id "" topic;
        version = version;
        issued = text_differs doc.issued_at "" issued;
        has_agents = (some_agent doc.agents).0 some_agents;
        agents = (check_agents_iff doc.agents).0 agents;
        publishers = (check_names_iff doc.agents "publish" doc.rules.publish).0 pub_names;
        attesters = (check_names_iff doc.agents "attest" doc.rules.attest).0 att_names;
        subscribers = (check_names_iff doc.agents "subscribe" doc.rules.subscribe).0 sub_names;
        conditions = (check_conditions_iff doc.agents doc.conditions).0 conds;
      },
  λ v. passed doc (
    (eq_iff doc.schema policy_schema_id).1 v.schema,
    differs_text doc.topic_id "" v.topic,
    v.version,
    differs_text doc.issued_at "" v.issued,
    (some_agent doc.agents).1 v.has_agents,
    (check_agents_iff doc.agents).1 v.agents,
    (check_names_iff doc.agents "publish" doc.rules.publish).1 v.publishers,
    (check_names_iff doc.agents "attest" doc.rules.attest).1 v.attesters,
    (check_names_iff doc.agents "subscribe" doc.rules.subscribe).1 v.subscribers,
    (check_conditions_iff doc.agents doc.conditions).1 v.conditions,
  ),
)
