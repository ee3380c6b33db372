-- ===== src/SecureBus/Service/Publish/Callers.antt =====
-- Whose key a caller uses, and what a policy lets it do.
use mathlib.Core.List.{Memᴰ}
use synamcps_server.Prelude.{
  String, true, Option, none, some, List, ◌≡◌, ◌⊎◌, inl, inr, refl, sym, ap, subst, ◌∙◌, Bool-cases,
  Option-cases,
}
use synamcps_server.Prelude.Strings.{contains}
use synamcps_server.AgentKeys.{Key, belongs_to_caller}
use synamcps_server.AgentKeys.Laws.{belongs_to_caller_iff}
use synamcps_server.SecureBus.Document.{AgentRef, Document, agent_name_for_key, may}
use synamcps_server.SecureBus.Document.Agents.{name_for_key-mem}
use synamcps_server.SecureBus.Service.{SignedPolicy, Env, Result, ok, err}
use synamcps_server.SecureBus.Service.Publish.{caller_key, allowed}

-- The key is the one of the id, its subject is the caller, it is not revoked, and if it is bound to a
-- token, the caller's token is that one.
abbrev pub IsOwnKey : Env → String → String → String → Key → Type 0
IsOwnKey env key_id subject_key token_id key =
    (env.get_key key_id ≡ ok (some key))
    × (key.subject_key ≡ subject_key)
    × (key.revoked_at ≡ none)
    × ((key.token_id ≡ "") ⊎ (key.token_id ≡ token_id))

-- An agent of the document has the key, and is one of the names.
abbrev pub IsAgentOf : Document → List String → String → Type 0
IsAgentOf doc names key_id =
    (name : String) × (a : AgentRef) × Memᴰ (name, a) doc.agents
    × (a.key_id ≡ key_id)
    × (contains names name ≡ true)

same_key : (a b : Key) → ◌≡◌ {A = Result Key} (ok a) (ok b) → a ≡ b
same_key a b h = ap (λ r. elim r [ ok k ↦ k | err e ↦ a ]) h

pub caller_key-IsOwnKey :
    (env : Env) (key_id subject_key token_id : String) (key : Key)
    → caller_key env key_id subject_key token_id ≡ ok key
    → IsOwnKey env key_id subject_key token_id key
unfolding caller_key
caller_key-IsOwnKey env key_id subject_key token_id key h = own (env.get_key key_id) refl
  where
    own :
        (found : Result (Option Key))
        → env.get_key key_id ≡ found
        → IsOwnKey env key_id subject_key token_id key
    own (err e) at = cc (rw (at, caller_key) at h)
    own (ok none) at = cc (rw (at, caller_key) at h)
    own (ok (some k)) at = elim (Bool-cases (belongs_to_caller k subject_key token_id)) [
      | inr foreign ↦ cc (rw (at, foreign, caller_key) at h)
      | inl his ↦
          let same : k ≡ key = same_key k key (rw (at, his, caller_key) at h) in
          subst (IsOwnKey env key_id subject_key token_id) same (
            let (subject, live, token) = (belongs_to_caller_iff k subject_key token_id).0 his in
            (at, subject, live, token))
    ]

module _ (policy : SignedPolicy) (key_id : String) where
  agent_named :
      (rule : String) (names : List String)
      → ((name : String) → may policy.document rule name ≡ contains names name)
      → allowed policy rule key_id ≡ true
      → IsAgentOf policy.document names key_id
  unfolding allowed agent_name_for_key
  agent_named rule names rules h = elim (Option-cases (agent_name_for_key policy.document key_id)) [
    | inl nobody ↦ cc (rw (nobody, allowed) at h)
    | inr (name, found) ↦
        let (a, mem, same) = name_for_key-mem policy.document.agents key_id name found in
        (name, a, mem, same, sym (rules name) ∙ rw (found, allowed) at h)
  ]

  pub publish-IsAgentOf :
      allowed policy "publish" key_id ≡ true
      → IsAgentOf policy.document policy.document.rules.publish key_id
  publish-IsAgentOf =
      agent_named "publish" policy.document.rules.publish (λ name. unfold may in refl)

  pub attest-IsAgentOf :
      allowed policy "attest" key_id ≡ true
      → IsAgentOf policy.document policy.document.rules.attest key_id
  attest-IsAgentOf = agent_named "attest" policy.document.rules.attest (λ name. unfold may in refl)
