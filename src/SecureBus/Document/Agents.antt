-- ===== src/SecureBus/Document/Agents.antt =====
-- When the agent of a key is well defined.
use mathlib.Core.List as List
use mathlib.Core.List.{Memᴰ}
use synamcps_server.Prelude.{
  String, some, [], ◌∷◌, ◌≡◌, ◌↔◌, inl, inr, sym, ap, ◌∙◌, arith, eq_iff, Bool-cases,
}
use synamcps_server.Prelude.Strings.{text_differs, ◌=ˢ◌}
use synamcps_server.Prelude.Maps.{Dict}
use synamcps_server.SecureBus.Document.{AgentRef, Document, name_for_key, agent_name_for_key}

-- No two agents of different names have one key.
abbrev pub Unambiguous : Dict AgentRef → Type 0
Unambiguous agents =
    (m n : String) (a b : AgentRef)
    → Memᴰ (m, a) agents
    → Memᴰ (n, b) agents
    → a.key_id ≡ b.key_id
    → m ≡ n

pub name_for_key-mem :
    (agents : Dict AgentRef) (key_id name : String)
    → name_for_key agents key_id ≡ some name
    → (a : AgentRef) × Memᴰ (name, a) agents × (a.key_id ≡ key_id)
unfolding name_for_key
name_for_key-mem [] key_id name h = absurd (ground arith)
name_for_key-mem ((m, a) ∷ agents) key_id name h = elim (Bool-cases (a.key_id =ˢ key_id)) [
  | inl here ↦
      (a, List.Memᴰ.head (name_first m name a (rw here at h)), (eq_iff a.key_id key_id).0 here)
  | inr away ↦
      let (b, mem, same) = name_for_key-mem agents key_id name (rw away at h) in
      (b, List.Memᴰ.tail mem, same)
]
  where
    name_first :
        (m name : String) (a : AgentRef)
        → some m ≡ some name
        → ◌≡◌ {A = String × AgentRef} (name, a) (m, a)
    name_first m name a e = ground arith

agents_agree : {a b : AgentRef} {m n : String} → ◌≡◌ {A = String × AgentRef} (n, a) (m, b) → a ≡ b
agents_agree e = ap (λ p. p.1) e

mem-name_for_key :
    (agents : Dict AgentRef) (key_id name : String) (a : AgentRef)
    → Memᴰ (name, a) agents
    → a.key_id ≡ key_id
    → (m : String) × (name_for_key agents key_id ≡ some m)
unfolding name_for_key
mem-name_for_key [] key_id name a mem same = absurd (List.Memᴰ.not-nil mem)
mem-name_for_key ((m, b) ∷ agents) key_id name a mem same = elim (Bool-cases (b.key_id =ˢ key_id)) [
  | inl here ↦ (m, rw here)
  | inr away ↦ elim (List.Memᴰ.cases_cons mem) [
    | inl e ↦
        absurd
          (text_differs b.key_id key_id away (sym (ap (λ x. x.key_id) (agents_agree e)) ∙ same))
    | inr later ↦
        let (n, found) = mem-name_for_key agents key_id name a later same in (n, rw away found)
  ]
]

-- When no two agents share a key, the agent of a key does not depend on the order in which the map
-- of agents is gone over: it is the one name in the map that has the key.
pub agent_name_for_key_iff :
    (doc : Document) (key_id name : String)
    → Unambiguous doc.agents
    → (agent_name_for_key doc key_id ≡ some name)
      ↔ ((a : AgentRef) × Memᴰ (name, a) doc.agents × (a.key_id ≡ key_id))
unfolding agent_name_for_key
agent_name_for_key_iff doc key_id name one = (
  name_for_key-mem doc.agents key_id name,
  λ (a, mem, same).
      let (m, found) = mem-name_for_key doc.agents key_id name a mem same in
      let (b, there, its) = name_for_key-mem doc.agents key_id m found in
      found ∙ ap some (one m name b a there mem (its ∙ sym same)),
)
