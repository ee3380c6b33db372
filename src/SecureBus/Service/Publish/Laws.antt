-- ===== src/SecureBus/Service/Publish/Laws.antt =====
-- What a message that was published is guaranteed to be, and what a refusal leaves.
use synamcps_server.Prelude.{
  ◌+◌, String, true, false, Option, none, some, [], ◌∷◌, ◌++◌, length, last?, ◌≡◌, inl, inr, refl,
  sym, subst, ◌∙◌, eq_iff, eq_refl, Bool-cases,
}
use synamcps_server.Prelude.Strings.{◌=ˢ◌}
use synamcps_server.Crypto.{Crypto, verify_agent_sig}
use synamcps_server.Policy.{Scope}
use synamcps_server.SecureBus.Service.{Message, Event, Service, Env, Result, ok, err, BusError}
use synamcps_server.SecureBus.Service.Publish.{
  PublishInput, Draft, envelope_of, hashed, draft_message, chained, append_message, commit_message,
  publish,
}
use synamcps_server.SecureBus.Service.Publish.Callers.{
  IsOwnKey, IsAgentOf, caller_key-IsOwnKey, publish-IsAgentOf,
}
use synamcps_server.SecureBus.Service.Publish.Drafts.{
  Sealed, Carries, Drafted, hashed-envelope, hashed-Sealed, draft_message-Drafted,
}

-- Where the policy wants a chain, the message names the hash of the message before it.
abbrev pub Linked : Draft → Option Message → Message → Type 0
Linked d none m = Unit
Linked d (some prev) m = d.policy.document.chain ≡ true → m.prev_hash ≡ prev.hash

-- One message is the other, with another id, hash or previous hash.
abbrev pub Keeps : Message → Message → Type 0
Keeps a b =
    (b.author_key_id ≡ a.author_key_id)
    × (b.policy_version ≡ a.policy_version)
    × (b.policy_hash ≡ a.policy_hash)
    × (b.nonce ≡ a.nonce)
    × (b.signature ≡ a.signature)
    × (b.payload ≡ a.payload)
    × (b.created_at ≡ a.created_at)

Keeps-all : (a : Message) → Keeps a a
Keeps-all a = (refl, refl, refl, refl, refl, refl, refl)

Keeps-carried :
    (env : Env) (i : PublishInput) (a b : Message) → Carries env i a → Keeps a b → Carries env i b
Keeps-carried env i a b (c0, c1, c2, c3, c4, c5, c6) (k0, k1, k2, k3, k4, k5, k6) =
    (k0 ∙ c0, k1 ∙ c1, k2 ∙ c2, k3 ∙ c3, k4 ∙ c4, k5 ∙ c5, k6 ∙ c6)

abbrev Chained : Crypto → Draft → Option Message → Result Message → Type 0
Chained crypto d prev (err e) = Unit
Chained crypto d prev (ok m) =
    Keeps d.msg m × Linked d prev m × Sealed crypto d.object_id d.key d.sig m

chained_link :
    (crypto : Crypto) (d : Draft) (prev : Message)
    → Sealed crypto d.object_id d.key d.sig d.msg
    → d.policy.document.chain ≡ true
    → Chained crypto d (some prev) (chained crypto d (some prev))
unfolding chained
chained_link crypto d prev sealed chain =
    let linked = hashed crypto d.object_id (record d.msg { prev_hash = prev.hash }) in
    rw chain (elim (Bool-cases (d.msg.prev_hash =ˢ "")) [
      | inl unset ↦
          rw unset
            (elim (Bool-cases (
              verify_agent_sig crypto d.key.algorithm d.key.public_key d.sig
                (envelope_of d.object_id linked))) [
                  | inl good ↦ rw good (
                    (unfold hashed in Keeps-all d.msg),
                    λ c. unfold hashed in refl,
                    hashed-Sealed crypto d.object_id d.key d.sig
                        (record d.msg { prev_hash = prev.hash })
                        (rw
                          (sym (
                            hashed-envelope crypto d.object_id
                              (record d.msg { prev_hash = prev.hash })))
                          good),
                  )
                  | inr bad ↦ rw bad tt
                ])
      | inr set ↦ rw set (elim (Bool-cases (d.msg.prev_hash =ˢ prev.hash)) [
        | inl same ↦
            rw same (Keeps-all d.msg, λ c. (eq_iff d.msg.prev_hash prev.hash).0 same, sealed)
        | inr other ↦ rw other tt
      ])
    ])

chained-Chained :
    (crypto : Crypto) (d : Draft) (prev : Option Message)
    → Sealed crypto d.object_id d.key d.sig d.msg
    → Chained crypto d prev (chained crypto d prev)
unfolding chained
chained-Chained crypto d none sealed = (Keeps-all d.msg, tt, sealed)
chained-Chained crypto d (some prev) sealed = elim (Bool-cases d.policy.document.chain) [
  | inl chain ↦ chained_link crypto d prev sealed chain
  | inr free ↦ rw free (Keeps-all d.msg, λ c. cc c, sealed)
]

-- The event of a message, and the topic with both at the end.
abbrev pub Appended : Service → Service → String → Message → Type 0
Appended s s' o m =
    (m.id ≡ length (s.messages o) + 1)
    × (s'.messages o ≡ s.messages o ++ m ∷ [])
    × ((e : Event) × (s'.events o ≡ s.events o ++ e ∷ [])
        × (e.id ≡ length (s.events o) + 1)
        × (e.message_id ≡ m.id))
    × ((j : String)
        → (o =ˢ j) ≡ false
        → (s'.messages j ≡ s.messages j) × (s'.events j ≡ s.events j))

-- What the second part of a publication leaves, whatever ran since the first.
abbrev pub Committed : Crypto → Service → Draft → Service × Result Message → Type 0
Committed crypto s d (s', err e) = s' ≡ s
Committed crypto s d (s', ok m) =
    Keeps d.msg m
    × Sealed crypto d.object_id d.key d.sig m
    × Linked d (last? (s.messages d.object_id)) m
    × Appended s s' d.object_id m

append_message-Committed :
    (crypto : Crypto) (s : Service) (d : Draft) (r : Result Message)
    → Chained crypto d (last? (s.messages d.object_id)) r
    → Committed crypto s d (append_message s d.object_id r)
unfolding append_message
append_message-Committed crypto s d (err e) c = refl
append_message-Committed crypto s d (ok m) (kept, link, sealed) = (
  kept,
  unfold envelope_of in sealed,
  linked_id (last? (s.messages d.object_id)) link,
  (
    refl,
    rw (eq_refl d.object_id) refl,
    (message_event, rw (eq_refl d.object_id) refl, refl, refl),
    λ j away. (rw away refl, rw away refl),
  ),
)
  where
    message_event : Event
    message_event = record {
      id = length (s.events d.object_id) + 1;
      object_id = d.object_id;
      kind = "message_published";
      message_id = length (s.messages d.object_id) + 1;
      attestation_id = none;
      created_at = m.created_at;
    }

    linked_id :
        (prev : Option Message)
        → Linked d prev m
        → Linked d prev (record m { id = length (s.messages d.object_id) + 1 })
    linked_id none h = tt
    linked_id (some prev) h = h

-- A draft that is committed, at whatever state, adds its message and the message's event to its
-- topic and to no other, with the next ids; the signature and the hash are those of the message
-- that is stored, and under a chain it names the hash of the last message. A refusal changes
-- nothing.
pub commit_message-Committed :
    (crypto : Crypto) (s : Service) (d : Draft)
    → Sealed crypto d.object_id d.key d.sig d.msg
    → Committed crypto s d (commit_message crypto s d)
unfolding commit_message
commit_message-Committed crypto s d sealed =
    append_message-Committed crypto s d _
      (chained-Chained crypto d (last? (s.messages d.object_id)) sealed)

abbrev pub Published :
    Env → Service → Option Scope → PublishInput → Service × Result Message → Type 0
Published env s scope i (s', err e) = s' ≡ s
Published env s scope i (s', ok m) =
    (d : Draft) × Drafted env s scope i d
    × Carries env i m
    × Committed env.crypto s d (s', ok m)
    × IsOwnKey env i.key_id i.subject_key i.token_id d.key
    × IsAgentOf d.policy.document d.policy.document.rules.publish i.key_id

published :
    (env : Env) (s : Service) (scope : Option Scope) (i : PublishInput) (d : Draft)
    (out : Service × Result Message)
    → Drafted env s scope i d
    → Committed env.crypto s d out
    → Published env s scope i out
published env s scope i d (s', err e) drafted c = c
published env s scope i d (s', ok m) drafted c = (
  d,
  drafted,
  Keeps-carried env i d.msg m drafted.5 c.0,
  c,
  caller_key-IsOwnKey env i.key_id i.subject_key i.token_id d.key drafted.1,
  publish-IsAgentOf d.policy i.key_id drafted.3,
)

refused :
    (env : Env) (s : Service) (scope : Option Scope) (i : PublishInput) (e : BusError)
    → draft_message env s scope i ≡ err e
    → publish env s scope i ≡ (s, err e)
unfolding publish
refused env s scope i e h = rw (h, publish) refl

accepted :
    (env : Env) (s : Service) (scope : Option Scope) (i : PublishInput) (d : Draft)
    → draft_message env s scope i ≡ ok d
    → publish env s scope i ≡ commit_message env.crypto s d
unfolding publish
accepted env s scope i d h = rw (h, publish) refl

publish_drafted :
    (env : Env) (s : Service) (scope : Option Scope) (i : PublishInput) (r : Result Draft)
    → draft_message env s scope i ≡ r
    → Published env s scope i (publish env s scope i)
publish_drafted env s scope i (err e) h =
    subst (Published env s scope i) (sym (refused env s scope i e h)) refl
publish_drafted env s scope i (ok d) h =
    let drafted = draft_message-Drafted env s scope i d h in
    subst (Published env s scope i) (sym (accepted env s scope i d h))
      (published env s scope i d _ drafted (commit_message-Committed env.crypto s d drafted.6))

-- A publication is refused and changes nothing, or: the caller owns the key, the key is an agent's
-- that the named policy (the current one, or the one before it in its grace) lets publish, the
-- stored message is the one asked for, with a right signature and the hash of its own envelope, and it and its event
-- are the last of the topic, with the next ids, linked to the message before where the policy wants
-- a chain.
pub publish-Published :
    (env : Env) (s : Service) (scope : Option Scope) (i : PublishInput)
    → Published env s scope i (publish env s scope i)
publish-Published env s scope i = publish_drafted env s scope i _ refl
