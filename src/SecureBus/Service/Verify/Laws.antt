-- ===== src/SecureBus/Service/Verify/Laws.antt =====
-- What was published is found again, and verifies.
use synamcps_server.Prelude.{String, true, Option, some, ◌≡◌, refl, sym, subst, arith, eq_iff}
use synamcps_server.Prelude.Numbered.{Numbered, Numbered-find}
use synamcps_server.Crypto.{Bytes, hash_text}
use synamcps_server.AgentKeys.{Key}
use synamcps_server.Policy.{Scope}
use synamcps_server.SecureBus.Service.{Message, Service, Env, ok, topic_of}
use synamcps_server.SecureBus.Service.Publish.{PublishInput, envelope_of, publish, caller_key}
use synamcps_server.SecureBus.Service.Publish.Drafts.{Sealed}
use synamcps_server.SecureBus.Service.Publish.Laws.{Appended, Published, publish-Published}
use synamcps_server.SecureBus.Service.Attest.{get_message}
use synamcps_server.SecureBus.Service.Verify.{VerifyResult, verify, verify_message, signature_of}

-- A key store that has the key of the message, whatever its owner or its revocation.
abbrev pub HasKeyOf : Env → String → Key → Type 0
HasKeyOf env key_id key =
    (k : Key) × (env.get_key key_id ≡ ok (some k))
    × (k.algorithm ≡ key.algorithm)
    × (k.public_key ≡ key.public_key)

abbrev pub Verifies : Env → Service → Option Scope → Message → Type 0
Verifies env s scope m =
    (r : VerifyResult) × (verify env s scope m.id ≡ ok r)
    × (r.message ≡ m)
    × (r.signature_ok ≡ true)
    × (r.hash_ok ≡ true)

Sealed-verifies :
    (env : Env) (s : Service) (o : String) (key : Key) (sig : Bytes) (m : Message)
    → Sealed env.crypto o key sig m
    → env.crypto.decode_b64 m.signature ≡ some sig
    → HasKeyOf env m.author_key_id key
    → ((verify_message env s o m).signature_ok ≡ true) × ((verify_message env s o m).hash_ok ≡ true)
unfolding verify_message signature_of
Sealed-verifies env s o key sig m (good, hash) decoded (k, has, alg, pk) = (
  rw (has, decoded, alg, pk) good,
  (eq_iff (hash_text env.crypto (envelope_of o m)) m.hash).1 (sym hash),
)

get_message-append :
    (s s' : Service) (o : String) (m : Message)
    → Numbered (λ x. x.id) 1 (s.messages o)
    → Appended s s' o m
    → get_message s' o m.id ≡ some m
unfolding get_message
get_message-append s s' o m numbered (id, messages, event, others) =
    rw messages (Numbered-find (λ x. x.id) 1 m.id (s.messages o) m numbered (ground arith) refl)

verify_found :
    (env : Env) (s : Service) (scope : Option Scope) (o : String) (m : Message)
    → topic_of scope ≡ some o
    → get_message s o m.id ≡ some m
    → verify env s scope m.id ≡ ok (verify_message env s o m)
unfolding verify
verify_found env s scope o m top found = rw (top, found, verify) refl

publish-Verifies_published :
    (env later : Env) (s s' : Service) (scope : Option Scope) (i : PublishInput) (m : Message)
    → Published env s scope i (s', ok m)
    → ((o : String) → Numbered (λ x. x.id) 1 (s.messages o))
    → later.crypto ≡ env.crypto
    → ((key : Key)
        → caller_key env i.key_id i.subject_key i.token_id ≡ ok key
        → HasKeyOf later i.key_id key)
    → Verifies later s' scope m
publish-Verifies_published env later s s' scope i m
      (
        d,
        (top, key, named, may, decoded, carried, sealed_draft),
        c,
        (kept, sealed, linked, added),
        own,
        agent,
      )
      numbered crypto has =
    let o = d.object_id in
    let good =
      Sealed-verifies later s' o d.key d.sig m (rw crypto sealed) (rw (crypto, c.4) decoded)
        (rw c.0 (has d.key key)) in
    (
      verify_message later s' o m,
      verify_found later s' scope o m top (get_message-append s s' o m (numbered o) added),
      unfold verify_message in refl,
      good.0,
      good.1,
    )

-- A message that was published, in a service whose messages are numbered from 1 in every topic, is
-- found by its id and verifies: its signature and its hash are right. The key store may have
-- changed since, as long as it has the author's key, be it revoked.
pub publish-Verifies :
    (env later : Env) (s : Service) (scope : Option Scope) (i : PublishInput) (m : Message)
    → ((o : String) → Numbered (λ x. x.id) 1 (s.messages o))
    → later.crypto ≡ env.crypto
    → ((key : Key)
        → caller_key env i.key_id i.subject_key i.token_id ≡ ok key
        → HasKeyOf later i.key_id key)
    → (publish env s scope i).1 ≡ ok m
    → Verifies later (publish env s scope i).0 scope m
publish-Verifies env later s scope i m numbered crypto has h =
    publish-Verifies_published env later s _ scope i m
      (subst (λ r. Published env s scope i ((publish env s scope i).0, r)) h
        (publish-Published env s scope i))
      numbered crypto has
