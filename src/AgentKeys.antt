-- ===== src/AgentKeys.antt =====
-- internal/agentkeys/store.go with no database and no Redis: challenges, the registration of a
-- key by proof of possession, revocation, and the test that a key is its caller's.
pub mod Laws
pub mod Runs
use Prim.Native.String.{◌++◌}
use synamcps_server.Prelude.{
  ℕ, ◌+◌, String, Bool, true, false, Option, none, some, List, [], ◌∷◌, ◌&&◌, ◌||◌, not,
  if◌then◌else◌, length, ltb, leb, is_empty, is_some, ◌==◌, keep,
}
use synamcps_server.Prelude.Strings.{◌=ˢ◌}
use synamcps_server.Prelude.Ints.{ℤ, or_default}
use synamcps_server.Prelude.Maps.{Dict, lookup, insert, erase}
use synamcps_server.Crypto.{
  Bytes, Owner, Envelope, registration, Crypto, verify_ed25519, verify_p256,
}

pub record Key : Type 0 where
  pub key_id : String
  pub subject_key : String
  pub token_id : String
  pub algorithm : String
  pub public_key : Bytes
  pub created_at : ℕ
  pub revoked_at : Option ℕ

pub record Challenge : Type 0 where
  pub nonce : String
  pub expires_at : ℕ
  pub binder : String

pub record Store : Type 0 where
  pub mem : Dict Key
  pub challs : Dict Challenge

pub data KeyError : Type 0 where
  binder_required nonce_required not_found_or_expired binder_mismatch : KeyError
  fields_required bad_key_length bad_point unsupported_algorithm bad_proof key_not_found : KeyError

pub data Result {ℓ} (A : Type ℓ) : Type ℓ where
  ok : A → Result A
  err : KeyError → Result A

abbrev pub new_store : Store
new_store = record { mem = []; challs = [] }

-- `uuid` is the fresh nonce, `now` the clock; a time to live that is not positive is 5 minutes
-- (in nanoseconds)
unfoldable pub create_challenge : Store → ℕ → String → String → ℤ → Store × Result Challenge
create_challenge s now uuid binder ttl =
    if binder =ˢ ""
    then (s, err binder_required)
    else (let ch : Challenge = record {
      nonce = uuid;
      expires_at = now + or_default ttl 300000000000;
      binder = binder;
    } in
        (record s { challs = insert uuid ch s.challs }, ok ch))

-- an expired challenge is dropped; a wrong binder leaves the challenge for its owner
unfoldable pub consume_found :
    Store → ℕ → String → String → Option Challenge → Store × Result (Unit {0})
consume_found s now nonce binder none =
    (record s { challs = erase nonce s.challs }, err not_found_or_expired)
consume_found s now nonce binder (some ch) =
    if ltb ch.expires_at now
    then (record s { challs = erase nonce s.challs }, err not_found_or_expired)
    else if ch.binder =ˢ binder
    then (record s { challs = erase nonce s.challs }, ok tt)
    else (s, err binder_mismatch)

unfoldable pub consume_challenge : Store → ℕ → String → String → Store × Result (Unit {0})
unfolding consume_found
consume_challenge s now nonce binder =
    if nonce =ˢ ""
    then (s, err nonce_required)
    else consume_found s now nonce binder (lookup nonce s.challs)

pub record RegisterInput : Type 0 where
  pub subject_key : String
  pub token_id : String
  pub algorithm : String
  pub public_key : Bytes
  pub nonce : String
  pub signature : Bytes
  pub binder : String

abbrev pub algorithm_of : RegisterInput → String
algorithm_of i = if i.algorithm =ˢ "" then "ed25519" else i.algorithm

module _ (crypto : Crypto) where
  open crypto use {b64, is_p256_point}

  -- the checks before the challenge is consumed
  unfoldable pub register_check : RegisterInput → Option KeyError
  register_check i =
      if i.subject_key =ˢ "" || is_empty i.public_key || i.nonce =ˢ "" || is_empty i.signature
      then some fields_required
      else if algorithm_of i =ˢ "ed25519"
      then if length i.public_key == 32 then none else some bad_key_length
      else if algorithm_of i =ˢ "ecdsa-p256"
      then if is_p256_point i.public_key then none else some bad_point
      else some unsupported_algorithm

  unfoldable pub registration_envelope : RegisterInput → Envelope
  registration_envelope i =
      registration i.nonce (b64 i.public_key)
        (if i.token_id =ˢ "" then Owner.session i.binder else Owner.token i.token_id)

  unfoldable pub proves_possession : RegisterInput → Bool
  unfolding registration_envelope
  proves_possession i =
      if algorithm_of i =ˢ "ed25519"
      then verify_ed25519 crypto i.public_key (registration_envelope i) i.signature
      else if algorithm_of i =ˢ "ecdsa-p256"
      then verify_p256 crypto i.public_key (registration_envelope i) i.signature
      else false

  unfoldable pub new_key : ℕ → String → RegisterInput → Key
  new_key now uuid i = record {
    key_id = "k_" ++ uuid;
    subject_key = i.subject_key;
    token_id = i.token_id;
    algorithm = algorithm_of i;
    public_key = i.public_key;
    created_at = now;
    revoked_at = none;
  }

  -- what follows once the challenge has been consumed, or refused
  unfoldable pub register_key :
      ℕ → String → RegisterInput → Store × Result (Unit {0}) → Store × Result Key
  unfolding proves_possession new_key
  register_key now uuid i (s, err e) = (s, err e)
  register_key now uuid i (s, ok _) =
      if proves_possession i
      then (
        record s { mem = insert ("k_" ++ uuid) (new_key now uuid i) s.mem },
        ok (new_key now uuid i),
      )
      else (s, err bad_proof)

  unfoldable pub register_checked :
      Store → ℕ → String → RegisterInput → Option KeyError → Store × Result Key
  unfolding register_key consume_challenge
  register_checked s now uuid i (some e) = (s, err e)
  register_checked s now uuid i none =
      register_key now uuid i (consume_challenge s now i.nonce i.binder)

  unfoldable pub register : Store → ℕ → String → RegisterInput → Store × Result Key
  unfolding register_check register_checked
  register s now uuid i = register_checked s now uuid i (register_check i)

unfoldable pub get_key : Store → String → Option Key
get_key s key_id = lookup key_id s.mem

values_of : String → Dict Key → List Key
values_of subject_key [] = []
values_of subject_key ((j, k) ∷ mem) =
    let rest = values_of subject_key mem in if k.subject_key =ˢ subject_key then k ∷ rest else rest

unfoldable pub list_for_subject : Store → String → List Key
unfolding values_of
list_for_subject s subject_key = values_of subject_key s.mem

unfoldable pub revoke_found : Store → ℕ → String → String → Option Key → Store × Result (Unit {0})
revoke_found s now key_id subject_key none = (s, err key_not_found)
revoke_found s now key_id subject_key (some k) =
    if k.subject_key =ˢ subject_key
    then (record s { mem = insert key_id (record k { revoked_at = some now }) s.mem }, ok tt)
    else (s, err key_not_found)

unfoldable pub revoke : Store → ℕ → String → String → Store × Result (Unit {0})
unfolding revoke_found
revoke s now key_id subject_key = revoke_found s now key_id subject_key (lookup key_id s.mem)

-- same subject, not revoked, and a key bound to a token only with that token
unfoldable pub belongs_to_caller : Key → String → String → Bool
belongs_to_caller k subject_key token_id =
    if not (k.subject_key =ˢ subject_key)
    then false
    else if is_some k.revoked_at
    then false
    else if not (k.token_id =ˢ "") && (not (token_id =ˢ "") && not (k.token_id =ˢ token_id))
    then false
    else if not (k.token_id =ˢ "") && token_id =ˢ ""
    then false
    else true
