-- ===== src/Examples/Keys.antt =====
-- The theorems on agent keys at concrete keys and challenges.
use synamcps_server.Prelude.{String, arith, ◌≢◌, eq_iff, none, [], ◌∷◌, ◌≡◌, refl}
use synamcps_server.Prelude.Maps.{lookup, insert, erase}
use synamcps_server.Prelude.Ints.{pos}
use synamcps_server.Crypto.{Bytes, verify_ed25519, verify_hash}
use synamcps_server.AgentKeys.{
  Key, Store, ok, err, not_found_or_expired, RegisterInput, consume_challenge, register,
  create_challenge, revoke, register_check, register_checked, consume_found, register_key,
  proves_possession, registration_envelope, new_key,
}
use synamcps_server.AgentKeys.Runs.{
  Steps, here, next, create_step, revoke_step, challenge_single_use,
}
use synamcps_server.AgentKeys.Laws.{Registered, register-Registered}
use synamcps_server.Examples.{toy_crypto}

abbrev pub writer_key : Key
writer_key = record {
  key_id = "k_1";
  subject_key = "user:internal:alice";
  token_id = "t-1";
  algorithm = "ed25519";
  public_key = 1 ∷ [];
  created_at = 0;
  revoked_at = none;
}

abbrev store : Store
store = record {
  mem = ("k_1", writer_key) ∷ [];
  challs = ("n-1", record { nonce = "n-1"; expires_at = 100; binder = "session-1" }) ∷ [];
}

consumes : (consume_challenge store 50 "n-1" "session-1").1 ≡ ok tt
unfolding consume_challenge lookup
consumes = refl

-- after it was consumed, another challenge is made, and the key revoked
abbrev consumed : Store
consumed = (consume_challenge store 50 "n-1" "session-1").0

another_nonce : ◌≢◌ {A = String} "n-2" "n-1"
another_nonce same = absurd (ground (arith, eq_iff "n-2" "n-1"))

abbrev two_later :
    Steps toy_crypto "n-1" consumed
      (revoke
        (create_challenge consumed 51 "n-2" "session-1" (pos 0)).0
        52
        "k_1"
        "user:internal:alice").0
two_later = next (next here (create_step consumed 51 "n-2" "session-1" (pos 0) another_nonce)) (
    revoke_step (create_challenge consumed 51 "n-2" "session-1" (pos 0)).0 52 "k_1"
      "user:internal:alice")

abbrev later_store : Store
later_store =
    (revoke (create_challenge consumed 51 "n-2" "session-1" (pos 0)).0 52 "k_1"
      "user:internal:alice").0

challenge_single_use_example :
    ((consume_challenge later_store 53 "n-1" "session-1").1 ≡ err not_found_or_expired)
    × ((uuid : String) (i : RegisterInput)
        → i.nonce ≡ "n-1"
        → (register toy_crypto later_store 53 uuid i).0.mem ≡ later_store.mem)
challenge_single_use_example =
    challenge_single_use toy_crypto store later_store 50 53 "n-1" "session-1" "session-1" consumes
      two_later

abbrev key_bytes : Bytes
key_bytes =
    7 ∷ 7 ∷ 7 ∷ 7 ∷ 7 ∷ 7 ∷ 7 ∷ 7 ∷ 7 ∷ 7 ∷ 7 ∷ 7 ∷ 7 ∷ 7 ∷ 7 ∷ 7 ∷ 7 ∷ 7 ∷ 7 ∷ 7 ∷ 7 ∷ 7 ∷ 7 ∷ 7
    ∷ 7 ∷ 7 ∷ 7 ∷ 7 ∷ 7 ∷ 7 ∷ 7 ∷ 7 ∷ []

abbrev registration : RegisterInput
registration = record {
  subject_key = "user:internal:alice";
  token_id = "";
  algorithm = "";
  public_key = key_bytes;
  signature = 42 ∷ 1 ∷ [];
  nonce = "n-1";
  binder = "session-1";
}

abbrev registered_key : Key
registered_key = record {
  key_id = "k_u-1";
  subject_key = "user:internal:alice";
  token_id = "";
  algorithm = "ed25519";
  public_key = key_bytes;
  created_at = 50;
  revoked_at = none;
}

-- the registration succeeds
register-Registered_example : Registered toy_crypto store 50 "u-1" registration (
  record { mem = ("k_1", writer_key) ∷ ("k_u-1", registered_key) ∷ []; challs = [] },
  ok registered_key,
)
unfolding register register_check register_checked consume_challenge consume_found lookup erase
    insert register_key proves_possession verify_ed25519 verify_hash registration_envelope new_key
register-Registered_example = register-Registered toy_crypto store 50 "u-1" registration
