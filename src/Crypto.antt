-- ===== src/Crypto.antt =====
-- The envelopes that are signed, the cryptography that the program takes from Go's libraries, and
-- `VerifyEd25519` and `VerifyAgentSig` of internal/securebus/canonical.go over it.
use synamcps_server.Prelude.{
  ℕ, String, Bool, false, Option, none, some, List, [], ◌||◌, ◌&&◌, if◌then◌else◌, length, ◌==◌,
}
use synamcps_server.Prelude.Strings.{◌=ˢ◌}
use synamcps_server.Prelude.Ints.{ℤ}
use synamcps_server.Json.{Fields}

abbrev pub Bytes : Type 0
Bytes = List ℕ

-- What is signed: the JSON object with exactly these members. The member `prevHash` is there when
-- its text is not empty, a time is the instant that its RFC 3339 text stands for, and the owner of
-- a key is its token or, with no token, its session.
pub data Owner : Type 0 where
  token session : String → Owner

pub data Envelope : Type 0 where
  registration : (nonce public_key : String) → Owner → Envelope
  message :
      (object_id : String)
      → (policy_version : ℤ) → (policy_hash author_key_id nonce : String) → (created_at : ℕ)
      → (payload : Fields) → (prev_hash : String) → Envelope
  attestation :
      (message_id : ℤ)
      → (message_hash : String) → (policy_version : ℤ) → (signer_key_id status comment : String)
      → (created_at : ℕ) → Envelope

-- Go's crypto and encoding libraries, and the canonical JSON: `hash_canonical` stands for
-- `HashCanonical`, the SHA-256 of what `CanonicalJSON` writes, which is not modelled; it is `none`
-- where the JSON cannot be written. `ed25519_verify` answers for keys of 32 bytes, which registration
-- asks for; Go's function panics on others.
pub record Crypto : Type 0 where
  pub hash_canonical : Envelope → Option Bytes
  pub b64 : Bytes → String
  pub decode_b64 : String → Option Bytes
  pub ed25519_verify : Bytes → Bytes → Bytes → Bool
  pub is_p256_point : Bytes → Bool
  pub ecdsa_verify_asn1 : Bytes → Bytes → Bytes → Bool
  pub ecdsa_verify_raw : Bytes → Bytes → Bytes → Bool

module _ (crypto : Crypto) where
  open crypto use {
    hash_canonical, b64, ed25519_verify, is_p256_point, ecdsa_verify_asn1, ecdsa_verify_raw,
  }

  -- `h, err := HashCanonical(envelope); if err != nil { return false }`, and the check of `h`
  unfoldable pub verify_hash : (Bytes → Bool) → Option Bytes → Bool
  verify_hash check none = false
  verify_hash check (some h) = check h

  unfoldable pub verify_ed25519 : Bytes → Envelope → Bytes → Bool
  unfolding verify_hash
  verify_ed25519 public_key envelope sig =
      verify_hash (λ h. ed25519_verify public_key h sig) (hash_canonical envelope)

  -- an ASN.1 signature, or 64 bytes r ‖ s
  unfoldable pub verify_p256 : Bytes → Envelope → Bytes → Bool
  unfolding verify_hash
  verify_p256 public_key envelope sig =
      is_p256_point public_key
      && verify_hash
          (λ h.
            ecdsa_verify_asn1 public_key h sig
            || ((length sig == 64) && ecdsa_verify_raw public_key h sig))
          (hash_canonical envelope)

  unfoldable pub verify_agent_sig : String → Bytes → Bytes → Envelope → Bool
  unfolding verify_ed25519 verify_p256
  verify_agent_sig alg public_key sig envelope =
      if alg =ˢ "" || alg =ˢ "ed25519"
      then verify_ed25519 public_key envelope sig
      else if alg =ˢ "ecdsa-p256"
      then verify_p256 public_key envelope sig
      else false

  -- `B64(msgHash)` of `msgHash, _ := HashCanonical(envelope)`, as `Publish` and `Verify` have it
  unfoldable pub hash_text : Envelope → String
  hash_text envelope = b64 (elim (hash_canonical envelope) [ none ↦ [] | some h ↦ h ])
