-- ===== src/SecureBus/Service/Attest/Words.antt =====
-- A signer's words on a message: an attestation supersedes the signer's earlier ones.
use synamcps_server.Prelude.{
  ℕ, ◌+◌, ◌≤◌, String, Bool, true, none, List, [], ◌∷◌, ◌++◌, ◌≡◌, inl, inr, refl, sym, ◌∙◌, arith,
  eq_iff, length, ◌==◌, ◌&&◌, not, is_some, keep, map, Bool-cases, if◌then◌else◌, subst,
}
use synamcps_server.Prelude.Strings.{◌=ˢ◌}
use synamcps_server.SecureBus.Service.{Attestation}
use synamcps_server.SecureBus.Service.Attest.{supersede}

-- A signer's word on a message that is not superseded.
abbrev pub is_live : ℕ → String → Attestation → Bool
is_live message_id signer a =
    a.message_id == message_id && a.signer_key_id =ˢ signer && not (is_some a.superseded_at)

abbrev pub live : ℕ → String → List Attestation → List Attestation
live message_id signer atts = keep (is_live message_id signer) atts

-- A signer has one word on a message.
abbrev pub OneWord : List Attestation → Type 0
OneWord atts = (message_id : ℕ) (signer : String) → length (live message_id signer atts) ≤ 1

keep-append {ℓ} :
    {A : Type ℓ} (p : A → Bool) (xs ys : List A) → keep p (xs ++ ys) ≡ keep p xs ++ keep p ys
keep-append p [] ys = refl
keep-append p (x ∷ xs) ys = ground (arith, keep-append p xs ys)

supersede_own :
    (att : Attestation) (xs : List Attestation)
    → live att.message_id att.signer_key_id (map (supersede att) xs) ≡ []
unfolding supersede
supersede_own att [] = refl
supersede_own att (a ∷ xs) = ground (arith, supersede_own att xs)

supersede_le :
    (att : Attestation) (message_id : ℕ) (signer : String) (xs : List Attestation)
    → length (live message_id signer (map (supersede att) xs)) ≤ length (live message_id signer xs)
unfolding supersede
supersede_le att message_id signer [] = ground arith
supersede_le att message_id signer (a ∷ xs) = ground (arith, supersede_le att message_id signer xs)

pub live_new :
    (att : Attestation) (xs : List Attestation) (a : Attestation)
    → a.message_id ≡ att.message_id
    → a.signer_key_id ≡ att.signer_key_id
    → a.superseded_at ≡ none
    → live att.message_id att.signer_key_id (map (supersede att) xs ++ a ∷ []) ≡ a ∷ []
live_new att xs a m k free =
    keep-append (is_live att.message_id att.signer_key_id) (map (supersede att) xs) (a ∷ [])
    ∙ rw (supersede_own att xs) (
        ground
          (arith, ==_same a.message_id att.message_id m, eq_iff a.signer_key_id att.signer_key_id))
  where
    ==_same : (x y : ℕ) → x ≡ y → (x == y) ≡ true
    ==_same x y e = ground arith

is_live-same :
    (message_id : ℕ) (signer : String) (a : Attestation)
    → is_live message_id signer a ≡ true
    → (a.message_id ≡ message_id) × (a.signer_key_id ≡ signer)
is_live-same message_id signer a h = (ground arith, ground (arith, eq_iff a.signer_key_id signer))

length-live-append :
    (message_id : ℕ) (signer : String) (xs : List Attestation) (a : Attestation)
    → length (live message_id signer (xs ++ a ∷ []))
      ≡ length (live message_id signer xs) + (if is_live message_id signer a then 1 else 0)
length-live-append message_id signer [] a = ground arith
length-live-append message_id signer (x ∷ xs) a =
    ground (arith, length-live-append message_id signer xs a)

pub OneWord-append :
    (att : Attestation) (xs : List Attestation) (a : Attestation)
    → a.message_id ≡ att.message_id
    → a.signer_key_id ≡ att.signer_key_id
    → a.superseded_at ≡ none
    → OneWord xs
    → OneWord (map (supersede att) xs ++ a ∷ [])
OneWord-append att xs a m k free one message_id signer =
    elim (Bool-cases (is_live message_id signer a)) [
      | inl mine ↦
          let (em, ek) = is_live-same message_id signer a mine in
          subst (λ j. length (live j signer (map (supersede att) xs ++ a ∷ [])) ≤ 1) (sym m ∙ em)
            (subst (λ j. length (live att.message_id j (map (supersede att) xs ++ a ∷ [])) ≤ 1)
              (sym k ∙ ek) (rw (live_new att xs a m k free) (omega arith)))
      | inr other ↦
          rw (length-live-append message_id signer (map (supersede att) xs) a, other)
            (ground (arith, supersede_le att message_id signer xs, one message_id signer))
    ]
