-- ===== src/AgentKeys/Laws.antt =====
-- What registration, revocation and the ownership test of agent keys guarantee.
use Prim.Native.String.{◌++◌}
use synamcps_server.Prelude.{
  ℕ, ◌≤◌, String, true, false, Option, none, some, ◌≡◌, ◌≢◌, ◌↔◌, ◌⊎◌, inl, inr, refl, sym, ◌∙◌,
  length, arith, if◌then◌else◌, eq_iff, eq_refl, Bool-cases,
}
use synamcps_server.Prelude.Strings.{◌=ˢ◌}
use synamcps_server.Prelude.Maps.{lookup, lookup-insert, lookup-erase}
use synamcps_server.Crypto.{Owner, registration, Crypto, verify_ed25519, verify_p256}
use synamcps_server.AgentKeys.{
  Key, Challenge, Store, KeyError, Result, ok, err, RegisterInput, algorithm_of,
  registration_envelope, consume_found, consume_challenge, register_check, proves_possession,
  new_key, register_key, register_checked, register, get_key, revoke_found, revoke,
  belongs_to_caller,
}

-- The caller is the key's subject, the key is not revoked, and if it is bound to a token, the
-- caller's token is that one (in particular, the caller has one).
pub belongs_to_caller_iff :
    (k : Key) (subject_key token_id : String)
    → (belongs_to_caller k subject_key token_id ≡ true) ↔ (
        (k.subject_key ≡ subject_key)
        × (k.revoked_at ≡ none)
        × ((k.token_id ≡ "") ⊎ (k.token_id ≡ token_id)))
unfolding belongs_to_caller
belongs_to_caller_iff k subject_key token_id = (
  λ h. ground (
    arith,
    eq_iff k.subject_key subject_key,
    eq_iff k.token_id "",
    eq_iff token_id "",
    eq_iff k.token_id token_id,
  ),
  λ h. ground (
    arith,
    eq_iff k.subject_key subject_key,
    eq_iff k.token_id "",
    eq_iff token_id "",
    eq_iff k.token_id token_id,
  ),
)

-- A challenge that was consumed is in the store no more.
pub consume_found-gone :
    (s : Store) (now : ℕ) (nonce binder : String) (found : Option Challenge)
    → (consume_found s now nonce binder found).1 ≡ ok tt
    → lookup nonce (consume_found s now nonce binder found).0.challs ≡ none
unfolding consume_found
consume_found-gone s now nonce binder none h = ground arith
consume_found-gone s now nonce binder (some ch) h =
    ground (arith, lookup-erase nonce nonce s.challs, eq_iff nonce nonce)

-- A live challenge of the store, made for the binder.
abbrev pub LiveChallenge : Store → ℕ → String → String → Type 0
LiveChallenge s now nonce binder =
    (ch : Challenge) × (lookup nonce s.challs ≡ some ch)
    × (ch.binder ≡ binder)
    × (now ≤ ch.expires_at)

consume_found-live :
    (s : Store) (now : ℕ) (nonce binder : String) (found : Option Challenge)
    → lookup nonce s.challs ≡ found
    → (consume_found s now nonce binder found).1 ≡ ok tt
    → LiveChallenge s now nonce binder
unfolding consume_found
consume_found-live s now nonce binder none e h = absurd (ground arith)
consume_found-live s now nonce binder (some ch) e h =
    (ch, e, ground (arith, eq_iff ch.binder binder), ground arith)

consume_found-mem :
    (s : Store) (now : ℕ) (nonce binder : String) (found : Option Challenge)
    → (consume_found s now nonce binder found).0.mem ≡ s.mem
unfolding consume_found
consume_found-mem s now nonce binder none = refl
consume_found-mem s now nonce binder (some ch) = ground arith

pub consume-mem :
    (s : Store) (now : ℕ) (nonce binder : String)
    → (consume_challenge s now nonce binder).0.mem ≡ s.mem
unfolding consume_challenge
consume-mem s now nonce binder =
    ground (arith, consume_found-mem s now nonce binder (lookup nonce s.challs))

pub consume-live :
    (s : Store) (now : ℕ) (nonce binder : String)
    → (consume_challenge s now nonce binder).1 ≡ ok tt
    → LiveChallenge s now nonce binder
      × (lookup nonce (consume_challenge s now nonce binder).0.challs ≡ none)
unfolding consume_challenge
consume-live s now nonce binder h = elim (Bool-cases (nonce =ˢ "")) [
  | inl empty ↦ cc (rw empty at h)
  | inr named ↦ rw named (
    consume_found-live s now nonce binder _ refl (rw named at h),
    consume_found-gone s now nonce binder (lookup nonce s.challs) (rw named at h),
  )
]

module _ (crypto : Crypto) where
  -- the signature is over the nonce, the key and its owner, by that key, which has its algorithm's
  -- form
  abbrev pub ProvesOwnKey : RegisterInput → Key → Type 0
  ProvesOwnKey i key =
      let signed =
        registration i.nonce (crypto.b64 key.public_key)
          (if key.token_id =ˢ "" then Owner.session i.binder else Owner.token key.token_id) in
      ((key.algorithm ≡ "ed25519")
        × (length key.public_key ≡ 32)
        × (verify_ed25519 crypto key.public_key signed i.signature ≡ true))
      ⊎ ((key.algorithm ≡ "ecdsa-p256")
          × (crypto.is_p256_point key.public_key ≡ true)
          × (verify_p256 crypto key.public_key signed i.signature ≡ true))

  -- What a registration that succeeds has made sure of, and what it leaves.
  abbrev pub Registered : Store → ℕ → String → RegisterInput → Store × Result Key → Type 0
  Registered s now uuid i (s', err e) = s'.mem ≡ s.mem
  Registered s now uuid i (s', ok key) =
      (key.key_id ≡ "k_" ++ uuid)
      × (key.subject_key ≡ i.subject_key)
      × (key.token_id ≡ i.token_id)
      × (key.public_key ≡ i.public_key)
      × (key.algorithm ≡ (if i.algorithm =ˢ "" then "ed25519" else i.algorithm))
      × (key.created_at ≡ now)
      × (key.revoked_at ≡ none)
      × ProvesOwnKey i key
      × LiveChallenge s now i.nonce i.binder
      × (lookup i.nonce s'.challs ≡ none)
      × ((j : String) → get_key s' j ≡ (if key.key_id =ˢ j then some key else get_key s j))
      × (belongs_to_caller key i.subject_key i.token_id ≡ true)

  proves_possession-ProvesOwnKey :
      (now : ℕ) (uuid : String) (i : RegisterInput)
      → register_check crypto i ≡ none
      → proves_possession crypto i ≡ true
      → ProvesOwnKey i (new_key crypto now uuid i)
  unfolding register_check proves_possession registration_envelope new_key
  proves_possession-ProvesOwnKey now uuid i check proved =
      elim (Bool-cases (algorithm_of i =ˢ "ed25519")) [
        | inl ed ↦ inl ((eq_iff (algorithm_of i) "ed25519").0 ed, ground arith, rw ed at proved)
        | inr no_ed ↦ elim (Bool-cases (algorithm_of i =ˢ "ecdsa-p256")) [
          | inl p256 ↦ inr (
            (eq_iff (algorithm_of i) "ecdsa-p256").0 p256,
            ground arith,
            rw (no_ed, p256) at proved,
          )
          | inr neither ↦ absurd (ground arith)
        ]
      ]

  register_key-Registered :
      (s : Store) (now : ℕ) (uuid : String) (i : RegisterInput) (s' : Store) (r : Result (Unit {0}))
      → register_check crypto i ≡ none
      → s'.mem ≡ s.mem
      → (r ≡ ok tt → LiveChallenge s now i.nonce i.binder × (lookup i.nonce s'.challs ≡ none))
      → Registered s now uuid i (register_key crypto now uuid i (s', r))
  unfolding register_key
  register_key-Registered s now uuid i s' (err e) check same live = same
  register_key-Registered s now uuid i s' (ok _) check same live =
      elim (Bool-cases (proves_possession crypto i)) [
        | inl proved ↦ rw proved (
          unfold new_key in refl,
          unfold new_key in refl,
          unfold new_key in refl,
          unfold new_key in refl,
          unfold new_key in refl,
          unfold new_key in refl,
          unfold new_key in refl,
          proves_possession-ProvesOwnKey now uuid i check proved,
          (live refl).0,
          (live refl).1,
          λ j. unfold get_key new_key in rw (lookup-insert, same),
          (belongs_to_caller_iff _ _ _).1 (unfold new_key in (refl, refl, inr refl)),
        )
        | inr failed ↦ rw failed same
      ]

  register_checked-Registered :
      (s : Store) (now : ℕ) (uuid : String) (i : RegisterInput) (e : Option KeyError)
      → register_check crypto i ≡ e
      → Registered s now uuid i (register_checked crypto s now uuid i e)
  unfolding register_checked
  register_checked-Registered s now uuid i (some e) check = refl
  register_checked-Registered s now uuid i none check =
      register_key-Registered s now uuid i _ _ check (consume-mem s now i.nonce i.binder)
        (consume-live s now i.nonce i.binder)

  -- A registration either is refused and stores no key, or it has consumed a live challenge made
  -- for the caller's binder, and has stored, beside the other keys, the one it returns: under the new
  -- id, with the public key, algorithm, subject and token that the call named, not revoked. That key
  -- has the form of its algorithm, and the signature of the call is by it, over the nonce, itself and
  -- its owner; it is the caller's own, and the challenge is gone.
  pub register-Registered :
      (s : Store) (now : ℕ) (uuid : String) (i : RegisterInput)
      → Registered s now uuid i (register crypto s now uuid i)
  unfolding register
  register-Registered s now uuid i =
      register_checked-Registered s now uuid i (register_check crypto i) refl

revoke_found_ok :
    (s : Store) (now : ℕ) (key_id subject_key : String) (found : Option Key)
    → lookup key_id s.mem ≡ found
    → (revoke_found s now key_id subject_key found).1 ≡ ok tt
    → (k : Key) × (lookup key_id s.mem ≡ some k)
      × (k.subject_key ≡ subject_key)
      × ((j : String)
          → get_key (revoke_found s now key_id subject_key found).0 j
            ≡ (if key_id =ˢ j then some (record k { revoked_at = some now }) else get_key s j))
unfolding revoke_found
revoke_found_ok s now key_id subject_key none e h = absurd (ground arith)
revoke_found_ok s now key_id subject_key (some k) e h =
    elim (Bool-cases (k.subject_key =ˢ subject_key)) [
      | inl own ↦ (
        k,
        e,
        (eq_iff k.subject_key subject_key).0 own,
        λ j. rw own (unfold get_key in rw lookup-insert),
      )
      | inr foreign ↦ cc (rw foreign at h)
    ]

revoked_of :
    (k k' : Key) (now : ℕ)
    → some (record k { revoked_at = some now }) ≡ some k'
    → k'.revoked_at ≡ some now
revoked_of k k' now e = ground arith

revoked_is_foreign :
    (k : Key) (now : ℕ) (caller token : String)
    → k.revoked_at ≡ some now
    → belongs_to_caller k caller token ≡ false
unfolding belongs_to_caller
revoked_is_foreign k now caller token h = ground arith

other_key {ℓ} : {A : Type ℓ} (k j : String) (a b : A) → j ≢ k → (if k =ˢ j then a else b) ≡ b
other_key k j a b ne = elim (Bool-cases (k =ˢ j)) [
  | inl same ↦ absurd (ne (sym ((eq_iff k j).0 same)))
  | inr differ ↦ rw differ
]

-- Only the subject of a key revokes it. After that the key is no caller's, whatever subject and
-- token the caller has, and every other key is what it was.
pub revoke_final :
    (s : Store) (now : ℕ) (key_id subject_key : String)
    → (revoke s now key_id subject_key).1 ≡ ok tt
    → (k : Key) × (get_key s key_id ≡ some k)
      × (k.subject_key ≡ subject_key)
      × ((k' : Key) (caller token : String)
          → get_key (revoke s now key_id subject_key).0 key_id ≡ some k'
          → belongs_to_caller k' caller token ≡ false)
      × ((j : String) → j ≢ key_id → get_key (revoke s now key_id subject_key).0 j ≡ get_key s j)
unfolding revoke
revoke_final s now key_id subject_key h =
    let (k, found, own, after) =
      revoke_found_ok s now key_id subject_key (lookup key_id s.mem) refl h in
    (
      k,
      unfold get_key in found,
      own,
      λ k' caller token g.
          revoked_is_foreign k' now caller token
            (revoked_of k k' now (sym (after key_id ∙ rw (eq_refl)) ∙ g)),
      λ j ne. after j ∙ other_key key_id j _ _ ne,
    )
