-- ===== src/AgentKeys/Runs.antt =====
-- The calls of a store of agent keys, one after another: a challenge is good for one of them.
use synamcps_server.Prelude.{
  ℕ, String, Option, none, some, ◌≡◌, ◌≢◌, inl, inr, refl, ap, ◌∙◌, arith, Bool-cases, eq_iff,
}
use synamcps_server.Prelude.Strings.{◌=ˢ◌, differs_text}
use synamcps_server.Prelude.Ints.{ℤ}
use synamcps_server.Prelude.Maps.{lookup, erase, lookup-insert, lookup-erase}
use synamcps_server.Crypto.{Crypto}
use synamcps_server.AgentKeys.{
  Key, Challenge, Store, KeyError, Result, ok, err, not_found_or_expired, RegisterInput,
  create_challenge, consume_found, consume_challenge, register_check, proves_possession,
  register_key, register_checked, register, revoke_found, revoke,
}
use synamcps_server.AgentKeys.Laws.{consume-live, Registered, register-Registered}

module _ (crypto : Crypto) where
  -- A call of the store, with any arguments, where a new challenge gets another nonce than the one.
  pub data Step (nonce : String) : Store → Store → Type 0 where
    create_step :
        (s : Store) (now : ℕ) (uuid binder : String) (ttl : ℤ)
        → uuid ≢ nonce
        → Step nonce s (create_challenge s now uuid binder ttl).0
    consume_step :
        (s : Store) (now : ℕ) (asked binder : String)
        → Step nonce s (consume_challenge s now asked binder).0
    register_step :
        (s : Store) (now : ℕ) (uuid : String) (i : RegisterInput)
        → Step nonce s (register crypto s now uuid i).0
    revoke_step :
        (s : Store) (now : ℕ) (key_id subject_key : String)
        → Step nonce s (revoke s now key_id subject_key).0

  pub data Steps (nonce : String) (s : Store) : Store → Type 0 where
    here : Steps nonce s s
    next : {t u : Store} → Steps nonce s t → Step nonce t u → Steps nonce s u

module _ (nonce : String) where
  -- the store has no challenge of the nonce
  abbrev IsGone : Store → Type 0
  IsGone s = lookup nonce s.challs ≡ none

  create-IsGone :
      (s : Store) (now : ℕ) (uuid binder : String) (ttl : ℤ)
      → uuid ≢ nonce
      → IsGone s
      → IsGone (create_challenge s now uuid binder ttl).0
  unfolding create_challenge
  create-IsGone s now uuid binder ttl fresh gone = elim (Bool-cases (binder =ˢ "")) [
    | inl unbound ↦ rw unbound gone
    | inr bound ↦
        rw bound (lookup-insert uuid nonce _ s.challs ∙ rw (differs_text uuid nonce fresh) gone)
  ]

  erase-IsGone :
      (s : Store) (asked : String) → IsGone s → IsGone (record s { challs = erase asked s.challs })
  erase-IsGone s asked gone = elim (Bool-cases (asked =ˢ nonce)) [
    | inl same ↦ lookup-erase asked nonce s.challs ∙ rw same refl
    | inr away ↦ lookup-erase asked nonce s.challs ∙ rw away gone
  ]

  consume_found-IsGone :
      (s : Store) (now : ℕ) (asked binder : String) (found : Option Challenge)
      → IsGone s
      → IsGone (consume_found s now asked binder found).0
  unfolding consume_found
  consume_found-IsGone s now asked binder none gone = erase-IsGone s asked gone
  consume_found-IsGone s now asked binder (some ch) gone = ground (arith, erase-IsGone s asked gone)

  consume-IsGone :
      (s : Store) (now : ℕ) (asked binder : String)
      → IsGone s
      → IsGone (consume_challenge s now asked binder).0
  unfolding consume_challenge
  consume-IsGone s now asked binder gone =
      ground (arith, consume_found-IsGone s now asked binder (lookup asked s.challs) gone)

  revoke_found-IsGone :
      (s : Store) (now : ℕ) (key_id subject_key : String) (found : Option Key)
      → IsGone s
      → IsGone (revoke_found s now key_id subject_key found).0
  unfolding revoke_found
  revoke_found-IsGone s now key_id subject_key none gone = gone
  revoke_found-IsGone s now key_id subject_key (some k) gone = ground arith

  consume-refused :
      (s : Store) (now : ℕ) (binder : String)
      → nonce ≢ ""
      → IsGone s
      → (consume_challenge s now nonce binder).1 ≡ err not_found_or_expired
  unfolding consume_challenge consume_found
  consume-refused s now binder named gone = rw (differs_text nonce "" named, gone) refl

module _ (crypto : Crypto) (nonce : String) where
  register_key-IsGone :
      (now : ℕ) (uuid : String) (i : RegisterInput) (s : Store) (r : Result (Unit {0}))
      → IsGone nonce s
      → IsGone nonce (register_key crypto now uuid i (s, r)).0
  unfolding register_key
  register_key-IsGone now uuid i s (err e) gone = gone
  register_key-IsGone now uuid i s (ok _) gone = elim (Bool-cases (proves_possession crypto i)) [
    | inl proved ↦ rw proved gone
    | inr failed ↦ rw failed gone
  ]

  register_checked-IsGone :
      (s : Store) (now : ℕ) (uuid : String) (i : RegisterInput) (e : Option KeyError)
      → IsGone nonce s
      → IsGone nonce (register_checked crypto s now uuid i e).0
  unfolding register_checked
  register_checked-IsGone s now uuid i (some e) gone = gone
  register_checked-IsGone s now uuid i none gone =
      register_key-IsGone now uuid i _ _ (consume-IsGone nonce s now i.nonce i.binder gone)

  Step-IsGone : {s t : Store} → Step crypto nonce s t → IsGone nonce s → IsGone nonce t
  unfolding register revoke
  Step-IsGone (create_step s now uuid binder ttl fresh) gone =
      create-IsGone nonce s now uuid binder ttl fresh gone
  Step-IsGone (consume_step s now asked binder) gone = consume-IsGone nonce s now asked binder gone
  Step-IsGone (register_step s now uuid i) gone =
      register_checked-IsGone s now uuid i (register_check crypto i) gone
  Step-IsGone (revoke_step s now key_id subject_key) gone =
      revoke_found-IsGone nonce s now key_id subject_key (lookup key_id s.mem) gone

  Steps-IsGone : {s t : Store} → IsGone nonce s → Steps crypto nonce s t → IsGone nonce t
  Steps-IsGone gone here = gone
  Steps-IsGone gone (next steps step) = Step-IsGone step (Steps-IsGone gone steps)

  Registered-not :
      (t : Store) (later : ℕ) (uuid : String) (i : RegisterInput) (t' : Store) (r : Result Key)
      → i.nonce ≡ nonce
      → IsGone nonce t
      → Registered crypto t later uuid i (t', r)
      → t'.mem ≡ t.mem
  Registered-not t later uuid i t' (err e) same gone reg = reg
  Registered-not t later uuid i t' (ok key) same gone reg =
      let (ch, found, bound, live) = reg.8 in
      absurd (ground (arith, ap (λ n. lookup n t.challs) same))

consumed_named :
    (s : Store) (now : ℕ) (nonce binder : String)
    → (consume_challenge s now nonce binder).1 ≡ ok tt
    → nonce ≢ ""
unfolding consume_challenge
consumed_named s now nonce binder h same = absurd (cc (rw ((eq_iff nonce "").1 same) at h))

-- Once a challenge was consumed, its nonce is refused ever after: whatever calls follow, as long as
-- no new challenge draws the same nonce, a call that would consume it is refused as not found,
-- whoever makes it and whenever, and a registration with it stores no key.
pub challenge_single_use :
    (crypto : Crypto) (s t : Store) (now later : ℕ) (nonce binder another : String)
    → (consume_challenge s now nonce binder).1 ≡ ok tt
    → Steps crypto nonce (consume_challenge s now nonce binder).0 t
    → ((consume_challenge t later nonce another).1 ≡ err not_found_or_expired)
      × ((uuid : String) (i : RegisterInput)
          → i.nonce ≡ nonce
          → (register crypto t later uuid i).0.mem ≡ t.mem)
challenge_single_use crypto s t now later nonce binder another h steps =
    let gone = Steps-IsGone crypto nonce (consume-live s now nonce binder h).1 steps in
    (
      consume-refused nonce t later another (consumed_named s now nonce binder h) gone,
      λ uuid i same.
          Registered-not crypto nonce t later uuid i _ _ same gone
            (register-Registered crypto t later uuid i),
    )
