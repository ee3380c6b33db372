-- ===== src/Access/Tokens/Laws.antt =====
-- The two maps of the token store agree, whatever calls run on it.
use mathlib.Core.Option as Option
use synamcps_server.Prelude.{
  ℕ, String, Bool, true, false, Option, none, some, List, ◌≡◌, refl, sym, ap, ◌∙◌, subst,
  Bool-cases, Option-cases, ◌⊎◌, inl, inr, eq_iff,
}
use synamcps_server.Prelude.Strings.{◌=ˢ◌, differs_text}
use synamcps_server.Prelude.Maps.{update}
use synamcps_server.Models.{AccessToken, AccessTokenStorage}
use synamcps_server.Access.Tokens.{TokenStore, change_token, delete_token, store_token}

-- A token stands under its own id, and its hash leads to it; and a hash leads to a token with it.
pub record IsIndexed (s : TokenStore) : Type 0 where
  pub found :
      (id : String) (t : AccessToken)
      → s.tokens id ≡ some t
      → (t.id ≡ id) × (s.token_by_hash t.token_hash ≡ some id)
  pub leads :
      (h id : String)
      → s.token_by_hash h ≡ some id
      → (t : AccessToken) × (s.tokens id ≡ some t) × (t.token_hash ≡ h)

-- A change that keeps a token's id and hash.
abbrev pub KeepsIndex : (AccessToken → AccessToken) → Type 0
KeepsIndex change =
    (t : AccessToken) → ((change t).id ≡ t.id) × ((change t).token_hash ≡ t.token_hash)

module _ {ℓ} {V : Type ℓ} (f : String → V) (k j : String) (v : V) where
  pub update_here : k ≡ j → update f k v j ≡ v
  update_here e = rw ((eq_iff k j).1 e) refl

  pub update_away : (k =ˢ j) ≡ false → update f k v j ≡ f j
  update_away e = rw e refl

  -- what a key has after a write is what was written, or what it had
  pub update-cases :
      {w : V} → update f k v j ≡ w → ((k ≡ j) × (v ≡ w)) ⊎ (((k =ˢ j) ≡ false) × (f j ≡ w))
  update-cases e = elim (Bool-cases (k =ˢ j)) [
    | inl here ↦ inl ((eq_iff k j).0 here, sym (update_here ((eq_iff k j).0 here)) ∙ e)
    | inr away ↦ inr (away, sym (update_away away) ∙ e)
  ]

pub change_some :
    (s : TokenStore) (k : String) (change : AccessToken → AccessToken) (t : AccessToken)
    → s.tokens k ≡ some t
    → change_token s k change ≡ record s { tokens = update s.tokens k (some (change t)) }
unfolding change_token
change_some s k change t e = rw (change_token, e) refl

pub change_none :
    (s : TokenStore) (k : String) (change : AccessToken → AccessToken)
    → s.tokens k ≡ none
    → change_token s k change ≡ s
unfolding change_token
change_none s k change e = rw (change_token, e) refl

pub same_some {ℓ} : {A : Type ℓ} {a b : A} {o : Option A} → o ≡ some a → o ≡ some b → a ≡ b
same_some e f = Option.some-injective _ _ (sym e ∙ f)

pub none_differs {ℓ} : {A : Type ℓ} {a : A} {o : Option A} → o ≡ none → o ≡ some a → ⊥
none_differs e f = cc

changed-IsIndexed :
    (s : TokenStore) (k : String) (change : AccessToken → AccessToken) (t : AccessToken)
    → KeepsIndex change
    → IsIndexed s
    → s.tokens k ≡ some t
    → IsIndexed (record s { tokens = update s.tokens k (some (change t)) })
changed-IsIndexed s k change t keeps w at_k = record {
  found = λ id u e. elim (update-cases s.tokens k id (some (change t)) e) [
    | inl (here, written) ↦
        let same = Option.some-injective _ _ written in
        (
          sym (ap (λ (a : AccessToken). a.id) same) ∙ (keeps t).0 ∙ (w.found k t at_k).0 ∙ here,
          ap s.token_by_hash (sym (ap (λ (a : AccessToken). a.token_hash) same) ∙ (keeps t).1)
              ∙ (w.found k t at_k).1
              ∙ ap some here,
        )
    | inr (away, old) ↦ w.found id u old
  ];
  leads = λ h id e.
      let (u, at_id, hash) = w.leads h id e in
      elim (Bool-cases (k =ˢ id)) [
        | inl here ↦
            let same : t ≡ u = same_some at_k (ap s.tokens ((eq_iff k id).0 here) ∙ at_id) in
            (
              change t,
              update_here s.tokens k id (some (change t)) ((eq_iff k id).0 here),
              (keeps t).1 ∙ ap (λ (a : AccessToken). a.token_hash) same ∙ hash,
            )
        | inr away ↦ (u, update_away s.tokens k id (some (change t)) away ∙ at_id, hash)
      ];
}

pub change_token-IsIndexed :
    (s : TokenStore) (k : String) (change : AccessToken → AccessToken)
    → KeepsIndex change
    → IsIndexed s
    → IsIndexed (change_token s k change)
change_token-IsIndexed s k change keeps w = elim (Option-cases (s.tokens k)) [
  | inl absent ↦ subst IsIndexed (sym (change_none s k change absent)) w
  | inr (t, at_k) ↦
      subst IsIndexed (sym (change_some s k change t at_k))
        (changed-IsIndexed s k change t keeps w at_k)
]

-- A token with an id and a hash that are new.
pub store_token-IsIndexed :
    (hash_token : String → String) (s : TokenStore) (now : ℕ) (token : AccessToken)
    (scopes : List AccessTokenStorage)
    → s.tokens token.id ≡ none
    → s.token_by_hash token.token_hash ≡ none
    → IsIndexed s
    → IsIndexed (store_token hash_token s now token scopes)
unfolding store_token
store_token-IsIndexed hash_token s now token scopes new_id new_hash w = record {
  found = λ id u e. elim (update-cases s.tokens token.id id (some token) e) [
    | inl (here, written) ↦
        let same = Option.some-injective _ _ written in
        (
          sym (ap (λ (a : AccessToken). a.id) same) ∙ here,
          update_here s.token_by_hash token.token_hash u.token_hash (some token.id)
                (ap (λ (a : AccessToken). a.token_hash) same)
              ∙ ap some here,
        )
    | inr (away, old) ↦
        let (own_id, at_hash) = w.found id u old in
        let other : (token.token_hash =ˢ u.token_hash) ≡ false =
          differs_text token.token_hash u.token_hash
            (λ same. none_differs (sym (ap s.token_by_hash same) ∙ new_hash) at_hash) in
        (
          own_id,
          update_away s.token_by_hash token.token_hash u.token_hash (some token.id) other ∙ at_hash,
        )
  ];
  leads = λ h id e. elim (update-cases s.token_by_hash token.token_hash h (some token.id) e) [
    | inl (here, written) ↦ (
      token,
      update_here s.tokens token.id id (some token) (Option.some-injective _ _ written),
      here,
    )
    | inr (away, old) ↦
        let (u, at_id, hash) = w.leads h id old in
        let other : (token.id =ˢ id) ≡ false =
          differs_text token.id id (λ same. none_differs (sym (ap s.tokens same) ∙ new_id) at_id) in
        (u, update_away s.tokens token.id id (some token) other ∙ at_id, hash)
  ];
}

false_differs : {b : Bool} → b ≡ false → b ≡ true → ⊥
false_differs e f = cc

-- a deletion keeps the hash of every other token
pub delete_token-keeps :
    (s : TokenStore) (k : String)
    → IsIndexed s
    → {id : String} (u : AccessToken) → (k =ˢ id) ≡ false
    → s.tokens id ≡ some u
    → (delete_token s k).token_by_hash u.token_hash ≡ some id
unfolding delete_token
delete_token-keeps s k w {id} u away at_id = elim (Option-cases (s.tokens k)) [
  | inl absent ↦ rw (delete_token, absent) (w.found id u at_id).1
  | inr (t, at_k) ↦
      let other : (t.token_hash =ˢ u.token_hash) ≡ false =
        differs_text t.token_hash u.token_hash (λ same. false_differs away (
          (eq_iff k id).1 (
            Option.some-injective _ _
              (sym (w.found k t at_k).1 ∙ ap s.token_by_hash same ∙ (w.found id u at_id).1)))) in
      rw (delete_token, at_k)
        (update_away s.token_by_hash t.token_hash u.token_hash none other ∙ (w.found id u at_id).1)
]

-- what a hash leads to after a deletion is what it led to, and not the deleted token
pub delete_token-leads :
    (s : TokenStore) (k h id : String)
    → IsIndexed s
    → (delete_token s k).token_by_hash h ≡ some id
    → (s.token_by_hash h ≡ some id) × ((k =ˢ id) ≡ false)
unfolding delete_token
delete_token-leads s k h id w e = elim (Option-cases (s.tokens k)) [
  | inl absent ↦
      let old : s.token_by_hash h ≡ some id = rw (delete_token, absent) at e in
      let (u, at_id, _) = w.leads h id old in
      (old, differs_text k id (λ same. none_differs absent (ap s.tokens same ∙ at_id)))
  | inr (t, at_k) ↦
      let left : update s.token_by_hash t.token_hash none h ≡ some id =
        rw (delete_token, at_k) at e in
      elim (update-cases s.token_by_hash t.token_hash h none left) [
        | inl (_, written) ↦ absurd (none_differs refl written)
        | inr (away, old) ↦
            let (u, at_id, hash) = w.leads h id old in
            (
              old,
              differs_text k id (λ same. false_differs away (
                  (eq_iff _ h).1 (
                    ap (λ (a : AccessToken). a.token_hash)
                      (same_some at_k (ap s.tokens same ∙ at_id))
                    ∙ hash))),
            )
      ]
]

pub delete_token-IsIndexed :
    (s : TokenStore) (k : String) → IsIndexed s → IsIndexed (delete_token s k)
unfolding delete_token
delete_token-IsIndexed s k w = record {
  found = λ id u e. elim (update-cases s.tokens k id none e) [
    | inl (_, written) ↦ absurd (none_differs refl written)
    | inr (away, old) ↦
        let (own_id, at_hash) = w.found id u old in (own_id, delete_token-keeps s k w u away old)
  ];
  leads = λ h id e.
      let (old, away) = delete_token-leads s k h id w e in
      let (u, at_id, hash) = w.leads h id old in
      (u, update_away s.tokens k id none away ∙ at_id, hash);
}
