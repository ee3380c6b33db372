-- ===== src/Access/Tokens/Runs.antt =====
-- Calls of the token store one after another, and what becomes of a token that was revoked.
use synamcps_server.Prelude.{
  ℕ, String, true, Option, none, some, List, ◌≡◌, ◌≢◌, refl, sym, ap, ◌∙◌, subst, Bool-cases,
  Option-cases, ◌⊎◌, inl, inr, is_some,
}
use synamcps_server.Prelude.Strings.{◌=ˢ◌, differs_text}
use synamcps_server.Models.{AccessToken, AccessTokenStorage, RateLimitPolicy}
use synamcps_server.Access.Tokens.{
  TokenStore, CreateTokenInput, unknown_token, refused, revoked_or_expired, new_token, create_token,
  store_token, mark_token_used, revoke_token, update_token_rate_limit, change_token, delete_token,
  replace_token_storages, is_over, was_used_recently, token_of, resolve_found, resolve_token,
}
use synamcps_server.Access.Tokens.Laws.{
  IsIndexed, KeepsIndex, update_here, update_away, update-cases, change_some, change_none,
  same_some, none_differs, change_token-IsIndexed, store_token-IsIndexed, delete_token-IsIndexed,
  delete_token-leads,
}

module _ (hash_token : String → String) (h : String) where
  -- A call of the store. The id of a new token and its hash are those of random texts: no token has them,
  -- and `h` is not that hash.
  pub data Step : TokenStore → TokenStore → Type 0 where
    create_step :
        (s : TokenStore) (now : ℕ) (id raw : String) (i : CreateTokenInput)
        → s.tokens id ≡ none
        → s.token_by_hash (hash_token raw) ≡ none
        → hash_token raw ≢ h
        → Step s (create_token hash_token s now id raw i).0
    mark_step : (s : TokenStore) (now : ℕ) (id : String) → Step s (mark_token_used s now id)
    revoke_step : (s : TokenStore) (now : ℕ) (id : String) → Step s (revoke_token s now id)
    limit_step :
        (s : TokenStore) (id : String) (policy : RateLimitPolicy)
        → Step s (update_token_rate_limit s id policy)
    delete_step : (s : TokenStore) (id : String) → Step s (delete_token s id)
    replace_step :
        (s : TokenStore) (now : ℕ) (id : String) (scopes : List AccessTokenStorage)
        → Step s (replace_token_storages s now id scopes)
    resolve_step :
        (s : TokenStore) (now : ℕ) (raw : String) → Step s (resolve_token hash_token s now raw).0

  pub data Steps (s : TokenStore) : TokenStore → Type 0 where
    here : Steps s s
    next : {t u : TokenStore} → Steps s t → Step t u → Steps s u

-- Any token that a hash leads to is revoked.
abbrev pub IsDead : String → TokenStore → Type 0
IsDead h s =
    (id : String) (t : AccessToken)
    → s.token_by_hash h ≡ some id
    → s.tokens id ≡ some t
    → is_some t.revoked_at ≡ true

-- A change after which a revoked token is still revoked.
abbrev KeepsRevoked : (AccessToken → AccessToken) → Type 0
KeepsRevoked change =
    (t : AccessToken) → is_some t.revoked_at ≡ true → is_some (change t).revoked_at ≡ true

-- the state of a store in which the hash leads to revoked tokens at most
abbrev pub Safe : String → TokenStore → Type 0
Safe h s = IsIndexed s × IsDead h s

change_token-IsDead :
    (h : String) (s : TokenStore) (k : String) (change : AccessToken → AccessToken)
    → KeepsRevoked change
    → IsDead h s
    → IsDead h (change_token s k change)
change_token-IsDead h s k change keeps dead = elim (Option-cases (s.tokens k)) [
  | inl absent ↦ subst (IsDead h) (sym (change_none s k change absent)) dead
  | inr (t, at_k) ↦ subst (IsDead h) (sym (change_some s k change t at_k)) λ id u leads e.
      elim (update-cases s.tokens k id (some (change t)) e) [
        | inl (same_key, written) ↦
            subst (λ (a : AccessToken). is_some a.revoked_at ≡ true) (same_some refl written)
              (keeps t (dead id t leads (sym (ap s.tokens same_key) ∙ at_k)))
        | inr (_, old) ↦ dead id u leads old
      ]
]

change_token-Safe :
    (h : String) (s : TokenStore) (k : String) (change : AccessToken → AccessToken)
    → KeepsIndex change
    → KeepsRevoked change
    → Safe h s
    → Safe h (change_token s k change)
change_token-Safe h s k change index revoked (w, dead) =
    (change_token-IsIndexed s k change index w, change_token-IsDead h s k change revoked dead)

store_token-IsDead :
    (hash_token : String → String) (h : String) (s : TokenStore) (now : ℕ) (token : AccessToken)
    (scopes : List AccessTokenStorage)
    → s.tokens token.id ≡ none
    → token.token_hash ≢ h
    → Safe h s
    → IsDead h (store_token hash_token s now token scopes)
unfolding store_token
store_token-IsDead hash_token h s now token scopes new_id other (w, dead) id t leads e =
    let old =
      sym (update_away s.token_by_hash token.token_hash h (some token.id) (differs_text _ _ other))
      ∙ leads in
    elim (update-cases s.tokens token.id id (some token) e) [
      | inl (same_key, _) ↦
          let (u, at_id, _) = w.leads h id old in
          absurd (none_differs (sym (ap s.tokens same_key) ∙ new_id) at_id)
      | inr (_, before) ↦ dead id t old before
    ]

delete_token-Safe :
    (h : String) (s : TokenStore) (k : String) → Safe h s → Safe h (delete_token s k)
unfolding delete_token
delete_token-Safe h s k (w, dead) = (
  delete_token-IsIndexed s k w,
  λ id t leads e.
      let (old, away) = delete_token-leads s k h id w leads in
      dead id t old (sym (update_away s.tokens k id none away) ∙ e),
)

replace_token_storages-Safe :
    (h : String) (s : TokenStore) (now : ℕ) (id : String) (scopes : List AccessTokenStorage)
    → Safe h s
    → Safe h (replace_token_storages s now id scopes)
unfolding replace_token_storages
replace_token_storages-Safe h s now id scopes (w, dead) =
    (record { found = w.found; leads = w.leads }, dead)

create_token-Safe :
    (hash_token : String → String) (h : String) (s : TokenStore) (now : ℕ) (id raw : String)
    (i : CreateTokenInput)
    → s.tokens id ≡ none
    → s.token_by_hash (hash_token raw) ≡ none
    → hash_token raw ≢ h
    → Safe h s
    → Safe h (create_token hash_token s now id raw i).0
unfolding create_token
create_token-Safe hash_token h s now id raw i new_id new_hash other safe =
    let token = new_token hash_token now id raw i in
    elim (Bool-cases (i.owner_subject_key =ˢ "")) [
      | inl no_owner ↦ rw no_owner safe
      | inr owned ↦ rw owned (
        store_token-IsIndexed hash_token s now token i.storage_scopes new_id new_hash safe.0,
        store_token-IsDead hash_token h s now token i.storage_scopes new_id other safe,
      )
    ]

mark_token_used-Safe :
    (h : String) (s : TokenStore) (now : ℕ) (id : String)
    → Safe h s
    → Safe h (mark_token_used s now id)
mark_token_used-Safe h s now id =
    change_token-Safe h s id (λ t. record t { last_used_at = some now }) (λ t. (refl, refl))
      (λ t r. r)

resolve_found-Safe :
    (h : String) (s : TokenStore) (now : ℕ) (found : Option AccessToken)
    → Safe h s
    → Safe h (resolve_found s now found).0
unfolding resolve_found
resolve_found-Safe h s now none safe = safe
resolve_found-Safe h s now (some t) safe = elim (Bool-cases (is_over now t)) [
  | inl over ↦ rw over safe
  | inr valid ↦ elim (Bool-cases (was_used_recently now t)) [
    | inl recent ↦ rw (valid, recent) safe
    | inr stale ↦ rw (valid, stale) (mark_token_used-Safe h s now t.id safe)
  ]
]

Step-Safe :
    (hash_token : String → String) (h : String) {s t : TokenStore}
    → Step hash_token h s t
    → Safe h s
    → Safe h t
unfolding resolve_token
Step-Safe hash_token h (create_step s now id raw i new_id new_hash other) safe =
    create_token-Safe hash_token h s now id raw i new_id new_hash other safe
Step-Safe hash_token h (mark_step s now id) safe = mark_token_used-Safe h s now id safe
Step-Safe hash_token h (revoke_step s now id) safe =
    change_token-Safe h s id (λ t. record t { revoked_at = some now }) (λ t. (refl, refl))
      (λ t r. refl) safe
Step-Safe hash_token h (limit_step s id policy) safe =
    change_token-Safe h s id (λ t. record t { rate_limit = policy }) (λ t. (refl, refl)) (λ t r. r)
      safe
Step-Safe hash_token h (delete_step s id) safe = delete_token-Safe h s id safe
Step-Safe hash_token h (replace_step s now id scopes) safe =
    replace_token_storages-Safe h s now id scopes safe
Step-Safe hash_token h (resolve_step s now raw) safe =
    resolve_found-Safe h s now (token_of s (s.token_by_hash (hash_token raw))) safe

Steps-Safe :
    (hash_token : String → String) (h : String) {s t : TokenStore}
    → Steps hash_token h s t
    → Safe h s
    → Safe h t
Steps-Safe hash_token h here safe = safe
Steps-Safe hash_token h (next steps step) safe =
    Step-Safe hash_token h step (Steps-Safe hash_token h steps safe)

-- once its token is revoked, a hash leads to revoked tokens alone
revoke_token-Safe :
    (h : String) (s : TokenStore) (now : ℕ) (id : String)
    → IsIndexed s
    → s.token_by_hash h ≡ some id
    → Safe h (revoke_token s now id)
revoke_token-Safe h s now id w leads =
    let (t, at_id, _) = w.leads h id leads in
    let change : AccessToken → AccessToken = λ t. record t { revoked_at = some now } in
    (
      change_token-IsIndexed s id change (λ t. (refl, refl)) w,
      subst (IsDead h) (sym (change_some s id change t at_id)) λ key u leads_to e.
          let same : id ≡ key = same_some leads leads_to in
          subst (λ (a : AccessToken). is_some a.revoked_at ≡ true)
            (same_some refl (sym (update_here s.tokens id key (some (change t)) same) ∙ e)) refl,
    )

-- what a resolution gives is not a token, where the hash leads to revoked ones at most
resolve_dead :
    (h : String) (s : TokenStore) (now : ℕ) (id : Option String)
    → IsDead h s
    → s.token_by_hash h ≡ id
    → ((resolve_found s now (token_of s id)).1 ≡ unknown_token)
      ⊎ ((resolve_found s now (token_of s id)).1 ≡ refused revoked_or_expired)
unfolding resolve_found token_of
resolve_dead h s now none dead leads = inl refl
resolve_dead h s now (some id) dead leads = elim (Option-cases (s.tokens id)) [
  | inl absent ↦ inl (rw absent)
  | inr (t, at_id) ↦ inr (rw (at_id, dead id t leads at_id))
]

-- A text that leads to a token is never resolved again after that token's revocation, at any time and
-- whatever calls follow, as long as no new token's text has the same hash.
pub revoked_forever :
    (hash_token : String → String) (raw : String) (s u : TokenStore) (id : String) (now later : ℕ)
    → IsIndexed s
    → s.token_by_hash (hash_token raw) ≡ some id
    → Steps hash_token (hash_token raw) (revoke_token s now id) u
    → ((resolve_token hash_token u later raw).1 ≡ unknown_token)
      ⊎ ((resolve_token hash_token u later raw).1 ≡ refused revoked_or_expired)
unfolding resolve_token
revoked_forever hash_token raw s u id now later w leads steps =
    let (_, dead) =
      Steps-Safe hash_token (hash_token raw) steps
        (revoke_token-Safe (hash_token raw) s now id w leads) in
    resolve_dead (hash_token raw) u later (u.token_by_hash (hash_token raw)) dead refl
