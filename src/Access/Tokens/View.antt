-- ===== src/Access/Tokens/View.antt =====
-- The token store as one map from hashes to tokens, which its two maps implement.
use synamcps_server.Prelude.{
  ℕ, String, false, Option, none, some, List, ◌≡◌, refl, sym, ap, ◌∙◌, Bool-cases, Option-cases,
  inl, inr, if◌then◌else◌, eq_iff,
}
use synamcps_server.Prelude.Strings.{◌=ˢ◌, differs_text, text_differs}
use synamcps_server.Prelude.Maps.{update}
use synamcps_server.Models.{AccessToken, AccessTokenStorage, RateLimitPolicy}
use synamcps_server.Access.Tokens.{
  TokenStore, CreateTokenInput, new_token, create_token, store_token, change_token, mark_token_used,
  revoke_token, update_token_rate_limit, delete_token, replace_token_storages, is_over,
  was_used_recently, token_of, resolve_found, resolve_token,
}
use synamcps_server.Access.Tokens.Laws.{
  IsIndexed, update_here, update_away, change_some, change_none, none_differs, delete_token-leads,
  delete_token-keeps,
}

-- the token that a hash leads to
abbrev pub view : TokenStore → String → Option AccessToken
view s h = token_of s (s.token_by_hash h)

-- a map after the token with an id was changed, or was dropped
abbrev pub with_change :
    String → (AccessToken → AccessToken) → Option AccessToken → Option AccessToken
with_change id change none = none
with_change id change (some t) = some (if t.id =ˢ id then change t else t)

abbrev pub without : String → Option AccessToken → Option AccessToken
without id none = none
without id (some t) = if t.id =ˢ id then none else some t

-- a call that changes the store
pub data Call : Type 0 where
  create : ℕ → String → String → CreateTokenInput → Call
  mark revoke : ℕ → String → Call
  limit : String → RateLimitPolicy → Call
  delete : String → Call
  replace : ℕ → String → List AccessTokenStorage → Call
  resolve : ℕ → String → Call

-- A created token has a new id; nothing is asked of the other calls.
abbrev pub IsNew : Call → TokenStore → Type 0
IsNew (create now id raw i) s = s.tokens id ≡ none
IsNew c s = Unit

-- What a resolution does to the token that it finds.
abbrev pub used : ℕ → Option AccessToken → Option AccessToken → Option AccessToken
used now none t = t
used now (some found) t =
    if is_over now found
    then t
    else if was_used_recently now found
    then t
    else with_change found.id (λ a. record a { last_used_at = some now }) t

module _ (hash_token : String → String) where
  pub run : Call → TokenStore → TokenStore
  run (create now id raw i) s = (create_token hash_token s now id raw i).0
  run (mark now id) s = mark_token_used s now id
  run (revoke now id) s = revoke_token s now id
  run (limit id policy) s = update_token_rate_limit s id policy
  run (delete id) s = delete_token s id
  run (replace now id scopes) s = replace_token_storages s now id scopes
  run (resolve now raw) s = (resolve_token hash_token s now raw).0

  -- what the call means for the map
  pub meaning : Call → (String → Option AccessToken) → String → Option AccessToken
  meaning (create now id raw i) m h =
      if i.owner_subject_key =ˢ ""
      then m h
      else update m (hash_token raw) (some (new_token hash_token now id raw i)) h
  meaning (mark now id) m h = with_change id (λ t. record t { last_used_at = some now }) (m h)
  meaning (revoke now id) m h = with_change id (λ t. record t { revoked_at = some now }) (m h)
  meaning (limit id policy) m h = with_change id (λ t. record t { rate_limit = policy }) (m h)
  meaning (delete id) m h = without id (m h)
  meaning (replace now id scopes) m h = m h
  meaning (resolve now raw) m h = used now (m (hash_token raw)) (m h)

with_change-own :
    (id : String) (change : AccessToken → AccessToken) (t : AccessToken)
    → t.id ≡ id
    → with_change id change (some t) ≡ some (change t)
with_change-own id change t same = rw ((eq_iff t.id id).1 same) refl

with_change-other :
    (k id : String) (change : AccessToken → AccessToken) (t : AccessToken)
    → t.id ≡ id
    → (k =ˢ id) ≡ false
    → with_change k change (some t) ≡ some t
with_change-other k id change t same away =
    rw (differs_text t.id k (λ e. text_differs k id away (sym e ∙ same))) refl

change_token-hash :
    (s : TokenStore) (k : String) (change : AccessToken → AccessToken) (h : String)
    → (change_token s k change).token_by_hash h ≡ s.token_by_hash h
change_token-hash s k change h = elim (Option-cases (s.tokens k)) [
  | inl absent ↦ rw (change_none s k change absent) refl
  | inr (t, at_k) ↦ rw (change_some s k change t at_k) refl
]

change_token-own :
    (s : TokenStore) (k : String) (change : AccessToken → AccessToken) (t : AccessToken)
    → s.tokens k ≡ some t
    → (change_token s k change).tokens k ≡ some (change t)
change_token-own s k change t at_k =
    rw (change_some s k change t at_k) (update_here s.tokens k k (some (change t)) refl)

change_token-other :
    (s : TokenStore) (k id : String) (change : AccessToken → AccessToken)
    → (k =ˢ id) ≡ false
    → (change_token s k change).tokens id ≡ s.tokens id
change_token-other s k id change away = elim (Option-cases (s.tokens k)) [
  | inl absent ↦ rw (change_none s k change absent) refl
  | inr (t, at_k) ↦
      rw (change_some s k change t at_k) (update_away s.tokens k id (some (change t)) away)
]

change_token-of :
    (s : TokenStore) (k : String) (change : AccessToken → AccessToken) (h : String)
    (o : Option String)
    → IsIndexed s
    → s.token_by_hash h ≡ o
    → token_of (change_token s k change) o ≡ with_change k change (token_of s o)
unfolding token_of
change_token-of s k change h none w leads = refl
change_token-of s k change h (some id) w leads =
    let (u, at_id, _) = w.leads h id leads in
    elim (Bool-cases (k =ˢ id)) [
      | inl same ↦
          let here : k ≡ id = (eq_iff k id).0 same in
          let at_k : s.tokens k ≡ some u = ap s.tokens here ∙ at_id in
          ap (change_token s k change).tokens (sym here)
          ∙ change_token-own s k change u at_k
          ∙ sym (with_change-own k change u ((w.found id u at_id).0 ∙ sym here))
          ∙ ap (with_change k change) (sym at_id)
      | inr away ↦
          change_token-other s k id change away
          ∙ at_id
          ∙ sym (with_change-other k id change u (w.found id u at_id).0 away)
          ∙ ap (with_change k change) (sym at_id)
    ]

change_token-view :
    (s : TokenStore) (k : String) (change : AccessToken → AccessToken) (h : String)
    → IsIndexed s
    → view (change_token s k change) h ≡ with_change k change (view s h)
change_token-view s k change h w =
    ap (token_of (change_token s k change)) (change_token-hash s k change h)
    ∙ change_token-of s k change h (s.token_by_hash h) w refl

store_token-view :
    (hash_token : String → String) (s : TokenStore) (now : ℕ) (token : AccessToken)
    (scopes : List AccessTokenStorage) (h : String)
    → IsIndexed s
    → s.tokens token.id ≡ none
    → view (store_token hash_token s now token scopes) h
      ≡ update (view s) token.token_hash (some token) h
unfolding store_token token_of
store_token-view hash_token s now token scopes h w new =
    let after = store_token hash_token s now token scopes in
    elim (Bool-cases (token.token_hash =ˢ h)) [
      | inl here ↦ rw here (update_here s.tokens token.id token.id (some token) refl)
      | inr away ↦ rw away (elim (Option-cases (s.token_by_hash h)) [
        | inl absent ↦ rw absent refl
        | inr (id, leads) ↦
            let (u, at_id, _) = w.leads h id leads in
            rw leads (
              update_away s.tokens token.id id (some token)
                (differs_text token.id id (λ e. none_differs (sym (ap s.tokens e) ∙ new) at_id)))
      ])
    ]

without-own : (k : String) (t : AccessToken) → t.id ≡ k → without k (some t) ≡ none
without-own k t same = rw ((eq_iff t.id k).1 same) refl

without-other :
    (k id : String) (t : AccessToken) → t.id ≡ id → (k =ˢ id) ≡ false → without k (some t) ≡ some t
without-other k id t same away =
    rw (differs_text t.id k (λ e. text_differs k id away (sym e ∙ same))) refl

delete_token-other :
    (s : TokenStore) (k id : String)
    → (k =ˢ id) ≡ false
    → (delete_token s k).tokens id ≡ s.tokens id
unfolding delete_token
delete_token-other s k id away = update_away s.tokens k id none away

-- what the deleted token's hash led to is gone
deleted_hash :
    (s : TokenStore) (k h : String) (o : Option String)
    → IsIndexed s
    → (delete_token s k).token_by_hash h ≡ none
    → s.token_by_hash h ≡ o
    → without k (token_of s o) ≡ none
unfolding token_of
deleted_hash s k h none w gone leads = refl
deleted_hash s k h (some id) w gone leads =
    let (u, at_id, hash) = w.leads h id leads in
    elim (Bool-cases (k =ˢ id)) [
      | inl same ↦
          ap (without k) at_id
          ∙ without-own k u ((w.found id u at_id).0 ∙ sym ((eq_iff k id).0 same))
      | inr away ↦ absurd (
          none_differs gone (
            ap (delete_token s k).token_by_hash (sym hash) ∙ delete_token-keeps s k w u away at_id))
    ]

delete_token-of :
    (s : TokenStore) (k h : String) (o : Option String)
    → IsIndexed s
    → (delete_token s k).token_by_hash h ≡ o
    → token_of (delete_token s k) o ≡ without k (view s h)
unfolding token_of
delete_token-of s k h none w gone = sym (deleted_hash s k h (s.token_by_hash h) w gone refl)
delete_token-of s k h (some id) w leads =
    let (old, away) = delete_token-leads s k h id w leads in
    let (u, at_id, _) = w.leads h id old in
    delete_token-other s k id away
    ∙ at_id
    ∙ sym (without-other k id u (w.found id u at_id).0 away)
    ∙ ap (without k) (sym at_id)
    ∙ ap (λ o. without k (token_of s o)) (sym old)

resolve_found-view :
    (s : TokenStore) (now : ℕ) (found : Option AccessToken) (h : String)
    → IsIndexed s
    → view (resolve_found s now found).0 h ≡ used now found (view s h)
unfolding resolve_found
resolve_found-view s now none h w = refl
resolve_found-view s now (some t) h w = elim (Bool-cases (is_over now t)) [
  | inl over ↦ rw over refl
  | inr valid ↦ elim (Bool-cases (was_used_recently now t)) [
    | inl recent ↦ rw (valid, recent) refl
    | inr stale ↦
        rw (valid, stale) (change_token-view s t.id (λ a. record a { last_used_at = some now }) h w)
  ]
]

create_token-view :
    (hash_token : String → String) (s : TokenStore) (now : ℕ) (id raw : String)
    (i : CreateTokenInput) (h : String)
    → IsIndexed s
    → s.tokens id ≡ none
    → view (create_token hash_token s now id raw i).0 h
      ≡ meaning hash_token (create now id raw i) (view s) h
unfolding create_token meaning
create_token-view hash_token s now id raw i h w new =
    let token = new_token hash_token now id raw i in
    elim (Bool-cases (i.owner_subject_key =ˢ "")) [
      | inl no_owner ↦ rw (create_token, no_owner) refl
      | inr owned ↦
          rw (create_token, owned)
            (store_token-view hash_token s now token i.storage_scopes h w new)
    ]

-- The two maps of the store implement one map from hashes to tokens: whatever call runs, what a hash leads to
-- after it is what the call's meaning makes of what it led to before, where a created token has a new id.
pub run-view :
    (hash_token : String → String) (c : Call) (s : TokenStore) (h : String)
    → IsIndexed s
    → IsNew c s
    → view (run hash_token c s) h ≡ meaning hash_token c (view s) h
unfolding run meaning create_token replace_token_storages resolve_token token_of
run-view hash_token (create now id raw i) s h w new =
    create_token-view hash_token s now id raw i h w new
run-view hash_token (mark now id) s h w new =
    change_token-view s id (λ t. record t { last_used_at = some now }) h w
run-view hash_token (revoke now id) s h w new =
    change_token-view s id (λ t. record t { revoked_at = some now }) h w
run-view hash_token (limit id policy) s h w new =
    change_token-view s id (λ t. record t { rate_limit = policy }) h w
run-view hash_token (delete id) s h w new =
    delete_token-of s id h ((delete_token s id).token_by_hash h) w refl
run-view hash_token (replace now id scopes) s h w new = refl
run-view hash_token (resolve now raw) s h w new =
    resolve_found-view s now (view s (hash_token raw)) h w
