-- ===== src/Access/Tokens/Resolve.antt =====
-- What the token store gives for a raw text: `ResolveToken`, also right after `CreateToken`.
use mathlib.Core.List as List
use synamcps_server.Prelude.{
  ℕ, ◌≤◌, String, true, false, Option, none, some, List, [], ◌∷◌, map, keep, ◌≡◌, refl, ap, subst,
  ◌∙◌, Bool-cases, Option-cases, inl, inr, arith, eq_refl,
}
use synamcps_server.Prelude.Strings.{◌=ˢ◌}
use synamcps_server.Models.{AccessToken, AccessTokenStorage}
use synamcps_server.Access.Tokens.{
  TokenStore, resolved, created_scope, store_token, token_storages, is_over, token_of,
  resolve_found, resolve_token,
}
use synamcps_server.Access.Tokens.Laws.{IsIndexed, update_here, same_some}

-- a token that is neither revoked nor past its time
pub record IsLive (now : ℕ) (t : AccessToken) : Type 0 where
  pub unrevoked : t.revoked_at ≡ none
  pub in_time : (e : ℕ) → t.expires_at ≡ some e → now ≤ e

is_over-IsLive : (now : ℕ) (t : AccessToken) → is_over now t ≡ false → IsLive now t
is_over-IsLive now t h = elim (Option-cases t.revoked_at) [
  | inl unrevoked ↦ record { unrevoked = unrevoked; in_time = λ e at. ground arith }
  | inr (r, revoked) ↦ absurd (ground arith)
]

-- the token that a resolution gives is the one found, which is live, and the scopes are its own
resolve_found-resolved :
    (s : TokenStore) (now : ℕ) (found : Option AccessToken) (t : AccessToken)
    (scopes : List AccessTokenStorage)
    → (resolve_found s now found).1 ≡ resolved t scopes
    → (found ≡ some t) × IsLive now t × (scopes ≡ token_storages s t.id)
unfolding resolve_found
resolve_found-resolved s now none t scopes h = cc
resolve_found-resolved s now (some u) t scopes h = elim (Bool-cases (is_over now u)) [
  | inl over ↦ absurd (over_refused over)
  | inr valid ↦
      let (same, own) = given valid in
      (
        ap some same,
        subst (IsLive now) same (is_over-IsLive now u valid),
        own ∙ ap (λ (a : AccessToken). token_storages s a.id) same,
      )
]
  where
    over_refused : is_over now u ≡ true → ⊥
    over_refused over = let e = rw over at h in cc

    given : is_over now u ≡ false → (u ≡ t) × (scopes ≡ token_storages s u.id)
    given valid = let e = rw valid at h in (cc, cc)

token_of-found :
    (s : TokenStore) (t : AccessToken) (o : Option String)
    → token_of s o ≡ some t
    → (id : String) × (o ≡ some id) × (s.tokens id ≡ some t)
unfolding token_of
token_of-found s t none h = cc
token_of-found s t (some id) h = (id, refl, h)

-- A token is given for a text only if the store has it under its own id and the text hashes to its hash,
-- it is neither revoked nor past its time, and the scopes with it are those of its id.
pub resolve_token-Resolved :
    (hash_token : String → String) (s : TokenStore) (now : ℕ) (raw : String) (t : AccessToken)
    (scopes : List AccessTokenStorage)
    → IsIndexed s
    → (resolve_token hash_token s now raw).1 ≡ resolved t scopes
    → (s.tokens t.id ≡ some t)
      × (t.token_hash ≡ hash_token raw)
      × IsLive now t
      × (scopes ≡ token_storages s t.id)
unfolding resolve_token token_of
resolve_token-Resolved hash_token s now raw t scopes w h =
    let (at_text, live, own) =
      resolve_found-resolved s now (token_of s (s.token_by_hash (hash_token raw))) t scopes h in
    let (id, leads, at_id) = token_of-found s t (s.token_by_hash (hash_token raw)) at_text in
    let (u, at_u, hash) = w.leads (hash_token raw) id leads in
    (
      ap s.tokens (w.found id t at_id).0 ∙ at_id,
      ap (λ (a : AccessToken). a.token_hash) (same_some at_id at_u) ∙ hash,
      live,
      own,
    )

keep_other :
    (id : String) (l : List AccessTokenStorage) (stored : List AccessTokenStorage)
    → keep (λ scope. scope.token_id =ˢ id) l ≡ []
    → keep (λ scope. scope.token_id =ˢ id) (List.◌++◌ l stored)
      ≡ keep (λ scope. scope.token_id =ˢ id) stored
keep_other id [] stored none_of_it = refl
keep_other id (x ∷ xs) stored none_of_it = ground (arith, keep_other id xs stored)

keep_created :
    (token : AccessToken) (now : ℕ) (scopes : List AccessTokenStorage)
    → keep (λ scope. scope.token_id =ˢ token.id) (map (created_scope token now) scopes)
      ≡ map (created_scope token now) scopes
keep_created token now [] = refl
keep_created token now (x ∷ xs) =
    rw (eq_refl token.id) (ap (λ l. created_scope token now x ∷ l) (keep_created token now xs))

resolve_found-live :
    (s : TokenStore) (now : ℕ) (t : AccessToken)
    → is_over now t ≡ false
    → (resolve_found s now (some t)).1 ≡ resolved t (token_storages s t.id)
unfolding resolve_found
resolve_found-live s now t valid = rw valid refl

pub store_token-resolve :
    (hash_token : String → String) (s : TokenStore) (now later : ℕ) (token : AccessToken)
    (scopes : List AccessTokenStorage)
    → token_storages s token.id ≡ []
    → is_over later token ≡ false
    → let t = store_token hash_token s now token scopes in
      (resolve_found t later (token_of t (t.token_by_hash token.token_hash))).1
      ≡ resolved token (map (created_scope token now) scopes)
unfolding store_token token_of
store_token-resolve hash_token s now later token scopes fresh valid =
    let t = store_token hash_token s now token scopes in
    ap (λ o. (resolve_found t later (token_of t o)).1)
      (update_here s.token_by_hash token.token_hash token.token_hash (some token.id) refl)
    ∙ ap (λ o. (resolve_found t later o).1)
        (update_here s.tokens token.id token.id (some token) refl)
    ∙ resolve_found-live t later token valid
    ∙ ap (resolved token) (
        keep_other token.id s.token_scopes (map (created_scope token now) scopes) fresh
        ∙ keep_created token now scopes)
