-- ===== src/Access/Tokens/Create.antt =====
-- The two outcomes of `CreateToken`.
use synamcps_server.Prelude.{ℕ, String, ◌≡◌, ◌≢◌, ◌⊎◌, refl, Bool-cases, inl, inr}
use synamcps_server.Prelude.Strings.{◌=ˢ◌, text_differs}
use synamcps_server.Access.Tokens.{
  TokenStore, CreateTokenInput, created, not_created, owner_required, new_token, create_token,
  store_token,
}

pub create_token-cases :
    (hash_token : String → String) (s : TokenStore) (now : ℕ) (id raw : String)
    (i : CreateTokenInput)
    → (create_token hash_token s now id raw i ≡ (s, not_created owner_required))
      ⊎ ((i.owner_subject_key ≢ "")
          × (create_token hash_token s now id raw i ≡ (
            store_token hash_token s now (new_token hash_token now id raw i) i.storage_scopes,
            created (new_token hash_token now id raw i) raw,
          )))
unfolding create_token
create_token-cases hash_token s now id raw i = elim (Bool-cases (i.owner_subject_key =ˢ "")) [
  | inl no_owner ↦ inl (rw (create_token, no_owner) refl)
  | inr owned ↦ inr (text_differs i.owner_subject_key "" owned, rw (create_token, owned) refl)
]
