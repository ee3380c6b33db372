-- ===== src/Access/Names/Laws.antt =====
-- Every name that the program makes for a role or a schema passes the checks made before it is put
-- into a statement, whatever the token's or the object's id.
use synamcps_server.Prelude.{
  zero, suc, leb, ◌==◌, &&_true, ℕ, ◌≤◌, String, Bool, true, false, [], ◌∷◌, ◌++◌, ◌≡◌, refl, map,
  length, take, all, ◌&&◌, ltb, arith, all-take, all-map, length-take, Bool-cases, inl, inr,
}
use synamcps_server.Prelude.Strings.{Runes, codes}
use synamcps_server.Prelude.Runes.{to_lower, has_prefix}
use synamcps_server.Access.Names.{
  role_rune, safe_role_name, safe_ident, cut, schema_rune, table_schema_name, token_rune,
  role_name_for_token, role_name_for_subject,
}

schema_rune_ok : (r : ℕ) → role_rune (schema_rune r) ≡ true
schema_rune_ok r = ground arith

token_rune_ok : (r : ℕ) → role_rune (token_rune r) ≡ true
token_rune_ok r = ground arith

length-cut : (n : ℕ) (name : Runes) → length (cut n name) ≤ n
unfolding cut
length-cut n name = elim (Bool-cases (ltb n (length name))) [
  | inl long ↦ rw long (omega (arith, length-take n name))
  | inr short ↦ rw short (ground arith)
]

all-cut : (p : ℕ → Bool) (n : ℕ) (name : Runes) → all p name ≡ true → all p (cut n name) ≡ true
unfolding cut
all-cut p n name h = elim (Bool-cases (ltb n (length name))) [
  | inl long ↦ rw long (all-take p n name h)
  | inr short ↦ rw short h
]

has_prefix-take :
    (n : ℕ) (name p : Runes)
    → length p ≤ n
    → has_prefix name p ≡ true
    → has_prefix (take n name) p ≡ true
unfolding has_prefix
has_prefix-take n name [] le h = refl
has_prefix-take n [] (c ∷ p) le h = ground arith
has_prefix-take zero (d ∷ name) (c ∷ p) le h = absurd (omega arith)
has_prefix-take (suc n) (d ∷ name) (c ∷ p) le h = ground (arith, has_prefix-take n name p)

has_prefix-cut :
    (n : ℕ) (name p : Runes)
    → length p ≤ n
    → has_prefix name p ≡ true
    → has_prefix (cut n name) p ≡ true
unfolding cut
has_prefix-cut n name p le h = elim (Bool-cases (ltb n (length name))) [
  | inl long ↦ rw long (has_prefix-take n name p le h)
  | inr short ↦ rw short h
]

not_long : (n : ℕ) → n ≤ 63 → ltb 63 n ≡ false
not_long n h = ground arith

&&_intro : (a b : Bool) → a ≡ true → b ≡ true → (a && b) ≡ true
&&_intro a b p q = ground arith

s_is_lower : (c : ℕ) → (c == b's') ≡ true → (leb b'a' c && leb c b'z') ≡ true
s_is_lower c h = ground arith

-- What the checks ask for, from three facts about a name.
safe_role_name_of :
    (name : Runes)
    → length name ≤ 63
    → all role_rune name ≡ true
    → has_prefix name (codes "syna_") ≡ true
    → safe_role_name name ≡ true
unfolding safe_role_name has_prefix
safe_role_name_of [] le runes prefix = cc
safe_role_name_of (c ∷ name) le runes prefix = rw (not_long _ le) (&&_intro _ _ runes prefix)

safe_ident_of :
    (name : Runes)
    → length name ≤ 63
    → all role_rune name ≡ true
    → has_prefix name (codes "syna_") ≡ true
    → safe_ident name ≡ true
unfolding safe_ident has_prefix
safe_ident_of [] le runes prefix = cc
safe_ident_of (c ∷ name) le runes prefix =
    rw (not_long _ le) (&&_intro _ _ (s_is_lower c (&&_true _ _ prefix).0) (&&_true _ _ runes).1)

-- The schema name made for a table passes `safeIdent`, whatever the object's id: no table is ever
-- refused for its identifiers.
pub table_schema_name-safe : (object_id : String) → safe_ident (table_schema_name object_id) ≡ true
unfolding table_schema_name
table_schema_name-safe object_id =
    let runes = map schema_rune (codes object_id) in
    let name = codes "syna_t_" ++ runes in
    safe_ident_of (cut 63 name) (length-cut 63 name)
      (all-cut role_rune 63 name (all-map role_rune schema_rune schema_rune_ok (codes object_id)))
      (has_prefix-cut 63 name (codes "syna_") (omega arith) (unfold has_prefix in refl))

-- The role name made for a token passes `safeRoleName`, whatever the token's id.
pub role_name_for_token-safe :
    (token_id : String) → safe_role_name (role_name_for_token token_id) ≡ true
unfolding role_name_for_token
role_name_for_token-safe token_id =
    let lowered = map to_lower (codes token_id) in
    let name = codes "syna_tok_" ++ map token_rune lowered in
    safe_role_name_of (cut 63 name) (length-cut 63 name)
      (all-cut role_rune 63 name (all-map role_rune token_rune token_rune_ok lowered))
      (has_prefix-cut 63 name (codes "syna_") (omega arith) (unfold has_prefix in refl))

-- The role name made for a subject passes too, where the digest of the subject is at most 53 runes
-- that a role name may hold (24 hexadecimal digits are).
pub role_name_for_subject-safe :
    (subject_id : String → Runes) (subject_key : String)
    → all role_rune (subject_id subject_key) ≡ true
    → length (subject_id subject_key) ≤ 53
    → safe_role_name (role_name_for_subject subject_id subject_key) ≡ true
unfolding role_name_for_subject
role_name_for_subject-safe subject_id subject_key runes short =
    safe_role_name_of (codes "syna_user_" ++ subject_id subject_key) (omega arith) runes
      (unfold has_prefix in refl)
