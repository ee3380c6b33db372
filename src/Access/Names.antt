-- ===== src/Access/Names.antt =====
-- The names of database roles and schemas in internal/access/objects.go. A text is the list of its
-- code points; a name that passes a check is ASCII, so its bytes are as many.
pub mod Laws
use synamcps_server.Prelude.{
  ℕ, ◌+◌, ◌-◌, String, Bool, true, false, List, [], ◌∷◌, ◌++◌, map, length, take, all, is_empty,
  if◌then◌else◌, ◌&&◌, ◌||◌, not, leb, ltb, ◌==◌,
}
use synamcps_server.Prelude.Strings.{Runes, codes}
use synamcps_server.Prelude.Runes.{is_lower, is_upper, is_digit, to_lower, has_prefix}

abbrev pub role_rune : ℕ → Bool
role_rune c = is_lower c || is_digit c || c == b'_'

-- `safeRoleName` of internal/access
unfoldable pub safe_role_name : Runes → Bool
safe_role_name name =
    if is_empty name || ltb 63 (length name)
    then false
    else all role_rune name && has_prefix name (codes "syna_")

-- the loop of `safeIdent`: the first rune is a letter, the rest are role runes
abbrev ident_runes : Runes → Bool
ident_runes [] = true
ident_runes (c ∷ rest) = is_lower c && all role_rune rest

unfoldable pub safe_ident : Runes → Bool
safe_ident name = if is_empty name || ltb 63 (length name) then false else ident_runes name

-- `if len(name) > n { name = name[:n] }`
pub cut : ℕ → Runes → Runes
cut n name = if ltb n (length name) then take n name else name

abbrev pub schema_rune : ℕ → ℕ
schema_rune r =
    if is_lower r || is_digit r then r else if is_upper r then r + (b'a' - b'A') else b'_'

unfoldable pub table_schema_name : String → Runes
unfolding cut
table_schema_name object_id = cut 63 (codes "syna_t_" ++ map schema_rune (codes object_id))

abbrev pub token_rune : ℕ → ℕ
token_rune r = if is_lower r || is_digit r || r == b'_' then r else b'_'

unfoldable pub role_name_for_token : String → Runes
unfolding cut
role_name_for_token token_id =
    cut 63 (codes "syna_tok_" ++ map token_rune (map to_lower (codes token_id)))

-- `subject_id` is 24 hexadecimal digits of the subject's SHA-256.
unfoldable pub role_name_for_subject : (String → Runes) → String → Runes
role_name_for_subject subject_id subject_key = codes "syna_user_" ++ subject_id subject_key
