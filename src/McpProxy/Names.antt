-- ===== src/McpProxy/Names.antt =====
-- internal/mcpproxy/names.go: slugs, and the names that put an upstream's tools, prompts and
-- resources into one space. Names are texts of code points.
pub mod Laws
pub mod Slugs
use synamcps_server.Prelude.{
  ℕ, Bool, true, false, Option, none, some, List, [], ◌∷◌, ◌++◌, ◌≡◌, ◌&&◌, ◌||◌, not,
  if◌then◌else◌, is_empty, is_some, length, drop, keep, any, ◌==◌, map,
}
use synamcps_server.Prelude.Strings.{Runes, codes}
use synamcps_server.Prelude.Runes.{
  ◌=ʳ◌, is_lower, is_digit, to_lower, trim_left, trim_right, trim_space, has_prefix, cut_at,
}

abbrev pub dash : ℕ
dash = b'-'

abbrev pub separator : Runes
separator = b'_' ∷ b'_' ∷ []

abbrev pub slash : Runes
slash = b'/' ∷ []

abbrev pub resource_prefix : Runes
resource_prefix = codes "syna-mcp/"

unfoldable pub namespaced_tool : Runes → Runes → Runes
namespaced_tool slug tool_name = slug ++ (separator ++ tool_name)

unfoldable pub namespaced_prompt : Runes → Runes → Runes
namespaced_prompt slug prompt_name = slug ++ (separator ++ prompt_name)

-- `strings.TrimPrefix`
unfoldable pub trim_prefix : Runes → Runes → Runes
trim_prefix s prefix = if has_prefix s prefix then drop (length prefix) s else s

unfoldable pub namespaced_resource_uri : Runes → Runes → Runes
namespaced_resource_uri slug upstream_uri =
    resource_prefix ++ (slug ++ (slash ++ trim_prefix upstream_uri slash))

both_there : Option (Runes × Runes) → Option (Runes × Runes)
both_there none = none
both_there (some (slug, name)) =
    if not (is_empty slug) && not (is_empty name) then some (slug, name) else none

unfoldable pub parse_namespaced_tool : Runes → Option (Runes × Runes)
unfolding both_there
parse_namespaced_tool name = both_there (cut_at separator name)

unfoldable pub parse_namespaced_prompt : Runes → Option (Runes × Runes)
parse_namespaced_prompt name = parse_namespaced_tool name

unfoldable pub parse_namespaced_resource_uri : Runes → Option (Runes × Runes)
unfolding both_there
parse_namespaced_resource_uri uri =
    if has_prefix uri resource_prefix
    then both_there (cut_at slash (trim_prefix uri resource_prefix))
    else none

abbrev pub has_name : List Runes → Runes → Bool
has_name names name = any (λ n. n =ʳ name) names

unfoldable pub filter_allowlist : List Runes → List Runes → List Runes
filter_allowlist items allowlist =
    if is_empty allowlist then items else keep (λ item. has_name allowlist item) items

abbrev pub slug_rune : ℕ → Bool
slug_rune r = is_lower r || is_digit r

-- the body of the loop, on what is written and whether a dash was written last
slug_step : ℕ → Runes × Bool → Runes × Bool
slug_step r (out, prev_dash) =
    if slug_rune r
    then (out ++ r ∷ [], false)
    else if not prev_dash && not (is_empty out)
    then (out ++ dash ∷ [], true)
    else (out, prev_dash)

slug_loop : Runes → Runes × Bool → Runes × Bool
slug_loop [] state = state
slug_loop (r ∷ s) state = slug_loop s (slug_step r state)

unfoldable pub slugify : Runes → Runes
unfolding slug_loop slug_step
slugify s =
    let written = (slug_loop (map to_lower (trim_space s)) ([], false)).0 in
    trim_right (λ r. r == dash) (trim_left (λ r. r == dash) written)
