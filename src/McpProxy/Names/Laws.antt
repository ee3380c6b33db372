-- ===== src/McpProxy/Names/Laws.antt =====
-- Slugs are safe in namespaced names, and such names can be taken apart again.
use synamcps_server.Prelude.{
  ℕ, false, some, [], ◌∷◌, ◌++◌, ◌≡◌, ◌≢◌, refl, ap, ◌∙◌, arith, length, drop, any, ◌==◌,
}
use synamcps_server.Prelude.Strings.{Runes}
use synamcps_server.Prelude.Runes.{has_prefix, has_prefix-append, cut_at}
use synamcps_server.McpProxy.Names.{
  separator, slash, namespaced_tool, trim_prefix, namespaced_resource_uri, both_there,
  parse_namespaced_tool, parse_namespaced_resource_uri,
}

-- A text with no such code point.
abbrev pub Without : ℕ → Runes → Type 0
Without c s = any (λ r. r == c) s ≡ false

drop-length : (xs ys : Runes) → drop (length xs) (xs ++ ys) ≡ ys
drop-length [] ys = refl
drop-length (x ∷ xs) ys = drop-length xs ys

trim_prefix-append : (prefix s : Runes) → trim_prefix (prefix ++ s) prefix ≡ s
unfolding trim_prefix
trim_prefix-append prefix s = rw has_prefix-append (drop-length prefix s)

cut_at-separator :
    (slug name : Runes)
    → Without b'_' slug
    → cut_at separator (slug ++ (separator ++ name)) ≡ some (slug, name)
unfolding cut_at has_prefix
cut_at-separator [] name h = refl
cut_at-separator (c ∷ slug) name h = ground (arith, cut_at-separator slug name)

cut_at-slash :
    (slug name : Runes)
    → Without b'/' slug
    → cut_at slash (slug ++ (slash ++ name)) ≡ some (slug, name)
unfolding cut_at has_prefix
cut_at-slash [] name h = refl
cut_at-slash (c ∷ slug) name h = ground (arith, cut_at-slash slug name)

both_there-lem :
    (slug name : Runes) → slug ≢ [] → name ≢ [] → both_there (some (slug, name)) ≡ some (slug, name)
unfolding both_there
both_there-lem [] name hs hn = absurd (hs refl)
both_there-lem (c ∷ slug) [] hs hn = absurd (hn refl)
both_there-lem (c ∷ slug) (d ∷ name) hs hn = refl

-- The tool of a slug without underscores is told apart again, whatever the tool's name is.
pub parse_namespaced_tool-namespaced_tool :
    (slug name : Runes)
    → Without b'_' slug
    → slug ≢ []
    → name ≢ []
    → parse_namespaced_tool (namespaced_tool slug name) ≡ some (slug, name)
unfolding parse_namespaced_tool namespaced_tool
parse_namespaced_tool-namespaced_tool slug name plain some_slug some_name =
    ap both_there (cut_at-separator slug name plain) ∙ both_there-lem slug name some_slug some_name

-- The resource of a slug without slashes is told apart again, less a slash that its URI begins with.
pub parse_namespaced_resource_uri-namespaced_resource_uri :
    (slug uri : Runes)
    → Without b'/' slug
    → slug ≢ []
    → trim_prefix uri slash ≢ []
    → parse_namespaced_resource_uri (namespaced_resource_uri slug uri)
      ≡ some (slug, trim_prefix uri slash)
unfolding parse_namespaced_resource_uri namespaced_resource_uri
parse_namespaced_resource_uri-namespaced_resource_uri slug uri plain some_slug some_uri =
    rw has_prefix-append (
      rw trim_prefix-append (
        ap both_there (cut_at-slash slug (trim_prefix uri slash) plain)
        ∙ both_there-lem slug (trim_prefix uri slash) some_slug some_uri))
