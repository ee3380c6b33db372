-- ===== src/Examples/Proxy.antt =====
-- The theorems on the proxy for upstream servers at concrete servers and names.
use mathlib.Core.List as List
use mathlib.Core.List.{Memᴰ}
use synamcps_server.Prelude.{
  ◌≢◌, inl, inr, String, true, Option, some, List, [], ◌∷◌, ◌++◌, ◌≡◌, refl, sym, ap, subst, ◌∙◌,
  arith, ◌&&◌, ◌||◌, not,
}
use synamcps_server.Prelude.Strings.{codes}
use synamcps_server.Prelude.Runes.{◌=ʳ◌, trim_left, trim_right, trim_space, has_prefix}
use synamcps_server.McpProxy.Names.{
  slugify, namespaced_tool, parse_namespaced_tool, namespaced_resource_uri,
  parse_namespaced_resource_uri, trim_prefix, slash,
}
use synamcps_server.McpProxy.Names.Laws.{Without}
use synamcps_server.McpProxy.Names.Slugs.{slugify_namespaced}
use synamcps_server.McpProxy.Access.{
  McpServer, McpServerAclBinding, user, use_server, AccessTokenMcpServer, AccessibleServer,
  in_scope, has_platform_admin, evaluate_mcp_server_access,
}
use synamcps_server.McpProxy.Access.Laws.{granted, bound, evaluate_mcp_server_access_lem}
use synamcps_server.McpProxy.Manager.{
  McpServerTool, McpServerCapabilities, allow, call, call_tool, exposed_for_access,
}
use synamcps_server.McpProxy.Manager.Exposed.{Apart, exposed_tool_callable}
use synamcps_server.Examples.{alice, token}

slug_of : slugify (codes "My Tools") ≡ codes "my-tools"
unfolding slugify trim_right trim_left trim_space
slug_of = refl

not_empty : slugify (codes "My Tools") ≢ []
not_empty e = no_slug (sym slug_of ∙ e)
  where
    no_slug : codes "my-tools" ≢ []
    no_slug h = ground arith

uri_left : trim_prefix (codes "a/b") slash ≢ []
unfolding trim_prefix has_prefix
uri_left e = ground arith

slugify_namespaced_example :
    (parse_namespaced_tool (namespaced_tool (slugify (codes "My Tools")) (codes "search"))
      ≡ some (slugify (codes "My Tools"), codes "search"))
    × (parse_namespaced_resource_uri
          (namespaced_resource_uri (slugify (codes "My Tools")) (codes "a/b"))
        ≡ some (slugify (codes "My Tools"), trim_prefix (codes "a/b") slash))
slugify_namespaced_example =
    slugify_namespaced (codes "My Tools") (codes "search") (codes "a/b") not_empty
      (λ e. ground arith) uri_left

abbrev scopes : List AccessTokenMcpServer
scopes =
    record {
      token_id = "t-1";
      server_id = "srv-1";
      tool_allowlist = [];
      resource_allowlist = [];
      prompt_allowlist = [];
    }
    ∷ []

abbrev acl : List McpServerAclBinding
acl = record { server_id = "srv-1"; subject_key = "user:internal:alice"; role = user } ∷ []

abbrev server : McpServer
server = record {
  id = "srv-1";
  slug = codes "docs";
  name = "Docs";
  owner_subject_key = "user:internal:alice";
}

evaluate_mcp_server_access_lem_example :
    evaluate_mcp_server_access alice (some token) scopes acl "srv-1" use_server ≡ (
      in_scope (some token) scopes "srv-1"
      && (granted acl "srv-1" use_server || (not (bound acl "srv-1") && has_platform_admin alice)))
evaluate_mcp_server_access_lem_example =
    evaluate_mcp_server_access_lem alice (some token) scopes acl "srv-1" use_server

abbrev item : AccessibleServer
item = record {
  server = server;
  scope = record {
    token_id = "t-1";
    server_id = "srv-1";
    tool_allowlist = codes "docs__find" ∷ [];
    resource_allowlist = [];
    prompt_allowlist = [];
  };
}

abbrev find_tool : McpServerTool
find_tool = record { tool_name = codes "find"; description = ""; enabled = true }

abbrev caps : String → Option McpServerCapabilities
caps id = some (record { tools = find_tool ∷ []; resources = []; prompts = [] })

is_exposed : Memᴰ (codes "docs__find", find_tool) (exposed_for_access caps (item ∷ [])).tools
unfolding exposed_for_access allow ◌=ʳ◌ namespaced_tool
is_exposed = List.Memᴰ.head refl

only_item : (x : AccessibleServer) → Memᴰ x (item ∷ []) → x ≡ item
only_item x mem = elim (List.Memᴰ.cases_cons mem) [
  | inl e ↦ e
  | inr later ↦ absurd (List.Memᴰ.not-nil later)
]

item-Apart : Apart (item ∷ [])
item-Apart a b in_a in_b same = only_item a in_a ∙ sym (only_item b in_b)

item_slug :
    (x : AccessibleServer) → Memᴰ x (item ∷ []) → (x.server.slug ≢ []) × Without b'_' x.server.slug
item_slug x mem =
    let e = ap (λ y. y.server.slug) (only_item x mem) in
    (λ h. not_docs (sym e ∙ h), subst (Without b'_') (sym e) refl)
  where
    not_docs : codes "docs" ≢ []
    not_docs h = ground arith

exposed_tool_callable_example :
    (x : AccessibleServer) × (c : McpServerCapabilities) × Memᴰ x (item ∷ [])
    × (caps x.server.id ≡ some c)
    × Memᴰ find_tool c.tools
    × (find_tool.enabled ≡ true)
    × (codes "docs__find" ≡ x.server.slug ++ (codes "__" ++ find_tool.tool_name))
    × (allow x.scope.tool_allowlist (codes "docs__find") ≡ true)
    × (call_tool (codes "docs__find") (item ∷ []) ≡ call x.server.id find_tool.tool_name)
exposed_tool_callable_example =
    exposed_tool_callable caps (item ∷ []) (codes "docs__find") find_tool item-Apart item_slug
      (λ e. ground arith) is_exposed
