-- ===== src/McpProxy/Manager.antt =====
-- internal/mcpproxy/manager.go: what is exposed of the upstream servers, and which upstream a call
-- of a namespaced tool, prompt or resource goes to. The call itself is the client's.
pub mod Laws
pub mod Exposed
use synamcps_server.Prelude.{
  ℕ, String, Bool, true, false, Option, none, some, List, [], ◌∷◌, ◌++◌, ◌&&◌, ◌||◌, not,
  if◌then◌else◌, is_empty, any, find?,
}
use synamcps_server.Prelude.Strings.{Runes, ◌=ˢ◌}
use synamcps_server.Prelude.Runes.{◌=ʳ◌, has_prefix}
use synamcps_server.McpProxy.Names.{
  resource_prefix, slash, separator, namespaced_tool, namespaced_prompt, namespaced_resource_uri,
  parse_namespaced_tool, parse_namespaced_prompt, parse_namespaced_resource_uri,
}
use synamcps_server.McpProxy.Access.{McpServer, AccessTokenMcpServer, AccessibleServer}

pub record McpServerTool : Type 0 where
  pub tool_name : Runes
  pub description : String
  pub enabled : Bool

pub record McpServerResource : Type 0 where
  pub uri : Runes
  pub name : String
  pub enabled : Bool

pub record McpServerPrompt : Type 0 where
  pub prompt_name : Runes
  pub description : String
  pub enabled : Bool

-- what the store knows of a server; `none` where it fails
pub record McpServerCapabilities : Type 0 where
  pub tools : List McpServerTool
  pub resources : List McpServerResource
  pub prompts : List McpServerPrompt

pub record ExposedCapabilities : Type 0 where
  pub tools : List (Runes × McpServerTool)
  pub resources : List (Runes × McpServerResource)
  pub prompts : List (Runes × McpServerPrompt)

unfoldable pub allow : List Runes → Runes → Bool
allow allowlist name = if is_empty allowlist then true else any (λ v. v =ʳ name) allowlist

exposed_tools : AccessibleServer → List McpServerTool → List (Runes × McpServerTool)
exposed_tools item [] = []
exposed_tools item (t ∷ tools) =
    let rest = exposed_tools item tools in
    if not t.enabled
    then rest
    else (let name = namespaced_tool item.server.slug t.tool_name in
        if not (allow item.scope.tool_allowlist name) then rest else (name, t) ∷ rest)

exposed_resources : AccessibleServer → List McpServerResource → List (Runes × McpServerResource)
exposed_resources item [] = []
exposed_resources item (r ∷ resources) =
    let rest = exposed_resources item resources in
    if not r.enabled
    then rest
    else (let uri = namespaced_resource_uri item.server.slug r.uri in
        if not (allow item.scope.resource_allowlist uri) then rest else (uri, r) ∷ rest)

exposed_prompts : AccessibleServer → List McpServerPrompt → List (Runes × McpServerPrompt)
exposed_prompts item [] = []
exposed_prompts item (p ∷ prompts) =
    let rest = exposed_prompts item prompts in
    if not p.enabled
    then rest
    else (let name = namespaced_prompt item.server.slug p.prompt_name in
        if not (allow item.scope.prompt_allowlist name) then rest else (name, p) ∷ rest)

expose_one :
    AccessibleServer → Option McpServerCapabilities → ExposedCapabilities → ExposedCapabilities
expose_one item none out = out
expose_one item (some caps) out = record {
  tools = exposed_tools item caps.tools ++ out.tools;
  resources = exposed_resources item caps.resources ++ out.resources;
  prompts = exposed_prompts item caps.prompts ++ out.prompts;
}

-- `ExposedForAccess`, in the order of the servers
unfoldable pub exposed_for_access :
    (String → Option McpServerCapabilities) → List AccessibleServer → ExposedCapabilities
unfolding expose_one exposed_tools exposed_resources exposed_prompts
exposed_for_access caps_of [] = record { tools = []; resources = []; prompts = [] }
exposed_for_access caps_of (item ∷ servers) =
    expose_one item (caps_of item.server.id) (exposed_for_access caps_of servers)

pub data CallError : Type 0 where
  unknown_proxy_target forbidden : CallError

-- what the client is then asked for: the server, and the upstream's own name
pub data Call : Type 0 where
  call : (server_id : String) (name : Runes) → Call
  refuse : CallError → Call

unfoldable pub find_server_by_slug : Runes → List AccessibleServer → Option McpServer
find_server_by_slug slug [] = none
find_server_by_slug slug (item ∷ servers) =
    if item.server.slug =ʳ slug then some item.server else find_server_by_slug slug servers

unfoldable pub find_scope : List AccessibleServer → String → Option AccessTokenMcpServer
find_scope [] server_id = none
find_scope (item ∷ servers) server_id =
    if item.server.id =ˢ server_id then some item.scope else find_scope servers server_id

-- the part that `CallTool`, `GetPrompt` and `ReadResource` share, after the name is parsed
unfoldable pub call_target :
    (AccessTokenMcpServer → List Runes)
    → Runes
    → Option (Runes × Runes)
    → List AccessibleServer
    → Call
call_target allowlist namespaced none servers = refuse unknown_proxy_target
call_target allowlist namespaced (some (slug, name)) servers =
    elim (find_server_by_slug slug servers) [
      | none ↦ refuse forbidden
      | some srv ↦ elim (find_scope servers srv.id) [
        | none ↦ refuse forbidden
        | some scope ↦
            if not (allow (allowlist scope) namespaced) then refuse forbidden else call srv.id name
      ]
    ]

unfoldable pub call_tool : Runes → List AccessibleServer → Call
call_tool namespaced servers =
    call_target (λ s. s.tool_allowlist) namespaced (parse_namespaced_tool namespaced) servers

unfoldable pub read_resource : Runes → List AccessibleServer → Call
read_resource uri servers =
    call_target (λ s. s.resource_allowlist) uri (parse_namespaced_resource_uri uri) servers

unfoldable pub get_prompt : Runes → List AccessibleServer → Call
get_prompt namespaced servers =
    call_target (λ s. s.prompt_allowlist) namespaced (parse_namespaced_prompt namespaced) servers
