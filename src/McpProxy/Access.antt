-- ===== src/McpProxy/Access.antt =====
-- internal/mcpproxy/access.go: who may use, manage or delete which upstream server, and which
-- servers a caller has. The bindings and the servers are those that the store returns.
pub mod Laws
use synamcps_server.Prelude.{
  ℕ, String, Bool, true, false, Option, none, some, List, [], ◌∷◌, ◌++◌, ◌&&◌, ◌||◌, not,
  if◌then◌else◌, is_empty, any, find?,
}
use synamcps_server.Prelude.Strings.{Runes, ◌=ˢ◌, contains}
use synamcps_server.Models.{Principal, AccessToken}

pub data McpServerRole : Type 0 where
  owner admin user : McpServerRole
  other : String → McpServerRole

pub data McpServerPermission : Type 0 where
  use_server manage_server delete_server : McpServerPermission

pub record McpServer : Type 0 where
  pub id : String
  pub slug : Runes
  pub name : String
  pub owner_subject_key : String

pub record McpServerAclBinding : Type 0 where
  pub server_id : String
  pub subject_key : String
  pub role : McpServerRole

pub record AccessTokenMcpServer : Type 0 where
  pub token_id : String
  pub server_id : String
  pub tool_allowlist : List Runes
  pub resource_allowlist : List Runes
  pub prompt_allowlist : List Runes

pub record AccessibleServer : Type 0 where
  pub server : McpServer
  pub scope : AccessTokenMcpServer

unfoldable pub mcp_server_role_permissions : McpServerRole → List McpServerPermission
mcp_server_role_permissions owner = use_server ∷ manage_server ∷ delete_server ∷ []
mcp_server_role_permissions admin = use_server ∷ manage_server ∷ delete_server ∷ []
mcp_server_role_permissions user = use_server ∷ []
mcp_server_role_permissions (other role) = []

abbrev pub same_permission : McpServerPermission → McpServerPermission → Bool
same_permission use_server use_server = true
same_permission use_server manage_server = false
same_permission use_server delete_server = false
same_permission manage_server use_server = false
same_permission manage_server manage_server = true
same_permission manage_server delete_server = false
same_permission delete_server use_server = false
same_permission delete_server manage_server = false
same_permission delete_server delete_server = true

-- the loop over the bindings; the set of permissions as a list
unfoldable pub server_permissions : List McpServerAclBinding → String → List McpServerPermission
server_permissions [] server_id = []
server_permissions (b ∷ acl) server_id =
    let rest = server_permissions acl server_id in
    if b.server_id =ˢ server_id then mcp_server_role_permissions b.role ++ rest else rest

unfoldable pub has_platform_admin : Principal → Bool
has_platform_admin p = contains p.scopes "platform_admin"

-- `if token != nil { ... if !allowed { return false } }`
abbrev pub in_scope : Option AccessToken → List AccessTokenMcpServer → String → Bool
in_scope none scopes server_id = true
in_scope (some token) scopes server_id = any (λ s. s.server_id =ˢ server_id) scopes

unfoldable pub evaluate_mcp_server_access :
    Principal
    → Option AccessToken
    → List AccessTokenMcpServer
    → List McpServerAclBinding
    → String
    → McpServerPermission
    → Bool
evaluate_mcp_server_access p token scopes acl server_id permission =
    if not (in_scope token scopes server_id)
    then false
    else (let perms = server_permissions acl server_id in
        let all_perms =
          if is_empty perms && has_platform_admin p then permission ∷ perms else perms in
        any (same_permission permission) all_perms)

-- the scope of a caller without a token
abbrev pub open_scope_of : String → AccessTokenMcpServer
open_scope_of server_id = record {
  token_id = "";
  server_id = server_id;
  tool_allowlist = [];
  resource_allowlist = [];
  prompt_allowlist = [];
}

-- `serversByID[id]`, the last server of that id in the list
abbrev pub server_of : List McpServer → String → Option McpServer
server_of [] id = none
server_of (s ∷ servers) id = elim (server_of servers id) [
  | some t ↦ some t
  | none ↦ if s.id =ˢ id then some s else none
]

module _ (p : Principal) (acl : List McpServerAclBinding) where
  unfoldable pub servers_in_scopes :
      AccessToken
      → List AccessTokenMcpServer
      → List McpServer
      → List AccessTokenMcpServer
      → List AccessibleServer
  servers_in_scopes token scopes servers [] = []
  servers_in_scopes token scopes servers (scope ∷ rest) =
      let others = servers_in_scopes token scopes servers rest in
      elim (server_of servers scope.server_id) [
        | none ↦ others
        | some srv ↦
            if evaluate_mcp_server_access p (some token) scopes acl srv.id use_server
            then record { server = srv; scope = scope } ∷ others
            else others
      ]

  unfoldable pub servers_without_token : List McpServer → List AccessibleServer
  servers_without_token [] = []
  servers_without_token (srv ∷ rest) =
      let others = servers_without_token rest in
      if evaluate_mcp_server_access p none [] acl srv.id use_server
      then record { server = srv; scope = open_scope_of srv.id } ∷ others
      else others

  -- `AvailableMCPServers`
  unfoldable pub available_mcp_servers :
      Option AccessToken → List AccessTokenMcpServer → List McpServer → List AccessibleServer
  available_mcp_servers none scopes servers = servers_without_token servers
  available_mcp_servers (some token) scopes servers = servers_in_scopes token scopes servers scopes
