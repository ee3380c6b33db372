-- ===== src/McpProxy/Access/Laws.antt =====
-- Who may do what with an upstream server, and that callers are offered no others.
use synamcps_server.Prelude.{
  String, Bool, true, false, Option, none, some, List, [], ◌∷◌, ◌++◌, ◌≡◌, inl, inr, refl, sym, ◌∙◌,
  arith, eq_iff, ◌&&◌, ◌||◌, not, is_empty, any, any-append, All, Bool-cases, Option-cases,
}
use synamcps_server.Prelude.Strings.{◌=ˢ◌}
use synamcps_server.Models.{Principal, AccessToken}
use synamcps_server.McpProxy.Access.{
  McpServerRole, owner, admin, user, other, McpServerPermission, use_server, manage_server,
  delete_server, McpServer, McpServerAclBinding, AccessTokenMcpServer, AccessibleServer,
  mcp_server_role_permissions, same_permission, server_permissions, has_platform_admin, in_scope,
  evaluate_mcp_server_access, server_of, servers_in_scopes, servers_without_token,
  available_mcp_servers,
}

-- Owners and administrators may do all, users may use the server, other roles nothing.
abbrev pub role_allows : McpServerRole → McpServerPermission → Bool
role_allows owner permission = true
role_allows admin permission = true
role_allows user use_server = true
role_allows user manage_server = false
role_allows user delete_server = false
role_allows (other role) permission = false

abbrev pub known_role : McpServerRole → Bool
known_role owner = true
known_role admin = true
known_role user = true
known_role (other role) = false

abbrev pub granted : List McpServerAclBinding → String → McpServerPermission → Bool
granted acl server_id permission =
    any (λ b. b.server_id =ˢ server_id && role_allows b.role permission) acl

abbrev pub bound : List McpServerAclBinding → String → Bool
bound acl server_id = any (λ b. b.server_id =ˢ server_id && known_role b.role) acl

role_permissions-allows :
    (role : McpServerRole) (q : McpServerPermission)
    → any (same_permission q) (mcp_server_role_permissions role) ≡ role_allows role q
unfolding mcp_server_role_permissions
role_permissions-allows owner use_server = refl
role_permissions-allows owner manage_server = refl
role_permissions-allows owner delete_server = refl
role_permissions-allows admin use_server = refl
role_permissions-allows admin manage_server = refl
role_permissions-allows admin delete_server = refl
role_permissions-allows user use_server = refl
role_permissions-allows user manage_server = refl
role_permissions-allows user delete_server = refl
role_permissions-allows (other r) use_server = refl
role_permissions-allows (other r) manage_server = refl
role_permissions-allows (other r) delete_server = refl

server_permissions-granted :
    (acl : List McpServerAclBinding) (id : String) (q : McpServerPermission)
    → any (same_permission q) (server_permissions acl id) ≡ granted acl id q
unfolding server_permissions
server_permissions-granted [] id q = refl
server_permissions-granted (b ∷ acl) id q = elim (Bool-cases (b.server_id =ˢ id)) [
  | inl mine ↦ rw mine (
      any-append (same_permission q) (mcp_server_role_permissions b.role)
        (server_permissions acl id)
      ∙ rw (role_permissions-allows b.role q, server_permissions-granted acl id q) refl)
  | inr others ↦ rw others (server_permissions-granted acl id q)
]

role_permissions-known :
    (role : McpServerRole) (rest : List McpServerPermission)
    → is_empty (mcp_server_role_permissions role ++ rest) ≡ (not (known_role role) && is_empty rest)
unfolding mcp_server_role_permissions
role_permissions-known owner rest = refl
role_permissions-known admin rest = refl
role_permissions-known user rest = refl
role_permissions-known (other r) rest = refl

server_permissions-bound :
    (acl : List McpServerAclBinding) (id : String)
    → is_empty (server_permissions acl id) ≡ not (bound acl id)
unfolding server_permissions
server_permissions-bound [] id = refl
server_permissions-bound (b ∷ acl) id = ground (
  arith,
  role_permissions-known b.role (server_permissions acl id),
  server_permissions-bound acl id,
)

same_self : (q : McpServerPermission) → same_permission q q ≡ true
same_self use_server = refl
same_self manage_server = refl
same_self delete_server = refl

-- A caller may do a thing with a server when its token, if it has one, names the server, and a
-- binding of the caller's on that server allows it, or the caller is a platform administrator with
-- no binding on the server. A platform administrator that is bound to a server has the rights of
-- its bindings alone.
pub evaluate_mcp_server_access_lem :
    (p : Principal) (token : Option AccessToken) (scopes : List AccessTokenMcpServer)
    (acl : List McpServerAclBinding) (id : String) (q : McpServerPermission)
    → evaluate_mcp_server_access p token scopes acl id q ≡ (
        in_scope token scopes id
        && (granted acl id q || (not (bound acl id) && has_platform_admin p)))
unfolding evaluate_mcp_server_access
evaluate_mcp_server_access_lem p token scopes acl id q =
    ground
      (arith, server_permissions-granted acl id q, server_permissions-bound acl id, same_self q)

-- A server that a caller is offered: one of the store's that it may use.
abbrev pub Offered :
    Principal
    → Option AccessToken
    → List AccessTokenMcpServer
    → List McpServerAclBinding
    → AccessibleServer
    → Type 0
Offered p token scopes acl item =
    (evaluate_mcp_server_access p token scopes acl item.server.id use_server ≡ true)
    × (item.scope.server_id ≡ item.server.id)

server_of-id :
    (servers : List McpServer) (id : String) (srv : McpServer)
    → server_of servers id ≡ some srv
    → srv.id ≡ id
server_of-id [] id srv h = absurd (ground arith)
server_of-id (s ∷ servers) id srv h = elim (Option-cases (server_of servers id)) [
  | inl e ↦ ground (arith, rw e at h, eq_iff s.id id)
  | inr (t, e) ↦ server_of-id servers id srv (e ∙ rw e at h)
]

module _ (p : Principal) (acl : List McpServerAclBinding) where
  in_scopes-Offered :
      (token : AccessToken) (scopes : List AccessTokenMcpServer) (servers : List McpServer)
      (some_scopes : List AccessTokenMcpServer)
      → All
          (Offered p (some token) scopes acl)
          (servers_in_scopes p acl token scopes servers some_scopes)
  unfolding servers_in_scopes
  in_scopes-Offered token scopes servers [] = tt
  in_scopes-Offered token scopes servers (scope ∷ rest) =
      elim (Option-cases (server_of servers scope.server_id)) [
        | inl e ↦ rw (e, servers_in_scopes, All) (in_scopes-Offered token scopes servers rest)
        | inr (srv, e) ↦
            elim (Bool-cases
              (evaluate_mcp_server_access p (some token) scopes acl srv.id use_server)) [
                | inl good ↦
                    rw (e, good, servers_in_scopes, All)
                      (
                        (good, sym (server_of-id servers scope.server_id srv e)),
                        in_scopes-Offered token scopes servers rest,
                      )
                | inr bad ↦
                    rw (e, bad, servers_in_scopes, All)
                      (in_scopes-Offered token scopes servers rest)
              ]
      ]

  without_token-Offered :
      (scopes : List AccessTokenMcpServer) (servers : List McpServer)
      → All (Offered p none [] acl) (servers_without_token p acl servers)
  unfolding servers_without_token
  without_token-Offered scopes [] = tt
  without_token-Offered scopes (srv ∷ rest) =
      elim (Bool-cases (evaluate_mcp_server_access p none [] acl srv.id use_server)) [
        | inl good ↦
            rw (good, servers_without_token, All) ((good, refl), without_token-Offered scopes rest)
        | inr bad ↦ rw (bad, servers_without_token, All) (without_token-Offered scopes rest)
      ]

abbrev pub scopes_for : Option AccessToken → List AccessTokenMcpServer → List AccessTokenMcpServer
scopes_for none scopes = []
scopes_for (some token) scopes = scopes

-- Every server that a caller is offered is one that it may use, with a scope of that server.
pub available_mcp_servers-Offered :
    (p : Principal) (acl : List McpServerAclBinding) (token : Option AccessToken)
    (scopes : List AccessTokenMcpServer) (servers : List McpServer)
    → All
        (Offered p token (scopes_for token scopes) acl)
        (available_mcp_servers p acl token scopes servers)
unfolding available_mcp_servers
available_mcp_servers-Offered p acl none scopes servers = without_token-Offered p acl scopes servers
available_mcp_servers-Offered p acl (some token) scopes servers =
    in_scopes-Offered p acl token scopes servers scopes
