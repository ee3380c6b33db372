-- ===== src/McpProxy/Manager/Laws.antt =====
-- A call goes to a server that the caller has and under its allowlist, and what is exposed can be
-- called.
use mathlib.Core.List as List
use mathlib.Core.List.{Memᴰ}
use synamcps_server.Prelude.{
  String, true, Option, none, some, List, [], ◌∷◌, ◌≡◌, inl, inr, refl, sym, ap, ◌∙◌, subst, arith,
  eq_iff, Bool-cases, Option-cases,
}
use synamcps_server.Prelude.Strings.{Runes, ◌=ˢ◌}
use synamcps_server.Prelude.Runes.{◌=ʳ◌, =ʳ-iff}
use synamcps_server.McpProxy.Names.{parse_namespaced_tool}
use synamcps_server.McpProxy.Access.{McpServer, AccessTokenMcpServer, AccessibleServer}
use synamcps_server.McpProxy.Manager.{
  allow, Call, call, refuse, find_server_by_slug, find_scope, call_target, call_tool,
}

-- The call of a tool reaches one of the caller's servers, by the slug in the name, and the
-- allowlist of the scope that the caller has on that server lets the name through.
abbrev pub Routed :
    (AccessTokenMcpServer → List Runes)
    → Runes
    → Option (Runes × Runes)
    → List AccessibleServer
    → Call
    → Type 0
Routed allowlist namespaced parsed servers (refuse e) = Unit
Routed allowlist namespaced parsed servers (call id name) =
    (slug : Runes) × (srv : McpServer) × (item : AccessibleServer) × (under : AccessibleServer)
    × (parsed ≡ some (slug, name))
    × Memᴰ item servers
    × (item.server ≡ srv)
    × (srv.slug ≡ slug)
    × (srv.id ≡ id)
    × Memᴰ under servers
    × (under.server.id ≡ id)
    × (allow (allowlist under.scope) namespaced ≡ true)

pub find_server_by_slug-mem :
    (slug : Runes) (servers : List AccessibleServer) (srv : McpServer)
    → find_server_by_slug slug servers ≡ some srv
    → (item : AccessibleServer) × Memᴰ item servers × (item.server ≡ srv) × (srv.slug ≡ slug)
unfolding find_server_by_slug
find_server_by_slug-mem slug [] srv h = absurd (ground arith)
find_server_by_slug-mem slug (item ∷ servers) srv h = elim (Bool-cases (item.server.slug =ʳ slug)) [
  | inl here ↦
      let e : item.server ≡ srv = some_inj item.server srv (rw (here, find_server_by_slug) at h) in
      (
        item,
        List.Memᴰ.head refl,
        e,
        ap (λ x. x.slug) (sym e) ∙ (=ʳ-iff item.server.slug slug).0 here,
      )
  | inr away ↦
      let (found, mem, e, s) =
        find_server_by_slug-mem slug servers srv (rw (away, find_server_by_slug) at h) in
      (found, List.Memᴰ.tail mem, e, s)
]
  where
    some_inj : (a b : McpServer) → some a ≡ some b → a ≡ b
    some_inj a b e = ap (λ o. elim o [ some x ↦ x | none ↦ a ]) e

pub find_scope-mem :
    (servers : List AccessibleServer) (id : String) (scope : AccessTokenMcpServer)
    → find_scope servers id ≡ some scope
    → (item : AccessibleServer) × Memᴰ item servers × (item.server.id ≡ id) × (item.scope ≡ scope)
unfolding find_scope
find_scope-mem [] id scope h = absurd (ground arith)
find_scope-mem (item ∷ servers) id scope h = elim (Bool-cases (item.server.id =ˢ id)) [
  | inl here ↦ (
    item,
    List.Memᴰ.head refl,
    (eq_iff item.server.id id).0 here,
    some_inj item.scope scope (rw (here, find_scope) at h),
  )
  | inr away ↦
      let (found, mem, e, s) = find_scope-mem servers id scope (rw (away, find_scope) at h) in
      (found, List.Memᴰ.tail mem, e, s)
]
  where
    some_inj : (a b : AccessTokenMcpServer) → some a ≡ some b → a ≡ b
    some_inj a b e = ap (λ o. elim o [ some x ↦ x | none ↦ a ]) e

call_target-Routed :
    (allowlist : AccessTokenMcpServer → List Runes) (namespaced : Runes)
    (parsed : Option (Runes × Runes)) (servers : List AccessibleServer)
    → Routed allowlist namespaced parsed servers (call_target allowlist namespaced parsed servers)
unfolding call_target
call_target-Routed allowlist namespaced none servers = tt
call_target-Routed allowlist namespaced (some (slug, name)) servers =
    elim (Option-cases (find_server_by_slug slug servers)) [
      | inl e ↦ rw (e, call_target, Routed) tt
      | inr (srv, e) ↦ elim (Option-cases (find_scope servers srv.id)) [
        | inl f ↦ rw (e, f, call_target, Routed) tt
        | inr (scope, f) ↦ elim (Bool-cases (allow (allowlist scope) namespaced)) [
          | inr no_entry ↦ rw (e, f, no_entry, call_target, Routed) tt
          | inl listed ↦
              let (item, mem, es, slug_e) = find_server_by_slug-mem slug servers srv e in
              let (under, mem_u, id_e, scope_e) = find_scope-mem servers srv.id scope f in
              rw (e, f, listed, call_target, Routed)
                (
                  slug,
                  srv,
                  item,
                  under,
                  refl,
                  mem,
                  es,
                  slug_e,
                  refl,
                  mem_u,
                  id_e,
                  subst (λ s. allow (allowlist s) namespaced ≡ true) (sym scope_e) listed,
                )
        ]
      ]
    ]

-- A call of a namespaced tool is refused, or it goes to one of the caller's servers, the one whose
-- slug the name begins with, for the tool that the name ends with, and the allowlist of a scope of
-- the caller's on that server lets the name through.
pub call_tool-Routed :
    (namespaced : Runes) (servers : List AccessibleServer)
    → Routed
        (λ s. s.tool_allowlist)
        namespaced
        (parse_namespaced_tool namespaced)
        servers
        (call_tool namespaced servers)
unfolding call_tool
call_tool-Routed namespaced servers =
    call_target-Routed (λ s. s.tool_allowlist) namespaced _ servers
