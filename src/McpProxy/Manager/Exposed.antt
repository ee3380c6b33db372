-- ===== src/McpProxy/Manager/Exposed.antt =====
-- What is exposed of the upstream servers can be called, and goes where it came from.
use mathlib.Core.List as List
use mathlib.Core.List.{Memᴰ}
use synamcps_server.Prelude.{
  String, Bool, true, false, Option, none, some, List, [], ◌∷◌, ◌++◌, ◌≡◌, ◌≢◌, ◌⊎◌, inl, inr, refl,
  sym, ap, ◌∙◌, subst, arith, eq_iff, Bool-cases, Option-cases,
}
use synamcps_server.Prelude.Strings.{Runes, codes, ◌=ˢ◌}
use synamcps_server.Prelude.Runes.{◌=ʳ◌, =ʳ-iff}
use synamcps_server.McpProxy.Names.{namespaced_tool, parse_namespaced_tool}
use synamcps_server.McpProxy.Names.Laws.{Without, parse_namespaced_tool-namespaced_tool}
use synamcps_server.McpProxy.Access.{McpServer, AccessTokenMcpServer, AccessibleServer}
use synamcps_server.McpProxy.Manager.{
  McpServerTool, McpServerCapabilities, allow, exposed_tools, expose_one, exposed_for_access, call,
  find_server_by_slug, find_scope, call_target, call_tool,
}
use synamcps_server.McpProxy.Manager.Laws.{find_server_by_slug-mem, find_scope-mem}

-- A caller has a server once, and no two of its servers share a slug.
abbrev pub Apart : List AccessibleServer → Type 0
Apart servers =
    (a b : AccessibleServer)
    → Memᴰ a servers
    → Memᴰ b servers
    → ((a.server.slug ≡ b.server.slug) ⊎ (a.server.id ≡ b.server.id))
    → a ≡ b

find_server_by_slug-some :
    (servers : List AccessibleServer) (item : AccessibleServer)
    → Memᴰ item servers
    → find_server_by_slug item.server.slug servers ≢ none
unfolding find_server_by_slug
find_server_by_slug-some [] item mem h = List.Memᴰ.not-nil mem
find_server_by_slug-some (x ∷ servers) item mem h =
    elim (Bool-cases (x.server.slug =ʳ item.server.slug)) [
      | inl here ↦ not_none x.server (rw (here, find_server_by_slug) at h)
      | inr away ↦ elim (List.Memᴰ.cases_cons mem) [
        | inl e ↦
            differ _ away
              ((=ʳ-iff x.server.slug item.server.slug).1 (sym (ap (λ i. i.server.slug) e)))
        | inr later ↦
            find_server_by_slug-some servers item later (rw (away, find_server_by_slug) at h)
      ]
    ]
  where
    not_none : (s : McpServer) → some s ≡ none → ⊥
    not_none s e = ground arith

    differ : (b : Bool) → b ≡ false → b ≡ true → ⊥
    differ b f t = ground arith

find_scope-some :
    (servers : List AccessibleServer) (item : AccessibleServer)
    → Memᴰ item servers
    → find_scope servers item.server.id ≢ none
unfolding find_scope
find_scope-some [] item mem h = List.Memᴰ.not-nil mem
find_scope-some (x ∷ servers) item mem h = elim (Bool-cases (x.server.id =ˢ item.server.id)) [
  | inl here ↦ not_none x.scope (rw (here, find_scope) at h)
  | inr away ↦ elim (List.Memᴰ.cases_cons mem) [
    | inl e ↦ differ _ away ((eq_iff x.server.id item.server.id).1 (sym (ap (λ i. i.server.id) e)))
    | inr later ↦ find_scope-some servers item later (rw (away, find_scope) at h)
  ]
]
  where
    not_none : (s : AccessTokenMcpServer) → some s ≡ none → ⊥
    not_none s e = ground arith

    differ : (b : Bool) → b ≡ false → b ≡ true → ⊥
    differ b f t = ground arith

module _ (servers : List AccessibleServer) (apart : Apart servers) (item : AccessibleServer)
    (mem : Memᴰ item servers) where
  server_found : find_server_by_slug item.server.slug servers ≡ some item.server
  server_found = elim (Option-cases (find_server_by_slug item.server.slug servers)) [
    | inl e ↦ absurd (find_server_by_slug-some servers item mem e)
    | inr (srv, e) ↦
        let (found, mem_f, es, slug_e) = find_server_by_slug-mem item.server.slug servers srv e in
        let same : found ≡ item = apart found item mem_f mem (inl (ap (λ s. s.slug) es ∙ slug_e)) in
        e ∙ ap some (sym es ∙ ap (λ i. i.server) same)
  ]

  scope_found : find_scope servers item.server.id ≡ some item.scope
  scope_found = elim (Option-cases (find_scope servers item.server.id)) [
    | inl e ↦ absurd (find_scope-some servers item mem e)
    | inr (scope, e) ↦
        let (found, mem_f, id_e, scope_e) = find_scope-mem servers item.server.id scope e in
        e ∙ ap some (sym scope_e ∙ ap (λ i. i.scope) (apart found item mem_f mem (inr id_e)))
  ]

  call_of :
      (name tool : Runes)
      → allow item.scope.tool_allowlist name ≡ true
      → parse_namespaced_tool name ≡ some (item.server.slug, tool)
      → call_tool name servers ≡ call item.server.id tool
  unfolding call_tool call_target
  call_of name tool listed parsed =
      rw (parsed, server_found, scope_found, listed, call_tool, call_target) refl

-- A tool that the server has enabled, under its name in the proxy, that the allowlist lets through.
abbrev pub ExposedOf : AccessibleServer → Runes × McpServerTool → Type 0
ExposedOf item (name, t) =
    (t.enabled ≡ true)
    × (name ≡ namespaced_tool item.server.slug t.tool_name)
    × (allow item.scope.tool_allowlist name ≡ true)

exposed_tools-on :
    (item : AccessibleServer) (t : McpServerTool) (tools : List McpServerTool)
    → t.enabled ≡ true
    → allow item.scope.tool_allowlist (namespaced_tool item.server.slug t.tool_name) ≡ true
    → exposed_tools item (t ∷ tools)
      ≡ (namespaced_tool item.server.slug t.tool_name, t) ∷ exposed_tools item tools
unfolding exposed_tools
exposed_tools-on item t tools on listed = ground arith

exposed_tools-ExposedOf :
    (item : AccessibleServer) (tools : List McpServerTool) (x : Runes × McpServerTool)
    → Memᴰ x (exposed_tools item tools)
    → ExposedOf item x × Memᴰ x.1 tools
unfolding exposed_tools
exposed_tools-ExposedOf item [] x mem = absurd (List.Memᴰ.not-nil mem)
exposed_tools-ExposedOf item (t ∷ tools) x mem = elim (Bool-cases t.enabled) [
  | inr off ↦
      let (e, m) = exposed_tools-ExposedOf item tools x (rw (off, exposed_tools) at mem) in
      (e, List.Memᴰ.tail m)
  | inl on ↦
      elim (Bool-cases
        (allow item.scope.tool_allowlist (namespaced_tool item.server.slug t.tool_name))) [
          | inr barred ↦
              let (e, m) =
                exposed_tools-ExposedOf item tools x (rw (on, barred, exposed_tools) at mem) in
              (e, List.Memᴰ.tail m)
          | inl listed ↦
              elim (List.Memᴰ.cases_cons
                (subst (Memᴰ x) (exposed_tools-on item t tools on listed) mem)) [
                  | inl e ↦ (
                    subst (ExposedOf item) (sym e) (on, refl, listed),
                    List.Memᴰ.head (ap (λ p. p.1) e),
                  )
                  | inr later ↦
                      let (e, m) = exposed_tools-ExposedOf item tools x later in
                      (e, List.Memᴰ.tail m)
                ]
        ]
]

-- Where an exposed tool comes from.
abbrev pub Origin :
    (String → Option McpServerCapabilities) → List AccessibleServer → Runes × McpServerTool → Type 0
Origin caps_of servers x =
    (item : AccessibleServer) × (caps : McpServerCapabilities) × Memᴰ item servers
    × (caps_of item.server.id ≡ some caps)
    × Memᴰ x.1 caps.tools
    × ExposedOf item x

expose_one-Origin :
    (caps_of : String → Option McpServerCapabilities) (item : AccessibleServer)
    (servers : List AccessibleServer) (found : Option McpServerCapabilities)
    (x : Runes × McpServerTool)
    → caps_of item.server.id ≡ found
    → Memᴰ x (expose_one item found (exposed_for_access caps_of servers)).tools
    → Origin caps_of (item ∷ servers) x ⊎ Memᴰ x (exposed_for_access caps_of servers).tools
unfolding expose_one
expose_one-Origin caps_of item servers none x e mem = inr mem
expose_one-Origin caps_of item servers (some caps) x e mem =
    elim (List.Memᴰ.append_cases (exposed_tools item caps.tools) mem) [
      | inl mine ↦
          let (exposed, m) = exposed_tools-ExposedOf item caps.tools x mine in
          inl (item, caps, List.Memᴰ.head refl, e, m, exposed)
      | inr later ↦ inr later
    ]

exposed_for_access-Origin :
    (caps_of : String → Option McpServerCapabilities) (servers : List AccessibleServer)
    (x : Runes × McpServerTool)
    → Memᴰ x (exposed_for_access caps_of servers).tools
    → Origin caps_of servers x
unfolding exposed_for_access
exposed_for_access-Origin caps_of [] x mem = absurd (List.Memᴰ.not-nil mem)
exposed_for_access-Origin caps_of (item ∷ servers) x mem =
    elim (expose_one-Origin caps_of item servers _ x refl mem) [
      | inl here ↦ here
      | inr later ↦
          let (i, caps, m, found, there, rest) =
            exposed_for_access-Origin caps_of servers x later in
          (i, caps, List.Memᴰ.tail m, found, there, rest)
    ]

-- Where a caller has each server once and no two of its servers share a slug, and slugs are not
-- empty and have no underscore, every exposed tool with a name that is not empty is one of the
-- enabled tools of one of those servers, is exposed under that server's slug, and is let through by
-- the allowlist of the caller's scope for it; and calling it by the name under which it is exposed
-- reaches that tool of that server. A slug that a caller of CreateServer gives is not checked for this.
pub exposed_tool_callable :
    (caps_of : String → Option McpServerCapabilities) (servers : List AccessibleServer)
    (name : Runes) (t : McpServerTool)
    → Apart servers
    → ((item : AccessibleServer)
        → Memᴰ item servers
        → (item.server.slug ≢ []) × Without b'_' item.server.slug)
    → t.tool_name ≢ []
    → Memᴰ (name, t) (exposed_for_access caps_of servers).tools
    → (item : AccessibleServer) × (caps : McpServerCapabilities) × Memᴰ item servers
      × (caps_of item.server.id ≡ some caps)
      × Memᴰ t caps.tools
      × (t.enabled ≡ true)
      × (name ≡ item.server.slug ++ (codes "__" ++ t.tool_name))
      × (allow item.scope.tool_allowlist name ≡ true)
      × (call_tool name servers ≡ call item.server.id t.tool_name)
unfolding namespaced_tool
exposed_tool_callable caps_of servers name t apart slugs named mem =
    let (item, caps, m, found, there, (on, name_e, listed)) =
      exposed_for_access-Origin caps_of servers (name, t) mem in
    let (some_slug, plain) = slugs item m in
    (
      item,
      caps,
      m,
      found,
      there,
      on,
      name_e,
      listed,
      call_of servers apart item m name t.tool_name listed (
          ap parse_namespaced_tool name_e
          ∙ parse_namespaced_tool-namespaced_tool item.server.slug t.tool_name plain some_slug
              named),
    )
