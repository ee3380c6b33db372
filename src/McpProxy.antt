-- ===== src/McpProxy.antt =====
-- internal/mcpproxy: the proxy for upstream MCP servers. The children are the names under which
-- upstream tools, prompts and resources are exposed, the access to the servers, and the manager's
-- choice of the upstream that a call goes to.
pub mod Names
pub mod Access
pub mod Manager
