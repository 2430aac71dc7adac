-- ===== src/Http.antt =====
-- The HTTP tools: src/modules/agents/tools/http-request.util.ts, http-get.tool.ts and
-- http-post.tool.ts.
pub mod Hosts
pub mod Guard
pub mod Redirects
pub mod Requests
