-- ===== src/Http/Requests/Guarded.antt =====
-- Every request of the HTTP tools is guarded (src/modules/agents/tools/http-request.util.ts,
-- http-get.tool.ts, http-post.tool.ts).
use nest_langgraph_ai.Prelude.{Text, ◌≡◌, refl, ◌⊎◌, inl, inr, some, [], Option-cases}
use nest_langgraph_ai.Config.{Env}
use nest_langgraph_ai.Http.Guard.{Request, Platform, check_http_allowed}
use nest_langgraph_ai.Http.Guard.Allowed.{Allowed, check_http_allowed-Allowed}
use nest_langgraph_ai.Http.Redirects.{fetch_with_redirect_limit}
use nest_langgraph_ai.Http.Redirects.Chain.{Follows, fetch_from-Follows}
use nest_langgraph_ai.Http.Requests.{guarded_request}

-- A tool makes no request where the guard blocks its URL. Elsewhere the URL may be
-- requested, and after the first request at most `HTTP_TOOL_MAX_REDIRECTS` follow, each to the
-- location of a redirect that may be requested too; a POST becomes a GET with no body on 301, 302
-- and 303, and every other request keeps its method and body.
pub guarded_request-Follows :
    (p : Platform) (env : Env) (q : Request)
    → ((guard : Text) × (check_http_allowed p env 0 q.url ≡ some guard)
        × ((guarded_request p env q).1 ≡ []))
      ⊎ (Allowed p env 0 q.url
          × Follows p env env.http_tool_max_redirects 0 q (guarded_request p env q).1)
unfolding guarded_request fetch_with_redirect_limit
guarded_request-Follows p env q = elim (Option-cases (check_http_allowed p env 0 q.url)) [
  | inr (guard, e) ↦ inl (guard, e, rw (e, guarded_request) refl)
  | inl e ↦ inr (
    check_http_allowed-Allowed p env 0 q.url e,
    rw (e, guarded_request) (fetch_from-Follows p env env.http_tool_max_redirects 0 q),
  )
]
