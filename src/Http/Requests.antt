-- ===== src/Http/Requests.antt =====
-- The tools http_get and http_post: src/modules/agents/tools/http-get.tool.ts and http-post.tool.ts.
-- Headers are not modelled; a request that the timer aborts is one whose `fetch` throws.
pub mod Guarded
use nest_langgraph_ai.Prelude.{
  Text, ℕ, Option, none, some, List, [], ◌∷◌, ◌++◌, codes, decimal, take, length, ltb,
  if◌then◌else◌, Settled, returned, threw,
}
use nest_langgraph_ai.Config.{Env}
use nest_langgraph_ai.Http.Guard.{
  Method, get, post, Request, Response, Platform, check_http_allowed,
}
use nest_langgraph_ai.Http.Redirects.{Fetched, response, failed, fetch_with_redirect_limit}

abbrev max_response_size : ℕ
max_response_size = 500000

unfoldable pub print_body : Response → Text → Text
print_body r text =
    codes "HTTP "
    ++ (decimal r.status
        ++ (codes " "
            ++ (r.status_text
                ++ ((if ltb max_response_size (length text) then codes " (truncated)" else [])
                    ++ (10 ∷ take max_response_size text)))))

unfoldable pub error_text : Text → Text
error_text message = codes "ERROR: " ++ message

-- The text of a tool's result.
unfoldable pub print_fetched : Settled Fetched → Text
unfolding print_body error_text
print_fetched (threw message) = error_text message
print_fetched (returned (failed message)) = message
print_fetched (returned (response r)) = elim (r.text) [
  | threw message ↦ error_text message
  | returned text ↦ print_body r text
]

-- A tool's result, and the requests that it made.
unfoldable pub guarded_request : Platform → Env → Request → Text × List Request
unfolding check_http_allowed fetch_with_redirect_limit print_fetched error_text
guarded_request p env q = elim (check_http_allowed p env 0 q.url) [
  | some guard ↦ (error_text guard, [])
  | none ↦ let f = fetch_with_redirect_limit p env q in (print_fetched f.outcome, f.requests)
]

-- `httpGetTool`.
unfoldable pub http_get_tool : Platform → Env → Text → Text × List Request
unfolding guarded_request
http_get_tool p env url = guarded_request p env (record { url = url; method = get; body = none })

-- `httpPostTool`, with the body as a text.
unfoldable pub http_post_tool : Platform → Env → (url body : Text) → Text × List Request
unfolding guarded_request
http_post_tool p env url body =
    guarded_request p env (record { url = url; method = post; body = some body })
