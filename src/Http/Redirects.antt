-- ===== src/Http/Redirects.antt =====
-- Redirects that are followed one by one, `fetchWithRedirectLimit` of
-- src/modules/agents/tools/http-request.util.ts.
pub mod Chain
use nest_langgraph_ai.Prelude.{
  Text, ℕ, zero, suc, Bool, true, false, ◌&&◌, ◌||◌, ◌==◌, Option, none, some, List, [], ◌∷◌, ◌++◌,
  codes, decimal, or_else, is_empty, if◌then◌else◌, Settled, returned, threw,
}
use nest_langgraph_ai.Config.{Env}
use nest_langgraph_ai.Http.Guard.{
  Method, get, post, Request, Response, Platform, check_http_allowed,
}

-- `REDIRECT_STATUSES.has(status)`.
unfoldable pub is_redirect : ℕ → Bool
is_redirect s = s == 301 || s == 302 || s == 303 || s == 307 || s == 308

-- What the loop hands back: a response, or the text of an error.
pub data Fetched : Type 0 where
  response : Response → Fetched
  failed : Text → Fetched

-- Where the loop goes from a response.
pub data Next : Type 0 where
  stop : Fetched → Next
  follow : Text → Next

abbrev location_of : Response → Option Text
location_of r = elim (r.location) [ none ↦ none | some t ↦ if is_empty t then none else some t ]

-- The target of a redirect, if it may be followed.
unfoldable pub redirect_target : Platform → Env → ℕ → Text → Response → Next
unfolding check_http_allowed
redirect_target p env hops url r = elim (location_of r) [
  | none ↦ stop (response r)
  | some location ↦ elim (p.resolve_url location url) [
    | none ↦ stop (failed (codes "ERROR: Invalid redirect location \"" ++ (location ++ codes "\"")))
    | some target ↦ elim (check_http_allowed p env (suc hops) target) [
      | some guard ↦ stop (failed (codes "ERROR: Redirect target blocked — " ++ guard))
      | none ↦ follow target
    ]
  ]
]

-- What is handed back where no redirect may be followed any more.
unfoldable pub last_response : Env → Text → Response → Fetched
unfolding is_redirect
last_response env url r =
    if is_redirect r.status
    then failed (
        codes "ERROR: Too many redirects (limit: "
        ++ (decimal env.http_tool_max_redirects ++ (codes "). Last URL: " ++ url)))
    else response r

-- Where the loop goes where another redirect may be followed.
unfoldable pub next_hop : Platform → Env → ℕ → Text → Response → Next
unfolding is_redirect redirect_target
next_hop p env hops url r =
    if is_redirect r.status then redirect_target p env hops url r else stop (response r)

unfoldable pub is_degraded : Method → ℕ → Bool
is_degraded get status = false
is_degraded post status = status == 301 || status == 302 || status == 303

-- The request that follows a redirect.
unfoldable pub redirected : Request → ℕ → Text → Request
unfolding is_degraded
redirected q status target =
    if is_degraded q.method status
    then record { url = target; method = get; body = none }
    else record { url = target; method = q.method; body = q.body }

-- The outcome, and the requests that were made.
pub record Fetches : Type 0 where
  pub outcome : Settled Fetched
  pub requests : List Request

unfoldable pub after : Request → Fetches → Fetches
after q f = record f { requests = q ∷ f.requests }

unfoldable pub no_more : Settled Fetched → Fetches
no_more o = record { outcome = o; requests = [] }

-- The loop; `left` is the number of redirects that may still be followed, `maxRedirects - hops`.
unfoldable pub fetch_from : Platform → Env → (left hops : ℕ) → Request → Fetches
unfolding after no_more last_response next_hop redirected
fetch_from p env zero hops q = after q (elim (p.fetch hops q) [
  | threw message ↦ no_more (threw message)
  | returned r ↦ no_more (returned (last_response env q.url r))
])
fetch_from p env (suc left) hops q = after q (elim (p.fetch hops q) [
  | threw message ↦ no_more (threw message)
  | returned r ↦ elim (next_hop p env hops q.url r) [
    | stop f ↦ no_more (returned f)
    | follow target ↦ fetch_from p env left (suc hops) (redirected q r.status target)
  ]
])

-- `fetchWithRedirectLimit`.
unfoldable pub fetch_with_redirect_limit : Platform → Env → Request → Fetches
unfolding fetch_from
fetch_with_redirect_limit p env q = fetch_from p env env.http_tool_max_redirects 0 q
