-- ===== src/Http/Guard.antt =====
-- The guard of the HTTP tools, `checkHttpAllowed` of src/modules/agents/tools/http-request.util.ts.
pub mod Allowed
use nest_langgraph_ai.Prelude.{
  Text, ℕ, suc, Bool, true, false, not, ◌&&◌, ◌||◌, Option, none, some, List, [], ◌∷◌, ◌++◌, codes,
  map, join, text_eq, starts_with, ends_with, unique, some_of, is_empty, if◌then◌else◌, Settled,
  returned, threw, drop,
}
use nest_langgraph_ai.Config.{Env}
use nest_langgraph_ai.Http.Hosts.{is_private_host, lower}

-- What the program reads of a parsed `URL`.
pub record Url : Type 0 where
  pub protocol : Text
  pub hostname : Text

pub data Method : Type 0 where
  get post : Method

pub record Request : Type 0 where
  pub url : Text
  pub method : Method
  pub body : Option Text

pub record Response : Type 0 where
  pub status : ℕ
  pub status_text : Text
  pub location : Option Text
  pub text : Settled Text

-- The platform: `new URL(url)`, `new URL(location, base).toString()`, `isIP`, `lookup` of node:dns
-- and `fetch` with no redirects followed. The number counts the lookups, or requests, so far: names may resolve
-- and servers may answer differently each time.
pub record Platform : Type 0 where
  pub parse_url : Text → Option Url
  pub resolve_url : (location base : Text) → Option Text
  pub is_ip : Text → Bool
  pub dns_lookup : ℕ → Text → Settled (List Text)
  pub fetch : ℕ → Request → Settled Response

-- `resolveHostAddresses`.
unfoldable pub resolve_host_addresses : Platform → ℕ → Text → Settled (List Text)
unfolding unique lower
resolve_host_addresses p n host =
    if p.is_ip host then returned (host ∷ []) else elim (p.dns_lookup n host) [
      | returned addresses ↦ returned (unique (map lower addresses))
      | threw message ↦ threw message
    ]

-- One pattern of the allow list against a host in lower case.
unfoldable pub matches_pattern : (host pattern : Text) → Bool
unfolding starts_with ends_with text_eq lower
matches_pattern host pattern =
    if starts_with (codes "*.") (lower pattern)
    then ends_with (drop 1 (lower pattern)) host || text_eq host (drop 2 (lower pattern))
    else text_eq host (lower pattern)

abbrev how_to_enable : Text
how_to_enable = codes "Set HTTP_TOOL_ALLOW_PRIVATE_NETWORKS=true to enable."

unfoldable pub first_private : List Text → Option Text
unfolding is_private_host
first_private [] = none
first_private (a ∷ more) = if is_private_host a then some a else first_private more

-- The last check: what the host's name resolves to.
unfoldable pub check_addresses : Platform → ℕ → Text → Option Text
unfolding resolve_host_addresses first_private
check_addresses p n host = elim (resolve_host_addresses p n host) [
  | threw message ↦ some (codes "Failed to resolve host \"" ++ (host ++ (codes "\": " ++ message)))
  | returned addresses ↦ elim (first_private addresses) [
    | none ↦ none
    | some address ↦ some (
        codes "Host \""
        ++ (host
            ++ (codes "\" resolves to private address \""
                ++ (address ++ (codes "\", which is blocked. " ++ how_to_enable)))))
  ]
]

abbrev pub is_empty_list : List Text → Bool
is_empty_list [] = true
is_empty_list (x ∷ xs) = false

-- `text || '(empty)'`.
abbrev or_empty : Text → Text
or_empty t = if is_empty t then codes "(empty)" else t

-- The checks on the host's name, and then the last one.
unfoldable pub check_host : Platform → Env → ℕ → Text → Option Text
unfolding is_private_host matches_pattern check_addresses
check_host p env n host =
    if not env.http_tool_allow_private_networks && is_private_host host
    then some (
        codes "Access to private/localhost host \""
        ++ (host ++ (codes "\" is blocked. " ++ how_to_enable)))
    else (if not (some_of (matches_pattern host) env.http_tool_allowed_hosts)
          && not (is_empty_list env.http_tool_allowed_hosts)
        then some (
            codes "Host \""
            ++ (host
                ++ (codes "\" is not in HTTP_TOOL_ALLOWED_HOSTS. Current allowlist: "
                    ++ or_empty (join (codes ", ") env.http_tool_allowed_hosts))))
        else (if env.http_tool_allow_private_networks then none else check_addresses p n host))

-- `checkHttpAllowed`: why a request is blocked, or nothing where it is allowed.
unfoldable pub check_http_allowed : Platform → Env → ℕ → Text → Option Text
unfolding check_host text_eq lower
check_http_allowed p env n url = elim (p.parse_url url) [
  | none ↦ some (codes "Invalid URL: \"" ++ (url ++ codes "\""))
  | some parsed ↦
      if not (text_eq parsed.protocol (codes "http:"))
        && not (text_eq parsed.protocol (codes "https:"))
      then some (
          codes "Unsupported protocol \""
          ++ (parsed.protocol ++ codes "\". Only http/https are allowed."))
      else check_host p env n (lower parsed.hostname)
]
