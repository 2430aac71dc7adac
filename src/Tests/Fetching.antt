-- ===== src/Tests/Fetching.antt =====
-- The theorems on the HTTP tools at concrete inputs, and runs of them.
use nest_langgraph_ai.Prelude.{
  Text, ◌≡◌, refl, ◌⊎◌, false, some, [], ◌∷◌, codes, text_eq, if◌then◌else◌, returned, length,
}
use nest_langgraph_ai.Http.Hosts.{is_private_host}
use nest_langgraph_ai.Http.Guard.{post, Request, Platform, check_http_allowed}
use nest_langgraph_ai.Http.Guard.Allowed.{Allowed, check_http_allowed-Allowed}
use nest_langgraph_ai.Http.Redirects.Chain.{Follows}
use nest_langgraph_ai.Http.Requests.{guarded_request}
use nest_langgraph_ai.Http.Requests.Guarded.{guarded_request-Follows}
use nest_langgraph_ai.Tests.Samples.{sample_env}

abbrev start_url : Text
start_url = codes "http://a.org/"

abbrev inner_url : Text
inner_url = codes "http://10.0.0.1/"

-- Two hosts, of which the first one redirects to the second one.
abbrev two_hosts : Platform
two_hosts = record {
  parse_url = λ u. some (record {
    protocol = codes "http:";
    hostname = if text_eq u start_url then codes "a.org" else codes "10.0.0.1";
  });
  resolve_url = λ location base. some location;
  is_ip = λ host. false;
  dns_lookup = λ n host. returned (codes "93.184.216.34" ∷ []);
  fetch = λ n q. returned (record {
    status = 302;
    status_text = codes "Found";
    location = some inner_url;
    text = returned [];
  });
}

abbrev start_request : Request
start_request = record { url = start_url; method = post; body = some (codes "x") }

guarded_request-Follows_example :
    ((guard : Text) × (check_http_allowed two_hosts sample_env 0 start_url ≡ some guard)
      × ((guarded_request two_hosts sample_env start_request).1 ≡ []))
    ⊎ (Allowed two_hosts sample_env 0 start_url
        × Follows two_hosts sample_env sample_env.http_tool_max_redirects 0 start_request
            (guarded_request two_hosts sample_env start_request).1)
guarded_request-Follows_example = guarded_request-Follows two_hosts sample_env start_request

-- A redirect to a private address is not followed: one request is made.
guarded_request-blocked : length (guarded_request two_hosts sample_env start_request).1 ≡ 1
unfolding guarded_request codes text_eq
guarded_request-blocked = refl

-- Of the unique local addresses, fc00::/7, only those that begin with `fc00:` count as private.
is_private_host-unique_local : is_private_host (codes "fd12:3456::1") ≡ false
unfolding is_private_host codes
is_private_host-unique_local = refl

-- The host name of a URL keeps the brackets of an IPv6 address, which no pattern expects.
is_private_host-brackets : is_private_host (codes "[::1]") ≡ false
unfolding is_private_host codes
is_private_host-brackets = refl

check_http_allowed-Allowed_example : Allowed two_hosts sample_env 0 start_url
unfolding check_http_allowed codes text_eq
check_http_allowed-Allowed_example =
    check_http_allowed-Allowed two_hosts sample_env 0 start_url refl
