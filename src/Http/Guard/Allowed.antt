-- ===== src/Http/Guard/Allowed.antt =====
-- What a request that passes the guard satisfies
-- (src/modules/agents/tools/http-request.util.ts).
use nest_langgraph_ai.Prelude.{
  Text, ℕ, true, false, not, ◌&&◌, ◌||◌, ◌≡◌, refl, ap, ◌∙◌, ◌⊎◌, inl, inr, none, some, List, [],
  ◌∷◌, ◌++◌, codes, text_eq, text_eq_iff, starts_with, ends_with, ends_with-append,
  starts_with-append, some_of, All, Bool-cases, Option-cases, returned, Settled-cases, drop,
  get_elem?, some_of-member, arith,
}
use nest_langgraph_ai.Config.{Env}
use nest_langgraph_ai.Http.Hosts.{is_private_host, lower}
use nest_langgraph_ai.Http.Guard.{
  Url, Platform, resolve_host_addresses, matches_pattern, first_private, check_addresses,
  check_host, is_empty_list, check_http_allowed,
}

-- The host is the pattern, or the pattern is `*.` and a domain and the host is the domain or below it.
pub Matches : (host pattern : Text) → Type 0
Matches host pattern =
    (host ≡ lower pattern)
    ⊎ ((domain : Text) × (lower pattern ≡ codes "*." ++ domain)
        × ((host ≡ domain) ⊎ ((sub : Text) × (host ≡ sub ++ (codes "." ++ domain)))))

subdomain :
    (host p : Text)
    → p ≡ codes "*." ++ drop 2 p
    → (ends_with (drop 1 p) host || text_eq host (drop 2 p)) ≡ true
    → (host ≡ drop 2 p) ⊎ ((sub : Text) × (host ≡ sub ++ (codes "." ++ drop 2 p)))
unfolding codes
subdomain host p shape h = elim (Bool-cases (text_eq host (drop 2 p))) [
  | inl e ↦ inl ((text_eq_iff host (drop 2 p)).0 e)
  | inr e ↦
      let (sub, f) = ends_with-append (drop 1 p) host (ground arith) in
      inr (sub, f ∙ ap (λ t. sub ++ t) (ap (drop 1) shape))
]

matches_pattern-Matches :
    (host pattern : Text) → matches_pattern host pattern ≡ true → Matches host pattern
unfolding matches_pattern Matches codes
matches_pattern-Matches host pattern h =
    elim (Bool-cases (starts_with (codes "*.") (lower pattern))) [
      | inr e ↦ inl ((text_eq_iff host (lower pattern)).0 (ground arith))
      | inl e ↦
          let shape = starts_with-append (codes "*.") (lower pattern) e in
          inr (drop 2 (lower pattern), shape, subdomain host (lower pattern) shape (ground arith))
    ]

-- A request that may be made: its URL is one of http or https, its host is listed where there is a
-- list, and where private networks are barred neither the host nor an address of it is private.
pub record Allowed (p : Platform) (env : Env) (n : ℕ) (url : Text) : Type 0 where
  pub parsed : Url
  pub is_parsed : p.parse_url url ≡ some parsed
  pub is_http : (parsed.protocol ≡ codes "http:") ⊎ (parsed.protocol ≡ codes "https:")
  pub is_listed :
      (env.http_tool_allowed_hosts ≡ [])
      ⊎ ((i : ℕ) × (pattern : Text) × (get_elem? env.http_tool_allowed_hosts i ≡ some pattern)
          × Matches (lower parsed.hostname) pattern)
  pub is_public :
      env.http_tool_allow_private_networks ≡ false
      → (is_private_host (lower parsed.hostname) ≡ false)
        × (addresses : List Text) × (resolve_host_addresses p n (lower parsed.hostname)
            ≡ returned addresses)
        × All (λ a. is_private_host a ≡ false) addresses

first_private-All :
    (addresses : List Text)
    → first_private addresses ≡ none
    → All (λ a. is_private_host a ≡ false) addresses
unfolding first_private
first_private-All [] h = tt
first_private-All (a ∷ more) h = (ground arith, first_private-All more (ground arith))

check_addresses-public :
    (p : Platform) (n : ℕ) (host : Text)
    → check_addresses p n host ≡ none
    → (addresses : List Text) × (resolve_host_addresses p n host ≡ returned addresses)
      × All (λ a. is_private_host a ≡ false) addresses
unfolding check_addresses
check_addresses-public p n host h = elim (Settled-cases (resolve_host_addresses p n host)) [
  | inr (m, e) ↦ absurd (ground (arith, e))
  | inl (addresses, e) ↦ (
    addresses,
    e,
    first_private-All addresses (elim (Option-cases (first_private addresses)) [
      | inl f ↦ f
      | inr (a, f) ↦ absurd (ground (arith, e, f))
    ]),
  )
]

is_empty_list-nil : (hosts : List Text) → is_empty_list hosts ≡ true → hosts ≡ []
is_empty_list-nil [] h = refl
is_empty_list-nil (x ∷ xs) h = ground arith

listed :
    (host : Text) (hosts : List Text)
    → (not (some_of (matches_pattern host) hosts) && not (is_empty_list hosts)) ≡ false
    → (hosts ≡ [])
      ⊎ ((i : ℕ) × (pattern : Text) × (get_elem? hosts i ≡ some pattern) × Matches host pattern)
listed host hosts h = elim (Bool-cases (some_of (matches_pattern host) hosts)) [
  | inl e ↦
      let (i, pattern, f, g) = some_of-member (matches_pattern host) hosts e in
      inr (i, pattern, f, matches_pattern-Matches host pattern g)
  | inr e ↦ inl (is_empty_list-nil hosts (ground (arith, e)))
]

check_host-Allowed :
    (p : Platform) (env : Env) (n : ℕ) (url : Text) (parsed : Url)
    → p.parse_url url ≡ some parsed
    → ((parsed.protocol ≡ codes "http:") ⊎ (parsed.protocol ≡ codes "https:"))
    → check_host p env n (lower parsed.hostname) ≡ none
    → Allowed p env n url
unfolding check_host
check_host-Allowed p env n url parsed e http h = record {
  parsed = parsed;
  is_parsed = e;
  is_http = http;
  is_listed = listed (lower parsed.hostname) env.http_tool_allowed_hosts (ground arith);
  is_public = λ barred.
      let (addresses, found, safe) =
        check_addresses-public p n (lower parsed.hostname) (ground (arith, barred)) in
      (ground (arith, barred), addresses, found, safe);
}

-- A URL that the guard does not block may be requested: it is of http or https, its host matches the
-- allow list where that is not empty, and where private networks are barred neither the host nor any
-- address that it resolves to at that moment is private.
pub check_http_allowed-Allowed :
    (p : Platform) (env : Env) (n : ℕ) (url : Text)
    → check_http_allowed p env n url ≡ none
    → Allowed p env n url
unfolding check_http_allowed
check_http_allowed-Allowed p env n url h = elim (Option-cases (p.parse_url url)) [
  | inl e ↦ absurd (ground (arith, e))
  | inr (parsed, e) ↦
      check_host-Allowed p env n url parsed e
        (elim (Bool-cases (text_eq parsed.protocol (codes "http:"))) [
          | inl f ↦ inl ((text_eq_iff parsed.protocol (codes "http:")).0 f)
          | inr f ↦ inr ((text_eq_iff parsed.protocol (codes "https:")).0 (ground (arith, e, f)))
        ])
        (ground (arith, e))
]
