-- ===== src/Http/Redirects/Chain.antt =====
-- The requests that a tool makes (src/modules/agents/tools/http-request.util.ts).
use nest_langgraph_ai.Prelude.{
  Text, ℕ, zero, suc, ◌≤◌, true, false, ◌≡◌, refl, sym, ap, subst, ◌∙◌, ◌⊎◌, inl, inr, none, some,
  List, [], ◌∷◌, length, Bool-cases, Option-cases, Settled, returned, threw, Settled-cases, arith,
}
use nest_langgraph_ai.Config.{Env}
use nest_langgraph_ai.Http.Guard.{get, Request, Response, Platform, check_http_allowed}
use nest_langgraph_ai.Http.Guard.Allowed.{Allowed, check_http_allowed-Allowed}
use nest_langgraph_ai.Http.Redirects.{
  is_redirect, Fetched, Next, stop, follow, location_of, redirect_target, last_response, next_hop,
  is_degraded, redirected, Fetches, after, no_more, fetch_from,
}

module _ (p : Platform) (env : Env) where
  -- A request that follows another: the answer to that was a redirect whose location, resolved
  -- against its URL, is the new URL and may be requested; a degraded request is a GET with no body.
  pub record IsHop (n : ℕ) (q next : Request) : Type 0 where
    pub answer : Response
    pub fetched : p.fetch n q ≡ returned answer
    pub redirects : is_redirect answer.status ≡ true
    pub location : Text
    pub has_location : answer.location ≡ some location
    pub resolved : p.resolve_url location q.url ≡ some next.url
    pub allowed : Allowed p env (suc n) next.url
    pub sent :
        ((is_degraded q.method answer.status ≡ true) × (next.method ≡ get) × (next.body ≡ none))
        ⊎ ((is_degraded q.method answer.status ≡ false)
            × (next.method ≡ q.method)
            × (next.body ≡ q.body))

  abbrev pub IsChain : ℕ → Request → List Request → Type 0
  IsChain n q [] = Unit
  IsChain n q (next ∷ rest) = IsHop n q next × IsChain (suc n) next rest

  -- The requests from one on: itself, and at most `left` that follow.
  abbrev pub Follows : (left n : ℕ) → Request → List Request → Type 0
  Follows left n q requests =
      (rest : List Request) × (requests ≡ q ∷ rest) × (length rest ≤ left) × IsChain n q rest

  no_more-Follows :
      (left n : ℕ) (q : Request) (o : Settled Fetched)
      → Follows left n q (after q (no_more o)).requests
  unfolding after no_more
  no_more-Follows left n q o = ([], refl, omega arith, tt)

  location_of-some : (r : Response) (t : Text) → location_of r ≡ some t → r.location ≡ some t
  location_of-some r t h = elim (Option-cases r.location) [
    | inl e ↦ absurd (ground (arith, e))
    | inr (u, e) ↦ ground (arith, e)
  ]

  sent_by :
      (q : Request) (status : ℕ) (target : Text)
      → ((redirected q status target).url ≡ target)
        × (((is_degraded q.method status ≡ true)
              × ((redirected q status target).method ≡ get)
              × ((redirected q status target).body ≡ none))
            ⊎ ((is_degraded q.method status ≡ false)
                × ((redirected q status target).method ≡ q.method)
                × ((redirected q status target).body ≡ q.body)))
  unfolding redirected
  sent_by q status target = elim (Bool-cases (is_degraded q.method status)) [
    | inl e ↦ rw e (refl, inl (refl, refl, refl))
    | inr e ↦ rw e (refl, inr (refl, refl, refl))
  ]

  -- A target that is followed is one that may be.
  redirect_target-follow :
      (n : ℕ) (url target : Text) (r : Response)
      → redirect_target p env n url r ≡ follow target
      → (location : Text) × (r.location ≡ some location)
        × (p.resolve_url location url ≡ some target)
        × (check_http_allowed p env (suc n) target ≡ none)
  unfolding redirect_target
  redirect_target-follow n url target r h = elim (Option-cases (location_of r)) [
    | inl e ↦ absurd (ground (arith, e))
    | inr (location, e) ↦ elim (Option-cases (p.resolve_url location url)) [
      | inl f ↦ absurd (ground (arith, e, f))
      | inr (found, f) ↦ elim (Option-cases (check_http_allowed p env (suc n) found)) [
        | inr (guard, g) ↦ absurd (ground (arith, e, f, g))
        | inl g ↦
            let same : found ≡ target = ground (arith, e, f, g) in
            (
              location,
              location_of-some r location e,
              f ∙ ap some same,
              subst (λ t. check_http_allowed p env (suc n) t ≡ none) same g,
            )
      ]
    ]
  ]

  next_hop-IsHop :
      (n : ℕ) (q : Request) (target : Text) (r : Response)
      → p.fetch n q ≡ returned r
      → next_hop p env n q.url r ≡ follow target
      → IsHop n q (redirected q r.status target)
  unfolding next_hop
  next_hop-IsHop n q target r e h =
      let status : is_redirect r.status ≡ true = ground arith in
      let (location, l, u, g) = redirect_target-follow n q.url target r (ground arith) in
      let (same, sent) = sent_by q r.status target in
      record {
        answer = r;
        fetched = e;
        redirects = status;
        location = location;
        has_location = l;
        resolved = u ∙ ap some (sym same);
        allowed =
            subst (Allowed p env (suc n)) (sym same)
              (check_http_allowed-Allowed p env (suc n) target g);
        sent = sent;
      }

  Next-cases : (o : Next) → ((f : Fetched) × (o ≡ stop f)) ⊎ ((t : Text) × (o ≡ follow t))
  Next-cases (stop f) = inl (f, refl)
  Next-cases (follow t) = inr (t, refl)

  after-Follows :
      (left n : ℕ) (q next : Request) (f : Fetches)
      → IsHop n q next
      → Follows left (suc n) next f.requests
      → Follows (suc left) n q (after q f).requests
  unfolding after
  after-Follows left n q next f hop (rest, e, le, chain) =
      (next ∷ rest, ap (λ r. q ∷ r) e, omega arith, (hop, chain))

  pub fetch_from-Follows :
      (left n : ℕ) (q : Request) → Follows left n q (fetch_from p env left n q).requests
  unfolding fetch_from
  fetch_from-Follows zero n q = elim (Settled-cases (p.fetch n q)) [
    | inl (r, e) ↦ rw (e, fetch_from) (no_more-Follows 0 n q (returned (last_response env q.url r)))
    | inr (m, e) ↦ rw (e, fetch_from) (no_more-Follows 0 n q (threw m))
  ]
  fetch_from-Follows (suc left) n q = elim (Settled-cases (p.fetch n q)) [
    | inr (m, e) ↦ rw (e, fetch_from) (no_more-Follows (suc left) n q (threw m))
    | inl (r, e) ↦ elim (Next-cases (next_hop p env n q.url r)) [
      | inl (f, h) ↦ rw (e, fetch_from, h) (no_more-Follows (suc left) n q (returned f))
      | inr (target, h) ↦
          rw (e, fetch_from, h)
            (after-Follows left n q (redirected q r.status target)
              (fetch_from p env left (suc n) (redirected q r.status target))
              (next_hop-IsHop n q target r e h)
              (fetch_from-Follows left (suc n) (redirected q r.status target)))
    ]
  ]
