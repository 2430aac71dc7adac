-- ===== src/Llm/Breaker/Opening.antt =====
-- When a session's breaker opens and for how long (src/modules/llm/llm.provider.ts).
use nest_langgraph_ai.Prelude.{
  Text, ℕ, suc, ◌+◌, ◌≤◌, ◌≡◌, refl, ◌∙◌, ap, subst, ◌&&◌, Option, some, List, [], ◌∷◌, length, ltb,
  leb, text_eq_refl, is_some, arith,
}
use nest_langgraph_ai.Llm.Breaker.{
  threshold, cooldown_ms, cleanup_ms, CircuitBreakerState, Breakers, cleanup_stale_breakers,
  session_key, breaker_at, write_breaker, get_breaker, is_stale, is_open, check_circuit_breaker,
  record_llm_success, record_llm_failure,
}
use nest_langgraph_ai.Llm.Breaker.Sessions.{
  breaker_of, unless_stale, breaker_of-cleanup, breaker_of-written, blocks,
}
use nest_langgraph_ai.Llm.Breaker.Cooling.{check_circuit_breaker-cleanup}

-- Failures at some times, one after the other.
unfoldable pub failures : Option Text → List ℕ → Breakers → Breakers
failures session [] b = b
failures session (t ∷ ts) b = failures session ts (record_llm_failure t session b)

-- Each time is no earlier than the one before it and no more than the cleanup's interval later.
abbrev pub IsPaced : ℕ → List ℕ → Type 0
IsPaced p [] = Unit
IsPaced p (t ∷ ts) = (p ≤ t) × (t ≤ p + cleanup_ms) × IsPaced t ts

abbrev pub latest : ℕ → List ℕ → ℕ
latest p [] = p
latest p (t ∷ ts) = latest t ts

-- A breaker after a number of failures, the last activity at a time.
record HasCounted (n last : ℕ) (k : CircuitBreakerState) : Type 0 where
  pub count : k.consecutive_failures ≡ n
  pub activity : k.last_activity ≡ last
  pub until : threshold ≤ n → k.open_until ≡ last + cooldown_ms

abbrev Counted : Text → (n last : ℕ) → Breakers → Type 0
Counted s n last b = (k : CircuitBreakerState) × (breaker_of s b ≡ some k) × HasCounted n last k

record_llm_success-Counted :
    (now c : ℕ) (s : Text) (b : Breakers)
    → Counted (c ∷ s) 0 now (record_llm_success now (some (c ∷ s)) b)
unfolding record_llm_success get_breaker session_key breaker_at
record_llm_success-Counted now c s b = (
  _,
  breaker_of-written (c ∷ s) (c ∷ s) _ _ (text_eq_refl (c ∷ s)),
  record { count = refl; activity = refl; until = λ h. absurd (omega arith) },
)

-- A cleanup within the interval keeps a breaker.
breaker_of-kept :
    (s : Text) (k : CircuitBreakerState) (last now : ℕ) (b : Breakers)
    → breaker_of s b ≡ some k
    → k.last_activity ≡ last
    → now ≤ last + cleanup_ms
    → breaker_of s (cleanup_stale_breakers now b) ≡ some k
unfolding unless_stale is_stale
breaker_of-kept s k last now b e a le = breaker_of-cleanup now s b ∙ rw e (ground arith)

record_llm_failure-Counted :
    (n last now c : ℕ) (s : Text) (b : Breakers)
    → last ≤ now
    → now ≤ last + cleanup_ms
    → Counted (c ∷ s) n last b
    → Counted (c ∷ s) (suc n) now (record_llm_failure now (some (c ∷ s)) b)
unfolding record_llm_failure get_breaker session_key breaker_at breaker_of
record_llm_failure-Counted n last now c s b le paced (k, e, h) =
    let cleaned = cleanup_stale_breakers now b in
    let kept : breaker_of (c ∷ s) cleaned ≡ some k =
      breaker_of-kept (c ∷ s) k last now b e h.activity paced in
    (
      _,
      breaker_of-written (c ∷ s) (c ∷ s) _
          (write_breaker (some (c ∷ s)) (breaker_at now (some (c ∷ s)) cleaned) cleaned)
          (text_eq_refl (c ∷ s)),
      rw kept (record {
        count = ground (arith, h.count);
        activity = refl;
        until = λ t. ground (arith, h.count);
      }),
    )

failures-Counted :
    (ts : List ℕ) (n m last c : ℕ) (s : Text) (b : Breakers)
    → n + length ts ≡ m
    → IsPaced last ts
    → Counted (c ∷ s) n last b
    → Counted (c ∷ s) m (latest last ts) (failures (some (c ∷ s)) ts b)
unfolding failures
failures-Counted [] n m last c s b e paced h = subst (λ x. Counted (c ∷ s) x last b) (omega arith) h
failures-Counted (t ∷ ts) n m last c s b e (le, near, paced) h =
    failures-Counted ts (suc n) m t c s (record_llm_failure t (some (c ∷ s)) b) (omega arith) paced
      (record_llm_failure-Counted n last t c s b le near h)

check_circuit_breaker-Counted :
    (iso : ℕ → Text) (n last t c : ℕ) (s : Text) (b : Breakers)
    → Counted (c ∷ s) n last b
    → last ≤ t
    → is_some (check_circuit_breaker iso t (some (c ∷ s)) b).0
      ≡ (leb threshold n && ltb t (last + cooldown_ms))
unfolding blocks unless_stale is_stale is_open
check_circuit_breaker-Counted iso n last t c s b (k, e, h) le =
    check_circuit_breaker-cleanup iso t c s b
    ∙ (ap (blocks t) (breaker_of-cleanup t (c ∷ s) b)
        ∙ rw e (ground (arith, h.count, h.activity, h.until)))

-- After a success and then failures in a row, at most two minutes apart, a session's call is blocked
-- exactly where there were at least five and fewer than 30,000 ms have passed since the last.
pub record_llm_success-failures :
    (iso : ℕ → Text) (ts : List ℕ) (start t c : ℕ) (s : Text) (b : Breakers)
    → IsPaced start ts
    → latest start ts ≤ t
    → is_some
        (check_circuit_breaker iso t
          (some (c ∷ s))
          (failures (some (c ∷ s)) ts (record_llm_success start (some (c ∷ s)) b))).0
      ≡ (leb threshold (length ts) && ltb t (latest start ts + cooldown_ms))
record_llm_success-failures iso ts start t c s b paced le =
    check_circuit_breaker-Counted iso (length ts) (latest start ts) t c s _
      (failures-Counted ts 0 (length ts) start c s (record_llm_success start (some (c ∷ s)) b)
        (omega arith) paced (record_llm_success-Counted start c s b))
      le
