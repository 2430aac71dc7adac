-- ===== src/Llm/Breaker/Cooling.antt =====
-- How long breakers stay open, through every operation (src/modules/llm/llm.provider.ts).
use nest_langgraph_ai.Prelude.{
  Text, ℕ, subst, suc, ◌+◌, ◌-◌, ◌≤◌, ◌≡◌, ◌≢◌, refl, sym, ◌∙◌, ap, Bool, true, false, Option, none,
  some, ◌∷◌, ltb, leb, text_eq, text_eq_iff, some-injective, Bool-cases, Option-cases, lookup,
  if◌then◌else◌, inl, inr, is_some, arith,
}
use nest_langgraph_ai.Llm.Breaker.{
  threshold, cooldown_ms, cleanup_ms, CircuitBreakerState, create_circuit_breaker_state, Breakers,
  cleanup_stale_breakers, session_key, breaker_at, write_breaker, get_breaker, is_open,
  check_circuit_breaker, record_llm_success, record_llm_failure,
}
use nest_langgraph_ai.Llm.Breaker.Sessions.{
  breaker_of, unless_stale, breaker_of-cleanup, breaker_of-write, breaker_of-written, blocks,
  IsCooling, AreCooling, blocks-unless_stale,
}

pub blocks-cleanup :
    (now t : ℕ) (s : Text) (b : Breakers)
    → AreCooling now b
    → now ≤ t
    → blocks t (breaker_of s (cleanup_stale_breakers now b)) ≡ blocks t (breaker_of s b)
unfolding AreCooling
blocks-cleanup now t s b h le = elim (Bool-cases (ltb (now - b.last_cleanup) cleanup_ms)) [
  | inl e ↦ ap (blocks t) (breaker_of-cleanup now s b) ∙ rw e refl
  | inr e ↦
      ap (blocks t) (breaker_of-cleanup now s b)
      ∙ rw e (blocks-unless_stale now t (breaker_of s b) (h s) le)
]

is_open-breaker_at :
    (t : ℕ) (s : Text) (b : Breakers)
    → is_open t (breaker_at t (some s) b) ≡ blocks t (breaker_of s b)
unfolding is_open breaker_at blocks breaker_of create_circuit_breaker_state
is_open-breaker_at t s b = elim (Option-cases (lookup s b.session_breakers)) [
  | inl e ↦ rw e refl
  | inr (k, e) ↦ rw e refl
]

is_some-if : (b : Bool) (m : Text) → is_some (if b then some m else none) ≡ b
is_some-if true m = refl
is_some-if false m = refl

pub check_circuit_breaker-cleanup :
    (iso : ℕ → Text) (t c : ℕ) (s : Text) (b : Breakers)
    → is_some (check_circuit_breaker iso t (some (c ∷ s)) b).0
      ≡ blocks t (breaker_of (c ∷ s) (cleanup_stale_breakers t b))
unfolding check_circuit_breaker get_breaker session_key
check_circuit_breaker-cleanup iso t c s b =
    is_some-if (is_open t (breaker_at t (some (c ∷ s)) (cleanup_stale_breakers t b))) _
    ∙ is_open-breaker_at t (c ∷ s) (cleanup_stale_breakers t b)

pub check_circuit_breaker-blocks :
    (iso : ℕ → Text) (t c : ℕ) (s : Text) (b : Breakers)
    → AreCooling t b
    → is_some (check_circuit_breaker iso t (some (c ∷ s)) b).0 ≡ blocks t (breaker_of (c ∷ s) b)
check_circuit_breaker-blocks iso t c s b h =
    check_circuit_breaker-cleanup iso t c s b ∙ blocks-cleanup t t (c ∷ s) b h (omega arith)

-- The end of a call, as the breaker is told of it.
pub data Recording : Type 0 where
  success failure : Recording

unfoldable pub record_llm : Recording → ℕ → Option Text → Breakers → Breakers
record_llm success = record_llm_success
record_llm failure = record_llm_failure

breaker_of-get_breaker :
    (now : ℕ) (other : Option Text) (s : Text) (b : Breakers)
    → session_key other ≢ some s
    → breaker_of s (get_breaker now other b).1 ≡ breaker_of s (cleanup_stale_breakers now b)
unfolding get_breaker
breaker_of-get_breaker now other s b h = breaker_of-write s (session_key other) _ _ h

pub breaker_of-record_llm :
    (r : Recording) (now : ℕ) (other : Option Text) (s : Text) (b : Breakers)
    → session_key other ≢ some s
    → breaker_of s (record_llm r now other b) ≡ breaker_of s (cleanup_stale_breakers now b)
unfolding record_llm record_llm_success record_llm_failure
breaker_of-record_llm success now other s b h =
    breaker_of-write s (session_key other) _ _ h ∙ breaker_of-get_breaker now other s b h
breaker_of-record_llm failure now other s b h =
    breaker_of-write s (session_key other) _ _ h ∙ breaker_of-get_breaker now other s b h

pub later : (p now : ℕ) (b : Breakers) → AreCooling p b → p ≤ now → AreCooling now b
unfolding AreCooling
later p now b h le s k e = record { used = omega (arith, (h s k e).used); until = (h s k e).until }

unless_stale-kept :
    (now : ℕ) (o : Option CircuitBreakerState) (k : CircuitBreakerState)
    → unless_stale now o ≡ some k
    → o ≡ some k
unfolding unless_stale
unless_stale-kept now none k e = e
unless_stale-kept now (some j) k e = ground arith

pub cleanup-AreCooling :
    (now : ℕ) (b : Breakers) → AreCooling now b → AreCooling now (cleanup_stale_breakers now b)
unfolding AreCooling
cleanup-AreCooling now b h s k e = elim (Bool-cases (ltb (now - b.last_cleanup) cleanup_ms)) [
  | inl c ↦ h s k (ground (arith, breaker_of-cleanup now s b))
  | inr c ↦
      h s k (unless_stale-kept now (breaker_of s b) k (ground (arith, breaker_of-cleanup now s b)))
]

write-AreCooling :
    (now : ℕ) (key : Option Text) (k : CircuitBreakerState) (b : Breakers)
    → AreCooling now b
    → ((s : Text) → key ≡ some s → IsCooling now k)
    → AreCooling now (write_breaker key k b)
unfolding AreCooling
write-AreCooling now none k b h new s j e =
    h s j (sym (breaker_of-write s none k b (λ x. ground arith)) ∙ e)
write-AreCooling now (some a) k b h new s j e = elim (Bool-cases (text_eq a s)) [
  | inl same ↦
      subst (IsCooling now) (some-injective k j (sym (breaker_of-written a s k b same) ∙ e))
        (new a refl)
  | inr other ↦
      h s j (sym (breaker_of-write s (some a) k b (λ x. ground (arith, text_eq_iff a s))) ∙ e)
]

pub breaker_at-IsCooling :
    (now : ℕ) (s : Text) (b : Breakers)
    → AreCooling now b
    → IsCooling now (breaker_at now (some s) b)
unfolding AreCooling breaker_of breaker_at create_circuit_breaker_state
breaker_at-IsCooling now s b h = elim (Option-cases (lookup s b.session_breakers)) [
  | inl e ↦ rw e (record { used = omega arith; until = omega arith })
  | inr (k, e) ↦
      rw e (record { used = omega arith; until = omega (arith, (h s k e).used, (h s k e).until) })
]

pub get_breaker-AreCooling :
    (now : ℕ) (session : Option Text) (b : Breakers)
    → AreCooling now b
    → AreCooling now (get_breaker now session b).1
unfolding get_breaker
get_breaker-AreCooling now session b h =
    let cleaned = cleanup_stale_breakers now b in
    let h' = cleanup-AreCooling now b h in
    write-AreCooling now (session_key session) (breaker_at now (session_key session) cleaned)
      cleaned h' (λ s e. rw e (breaker_at-IsCooling now s cleaned h'))

-- A breaker that is written back at the time of its use.
written-IsCooling :
    (now n u : ℕ) (k : CircuitBreakerState)
    → k.last_activity ≡ now
    → u ≤ now + cooldown_ms
    → IsCooling now (record k { consecutive_failures = n; open_until = u })
written-IsCooling now n u k e le = record { used = omega arith; until = omega arith }

failed_until-le :
    (now n u : ℕ)
    → u ≤ now + cooldown_ms
    → (if leb threshold n then now + cooldown_ms else u) ≤ now + cooldown_ms
failed_until-le now n u le = ground arith

pub record_llm-AreCooling :
    (r : Recording) (now : ℕ) (session : Option Text) (b : Breakers)
    → AreCooling now b
    → AreCooling now (record_llm r now session b)
unfolding record_llm record_llm_success record_llm_failure get_breaker breaker_at
record_llm-AreCooling success now session b h =
    write-AreCooling now (session_key session) _ _ (get_breaker-AreCooling now session b h) (λ s e.
      rw e (
        written-IsCooling now 0 0 (breaker_at now (some s) (cleanup_stale_breakers now b)) refl
          (omega arith)))
record_llm-AreCooling failure now session b h =
    write-AreCooling now (session_key session) _ _ (get_breaker-AreCooling now session b h) (λ s e.
      let k = breaker_at now (some s) (cleanup_stale_breakers now b) in
      rw e (
        written-IsCooling now (suc k.consecutive_failures) _ k refl (
          failed_until-le now (suc k.consecutive_failures) k.open_until (
            (breaker_at-IsCooling now s (cleanup_stale_breakers now b)
              (cleanup-AreCooling now b h)).until))))
