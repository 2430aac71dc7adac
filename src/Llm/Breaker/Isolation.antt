-- ===== src/Llm/Breaker/Isolation.antt =====
-- The breakers that the provider's operations reach, and that one session's calls do not block
-- another's (src/modules/llm/llm.provider.ts).
use nest_langgraph_ai.Prelude.{
  Text, ℕ, ◌≤◌, ◌≡◌, ◌≢◌, sym, ◌∙◌, ap, Option, none, some, [], ◌∷◌, lookup, lookup-remove, is_some,
  arith,
}
use nest_langgraph_ai.Llm.Breaker.{
  CircuitBreakerState, Breakers, initial_breakers, session_key, reset_circuit_breaker,
  check_circuit_breaker,
}
use nest_langgraph_ai.Llm.Breaker.Sessions.{breaker_of, blocks, AreCooling}
use nest_langgraph_ai.Llm.Breaker.Cooling.{
  Recording, record_llm, later, blocks-cleanup, check_circuit_breaker-blocks, breaker_of-record_llm,
  get_breaker-AreCooling, record_llm-AreCooling,
}

-- The breakers that operations at times up to `now` leave, from the loading of the module on.
pub data Reached : ℕ → Breakers → Type 0 where
  loaded : (now : ℕ) → Reached now (initial_breakers now)
  waited : (p now : ℕ) (b : Breakers) → Reached p b → p ≤ now → Reached now b
  checked :
      (iso : ℕ → Text) (now : ℕ) (session : Option Text) (b : Breakers)
      → Reached now b
      → Reached now (check_circuit_breaker iso now session b).1
  recorded :
      (r : Recording) (now : ℕ) (session : Option Text) (b : Breakers)
      → Reached now b
      → Reached now (record_llm r now session b)
  reset :
      (now : ℕ) (session : Option Text) (b : Breakers)
      → Reached now b
      → Reached now (reset_circuit_breaker session b)

nothing : (s : Text) (k : CircuitBreakerState) → none ≢ some k
nothing s k e = ground arith

loaded-AreCooling : (now : ℕ) → AreCooling now (initial_breakers now)
unfolding AreCooling initial_breakers breaker_of lookup
loaded-AreCooling now s k e = absurd (nothing s k e)

reset-AreCooling :
    (now : ℕ) (session : Option Text) (b : Breakers)
    → AreCooling now b
    → AreCooling now (reset_circuit_breaker session b)
unfolding AreCooling reset_circuit_breaker breaker_of session_key lookup
reset-AreCooling now none b h s k e = absurd (nothing s k e)
reset-AreCooling now (some []) b h s k e = absurd (nothing s k e)
reset-AreCooling now (some (c ∷ a)) b h s k e =
    h s k (ground (arith, lookup-remove (c ∷ a) s b.session_breakers))

Reached-AreCooling : (now : ℕ) (b : Breakers) → Reached now b → AreCooling now b
unfolding check_circuit_breaker
Reached-AreCooling _ _ (loaded now) = loaded-AreCooling now
Reached-AreCooling _ _ (waited p now b r le) = later p now b (Reached-AreCooling p b r) le
Reached-AreCooling _ _ (checked iso now session b r) =
    get_breaker-AreCooling now session b (Reached-AreCooling now b r)
Reached-AreCooling _ _ (recorded e now session b r) =
    record_llm-AreCooling e now session b (Reached-AreCooling now b r)
Reached-AreCooling _ _ (reset now session b r) =
    reset-AreCooling now session b (Reached-AreCooling now b r)

-- In a state that operations reach by the time `now`, the end of a call with another session, or
-- with none, told to the breakers at `now`, neither blocks nor frees a session's later calls.
pub record_llm-check_circuit_breaker :
    (iso : ℕ → Text) (r : Recording) (now t c : ℕ) (s : Text) (other : Option Text) (b : Breakers)
    → Reached now b
    → now ≤ t
    → session_key other ≢ some (c ∷ s)
    → is_some (check_circuit_breaker iso t (some (c ∷ s)) (record_llm r now other b)).0
      ≡ is_some (check_circuit_breaker iso t (some (c ∷ s)) b).0
record_llm-check_circuit_breaker iso r now t c s other b reached le differs =
    let h = Reached-AreCooling now b reached in
    check_circuit_breaker-blocks iso t c s (record_llm r now other b)
      (later now t (record_llm r now other b) (record_llm-AreCooling r now other b h) le)
    ∙ (ap (blocks t) (breaker_of-record_llm r now other (c ∷ s) b differs)
        ∙ (blocks-cleanup now t (c ∷ s) b h le
            ∙ sym (check_circuit_breaker-blocks iso t c s b (later now t b h le))))
