-- ===== src/Llm/Breaker.antt =====
-- The circuit breakers of src/modules/llm/llm.provider.ts. An operation reads the clock once: its
-- synchronous reads of `Date.now()` are one `now`, in milliseconds. A difference that would be
-- negative compares with the positive interval as 0 does.
pub mod Sessions
pub mod Cooling
pub mod Isolation
pub mod Opening
use nest_langgraph_ai.Prelude.{
  Text, ℕ, suc, ◌+◌, ◌-◌, Bool, true, false, ◌&&◌, Option, none, some, List, [], ◌∷◌, ◌++◌, codes,
  decimal, ltb, leb, is_empty, or_else, keep_if, if◌then◌else◌, not, lookup, insert, remove,
}

-- `CIRCUIT_BREAKER_CONFIG` (graph/agent.config.ts).
abbrev pub threshold : ℕ
threshold = 5

abbrev pub cooldown_ms : ℕ
cooldown_ms = 30000

abbrev pub cleanup_ms : ℕ
cleanup_ms = 120000

pub record CircuitBreakerState : Type 0 where
  pub consecutive_failures : ℕ
  pub open_until : ℕ
  pub last_activity : ℕ

unfoldable pub create_circuit_breaker_state : ℕ → CircuitBreakerState
create_circuit_breaker_state now = record {
  consecutive_failures = 0;
  open_until = 0;
  last_activity = now;
}

-- The module's variables `globalBreaker`, `sessionBreakers` and `lastCleanup`.
pub record Breakers : Type 0 where
  pub global_breaker : CircuitBreakerState
  pub session_breakers : List (Text × CircuitBreakerState)
  pub last_cleanup : ℕ

-- The module's variables when it is loaded.
unfoldable pub initial_breakers : ℕ → Breakers
unfolding create_circuit_breaker_state
initial_breakers now = record {
  global_breaker = create_circuit_breaker_state now;
  session_breakers = [];
  last_cleanup = now;
}

unfoldable pub is_stale : ℕ → CircuitBreakerState → Bool
is_stale now k = ltb cleanup_ms (now - k.last_activity)

-- The loop of the cleanup: a stale breaker's key is deleted.
unfoldable pub drop_stale :
    ℕ → List (Text × CircuitBreakerState) → List (Text × CircuitBreakerState)
unfolding is_stale
drop_stale now [] = []
drop_stale now ((s, k) ∷ m) =
    let rest = drop_stale now m in if is_stale now k then remove s rest else (s, k) ∷ rest

-- `cleanupStaleBreakers`.
unfoldable pub cleanup_stale_breakers : ℕ → Breakers → Breakers
unfolding drop_stale
cleanup_stale_breakers now b =
    if ltb (now - b.last_cleanup) cleanup_ms
    then b
    else record b { last_cleanup = now; session_breakers = drop_stale now b.session_breakers }

-- Whether a session is given: `undefined` and the empty text are not one.
unfoldable pub session_key : Option Text → Option Text
session_key none = none
session_key (some []) = none
session_key (some (c ∷ s)) = some (c ∷ s)

-- The breaker of a session, with its activity noted, or the global one.
unfoldable pub breaker_at : ℕ → Option Text → Breakers → CircuitBreakerState
unfolding create_circuit_breaker_state
breaker_at now none b = b.global_breaker
breaker_at now (some s) b =
    record (or_else (lookup s b.session_breakers) (create_circuit_breaker_state now)) {
      last_activity = now;
    }

-- A write through the reference that `getBreaker` returned.
unfoldable pub write_breaker : Option Text → CircuitBreakerState → Breakers → Breakers
write_breaker none k b = record b { global_breaker = k }
write_breaker (some s) k b = record b { session_breakers = insert s k b.session_breakers }

-- `getBreaker`: the breaker, and the variables with it in its place.
unfoldable pub get_breaker : ℕ → Option Text → Breakers → CircuitBreakerState × Breakers
unfolding cleanup_stale_breakers session_key breaker_at write_breaker
get_breaker now session b =
    let cleaned = cleanup_stale_breakers now b in
    let k = breaker_at now (session_key session) cleaned in
    (k, write_breaker (session_key session) k cleaned)

-- `resetCircuitBreaker`.
unfoldable pub reset_circuit_breaker : Option Text → Breakers → Breakers
unfolding session_key
reset_circuit_breaker session b = elim (session_key session) [
  | some s ↦ record b { session_breakers = remove s b.session_breakers }
  | none ↦ record b {
    global_breaker = record b.global_breaker { consecutive_failures = 0; open_until = 0 };
    session_breakers = [];
  }
]

unfoldable pub is_open : ℕ → CircuitBreakerState → Bool
is_open now k = leb threshold k.consecutive_failures && ltb now k.open_until

-- `checkCircuitBreaker`: the message that it throws, if it does. `iso` prints a time.
unfoldable pub check_circuit_breaker :
    (ℕ → Text) → ℕ → Option Text → Breakers → Option Text × Breakers
unfolding get_breaker is_open
check_circuit_breaker iso now session b =
    let (k, b') = get_breaker now session b in
    (
      if is_open now k
          then some (
              codes "LLM circuit breaker open — "
              ++ (decimal k.consecutive_failures
                  ++ (codes " consecutive failures. Will retry after "
                      ++ (iso k.open_until ++ codes "."))))
          else none,
      b',
    )

-- `recordLlmSuccess`.
unfoldable pub record_llm_success : ℕ → Option Text → Breakers → Breakers
unfolding get_breaker write_breaker
record_llm_success now session b =
    let (k, b') = get_breaker now session b in
    write_breaker (session_key session) (record k { consecutive_failures = 0; open_until = 0 }) b'

-- `recordLlmFailure`.
unfoldable pub record_llm_failure : ℕ → Option Text → Breakers → Breakers
unfolding get_breaker write_breaker
record_llm_failure now session b =
    let (k, b') = get_breaker now session b in
    write_breaker (session_key session)
      (record k {
        consecutive_failures = suc k.consecutive_failures;
        open_until =
            if leb threshold (suc k.consecutive_failures) then now + cooldown_ms else k.open_until;
      })
      b'
