-- ===== src/Llm/Breaker/Sessions.antt =====
-- The breakers of sessions one by one: what an operation does to each
-- (src/modules/llm/llm.provider.ts).
use nest_langgraph_ai.Prelude.{
  Text, ℕ, ◌+◌, ◌-◌, ◌≤◌, ◌≡◌, ◌≢◌, refl, ◌∙◌, ap, Bool, true, false, Option, none, some, List, [],
  ◌∷◌, ltb, text_eq, text_eq_iff, Bool-cases, lookup, lookup-insert, lookup-remove, if◌then◌else◌,
  inl, inr, arith,
}
use nest_langgraph_ai.Llm.Breaker.{
  cooldown_ms, cleanup_ms, CircuitBreakerState, Breakers, is_stale, drop_stale,
  cleanup_stale_breakers, write_breaker, is_open,
}

-- The breaker of a session, if it has one.
unfoldable pub breaker_of : Text → Breakers → Option CircuitBreakerState
breaker_of s b = lookup s b.session_breakers

-- What is left of a breaker after a cleanup.
unfoldable pub unless_stale : ℕ → Option CircuitBreakerState → Option CircuitBreakerState
unfolding is_stale
unless_stale now none = none
unless_stale now (some k) = if is_stale now k then none else some k

lookup-drop_stale :
    (now : ℕ) (s : Text) (m : List (Text × CircuitBreakerState))
    → lookup s (drop_stale now m) ≡ unless_stale now (lookup s m)
unfolding drop_stale unless_stale lookup
lookup-drop_stale now s [] = refl
lookup-drop_stale now s ((j, k) ∷ m) = elim (Bool-cases (is_stale now k)) [
  | inl e ↦
      rw e (lookup-remove j s (drop_stale now m) ∙ ground (arith, lookup-drop_stale now s m, e))
  | inr e ↦ ground (arith, lookup-drop_stale now s m, e)
]

pub breaker_of-cleanup :
    (now : ℕ) (s : Text) (b : Breakers)
    → breaker_of s (cleanup_stale_breakers now b) ≡ (
        if ltb (now - b.last_cleanup) cleanup_ms
        then breaker_of s b
        else unless_stale now (breaker_of s b))
unfolding breaker_of cleanup_stale_breakers
breaker_of-cleanup now s b = elim (Bool-cases (ltb (now - b.last_cleanup) cleanup_ms)) [
  | inl e ↦ rw e refl
  | inr e ↦ rw e (lookup-drop_stale now s b.session_breakers)
]

pub breaker_of-write :
    (s : Text) (key : Option Text) (k : CircuitBreakerState) (b : Breakers)
    → key ≢ some s
    → breaker_of s (write_breaker key k b) ≡ breaker_of s b
unfolding breaker_of write_breaker
breaker_of-write s none k b h = refl
breaker_of-write s (some a) k b h = elim (Bool-cases (text_eq a s)) [
  | inl e ↦ absurd (h (ap some ((text_eq_iff a s).0 e)))
  | inr e ↦ ground (arith, lookup-insert a s k b.session_breakers)
]

pub breaker_of-written :
    (a s : Text) (k : CircuitBreakerState) (b : Breakers)
    → text_eq a s ≡ true
    → breaker_of s (write_breaker (some a) k b) ≡ some k
unfolding breaker_of write_breaker
breaker_of-written a s k b same = ground (arith, lookup-insert a s k b.session_breakers)

-- Whether a session's breaker blocks a call at a time.
unfoldable pub blocks : ℕ → Option CircuitBreakerState → Bool
unfolding is_open
blocks now none = false
blocks now (some k) = is_open now k

-- A breaker was last used by now and is open no longer than the cooldown behind its last use.
pub record IsCooling (now : ℕ) (k : CircuitBreakerState) : Type 0 where
  pub used : k.last_activity ≤ now
  pub until : k.open_until ≤ k.last_activity + cooldown_ms

unfoldable pub AreCooling : ℕ → Breakers → Type 0
unfolding breaker_of
AreCooling now b = (s : Text) (k : CircuitBreakerState) → breaker_of s b ≡ some k → IsCooling now k

-- A cleanup drops no breaker that still blocks.
pub blocks-unless_stale :
    (now t : ℕ) (o : Option CircuitBreakerState)
    → ((k : CircuitBreakerState) → o ≡ some k → IsCooling now k)
    → now ≤ t
    → blocks t (unless_stale now o) ≡ blocks t o
unfolding blocks unless_stale is_stale is_open
blocks-unless_stale now t none h le = refl
blocks-unless_stale now t (some k) h le = ground (arith, (h k refl).used, (h k refl).until)
