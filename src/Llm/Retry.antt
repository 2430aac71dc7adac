-- ===== src/Llm/Retry.antt =====
-- Retries with a circuit breaker: `withRetryAndTimeout` and `withStreamRetryAndTimeout` of
-- src/modules/llm/llm.provider.ts. Both run the same loop; a stream also hands on its tokens.
pub mod Attempts
use nest_langgraph_ai.Prelude.{
  Text, ℕ, zero, suc, ◌+◌, ◌*◌, ◌^◌, Bool, true, false, Option, none, some, List, [], ◌∷◌, ◌++◌,
  codes, decimal, map, Settled, returned, threw, ltb, or_else, if◌then◌else◌,
}
use nest_langgraph_ai.Llm.Breaker.{
  Breakers, check_circuit_breaker, record_llm_success, record_llm_failure,
}
use nest_langgraph_ai.Llm.Errors.{Content, extract_content, is_fatal_llm_error}

-- `backoffWithJitter`; `jitter` is `Math.random() * 500`, rounded down.
unfoldable pub backoff_with_jitter : (attempt jitter : ℕ) → ℕ
backoff_with_jitter attempt jitter =
    (if ltb (1000 * 2 ^ attempt) 10000 then 1000 * 2 ^ attempt else 10000) + jitter

pub record RetryOpts : Type 0 where
  pub timeout_ms : ℕ
  pub max_retries : ℕ
  pub session_id : Option Text
  pub label : Text

-- `resolveOpts`, for natural numbers.
unfoldable pub resolve_opts : ℕ → ℕ → Option Text → Text → RetryOpts
resolve_opts timeout_ms max_retries session_id label = record {
  timeout_ms = if ltb 0 timeout_ms then timeout_ms else 30000;
  max_retries = max_retries;
  session_id = session_id;
  label = label;
}

-- One attempt: the chunks that it hands on before it ends, how it ends, when, and what other calls
-- do to the breakers while it is awaited. A timeout is an error like another.
pub record Attempt (A : Type 0) : Type 0 where
  pub chunks : List Content
  pub outcome : Settled A
  pub ended_at : ℕ
  pub meanwhile : Breakers → Breakers

-- What a call with retries leaves: its end, the tokens that it yielded, the number of attempts that
-- it made, and the breakers.
pub record Retried (A : Type 0) : Type 0 where
  pub outcome : Settled A
  pub tokens : List Text
  pub attempts : ℕ
  pub breakers : Breakers

unfoldable pub all_failed : RetryOpts → Text → Text
all_failed opts reason =
    opts.label
    ++ (codes " failed after "
        ++ (decimal (opts.max_retries + 1)
            ++ (codes " attempts (timeout="
                ++ (decimal opts.timeout_ms ++ (codes "ms): " ++ reason)))))

module _ {A : Type 0} (opts : RetryOpts) where
  -- A result with the tokens of the attempt before it in front.
  unfoldable pub behind : Attempt A → Retried A → Retried A
  unfolding extract_content
  behind a r = record r {
    tokens = map extract_content a.chunks ++ r.tokens;
    attempts = suc r.attempts;
  }

  -- The loop ends here: no further attempt is made.
  unfoldable pub stopped : Settled A → Breakers → Retried A
  stopped o b = record { outcome = o; tokens = []; attempts = 0; breakers = b }

  -- The loop, with the number of attempts that are left. `calls n` is the attempt of number `n`.
  unfoldable pub retry_from :
      (calls : ℕ → Attempt A) → (left attempt : ℕ) → Option Text → Breakers → Retried A
  unfolding all_failed behind stopped record_llm_success record_llm_failure is_fatal_llm_error
  retry_from calls zero attempt last b =
      stopped (threw (all_failed opts (or_else last (codes "unknown error")))) b
  retry_from calls (suc left) attempt last b =
      let a = calls attempt in
      let waited = a.meanwhile b in
      let again : Text → Retried A = λ message.
        retry_from calls left (suc attempt) (some message)
          (record_llm_failure a.ended_at opts.session_id waited) in
      behind a (elim (a.outcome) [
        | returned x ↦ stopped (returned x) (record_llm_success a.ended_at opts.session_id waited)
        | threw message ↦ elim (is_fatal_llm_error message) [
          | true ↦ stopped (threw message) waited
          | false ↦ again message
        ]
      ])

  -- `withRetryAndTimeout` and `withStreamRetryAndTimeout`, begun at the time `now`.
  unfoldable pub with_retry_and_timeout : (ℕ → Text) → ℕ → (ℕ → Attempt A) → Breakers → Retried A
  unfolding check_circuit_breaker retry_from stopped
  with_retry_and_timeout iso now calls b =
      let (blocked, b') = check_circuit_breaker iso now opts.session_id b in
      elim blocked [
        | some message ↦ stopped (threw message) b'
        | none ↦ retry_from calls (suc opts.max_retries) 0 none b'
      ]
