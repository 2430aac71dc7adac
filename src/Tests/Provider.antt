-- ===== src/Tests/Provider.antt =====
-- The theorems on the LLM provider at concrete inputs, and runs of it.
use nest_langgraph_ai.Prelude.{
  Text, ℕ, ◌≡◌, refl, true, false, none, some, List, [], ◌∷◌, length, codes, leb, ltb, ◌+◌, ◌&&◌,
  ◌⊎◌, zero, suc, lookup, is_some, returned, threw, arith,
}
use nest_langgraph_ai.Llm.Models.{resolve_text_model}
use nest_langgraph_ai.Llm.Instances.{get_llm_instance}
use nest_langgraph_ai.Llm.Instances.Kept.{IsInstanceCache, get_llm_instance-create}
use nest_langgraph_ai.Llm.Breaker.{
  threshold, cooldown_ms, initial_breakers, session_key, check_circuit_breaker, record_llm_success,
}
use nest_langgraph_ai.Llm.Breaker.Opening.{failures, latest, record_llm_success-failures}
use nest_langgraph_ai.Llm.Breaker.Cooling.{Recording, record_llm}
use nest_langgraph_ai.Llm.Breaker.Isolation.{Reached, record_llm-check_circuit_breaker}
use nest_langgraph_ai.Llm.Errors.{Content, is_fatal_llm_error}
use nest_langgraph_ai.Llm.Retry.{RetryOpts, Attempt, stopped, with_retry_and_timeout}
use nest_langgraph_ai.Llm.Retry.Attempts.{Tried, with_retry_and_timeout-Tried}
use nest_langgraph_ai.Tests.Samples.{sample_env}

abbrev plain_iso : ℕ → Text
plain_iso t = codes "later"

abbrev one_session : Text
one_session = codes "s1"

abbrev five_failures : List ℕ
five_failures = 110 ∷ 120 ∷ 130 ∷ 140 ∷ 150 ∷ []

record_llm_success-failures_example :
    is_some
      (check_circuit_breaker plain_iso 200 (some one_session) (
        failures
          (some one_session)
          five_failures
          (record_llm_success 100 (some one_session) (initial_breakers 100)))).0
    ≡ (leb threshold (length five_failures) && ltb 200 (latest 100 five_failures + cooldown_ms))
unfolding codes
record_llm_success-failures_example =
    record_llm_success-failures plain_iso five_failures 100 200 b's' (b'1' ∷ [])
      (initial_breakers 100)
      (
        omega arith,
        omega arith,
        (
          omega arith,
          omega arith,
          (omega arith, omega arith, (omega arith, omega arith, (omega arith, omega arith, tt))),
        ),
      )
      (omega arith)

record_llm-check_circuit_breaker_example :
    is_some
      (check_circuit_breaker plain_iso 200
        (some one_session)
        (record_llm Recording.failure 150 (some (codes "s2")) (initial_breakers 100))).0
    ≡ is_some (check_circuit_breaker plain_iso 200 (some one_session) (initial_breakers 100)).0
unfolding codes session_key
record_llm-check_circuit_breaker_example =
    record_llm-check_circuit_breaker plain_iso Recording.failure 150 200 b's' (b'1' ∷ [])
      (some (codes "s2")) (initial_breakers 100)
      (Reached.waited 100 150 (initial_breakers 100) (Reached.loaded 100) (omega arith))
      (omega arith) (λ e. ground arith)

abbrev same_text : Text → Text
same_text t = t

empty-IsInstanceCache : IsInstanceCache same_text []
unfolding lookup
empty-IsInstanceCache = record { bounded = omega arith; created = λ k i h. ground arith }

get_llm_instance-create_example :
    (((get_llm_instance same_text sample_env none []).0 ≡ resolve_text_model sample_env none)
      × IsInstanceCache same_text (get_llm_instance same_text sample_env none []).1)
    × (lookup (resolve_text_model sample_env none) (get_llm_instance same_text sample_env none []).1
        ≡ some (resolve_text_model sample_env none))
get_llm_instance-create_example =
    get_llm_instance-create same_text sample_env none [] empty-IsInstanceCache

abbrev two_retries : RetryOpts
two_retries = record {
  timeout_ms = 30000;
  max_retries = 2;
  session_id = some one_session;
  label = codes "LLM";
}

-- The first attempt yields a token and is cut off; the second one answers.
abbrev second_answers : ℕ → Attempt Text
second_answers zero = record {
  chunks = Content.text (codes "Hel") ∷ [];
  outcome = threw (codes "ECONNRESET");
  ended_at = 1000;
  meanwhile = λ b. b;
}
second_answers (suc n) = record {
  chunks = Content.text (codes "Hello") ∷ [];
  outcome = returned (codes "Hello");
  ended_at = 4000;
  meanwhile = λ b. b;
}

with_retry_and_timeout-Tried_example :
    let checked = check_circuit_breaker plain_iso 100 (some one_session) (initial_breakers 100) in
    let r =
      with_retry_and_timeout two_retries plain_iso 100 second_answers (initial_breakers 100) in
    ((message : Text) × (checked.0 ≡ some message)
      × (r ≡ stopped two_retries (threw message) checked.1))
    ⊎ ((checked.0 ≡ none) × Tried two_retries second_answers 3 0 none r)
with_retry_and_timeout-Tried_example =
    with_retry_and_timeout-Tried two_retries plain_iso 100 second_answers (initial_breakers 100)

-- A stream that is cut off is begun anew: the tokens of both attempts are yielded.
with_retry_and_timeout-tokens :
    (with_retry_and_timeout two_retries plain_iso 100 second_answers (initial_breakers 100)).tokens
    ≡ codes "Hel" ∷ codes "Hello" ∷ []
unfolding with_retry_and_timeout codes lookup initial_breakers
with_retry_and_timeout-tokens = refl

is_fatal_llm_error-status : is_fatal_llm_error (codes "Request failed: Status: 401") ≡ true
unfolding is_fatal_llm_error codes
is_fatal_llm_error-status = refl

is_fatal_llm_error-number : is_fatal_llm_error (codes "took 401 ms") ≡ false
unfolding is_fatal_llm_error codes
is_fatal_llm_error-number = refl
