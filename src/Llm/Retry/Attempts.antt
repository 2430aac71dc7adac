-- ===== src/Llm/Retry/Attempts.antt =====
-- How often a call is tried, and what it ends with (src/modules/llm/llm.provider.ts).
use nest_langgraph_ai.Prelude.{
  Text, ℕ, zero, suc, ◌+◌, ◌≤◌, ◌<◌, ◌≡◌, refl, sym, ◌∙◌, ap, subst, true, false, Option, none,
  some, List, [], ◌++◌, codes, map, Settled, returned, threw, Settled-cases, Bool-cases,
  Option-cases, or_else, ◌⊎◌, inl, inr, arith,
}
use nest_langgraph_ai.Llm.Breaker.{Breakers, check_circuit_breaker}
use nest_langgraph_ai.Llm.Errors.{extract_content, is_fatal_llm_error}
use nest_langgraph_ai.Llm.Retry.{
  RetryOpts, Attempt, Retried, all_failed, behind, stopped, retry_from, with_retry_and_timeout,
}

-- A failure that is tried again: every one but the fatal ones.
abbrev pub Retryable {ℓ} : {A : Type ℓ} → Settled A → Type 0
Retryable (returned x) = (false ≡ true)
Retryable (threw message) = is_fatal_llm_error message ≡ false

fatal_final :
    (A : Type 0) (message : Text)
    → is_fatal_llm_error message ≡ true
    → ¬ Retryable {A = A} (threw message)
fatal_final A message f h = ground arith

module _ {A : Type 0} (opts : RetryOpts) where
  -- The tokens of a number of attempts, from one of them on.
  unfoldable pub tokens_of : (ℕ → Attempt A) → (made attempt : ℕ) → List Text
  tokens_of calls zero attempt = []
  tokens_of calls (suc made) attempt =
      map extract_content (calls attempt).chunks ++ tokens_of calls made (suc attempt)

  -- The message of the attempt that was the last of `left`, or that was known before them.
  pub IsReason : (ℕ → Attempt A) → (left attempt : ℕ) → Option Text → Text → Type 0
  IsReason calls zero attempt last reason = or_else last (codes "unknown error") ≡ reason
  IsReason calls (suc left) attempt last reason = (calls (attempt + left)).outcome ≡ threw reason

  -- All of `left` attempts from number `attempt` on failed and could be tried again.
  pub record Exhausted (calls : ℕ → Attempt A) (left attempt : ℕ) (last : Option Text)
      (r : Retried A) : Type 0 where
    pub all_made : r.attempts ≡ left
    pub all_retryable : (n : ℕ) → n < left → Retryable (calls (attempt + n)).outcome
    pub reason : Text
    pub is_reason : IsReason calls left attempt last reason
    pub result : r.outcome ≡ threw (all_failed opts reason)

  -- The last attempt, of number `attempt + before`, gave the result, and the ones before it failed
  -- and could be tried again.
  pub record Settles (calls : ℕ → Attempt A) (attempt : ℕ) (r : Retried A) : Type 0 where
    pub before : ℕ
    pub made : r.attempts ≡ suc before
    pub retried : (n : ℕ) → n < before → Retryable (calls (attempt + n)).outcome
    pub result : r.outcome ≡ (calls (attempt + before)).outcome
    pub final : ¬ Retryable (calls (attempt + before)).outcome

  pub record Tried (calls : ℕ → Attempt A) (left attempt : ℕ) (last : Option Text) (r : Retried A)
      : Type 0 where
    pub within : r.attempts ≤ left
    pub yielded : r.tokens ≡ tokens_of calls r.attempts attempt
    pub ends : Settles calls attempt r ⊎ Exhausted calls left attempt last r

  settles :
      (calls : ℕ → Attempt A) (left attempt : ℕ) (last : Option Text) (o : Settled A) (b : Breakers)
      → (calls attempt).outcome ≡ o
      → ¬ Retryable o
      → Tried calls (suc left) attempt last (behind opts (calls attempt) (stopped opts o b))
  unfolding behind stopped tokens_of
  settles calls left attempt last o b e final = record {
    within = omega arith;
    yielded = refl;
    ends = inl (record {
      before = 0;
      made = refl;
      retried = λ n h. absurd (omega arith);
      result = sym e ∙ ap (λ n. (calls n).outcome) (omega arith);
      final =
          subst (λ n. ¬ Retryable (calls n).outcome) (omega arith)
            (subst (λ p. ¬ Retryable p) (sym e) final);
    });
  }

  shifted-Retryable :
      (calls : ℕ → Attempt A) (attempt before : ℕ)
      → Retryable (calls attempt).outcome
      → ((n : ℕ) → n < before → Retryable (calls (suc attempt + n)).outcome)
      → (n : ℕ) → n < suc before
      → Retryable (calls (attempt + n)).outcome
  shifted-Retryable calls attempt before h rest zero lt =
      subst (λ m. Retryable (calls m).outcome) (omega arith) h
  shifted-Retryable calls attempt before h rest (suc n) lt =
      subst (λ m. Retryable (calls m).outcome) (omega arith) (rest n (omega arith))

  shifted-IsReason :
      (calls : ℕ → Attempt A) (left attempt : ℕ) (last : Option Text) (message reason : Text)
      → (calls attempt).outcome ≡ threw message
      → IsReason calls left (suc attempt) (some message) reason
      → IsReason calls (suc left) attempt last reason
  unfolding IsReason
  shifted-IsReason calls zero attempt last message reason e h =
      ap (λ n. (calls n).outcome) (omega arith) ∙ (e ∙ ap threw h)
  shifted-IsReason calls (suc left) attempt last message reason e h =
      ap (λ n. (calls n).outcome) (omega arith) ∙ h

  retries :
      (calls : ℕ → Attempt A) (left attempt : ℕ) (last : Option Text) (message : Text)
      (r : Retried A)
      → (calls attempt).outcome ≡ threw message
      → Retryable (calls attempt).outcome
      → Tried calls left (suc attempt) (some message) r
      → Tried calls (suc left) attempt last (behind opts (calls attempt) r)
  unfolding behind tokens_of
  retries calls left attempt last message r e h t = record {
    within = omega (arith, t.within);
    yielded = ap (λ ts. map extract_content (calls attempt).chunks ++ ts) t.yielded;
    ends = elim (t.ends) [
      | inl d ↦ inl (record {
        before = suc d.before;
        made = ap suc d.made;
        retried = shifted-Retryable calls attempt d.before h d.retried;
        result = d.result ∙ ap (λ n. (calls n).outcome) (omega arith);
        final = subst (λ n. ¬ Retryable (calls n).outcome) (omega arith) d.final;
      })
      | inr d ↦ inr (record {
        all_made = ap suc d.all_made;
        all_retryable = shifted-Retryable calls attempt left h d.all_retryable;
        reason = d.reason;
        is_reason = shifted-IsReason calls left attempt last message d.reason e d.is_reason;
        result = d.result;
      })
    ];
  }

  returned-Retryable : (x : A) → ¬ Retryable (returned x)
  returned-Retryable x h = ground arith

  retry_from-Tried :
      (calls : ℕ → Attempt A) (left attempt : ℕ) (last : Option Text) (b : Breakers)
      → Tried calls left attempt last (retry_from opts calls left attempt last b)
  unfolding retry_from stopped IsReason tokens_of
  retry_from-Tried calls zero attempt last b = record {
    within = omega arith;
    yielded = refl;
    ends = inr (record {
      all_made = refl;
      all_retryable = λ n h. absurd (omega arith);
      reason = or_else last (codes "unknown error");
      is_reason = refl;
      result = refl;
    });
  }
  retry_from-Tried calls (suc left) attempt last b = elim (Settled-cases (calls attempt).outcome) [
    | inl (x, e) ↦
        rw (e, retry_from) (settles calls left attempt last (returned x) _ e (returned-Retryable x))
    | inr (message, e) ↦ elim (Bool-cases (is_fatal_llm_error message)) [
      | inl f ↦
          rw (e, retry_from, f)
            (settles calls left attempt last (threw message) _ e (fatal_final A message f))
      | inr f ↦
          rw (e, retry_from, f)
            (retries calls left attempt last message _ e (subst Retryable (sym e) f)
              (retry_from-Tried calls left (suc attempt) (some message) _))
    ]
  ]

  -- A call with retries ends for every behaviour of the LLM. Where the breaker is open it makes no
  -- attempt and throws. Elsewhere it makes at most `max_retries + 1`; the last attempt gave the
  -- result, or all of them were made and the last one's message is reported; every earlier attempt
  -- failed with an error that is not fatal; and the tokens of every attempt are yielded.
  pub with_retry_and_timeout-Tried :
      (iso : ℕ → Text) (now : ℕ) (calls : ℕ → Attempt A) (b : Breakers)
      → let checked = check_circuit_breaker iso now opts.session_id b in
        let r = with_retry_and_timeout opts iso now calls b in
        ((message : Text) × (checked.0 ≡ some message)
          × (r ≡ stopped opts (threw message) checked.1))
        ⊎ ((checked.0 ≡ none) × Tried calls (suc opts.max_retries) 0 none r)
  unfolding with_retry_and_timeout
  with_retry_and_timeout-Tried iso now calls b =
      elim (Option-cases (check_circuit_breaker iso now opts.session_id b).0) [
        | inl e ↦ inr (
          e,
          rw (e, with_retry_and_timeout) (retry_from-Tried calls (suc opts.max_retries) 0 none _),
        )
        | inr (message, e) ↦ inl (message, e, rw (e, with_retry_and_timeout) refl)
      ]
