-- ===== src/Saver/Retries.antt =====
-- Calls of Redis that are retried: `execWithRetry` and `getWithRetry` of
-- src/modules/agents/utils/redis-saver.ts. The pauses between attempts, 100 ms doubled each time, are
-- not modelled.
use nest_langgraph_ai.Prelude.{
  Text, ℕ, zero, suc, ◌+◌, ◌≤◌, ◌<◌, ◌≡◌, refl, sym, ap, subst, ◌∙◌, inl, inr, Bool, true, false,
  List, [], ◌∷◌, codes, includes, some_of, Bool-cases, Settled, returned, threw, Settled-cases,
  arith,
}

abbrev transient_texts : List Text
transient_texts =
    codes "ECONNREFUSED"
    ∷ codes "ECONNRESET"
    ∷ codes "ETIMEDOUT"
    ∷ codes "ENOTFOUND"
    ∷ codes "EHOSTUNREACH"
    ∷ codes "ENETUNREACH"
    ∷ codes "Connection is closed"
    ∷ codes "Stream isn't writeable"
    ∷ codes "write EPIPE"
    ∷ []

unfoldable pub is_transient : Text → Bool
unfolding includes
is_transient message = some_of (λ part. includes part message) transient_texts

abbrev pub default_retries : ℕ
default_retries = 3

module _ {A : Type 0} (calls : ℕ → Settled A) where
  -- The loop: how it ends and the number of calls; `left` is the number of retries that are left.
  unfoldable pub retry_transient : (left attempt : ℕ) → Settled A × ℕ
  unfolding is_transient
  retry_transient zero attempt = (calls attempt, 1)
  retry_transient (suc left) attempt =
      let again = retry_transient left (suc attempt) in
      elim (calls attempt) [
        | returned x ↦ (returned x, 1)
        | threw message ↦ elim (is_transient message) [
          | true ↦ (again.0, suc again.1)
          | false ↦ (threw message, 1)
        ]
      ]

  -- `execWithRetry` and `getWithRetry`.
  unfoldable pub with_retry : (retries : ℕ) → Settled A × ℕ
  unfolding retry_transient
  with_retry retries = retry_transient retries 0

  abbrev pub IsTransient : Settled A → Type 0
  IsTransient (returned x) = (false ≡ true)
  IsTransient (threw message) = is_transient message ≡ true

  -- The last call gives the result; the ones before it failed with transient errors, and it did not,
  -- unless no retry was left.
  pub record Retries (left attempt : ℕ) (r : Settled A × ℕ) : Type 0 where
    pub before : ℕ
    pub within : before ≤ left
    pub made : r.1 ≡ suc before
    pub result : r.0 ≡ calls (attempt + before)
    pub transient : (n : ℕ) → n < before → IsTransient (calls (attempt + n))
    pub last : before < left → ¬ IsTransient (calls (attempt + before))

  at_once :
      (left attempt : ℕ) (o : Settled A)
      → calls attempt ≡ o
      → (0 < left → ¬ IsTransient o)
      → Retries left attempt (o, 1)
  at_once left attempt o e h = record {
    before = 0;
    within = omega arith;
    made = refl;
    result = sym e ∙ ap calls (omega arith);
    transient = λ n lt. absurd (omega arith);
    last = λ lt.
        subst (λ n. ¬ IsTransient (calls n)) (omega arith)
          (subst (λ p. ¬ IsTransient p) (sym e) (h lt));
  }

  shifted :
      (attempt before : ℕ)
      → IsTransient (calls attempt)
      → ((n : ℕ) → n < before → IsTransient (calls (suc attempt + n)))
      → (n : ℕ) → n < suc before
      → IsTransient (calls (attempt + n))
  shifted attempt before h rest zero lt = subst (λ m. IsTransient (calls m)) (omega arith) h
  shifted attempt before h rest (suc n) lt =
      subst (λ m. IsTransient (calls m)) (omega arith) (rest n (omega arith))

  once_more :
      (left attempt : ℕ) (r : Settled A × ℕ)
      → IsTransient (calls attempt)
      → Retries left (suc attempt) r
      → Retries (suc left) attempt (r.0, suc r.1)
  once_more left attempt r h t = record {
    before = suc t.before;
    within = omega (arith, t.within);
    made = ap suc t.made;
    result = t.result ∙ ap calls (omega arith);
    transient = λ n lt. shifted attempt t.before h t.transient n lt;
    last = λ lt. subst (λ n. ¬ IsTransient (calls n)) (omega arith) (t.last (omega arith));
  }

  retry_transient-Retries : (left attempt : ℕ) → Retries left attempt (retry_transient left attempt)
  unfolding retry_transient
  retry_transient-Retries zero attempt =
      at_once 0 attempt (calls attempt) refl (λ lt. absurd (omega arith))
  retry_transient-Retries (suc left) attempt = elim (Settled-cases (calls attempt)) [
    | inl (x, e) ↦
        rw (e, retry_transient) (at_once (suc left) attempt (returned x) e (λ lt h. ground arith))
    | inr (message, e) ↦ elim (Bool-cases (is_transient message)) [
      | inl f ↦
          rw (e, retry_transient, f)
            (once_more left attempt (retry_transient left (suc attempt))
              (subst IsTransient (sym e) f) (retry_transient-Retries left (suc attempt)))
      | inr f ↦
          rw (e, retry_transient, f)
            (at_once (suc left) attempt (threw message) e (λ lt h. ground (arith, f)))
    ]
  ]

  -- A call of Redis ends for every behaviour of the server, after at most `retries + 1` attempts: the
  -- last one gives the result, every earlier one failed with a transient error, and the last one did
  -- not, unless no retry was left.
  pub with_retry-Retries : (retries : ℕ) → Retries retries 0 (with_retry retries)
  unfolding with_retry
  with_retry-Retries retries = retry_transient-Retries retries 0
