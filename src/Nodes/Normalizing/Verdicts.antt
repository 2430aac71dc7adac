-- ===== src/Nodes/Normalizing/Verdicts.antt =====
-- What src/modules/agents/nodes/tool-result-normalizer.node.ts says of failed and of parallel runs.
use mathlib.Core.List.{reverse, reverse-cons}
use mathlib.Mathlib.Data.List.Basic.{reverse-concat'}
use nest_langgraph_ai.Prelude.{
  Text, ℕ, zero, suc, ◌≤◌, ◌≡◌, refl, sym, ap, ◌∙◌, ◌↔◌, inl, inr, Bool, true, false, some, List,
  [], ◌∷◌, ◌++◌, length, take, is_empty, trim, trim_start, is_space, starts_with, codes, join,
  Bool-cases, ltb, arith,
}
use nest_langgraph_ai.Config.{raw_result_max_bytes}
use nest_langgraph_ai.State.Shape.{AgentState, ToolResult}
use nest_langgraph_ai.State.Updates.{apply_updates}
use nest_langgraph_ai.Tools.Envelope.{looks_like_tool_error, to_tool_result}
use nest_langgraph_ai.Tools.Classified.{kept_raw, to_tool_result-Describes}
use nest_langgraph_ai.Nodes.Services.{Services, ParallelStepResult}
use nest_langgraph_ai.Nodes.Normalizing.{
  summary_text, envelope, judge_result, normalize_parallel, normalize_updates, parallel_results,
}

trim_start-snoc :
    (c : ℕ) (xs : Text)
    → is_space c ≡ false
    → (ys : Text) × (trim_start (xs ++ c ∷ []) ≡ ys ++ c ∷ [])
unfolding trim_start
trim_start-snoc c [] h = ([], rw h refl)
trim_start-snoc c (x ∷ xs) h = elim (Bool-cases (is_space x)) [
  | inl e ↦ rw e (trim_start-snoc c xs h)
  | inr e ↦ rw e (x ∷ xs, refl)
]

-- A text that begins with ink is not blank.
trim-inked : (c : ℕ) (t : Text) → is_space c ≡ false → is_empty (trim (c ∷ t)) ≡ false
unfolding trim trim_start
trim-inked c t h =
    let (ys, e) = trim_start-snoc c (reverse t) h in
    rw (h, reverse-cons c t, e, reverse-concat' ys c) refl

take-append : (p t : Text) (n : ℕ) → length p ≤ n → (u : Text) × (take n (p ++ t) ≡ p ++ u)
take-append [] t n h = (take n t, refl)
take-append (c ∷ p) t zero h = absurd (omega (arith, h))
take-append (c ∷ p) t (suc n) h =
    let (u, e) = take-append p t n (omega (arith, h)) in (u, ap (λ l. c ∷ l) e)

-- What is kept of a text keeps the text's first characters.
kept_raw-append : (p t : Text) (n : ℕ) → length p ≤ n → (u : Text) × (kept_raw (p ++ t) n ≡ p ++ u)
kept_raw-append p t n h = elim (Bool-cases (ltb n (length (p ++ t)))) [
  | inl e ↦ rw e (take-append p t n h)
  | inr e ↦ rw e (t, refl)
]

-- The envelope of a text with a given beginning, by what that beginning is.
result-began :
    (sv : Services) (name : Text) (c : ℕ) (p t : Text) (n : ℕ) (b : Bool)
    → is_space c ≡ false
    → length (c ∷ p) ≤ n
    → ((u : Text) → looks_like_tool_error ((c ∷ p) ++ u) ≡ b)
    → ((to_tool_result sv.json_parse sv.stringify_pretty name
          ((c ∷ p) ++ t)
          sv.env.critic_result_max_chars
          n).is_ok
        ≡ true)
      ↔ (b ≡ false)
result-began sv name c p t n b ink room seems =
    let (u, e) = kept_raw-append (c ∷ p) t n room in
    let (d, fits) =
      to_tool_result-Describes sv.json_parse sv.stringify_pretty name ((c ∷ p) ++ t)
        sv.env.critic_result_max_chars n in
    (
      λ h. sym (seems u) ∙ ap looks_like_tool_error (sym e) ∙ (d.is_ok.0 h).1,
      λ h. d.is_ok.1 (
        ap (λ k. is_empty (trim k)) e ∙ trim-inked c (p ++ u) ink,
        ap looks_like_tool_error e ∙ seems u ∙ h,
      ),
    )

is_false : (b : Bool) → ((b ≡ true) ↔ (true ≡ false)) → b ≡ false
is_false true h = h.0 refl
is_false false h = refl

seems_error : (u : Text) → looks_like_tool_error (codes "ERROR" ++ u) ≡ true
unfolding looks_like_tool_error codes trim_start is_space starts_with
seems_error u = refl

seems_fine : (u : Text) → looks_like_tool_error (codes "P" ++ u) ≡ false
unfolding looks_like_tool_error codes trim_start is_space starts_with
seems_fine u = refl

-- An error text of an executor makes an envelope that is not ok.
pub envelope-error :
    (sv : Services) (name t : Text) → (envelope sv name (codes "ERROR" ++ t)).is_ok ≡ false
unfolding envelope codes is_space
envelope-error sv name t = is_false _ (
    result-began sv name b'E' (codes "RROR") t raw_result_max_bytes true refl (omega arith)
      seems_error)

summary_text-began :
    (results : List ParallelStepResult) → (t : Text) × (summary_text results ≡ codes "P" ++ t)
unfolding summary_text join codes
summary_text-began [] = (_, refl)
summary_text-began (r ∷ rs) = (_, refl)

envelope-summary :
    (sv : Services) (name : Text) (results : List ParallelStepResult)
    → (envelope sv name (summary_text results)).is_ok ≡ true
unfolding envelope codes is_space
envelope-summary sv name results =
    let (t, e) = summary_text-began results in
    ap (λ k. (envelope sv name k).is_ok) e
    ∙ (result-began sv name b'P' [] t raw_result_max_bytes false refl (omega arith) seems_fine).1
        refl

-- Where the results of a group are pending, the normalizer's result is ok, even if every step of the
-- group failed.
pub normalize_parallel-is_ok :
    (sv : Services) (s : AgentState) (results : List ParallelStepResult)
    → parallel_results sv s ≡ some results
    → (r : ToolResult) × (((apply_updates s (normalize_updates sv s)).tool_result ≡ some r)
        × (r.is_ok ≡ true))
unfolding normalize_updates normalize_parallel judge_result apply_updates
normalize_parallel-is_ok sv s results h =
    rw (h, normalize_updates)
      (
        envelope sv (codes "parallel_execution") (summary_text results),
        (refl, envelope-summary sv _ results),
      )
