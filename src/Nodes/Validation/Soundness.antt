-- ===== src/Nodes/Validation/Soundness.antt =====
-- What a plan that passes src/modules/agents/nodes/plan-validator.node.ts satisfies.
use nest_langgraph_ai.Prelude.{
  Text, ℕ, zero, suc, ◌≤◌, ◌≡◌, refl, sym, ap, ◌∙◌, inl, inr, Bool, true, false, Option, none, some,
  List, [], ◌∷◌, length, get_elem?, ltb, some_of, arith, Bool-cases, Result, ok, err, ok-injective,
  ◌>>=◌,
}
use nest_langgraph_ai.Config.{max_steps}
use nest_langgraph_ai.State.Phase.{Phase}
use nest_langgraph_ai.State.Shape.{PlanStep, AgentState}
use nest_langgraph_ai.State.Updates.{put, Updates}
use nest_langgraph_ai.State.Transitions.{request_plan_review}
use nest_langgraph_ai.Tools.{get_capability}
use nest_langgraph_ai.Nodes.Services.{Services}
use nest_langgraph_ai.Nodes.Validation.Checks.{
  IsValidPlan, preflight-Passes, Passes-IsValidPlan, bind-ok,
}
use nest_langgraph_ai.Nodes.Validation.Groups.{Failure}
use nest_langgraph_ai.Nodes.Validation.{
  preflight, validate_steps, validate_from, plan_validator_node, fail_validation, begin_plan,
  is_review_required, has_destructive_tool, too_long,
}

-- The end of the validation of a plan that is short enough.
conclude : Services → AgentState → PlanStep → Option Failure → Updates
conclude sv s first none = begin_plan sv s first
conclude sv s first (some f) = fail_validation f

conclude-eq :
    (sv : Services) (s : AgentState) (first : PlanStep) (m : Result (Option Failure))
    → (m >>= λ failure.
        ok (elim failure [ some f ↦ fail_validation f | none ↦ begin_plan sv s first ]))
      ≡ (m >>= λ failure. ok (conclude sv s first failure))
unfolding conclude
conclude-eq sv s first (ok none) = refl
conclude-eq sv s first (ok (some f)) = refl
conclude-eq sv s first (err e) = refl

validate_steps-fits :
    (sv : Services) (s : AgentState) (first : PlanStep)
    → ltb 20 (length s.plan) ≡ false
    → validate_steps sv s first
      ≡ (preflight sv s.plan >>= λ failure. ok (conclude sv s first failure))
unfolding validate_steps
validate_steps-fits sv s first e =
    (rw (e, validate_steps) refl) ∙ conclude-eq sv s first (preflight sv s.plan)

fail_validation-fatal :
    (f : Failure) (r : Result Updates) (u : Updates)
    → r ≡ ok (fail_validation f)
    → r ≡ ok u
    → u.phase ≡ put Phase.fatal
unfolding fail_validation
fail_validation-fatal f r u e h = ap (λ v. v.phase) (ok-injective u (fail_validation f) (sym h ∙ e))

too_long-fatal :
    (sv : Services) (s : AgentState) (first : PlanStep) (u : Updates)
    → ltb 20 (length s.plan) ≡ true
    → validate_steps sv s first ≡ ok u
    → u.phase ≡ put Phase.fatal
unfolding validate_steps
too_long-fatal sv s first u e h =
    fail_validation-fatal (too_long s) _ u (rw (e, validate_steps) refl) h

-- An accepted plan: every check passed, and its execution or its review begins.
pub record Accepted (sv : Services) (s : AgentState) (u : Updates) : Type 0 where
  pub first : PlanStep
  pub more : List PlanStep
  pub steps : s.plan ≡ first ∷ more
  pub fits : length s.plan ≤ max_steps
  pub passed : preflight sv s.plan ≡ ok none
  pub begun : begin_plan sv s first ≡ u

concluded :
    (sv : Services) (s : AgentState) (first : PlanStep) (failure : Option Failure) (u : Updates)
    → conclude sv s first failure ≡ u
    → ¬ (u.phase ≡ put Phase.fatal)
    → (failure ≡ none) × (begin_plan sv s first ≡ u)
unfolding conclude fail_validation
concluded sv s first none u e alive = (refl, e)
concluded sv s first (some f) u e alive = absurd (alive (rw (sym e) refl))

validate_from-Accepted :
    (sv : Services) (s : AgentState) (steps : List PlanStep) (u : Updates)
    → s.plan ≡ steps
    → validate_from sv s steps ≡ ok u
    → ¬ (u.phase ≡ put Phase.fatal)
    → Accepted sv s u
unfolding fail_validation
validate_from-Accepted sv s [] u p h alive = absurd (alive (fail_validation-fatal _ _ u refl h))
validate_from-Accepted sv s (first ∷ more) u p h alive =
    elim (Bool-cases (ltb 20 (length s.plan))) [
      | inl e ↦ absurd (alive (too_long-fatal sv s first u e h))
      | inr e ↦
          let (failure, (passed, ended)) =
            bind-ok (preflight sv s.plan) (conclude sv s first) u
              (sym (validate_steps-fits sv s first e) ∙ h) in
          let (none_failed, begun) = concluded sv s first failure u ended alive in
          record {
            first = first;
            more = more;
            steps = p;
            fits = ground arith;
            passed = passed ∙ ap ok none_failed;
            begun = begun;
          }
    ]

-- A plan that the validator does not fail has 1 to 20 steps with the ids 1, 2, …; every step names a
-- registered tool that accepts its input unless a placeholder is still to be resolved; a step of a
-- parallel group has a parallel-safe tool; no group that starts at the first step uses the previous
-- result; and each group stands in at most five adjacent steps.
pub plan_validator_node-IsValidPlan :
    (sv : Services) (s : AgentState) (u : Updates)
    → plan_validator_node sv s ≡ ok u
    → ¬ (u.phase ≡ put Phase.fatal)
    → IsValidPlan sv.registry s.plan
unfolding plan_validator_node
plan_validator_node-IsValidPlan sv s u h alive =
    let a = validate_from-Accepted sv s s.plan u refl h alive in
    Passes-IsValidPlan sv.registry s.plan (rw a.steps (omega arith)) a.fits
      (preflight-Passes sv s.plan a.passed)

some_of-get_elem? {ℓ} :
    {A : Type ℓ} (p : A → Bool) (xs : List A) (i : ℕ) (a : A)
    → get_elem? xs i ≡ some a
    → p a ≡ true
    → some_of p xs ≡ true
some_of-get_elem? p [] i a e h = absurd (cc)
some_of-get_elem? p (x ∷ xs) zero a e h = ground arith
some_of-get_elem? p (x ∷ xs) (suc i) a e h = ground (arith, some_of-get_elem? p xs i a e h)

begin_plan-review :
    (sv : Services) (s : AgentState) (first : PlanStep) (c : ℕ) (session : Text)
    → sv.env.require_plan_review ≡ true
    → s.session_id ≡ some (c ∷ session)
    → has_destructive_tool sv.registry s.plan ≡ true
    → (begin_plan sv s first).phase ≡ put Phase.await_plan_review
unfolding begin_plan request_plan_review
begin_plan-review sv s first c session required named risky = ground arith

-- Where the review of plans is required and the run has a session, a plan with a step whose tool
-- writes, executes or writes to the network waits for its review, unless the validator fails it.
pub plan_validator_node-review :
    (sv : Services) (s : AgentState) (u : Updates) (c : ℕ) (session : Text) (i : ℕ)
    (step : PlanStep)
    → plan_validator_node sv s ≡ ok u
    → ¬ (u.phase ≡ put Phase.fatal)
    → sv.env.require_plan_review ≡ true
    → s.session_id ≡ some (c ∷ session)
    → get_elem? s.plan i ≡ some step
    → is_review_required (get_capability sv.registry step.tool).risk ≡ true
    → u.phase ≡ put Phase.await_plan_review
unfolding plan_validator_node has_destructive_tool
plan_validator_node-review sv s u c session i step h alive required named found risky =
    let a = validate_from-Accepted sv s s.plan u refl h alive in
    ap (λ v. v.phase) (sym a.begun)
    ∙ begin_plan-review sv s a.first c session required named
        (some_of-get_elem? _ s.plan i step found risky)
