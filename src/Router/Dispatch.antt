-- ===== src/Router/Dispatch.antt =====
-- What the router of src/modules/agents/nodes/decision-router.node.ts makes of a decision of the
-- critic: the next step of the plan, a retry, a new plan, or the end of the run.
use nest_langgraph_ai.Prelude.{
  Text, ℕ, ◌+◌, ◌<◌, ◌≡◌, refl, sym, codes, ◌↔◌, ◌⊎◌, inl, inr, false, Option, none, some, is_some,
  List, [], ◌∷◌, ◌++◌, if◌then◌else◌, Bool-cases, Option-cases, length, get_elem?, get_elem?-lt,
  keep_if, or_else, arith, ap,
}
use nest_langgraph_ai.State.Phase.{Phase}
use nest_langgraph_ai.State.Shape.{AgentState, PlanStep, CriticDecisionState, Verdict, ErrorCode}
use nest_langgraph_ai.State.Updates.{apply_updates, append_capped, last_items, errors_history_cap}
use nest_langgraph_ai.Router.{
  dispatch, advance_to_next_step, handle_complete, handle_fatal, handle_replan, handle_retry_step,
  must_replan, is_prior_attempt, is_ok_result, is_last_step, reason_of,
}

-- The phase that runs a step.
abbrev pub phase_of_step : PlanStep → Phase
phase_of_step step = elim step.parallel_group [
  | none ↦ Phase.execute
  | some g ↦ Phase.execute_parallel
]

-- From `s` to `t` by the next step of the plan, if there is one; a step of a group leaves the tool
-- that is selected.
pub record AdvancedTo (s : AgentState) (step : PlanStep) (t : AgentState) : Type 0 where
  pub current_step : t.current_step ≡ s.current_step + 1
  pub phase : t.phase ≡ phase_of_step step
  pub tool : step.parallel_group ≡ none → t.selected_tool ≡ some step.tool
  pub params : step.parallel_group ≡ none → t.tool_params ≡ some step.input
  pub plan : t.plan ≡ s.plan
  pub counters : t.counters ≡ s.counters
  pub decision : t.critic_decision ≡ none
  pub exact : t ≡ record s {
    current_step = s.current_step + 1;
    phase = phase_of_step step;
    selected_tool = if is_some step.parallel_group then s.selected_tool else some step.tool;
    tool_params = if is_some step.parallel_group then s.tool_params else some step.input;
    critic_decision = none;
    replan_context = none;
  }

pub record AnswersFrom (s : AgentState) (t : AgentState) : Type 0 where
  pub phase : t.phase ≡ Phase.generate
  pub current_step : t.current_step ≡ s.current_step
  pub result : t.tool_result ≡ s.tool_result
  pub attempts : t.attempts ≡ s.attempts
  pub counters : t.counters ≡ s.counters
  pub decision : t.critic_decision ≡ none
  pub exact : t ≡ record s { phase = Phase.generate; critic_decision = none; replan_context = none }

abbrev pub Follows : AgentState → AgentState → Option PlanStep → Type 0
Follows s t none = AnswersFrom s t
Follows s t (some step) = AdvancedTo s step t

advance-at_step :
    (s : AgentState) (step : PlanStep) (g : Option ℕ)
    → step.parallel_group ≡ g
    → get_elem? s.plan (s.current_step + 1) ≡ some step
    → AdvancedTo s step (apply_updates s (advance_to_next_step s.plan s.current_step))
unfolding advance_to_next_step apply_updates
advance-at_step s step none e h =
    rw (h, advance_to_next_step, e)
      (record {
        current_step = refl;
        phase = refl;
        tool = λ _. refl;
        params = λ _. refl;
        plan = refl;
        counters = refl;
        decision = refl;
        exact = refl;
      })
advance-at_step s step (some g) e h =
    rw (h, advance_to_next_step, e)
      (record {
        current_step = refl;
        phase = refl;
        tool = λ n. absurd (cc);
        params = λ n. absurd (cc);
        plan = refl;
        counters = refl;
        decision = refl;
        exact = refl;
      })

advance-Follows :
    (s : AgentState)
    → Follows s
        (apply_updates s (advance_to_next_step s.plan s.current_step))
        (get_elem? s.plan (s.current_step + 1))
unfolding advance_to_next_step apply_updates
advance-Follows s = elim (Option-cases (get_elem? s.plan (s.current_step + 1))) [
  | inl e ↦
      rw (e, advance_to_next_step)
        (record {
          phase = refl;
          current_step = refl;
          result = refl;
          attempts = refl;
          counters = refl;
          decision = refl;
          exact = refl;
        })
  | inr (step, e) ↦ rw e (advance-at_step s step step.parallel_group refl e)
]

-- On every plan, at every step, `handleComplete` with the test for the last step returns the same
-- updates as `advanceToNextStep`: the test is redundant.
pub handle_complete-advance_to_next_step :
    (plan : List PlanStep) (i : ℕ)
    → handle_complete plan i (is_last_step plan i) ≡ advance_to_next_step plan i
unfolding handle_complete advance_to_next_step is_last_step
handle_complete-advance_to_next_step plan i = elim (Bool-cases (is_last_step plan i)) [
  | inr e ↦ rw (e, handle_complete) refl
  | inl e ↦ elim (Option-cases (get_elem? plan (i + 1))) [
    | inl n ↦ rw (e, handle_complete, n, advance_to_next_step) refl
    | inr (step, h) ↦ absurd (ground (arith, get_elem?-lt plan (i + 1) h))
  ]
]

-- The attempts that count against a retry.
abbrev pub prior_attempts : AgentState → ℕ
prior_attempts s = length (
    keep_if (is_prior_attempt s.current_step (or_else s.selected_tool []) s.counters.replans)
      s.attempts)

-- From `s` to `t` by running the step again.
pub record RetriedTo (s t : AgentState) : Type 0 where
  pub phase : t.phase ≡ Phase.execute
  pub current_step : t.current_step ≡ s.current_step
  pub tool : t.selected_tool ≡ s.selected_tool
  pub params : t.tool_params ≡ s.tool_params
  pub replans : t.counters.replans ≡ s.counters.replans
  pub step_retries : t.counters.step_retries ≡ s.counters.step_retries + 1
  pub turn : t.counters.turn ≡ s.counters.turn + 1
  pub tool_calls : t.counters.tool_calls ≡ s.counters.tool_calls
  pub supervisor_fallbacks : t.counters.supervisor_fallbacks ≡ s.counters.supervisor_fallbacks
  pub decision : t.critic_decision ≡ none
  pub exact : t ≡ record s { phase = Phase.execute; counters = t.counters; critic_decision = none }

-- From `s` to `t` by planning again, for a reason.
pub record ReplannedTo (s : AgentState) (why : Option Text) (t : AgentState) : Type 0 where
  pub phase : t.phase ≡ Phase.research
  pub memory_context : t.memory_context ≡ none
  pub reason : t.replan_context ≡ why
  pub replans : t.counters.replans ≡ s.counters.replans + 1
  pub step_retries : t.counters.step_retries ≡ s.counters.step_retries
  pub turn : t.counters.turn ≡ s.counters.turn + 1
  pub tool_calls : t.counters.tool_calls ≡ s.counters.tool_calls
  pub supervisor_fallbacks : t.counters.supervisor_fallbacks ≡ s.counters.supervisor_fallbacks
  pub decision : t.critic_decision ≡ none
  pub exact : t ≡ record s {
    phase = Phase.research;
    memory_context = none;
    replan_context = why;
    counters = t.counters;
    critic_decision = none;
  }

replan-ReplannedTo :
    (s : AgentState) (reason : Option Text)
    → ReplannedTo s reason (apply_updates s (handle_replan s.counters reason))
unfolding handle_replan apply_updates
replan-ReplannedTo s reason = record {
  phase = refl;
  memory_context = refl;
  reason = refl;
  replans = refl;
  step_retries = omega arith;
  turn = refl;
  tool_calls = omega arith;
  supervisor_fallbacks = omega arith;
  decision = refl;
  exact = refl;
}

-- A retry is due: the result was an error, and fewer than two attempts failed before.
abbrev pub MayRetry : AgentState → Type 0
MayRetry s = (is_ok_result s.tool_result ≡ false) × (prior_attempts s < 2)

abbrev pub RetriedOrReplanned : AgentState → Option Text → AgentState → Type 0
RetriedOrReplanned s why t = (MayRetry s × RetriedTo s t) ⊎ (¬ MayRetry s × ReplannedTo s why t)

must_replan-false_iff : (s : AgentState) → (must_replan s s.counters ≡ false) ↔ MayRetry s
unfolding must_replan
must_replan-false_iff s = (λ h. ground arith, λ h. ground arith)

retry-RetriedOrReplanned :
    (s : AgentState)
    → RetriedOrReplanned s
        (reason_of s.critic_decision)
        (apply_updates s (handle_retry_step s s.counters))
unfolding handle_retry_step apply_updates
retry-RetriedOrReplanned s = elim (Bool-cases (must_replan s s.counters)) [
  | inl e ↦
      rw (e, handle_retry_step)
        (inr (
          λ may. absurd (cc (e, (must_replan-false_iff s).1 may)),
          replan-ReplannedTo s (reason_of s.critic_decision),
        ))
  | inr e ↦
      rw (e, handle_retry_step)
        (inl (
          (must_replan-false_iff s).0 e,
          record {
            phase = refl;
            current_step = refl;
            tool = refl;
            params = refl;
            replans = omega arith;
            step_retries = refl;
            turn = refl;
            tool_calls = omega arith;
            supervisor_fallbacks = omega arith;
            decision = refl;
            exact = refl;
          },
        ))
]

-- The run is over, with the critic's answer, and its reason is the last of the errors.
pub record FailedBy (s : AgentState) (d : CriticDecisionState) (t : AgentState) : Type 0 where
  pub phase : t.phase ≡ Phase.fatal
  pub answer :
      t.final_answer ≡ some (or_else d.final_answer (codes "Stopped due to a fatal decision."))
  pub counters : t.counters ≡ s.counters
  pub exact : t ≡ record s {
    phase = Phase.fatal;
    final_answer = some (or_else d.final_answer (codes "Stopped due to a fatal decision."));
    errors = last_items errors_history_cap (
        s.errors
        ++ record {
          code = ErrorCode.unknown;
          message = d.reason;
          at_phase = Phase.route;
          missing_capabilities = none;
        }
          ∷ []);
  }

-- What each decision of the critic asks for.
abbrev pub Acts : AgentState → CriticDecisionState → Verdict → AgentState → Type 0
Acts s d Verdict.advance t = Follows s t (get_elem? s.plan (s.current_step + 1))
Acts s d Verdict.complete t = Follows s t (get_elem? s.plan (s.current_step + 1))
Acts s d Verdict.retry_step t = RetriedOrReplanned s (some d.reason) t
Acts s d Verdict.replan t = ReplannedTo s (some d.reason) t
Acts s d Verdict.fatal t = FailedBy s d t

pub dispatch-Acts :
    (s : AgentState) (d : CriticDecisionState) (v : Verdict)
    → s.critic_decision ≡ some d
    → Acts s d v (apply_updates s (dispatch s d v))
unfolding dispatch handle_fatal apply_updates append_capped
dispatch-Acts s d Verdict.advance e = advance-Follows s
dispatch-Acts s d Verdict.complete e =
    rw (handle_complete-advance_to_next_step s.plan s.current_step) (advance-Follows s)
dispatch-Acts s d Verdict.retry_step e = rw (ap reason_of (sym e)) (retry-RetriedOrReplanned s)
dispatch-Acts s d Verdict.replan e = replan-ReplannedTo s (some d.reason)
dispatch-Acts s d Verdict.fatal e = record {
  phase = refl;
  answer = refl;
  counters = refl;
  exact = refl;
}
