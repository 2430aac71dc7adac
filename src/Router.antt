-- ===== src/Router.antt =====
-- The deterministic routing step: src/modules/agents/nodes/decision-router.node.ts.
pub mod Limits
pub mod Dispatch
pub mod Decisions
use nest_langgraph_ai.Prelude.{
  Text, ℕ, ◌+◌, Bool, true, false, ◌&&◌, ◌||◌, Option, none, some, List, [], ◌∷◌, ◌++◌, length,
  get_elem?, keep_if, leb, ◌==◌, if◌then◌else◌, or_else, is_some, codes, decimal, text_eq,
}
use nest_langgraph_ai.Config.{Env, AgentLimits, get_agent_limits}
use nest_langgraph_ai.State.Phase.{Phase, phase_eq}
use nest_langgraph_ai.State.Shape.{
  PlanStep, AgentCounters, AgentState, Attempt, CriticDecisionState, ToolResult, Verdict, ErrorCode,
  AgentError,
}
use nest_langgraph_ai.State.Updates.{put, Updates, no_updates}
use nest_langgraph_ai.State.Transitions.{
  default_agent_counters, increment_agent_counters, transition_to_phase, begin_execution_step,
  fail_agent_run,
}

-- An entry of `ROUTER_LIMIT_CHECKS` with the two numbers that it compares.
pub record LimitCheck : Type 0 where
  pub current : ℕ
  pub limit : ℕ
  pub label : Text

unfoldable pub router_limit_checks : AgentCounters → AgentLimits → List LimitCheck
router_limit_checks c l =
    record { current = c.turn; limit = l.turns; label = codes "max recovery turns" }
    ∷ record { current = c.tool_calls; limit = l.tool_calls; label = codes "max tool calls" }
    ∷ record { current = c.replans; limit = l.replans; label = codes "max replans" }
    ∷ record { current = c.step_retries; limit = l.step_retries; label = codes "max step retries" }
    ∷ record {
      current = c.supervisor_fallbacks;
      limit = l.supervisor_fallbacks;
      label = codes "max supervisor fallbacks";
    }
    ∷ []

-- The loop over the checks: the first whose limit is reached.
unfoldable pub first_exceeded : List LimitCheck → Option LimitCheck
first_exceeded [] = none
first_exceeded (k ∷ ks) = if leb k.limit k.current then some k else first_exceeded ks

-- `advanceToNextStep`.
unfoldable pub advance_to_next_step : List PlanStep → ℕ → Updates
unfolding transition_to_phase begin_execution_step
advance_to_next_step plan current_step = elim (get_elem? plan (current_step + 1)) [
  | none ↦
      transition_to_phase Phase.generate
        (record no_updates { critic_decision = put none; replan_context = put none })
  | some next_step ↦
      if is_some next_step.parallel_group
      then transition_to_phase Phase.execute_parallel (record no_updates {
        current_step = put (current_step + 1);
        critic_decision = put none;
        replan_context = put none;
      })
      else begin_execution_step next_step (current_step + 1)
          (record no_updates { critic_decision = put none; replan_context = put none })
]

-- `handleComplete`.
unfoldable pub handle_complete : List PlanStep → ℕ → Bool → Updates
unfolding advance_to_next_step
handle_complete plan current_step is_last_step =
    if is_last_step
    then transition_to_phase Phase.generate
        (record no_updates { critic_decision = put none; replan_context = put none })
    else advance_to_next_step plan current_step

-- `handleFatal`.
unfoldable pub handle_fatal : CriticDecisionState → Updates
unfolding fail_agent_run
handle_fatal d =
    fail_agent_run (or_else d.final_answer (codes "Stopped due to a fatal decision.")) (
      some (record {
        code = ErrorCode.unknown;
        message = d.reason;
        at_phase = Phase.route;
        missing_capabilities = none;
      }))

-- `handleReplan`.
unfoldable pub handle_replan : AgentCounters → Option Text → Updates
unfolding transition_to_phase increment_agent_counters
handle_replan counters reason = transition_to_phase Phase.research (record no_updates {
  memory_context = put none;
  replan_context = put reason;
  counters =
      put (
        increment_agent_counters counters
          (record default_agent_counters { replans = 1; turn = 1 }));
  critic_decision = put none;
})

-- The filter of `handleRetryStep`: an attempt at this step with this tool in this generation.
unfoldable pub is_prior_attempt : ℕ → Text → ℕ → Attempt → Bool
is_prior_attempt step tool generation a =
    a.step == step && text_eq a.tool tool && or_else a.replan_generation 0 == generation

abbrev pub is_ok_result : Option ToolResult → Bool
is_ok_result none = false
is_ok_result (some r) = r.is_ok

-- When `handleRetryStep` escalates: the result was no error, or two attempts failed already.
unfoldable pub must_replan : AgentState → AgentCounters → Bool
unfolding is_prior_attempt
must_replan s counters =
    is_ok_result s.tool_result
    || leb 2 (
        length (
          keep_if (is_prior_attempt s.current_step (or_else s.selected_tool []) counters.replans)
            s.attempts))

abbrev reason_of : Option CriticDecisionState → Option Text
reason_of none = none
reason_of (some d) = some d.reason

-- `handleRetryStep`.
unfoldable pub handle_retry_step : AgentState → AgentCounters → Updates
unfolding handle_replan transition_to_phase increment_agent_counters
handle_retry_step s counters =
    if must_replan s counters
    then handle_replan counters (reason_of s.critic_decision)
    else transition_to_phase Phase.execute (record no_updates {
      counters = put (
          increment_agent_counters counters
            (record default_agent_counters { step_retries = 1; turn = 1 }));
      critic_decision = put none;
    })

-- `isLastStep`.
unfoldable pub is_last_step : List PlanStep → ℕ → Bool
is_last_step plan current_step = length plan == 0 || leb (length plan) (current_step + 1)

-- The `switch` on the critic's decision.
unfoldable pub dispatch : AgentState → CriticDecisionState → Verdict → Updates
unfolding handle_complete handle_fatal handle_retry_step is_last_step
dispatch s d Verdict.complete =
    handle_complete s.plan s.current_step (is_last_step s.plan s.current_step)
dispatch s d Verdict.fatal = handle_fatal d
dispatch s d Verdict.replan = handle_replan s.counters (some d.reason)
dispatch s d Verdict.retry_step = handle_retry_step s s.counters
dispatch s d Verdict.advance = advance_to_next_step s.plan s.current_step

-- The phases that the router never leaves.
abbrev pub is_terminal : Phase → Bool
is_terminal p = phase_eq p Phase.complete || phase_eq p Phase.fatal

-- The branch of `decisionRouterNode` with no decision of the critic.
unfoldable pub without_decision : AgentState → Updates
unfolding transition_to_phase increment_agent_counters
without_decision s =
    if phase_eq s.phase Phase.route
    then transition_to_phase Phase.supervisor (record no_updates {
      counters = put (
          increment_agent_counters s.counters
            (record default_agent_counters { supervisor_fallbacks = 1; turn = 1 }));
    })
    else no_updates

-- The update for a limit that is reached.
unfoldable pub fail_at_limit : LimitCheck → Updates
unfolding fail_agent_run
fail_at_limit k =
    fail_agent_run
      (codes "Stopped: exceeded " ++ (k.label ++ (codes " (" ++ (decimal k.limit ++ codes ")."))))
      (some (record {
        code = ErrorCode.timeout;
        message = codes "Exceeded " ++ k.label;
        at_phase = Phase.route;
        missing_capabilities = none;
      }))

-- `decisionRouterNode`.
unfoldable pub decision_router_node : Env → AgentState → Updates
unfolding first_exceeded router_limit_checks get_agent_limits without_decision fail_at_limit
    dispatch
decision_router_node env s =
    if is_terminal s.phase
    then no_updates
    else elim (first_exceeded (router_limit_checks s.counters (get_agent_limits env))) [
      | some k ↦ fail_at_limit k
      | none ↦ elim s.critic_decision [
        | none ↦ without_decision s
        | some d ↦ dispatch s d d.decision
      ]
    ]
