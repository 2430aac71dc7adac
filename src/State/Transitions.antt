-- ===== src/State/Transitions.antt =====
-- Counters (src/modules/agents/state/agent-state.helpers.ts) and the transitions that nodes return
-- (src/modules/agents/state/agent-transition.util.ts).
use nest_langgraph_ai.Prelude.{Text, ℕ, ◌+◌, Bool, true, Option, none, some, List, [], ◌∷◌, some_of}
use nest_langgraph_ai.State.Phase.{Phase, phase_eq}
use nest_langgraph_ai.State.Shape.{PlanStep, AgentCounters, AgentError, AgentState}
use nest_langgraph_ai.State.Updates.{keep, put, Updates, no_updates}

abbrev pub default_agent_counters : AgentCounters
default_agent_counters = record {
  turn = 0;
  tool_calls = 0;
  replans = 0;
  step_retries = 0;
  supervisor_fallbacks = 0;
}

-- The counters are always present in a state, so `getAgentCounters` returns them as they are. A
-- key that the delta leaves out counts 0.
unfoldable pub increment_agent_counters : AgentCounters → AgentCounters → AgentCounters
increment_agent_counters current delta = record {
  turn = current.turn + delta.turn;
  tool_calls = current.tool_calls + delta.tool_calls;
  replans = current.replans + delta.replans;
  step_retries = current.step_retries + delta.step_retries;
  supervisor_fallbacks = current.supervisor_fallbacks + delta.supervisor_fallbacks;
}

-- `VALID_TRANSITIONS`; `none` is a phase that the table does not list.
unfoldable pub valid_transitions : Phase → Option (List Phase)
valid_transitions Phase.supervisor =
    some (Phase.research ∷ Phase.chat ∷ Phase.clarification ∷ Phase.fatal ∷ [])
valid_transitions Phase.research = some (Phase.research_join ∷ Phase.fatal ∷ [])
valid_transitions Phase.research_join = some (Phase.plan ∷ Phase.fatal ∷ [])
valid_transitions Phase.plan = some (Phase.validate_plan ∷ Phase.fatal ∷ [])
valid_transitions Phase.validate_plan =
    some (Phase.execute ∷ Phase.execute_parallel ∷ Phase.await_plan_review ∷ Phase.fatal ∷ [])
valid_transitions Phase.execute = some (Phase.normalize_tool_result ∷ Phase.fatal ∷ [])
valid_transitions Phase.execute_parallel = some (Phase.normalize_tool_result ∷ Phase.fatal ∷ [])
valid_transitions Phase.normalize_tool_result = some (Phase.judge ∷ Phase.fatal ∷ [])
valid_transitions Phase.judge = some (Phase.route ∷ Phase.fatal ∷ [])
valid_transitions Phase.route = some (
    Phase.supervisor ∷ Phase.research ∷ Phase.execute ∷ Phase.execute_parallel ∷ Phase.generate
    ∷ Phase.fatal ∷ Phase.complete ∷ [])
valid_transitions Phase.generate = some (Phase.complete ∷ Phase.fatal ∷ [])
valid_transitions Phase.chat = some (Phase.complete ∷ Phase.fatal ∷ [])
valid_transitions _ = none

-- Whether `transitionToPhase` lets a transition pass with no warning.
unfoldable pub is_expected : Phase → Phase → Bool
unfolding valid_transitions
is_expected from to = elim (valid_transitions from) [
  | none ↦ true
  | some allowed ↦ some_of (phase_eq to) allowed
]

-- `{ ...updates, phase }`. No caller gives `fromPhase`, so the warning is never written.
unfoldable pub transition_to_phase : Phase → Updates → Updates
transition_to_phase phase updates = record updates { phase = put phase }

unfoldable pub begin_execution_step : PlanStep → ℕ → Updates → Updates
unfolding transition_to_phase
begin_execution_step step step_index updates = transition_to_phase Phase.execute (record updates {
  current_step = put step_index;
  selected_tool = put (some step.tool);
  tool_params = put (some step.input);
})

unfoldable pub complete_agent_run : Text → Updates → Updates
unfolding transition_to_phase
complete_agent_run final_answer updates =
    transition_to_phase Phase.complete (record updates { final_answer = put (some final_answer) })

-- No caller gives further updates.
unfoldable pub fail_agent_run : Text → Option AgentError → Updates
unfolding transition_to_phase
fail_agent_run final_answer error = transition_to_phase Phase.fatal (record no_updates {
  final_answer = put (some final_answer);
  errors = elim error [ none ↦ keep | some e ↦ put (e ∷ []) ];
})

unfoldable pub request_clarification : AgentError → Updates
unfolding transition_to_phase
request_clarification error =
    transition_to_phase Phase.clarification (record no_updates { errors = put (error ∷ []) })

unfoldable pub request_plan_review : Text → AgentState → Updates
unfolding transition_to_phase
request_plan_review session_id s = transition_to_phase Phase.await_plan_review (record no_updates {
  review_request =
      put (some (record { session_id = session_id; plan = s.plan; objective = s.objective }));
})
