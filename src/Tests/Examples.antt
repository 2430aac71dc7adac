-- ===== src/Tests/Examples.antt =====
-- The theorems at concrete inputs.
use nest_langgraph_ai.Prelude.{ℕ, ◌≡◌, refl, ◌↔◌, ◌⊎◌, some, [], arith}
use nest_langgraph_ai.Config.{get_agent_limits}
use nest_langgraph_ai.State.Phase.{Phase}
use nest_langgraph_ai.State.Shape.{AgentState, Verdict}
use nest_langgraph_ai.State.Updates.{
  put, Updates, no_updates, apply_updates, attempts_history_cap, errors_history_cap,
}
use nest_langgraph_ai.State.Initial.{create_initial_agent_run_state}
use nest_langgraph_ai.State.Bounds.{
  IsBounded, KeepsLatest, apply_updates-IsBounded, create_initial_agent_run_state-keeps_histories,
}
use nest_langgraph_ai.Nodes.Services.{Services}
use nest_langgraph_ai.Router.{handle_complete, advance_to_next_step, is_last_step}
use nest_langgraph_ai.Router.Limits.{IsBelow}
use nest_langgraph_ai.Router.Dispatch.{handle_complete-advance_to_next_step}
use nest_langgraph_ai.Router.Decisions.{
  routed, IsFatalDecision, IsWithin, decision_router_node-fatal_iff, decision_router_node-IsWithin,
}
use nest_langgraph_ai.Topology.{end, resolve_router_target}
use nest_langgraph_ai.Topology.Routes.{Resumes, resolve_router_target-total}
use nest_langgraph_ai.Tests.Samples.{
  sample_env, sample_services, sample_state, sample_decision, sample_options,
}

abbrev always : ℕ → Services
always k = sample_services

abbrev judged : AgentState
judged = record sample_state { critic_decision = some (sample_decision Verdict.advance) }

pub sample-IsBelow : IsBelow sample_state.counters (get_agent_limits sample_env)
unfolding get_agent_limits
sample-IsBelow = record {
  turn = omega arith;
  tool_calls = omega arith;
  replans = omega arith;
  step_retries = omega arith;
  supervisor_fallbacks = omega arith;
}

decision_router_node-fatal_iff_example : ((routed sample_env judged).phase ≡ Phase.fatal) ↔ (
    (¬ IsBelow judged.counters (get_agent_limits sample_env))
    ⊎ IsFatalDecision judged.critic_decision)
decision_router_node-fatal_iff_example = decision_router_node-fatal_iff sample_env judged refl

sample-IsWithin : IsWithin sample_state.counters (get_agent_limits sample_env)
unfolding get_agent_limits
sample-IsWithin = record {
  turn = omega arith;
  tool_calls = omega arith;
  replans = omega arith;
  step_retries = omega arith;
  supervisor_fallbacks = omega arith;
}

decision_router_node-IsWithin_example :
    IsWithin (routed sample_env judged).counters (get_agent_limits sample_env)
decision_router_node-IsWithin_example =
    decision_router_node-IsWithin sample_env judged sample-IsWithin

handle_complete-advance_to_next_step_example :
    handle_complete sample_state.plan 2 (is_last_step sample_state.plan 2)
    ≡ advance_to_next_step sample_state.plan 2
handle_complete-advance_to_next_step_example =
    handle_complete-advance_to_next_step sample_state.plan 2

resolve_router_target-total_example :
    ((resolve_router_target Phase.research ≡ end) ↔ (Phase.research ≡ Phase.complete))
    × Resumes (resolve_router_target Phase.research)
resolve_router_target-total_example = resolve_router_target-total Phase.research

sample-IsBounded : IsBounded sample_state
sample-IsBounded = record { attempts = omega arith; errors = omega arith }

abbrev no_attempts : Updates
no_attempts = record no_updates { attempts = put [] }

apply_updates-IsBounded_example :
    IsBounded (apply_updates sample_state no_attempts)
    × KeepsLatest attempts_history_cap sample_state.attempts
        (put [])
        (apply_updates sample_state no_attempts).attempts
    × KeepsLatest errors_history_cap sample_state.errors no_attempts.errors
        (apply_updates sample_state no_attempts).errors
apply_updates-IsBounded_example = apply_updates-IsBounded sample_state no_attempts sample-IsBounded

create_initial_agent_run_state-keeps_histories_example :
    ((apply_updates sample_state (create_initial_agent_run_state [] sample_options)).attempts ≡ [])
    × ((apply_updates sample_state (create_initial_agent_run_state [] sample_options)).errors ≡ [])
create_initial_agent_run_state-keeps_histories_example =
    create_initial_agent_run_state-keeps_histories sample_state [] sample_options sample-IsBounded
