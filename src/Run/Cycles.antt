-- ===== src/Run/Cycles.antt =====
-- Every cycle makes progress.
use nest_langgraph_ai.Prelude.{◌≡◌, refl, inl, inr, true, false, none, Bool-cases, arith}
use nest_langgraph_ai.State.Phase.{Phase}
use nest_langgraph_ai.State.Shape.{AgentState}
use nest_langgraph_ai.Nodes.Services.{Services}
use nest_langgraph_ai.Nodes.Planning.{await_plan_review_node}
use nest_langgraph_ai.Router.{is_terminal}
use nest_langgraph_ai.Topology.{
  NodeName, raw_handler, safe_node_handler, node_handler, resolve_router_target,
}
use nest_langgraph_ai.Run.Measure.{measure}
use nest_langgraph_ai.Run.Effects.{
  planner-Effect, supervisor-Effect, chat-Effect, generator-Effect, normalizer-Effect,
  execution-Effect, parallel-Effect, validator-Effect,
}
use nest_langgraph_ai.Run.Routing.{IsSettled}
use nest_langgraph_ai.Run.{node_cycle, to_target, cycle}
use nest_langgraph_ai.Run.Progress.{turns_of, Progress}
use nest_langgraph_ai.Run.Judged.{
  critic-Progress, research-Progress, join-Effect, phase-Progress, terminal-Progress,
}

-- One cycle in a phase that is not terminal.
open_cycle-Progress :
    (sv : Services) (s : AgentState) (p : Phase)
    → s.critic_decision ≡ none
    → s.phase ≡ p
    → is_terminal p ≡ false
    → Progress (turns_of sv) (measure (turns_of sv) s) (to_target sv s (resolve_router_target p))
unfolding resolve_router_target node_cycle raw_handler await_plan_review_node safe_node_handler
    node_handler
open_cycle-Progress sv s Phase.supervisor u e o =
    phase-Progress sv NodeName.supervisor s Phase.supervisor u e (omega arith)
      (supervisor-Effect sv s (rw e (omega arith)))
open_cycle-Progress sv s Phase.plan u e o =
    phase-Progress sv NodeName.planner s Phase.plan u e (omega arith) (planner-Effect sv s e)
open_cycle-Progress sv s Phase.validate_plan u e o =
    phase-Progress sv NodeName.plan_validator s Phase.validate_plan u e (omega arith)
      (validator-Effect sv s e)
open_cycle-Progress sv s Phase.execute u e o =
    phase-Progress sv NodeName.execute s Phase.execute u e (omega arith) (execution-Effect sv s e)
open_cycle-Progress sv s Phase.execute_parallel u e o =
    phase-Progress sv NodeName.execute_parallel s Phase.execute_parallel u e (omega arith)
      (parallel-Effect sv s e)
open_cycle-Progress sv s Phase.normalize_tool_result u e o =
    phase-Progress sv NodeName.tool_result_normalizer s Phase.normalize_tool_result u e
      (omega arith) (normalizer-Effect sv s e)
open_cycle-Progress sv s Phase.generate u e o =
    phase-Progress sv NodeName.generator s Phase.generate u e (omega arith)
      (generator-Effect sv s e)
open_cycle-Progress sv s Phase.chat u e o =
    phase-Progress sv NodeName.chat s Phase.chat u e (omega arith) (chat-Effect sv s e)
open_cycle-Progress sv s Phase.research u e o = research-Progress sv s u e
open_cycle-Progress sv s Phase.research_join u e o =
    phase-Progress sv NodeName.research_join s Phase.research_join u e (omega arith)
      (join-Effect s e)
open_cycle-Progress sv s Phase.judge u e o = critic-Progress sv s u e
open_cycle-Progress sv s Phase.await_plan_review u e o = tt
open_cycle-Progress sv s Phase.clarification u e o = terminal-Progress sv s (rw e (omega arith))
open_cycle-Progress sv s Phase.fatal_recovery u e o = terminal-Progress sv s (rw e (omega arith))
open_cycle-Progress sv s Phase.route u e o =
    phase-Progress sv NodeName.supervisor s Phase.route u e (omega arith)
      (supervisor-Effect sv s (rw e (omega arith)))
open_cycle-Progress sv s Phase.complete u e o = absurd (cc)
open_cycle-Progress sv s Phase.fatal u e o = absurd (cc)

-- At the end of a run the graph stops, or the terminal node runs.
closed_cycle-Progress :
    (sv : Services) (s : AgentState) (p : Phase)
    → s.phase ≡ p
    → is_terminal p ≡ true
    → Progress (turns_of sv) (measure (turns_of sv) s) (to_target sv s (resolve_router_target p))
unfolding resolve_router_target node_cycle
closed_cycle-Progress sv s Phase.complete e t = e
closed_cycle-Progress sv s Phase.fatal e t = terminal-Progress sv s (rw e (omega arith))
closed_cycle-Progress sv s _ e t = absurd (cc)

pub cycle-Progress :
    (sv : Services) (s : AgentState)
    → IsSettled s
    → Progress (turns_of sv) (measure (turns_of sv) s) (cycle sv s)
unfolding cycle
cycle-Progress sv s h = elim (Bool-cases (is_terminal s.phase)) [
  | inl t ↦ closed_cycle-Progress sv s s.phase refl t
  | inr f ↦ open_cycle-Progress sv s s.phase (undecided h f) refl f
]
  where
    undecided : IsSettled s → is_terminal s.phase ≡ false → s.critic_decision ≡ none
    undecided (inl t) f = absurd (cc)
    undecided (inr u) f = u
