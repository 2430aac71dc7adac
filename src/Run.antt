-- ===== src/Run.antt =====
-- A run of the graph, as LangGraph runs the edges of src/modules/agents/graph/agent.graph.ts: a
-- node, or the two research branches and their join, and then the router. One such round is a
-- cycle. The services may answer differently in every cycle.
pub mod Measure
pub mod Effects
pub mod Routing
pub mod Progress
pub mod Judged
pub mod Cycles
pub mod Pauses
pub mod Termination
pub mod Escalation
use nest_langgraph_ai.Prelude.{
  ℕ, zero, suc, ◌-◌, leb, Bool, true, false, Option, none, some, Thrown, Result, ok, err,
}
use nest_langgraph_ai.State.Phase.{Phase}
use nest_langgraph_ai.State.Shape.{AgentState}
use nest_langgraph_ai.State.Updates.{Updates, apply_updates}
use nest_langgraph_ai.Nodes.Services.{Services}
use nest_langgraph_ai.Topology.{NodeName, node_handler, Target, end, node, resolve_router_target}

-- Behind a cycle the run is over, interrupted by a node, or goes on.
pub data Outcome : Type 0 where
  completed paused running : AgentState → Outcome

-- What a node's result makes of the state; a handler throws nothing but the interrupt of the graph,
-- which leaves the state as it is.
abbrev pub after {ℓ} :
    {A : Type ℓ} → Result Updates → AgentState → (AgentState → A) → (AgentState → A) → A
after (ok u) s continue pause = continue (apply_updates s u)
after (err e) s continue pause = pause s

-- The router behind a node.
unfoldable pub route_from : Services → AgentState → Outcome
route_from sv s = after (node_handler sv false NodeName.router s) s running paused

-- The fan-out: both branches read the state that the coordinator left, both updates are applied, and
-- the join runs behind them.
unfoldable pub research_cycle : Services → AgentState → Outcome
unfolding route_from
research_cycle sv s =
    after (node_handler sv false NodeName.researcher_coordinator s) s
      (λ s0.
        after (node_handler sv false NodeName.research_fs s0) s0
          (λ s1.
            after (node_handler sv false NodeName.research_vector s0) s1
              (λ s2.
                after (node_handler sv false NodeName.research_join s2) s2 (route_from sv) paused)
              paused)
          paused)
      paused

unfoldable pub node_cycle : Services → NodeName → AgentState → Outcome
unfolding route_from research_cycle
node_cycle sv NodeName.researcher_coordinator s = research_cycle sv s
node_cycle sv n s = after (node_handler sv false n s) s (route_from sv) paused

abbrev pub to_target : Services → AgentState → Target → Outcome
to_target sv s end = completed s
to_target sv s (node n) = node_cycle sv n s

-- One cycle, from the router's exit. `memory_persist`, which runs beside the router behind the
-- generator, returns no updates.
unfoldable pub cycle : Services → AgentState → Outcome
unfolding node_cycle
cycle sv s = to_target sv s (resolve_router_target s.phase)

-- `recursionLimit` of the graph's configuration, in src/modules/agents/agents.service.ts and
-- src/modules/agents/services/plan-review.service.ts.
abbrev pub recursion_limit : ℕ
recursion_limit = 200

-- The supersteps of LangGraph in the cycle of a phase: the node and the router, or the coordinator,
-- both branches at once, the join and the router.
abbrev pub supersteps_to : Target → ℕ
supersteps_to end = 0
supersteps_to (node NodeName.researcher_coordinator) = 4
supersteps_to (node n) = 2

unfoldable pub supersteps : Phase → ℕ
unfolding resolve_router_target
supersteps p = supersteps_to (resolve_router_target p)

-- How LangGraph ends a run: finished, interrupted, or with a `GraphRecursionError` when another
-- superstep would go beyond the limit.
pub data RunEnd : Type 0 where
  finished interrupted out_of_steps : AgentState → RunEnd

-- The cycles of a run, numbered by the fuel that is left, with the supersteps that are left; `none`
-- means that the fuel ran out.
unfoldable pub run : (ℕ → Services) → (limit fuel : ℕ) → AgentState → Option RunEnd
unfolding cycle supersteps
run services limit zero s = none
run services limit (suc fuel) s = elim (cycle (services fuel) s) [
  | completed s' ↦ some (finished s')
  | paused s' ↦ some (elim (leb 1 limit) [ true ↦ interrupted s' | false ↦ out_of_steps s ])
  | running s' ↦ elim (leb (supersteps s.phase) limit) [
    | true ↦ run services (limit - supersteps s.phase) fuel s'
    | false ↦ some (out_of_steps s)
  ]
]
