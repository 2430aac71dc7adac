-- ===== src/Run/Pauses.antt =====
-- A run pauses only where a node's handler throws `GraphBubbleUp`, which is how `interrupt` pauses a
-- graph; every other error becomes a fatal update
-- (`safeNodeHandler` of src/modules/agents/graph/agent-topology.ts).
use nest_langgraph_ai.Prelude.{
  ◌≡◌, ap, ◌∙◌, inl, inr, false, error, bubble_up, Thrown, Result, Result-cases, ok, err,
}
use nest_langgraph_ai.State.Shape.{AgentState}
use nest_langgraph_ai.State.Updates.{Updates, apply_updates}
use nest_langgraph_ai.Nodes.Services.{Services}
use nest_langgraph_ai.Topology.{
  NodeName, Target, end, node, safe_node_handler, raw_handler, node_handler, resolve_router_target,
}
use nest_langgraph_ai.Run.Judged.{joined, research_cycle-joined}
use nest_langgraph_ai.Run.{
  Outcome, paused, running, after, route_from, research_cycle, node_cycle, to_target, cycle,
}

-- A node interrupts the graph in this state.
abbrev pub Interrupts : Services → AgentState → Type 0
Interrupts sv s = (n : NodeName) × (node_handler sv false n s ≡ err bubble_up)

abbrev pub PausesOnly : Services → Outcome → Type 0
PausesOnly sv (paused t) = Interrupts sv t
PausesOnly sv _ = Unit

safe-bubble_up :
    (n : NodeName) (s : AgentState) (r : Result Updates) (e : Thrown)
    → safe_node_handler n s r ≡ err e
    → e ≡ bubble_up
unfolding safe_node_handler
safe-bubble_up n s (ok u) e h = cc
safe-bubble_up n s (err bubble_up) e h = cc
safe-bubble_up n s (err (error m)) e h = cc

module _ (sv : Services) where
  node-bubble_up :
      (n : NodeName) (s : AgentState) (thrown : Thrown)
      → node_handler sv false n s ≡ err thrown
      → thrown ≡ bubble_up
  unfolding node_handler
  node-bubble_up n s thrown e = safe-bubble_up n s (raw_handler sv false n s) thrown e

  node-PausesOnly :
      (n : NodeName) (s : AgentState) (continue : AgentState → Outcome)
      → ((t : AgentState) → PausesOnly sv (continue t))
      → PausesOnly sv (after (node_handler sv false n s) s continue paused)
  node-PausesOnly n s continue rest = elim (Result-cases (node_handler sv false n s)) [
    | inl (u, e) ↦ rw e (rest (apply_updates s u))
    | inr (thrown, e) ↦ rw e (n, e ∙ ap (λ x. err x) (node-bubble_up n s thrown e))
  ]

  route_from-PausesOnly : (s : AgentState) → PausesOnly sv (route_from sv s)
  unfolding route_from
  route_from-PausesOnly s = node-PausesOnly NodeName.router s running (λ t. tt)

  research_cycle-PausesOnly : (s : AgentState) → PausesOnly sv (research_cycle sv s)
  research_cycle-PausesOnly s =
      rw (research_cycle-joined sv s) (route_from-PausesOnly (joined sv s))

  node_cycle-PausesOnly : (n : NodeName) (s : AgentState) → PausesOnly sv (node_cycle sv n s)
  unfolding node_cycle
  node_cycle-PausesOnly NodeName.researcher_coordinator s = research_cycle-PausesOnly s
  node_cycle-PausesOnly n s = node-PausesOnly n s _ route_from-PausesOnly

  to_target-PausesOnly : (s : AgentState) (t : Target) → PausesOnly sv (to_target sv s t)
  to_target-PausesOnly s end = tt
  to_target-PausesOnly s (node n) = node_cycle-PausesOnly n s

  pub cycle-PausesOnly : (s : AgentState) → PausesOnly sv (cycle sv s)
  unfolding cycle
  cycle-PausesOnly s = to_target-PausesOnly s (resolve_router_target s.phase)
