-- ===== src/Topology/Routes.antt =====
-- What the graph of src/modules/agents/graph promises: the router's targets and the edges back to it.
use nest_langgraph_ai.Prelude.{ℕ, ◌≡◌, refl, ◌↔◌, some, get_elem?}
use nest_langgraph_ai.State.Phase.{Phase}
use nest_langgraph_ai.Topology.{NodeName, Target, end, node, resolve_router_target, graph_edges}

-- An edge of the graph.
abbrev HasEdge : NodeName → Target → Type 0
HasEdge n t = (i : ℕ) × (get_elem? graph_edges i ≡ some (n, t))

-- Along the static edges the router is reached from a node.
pub data Returns : NodeName → Type 0 where
  direct : (n : NodeName) → HasEdge n (node NodeName.router) → Returns n
  via : (n m : NodeName) → HasEdge n (node m) → Returns m → Returns n

-- The run ends, or the target leads back to the router.
abbrev pub Resumes : Target → Type 0
Resumes end = Unit
Resumes (node n) = Returns n

resolve_router_target-Resumes : (p : Phase) → Resumes (resolve_router_target p)
unfolding resolve_router_target graph_edges
resolve_router_target-Resumes Phase.supervisor = direct NodeName.supervisor (0, refl)
resolve_router_target-Resumes Phase.research =
    via NodeName.researcher_coordinator NodeName.research_fs (11, refl)
      (via NodeName.research_fs NodeName.research_join (13, refl)
        (direct NodeName.research_join (1, refl)))
resolve_router_target-Resumes Phase.research_join = direct NodeName.research_join (1, refl)
resolve_router_target-Resumes Phase.plan = direct NodeName.planner (2, refl)
resolve_router_target-Resumes Phase.validate_plan = direct NodeName.plan_validator (3, refl)
resolve_router_target-Resumes Phase.await_plan_review = direct NodeName.await_plan_review (4, refl)
resolve_router_target-Resumes Phase.execute = direct NodeName.execute (5, refl)
resolve_router_target-Resumes Phase.execute_parallel = direct NodeName.execute_parallel (6, refl)
resolve_router_target-Resumes Phase.normalize_tool_result =
    direct NodeName.tool_result_normalizer (7, refl)
resolve_router_target-Resumes Phase.judge = direct NodeName.critic (8, refl)
resolve_router_target-Resumes Phase.generate = direct NodeName.generator (15, refl)
resolve_router_target-Resumes Phase.route = direct NodeName.supervisor (0, refl)
resolve_router_target-Resumes Phase.chat = direct NodeName.chat (9, refl)
resolve_router_target-Resumes Phase.complete = tt
resolve_router_target-Resumes Phase.fatal = direct NodeName.terminal_response (10, refl)
resolve_router_target-Resumes Phase.fatal_recovery = direct NodeName.terminal_response (10, refl)
resolve_router_target-Resumes Phase.clarification = direct NodeName.terminal_response (10, refl)

resolve_router_target-end_iff : (p : Phase) → (resolve_router_target p ≡ end) ↔ (p ≡ Phase.complete)
unfolding resolve_router_target
resolve_router_target-end_iff Phase.supervisor = (λ h. absurd (cc), λ h. absurd (cc))
resolve_router_target-end_iff Phase.research = (λ h. absurd (cc), λ h. absurd (cc))
resolve_router_target-end_iff Phase.research_join = (λ h. absurd (cc), λ h. absurd (cc))
resolve_router_target-end_iff Phase.plan = (λ h. absurd (cc), λ h. absurd (cc))
resolve_router_target-end_iff Phase.validate_plan = (λ h. absurd (cc), λ h. absurd (cc))
resolve_router_target-end_iff Phase.await_plan_review = (λ h. absurd (cc), λ h. absurd (cc))
resolve_router_target-end_iff Phase.execute = (λ h. absurd (cc), λ h. absurd (cc))
resolve_router_target-end_iff Phase.execute_parallel = (λ h. absurd (cc), λ h. absurd (cc))
resolve_router_target-end_iff Phase.normalize_tool_result = (λ h. absurd (cc), λ h. absurd (cc))
resolve_router_target-end_iff Phase.judge = (λ h. absurd (cc), λ h. absurd (cc))
resolve_router_target-end_iff Phase.generate = (λ h. absurd (cc), λ h. absurd (cc))
resolve_router_target-end_iff Phase.route = (λ h. absurd (cc), λ h. absurd (cc))
resolve_router_target-end_iff Phase.chat = (λ h. absurd (cc), λ h. absurd (cc))
resolve_router_target-end_iff Phase.complete = (λ h. refl, λ h. refl)
resolve_router_target-end_iff Phase.fatal = (λ h. absurd (cc), λ h. absurd (cc))
resolve_router_target-end_iff Phase.fatal_recovery = (λ h. absurd (cc), λ h. absurd (cc))
resolve_router_target-end_iff Phase.clarification = (λ h. absurd (cc), λ h. absurd (cc))

-- The router's exit ends the run exactly in the phase `complete`, and in every other phase it goes to
-- a node from which the static edges lead back to the router.
pub resolve_router_target-total :
    (p : Phase)
    → ((resolve_router_target p ≡ end) ↔ (p ≡ Phase.complete)) × Resumes (resolve_router_target p)
resolve_router_target-total p = (resolve_router_target-end_iff p, resolve_router_target-Resumes p)
