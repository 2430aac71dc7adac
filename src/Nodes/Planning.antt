-- ===== src/Nodes/Planning.antt =====
-- The planner and the small nodes around research: planner.node.ts, researcher-coordinator.node.ts,
-- research-join.node.ts, await-plan-review.node.ts.
use nest_langgraph_ai.Prelude.{
  Text, Bool, true, false, none, some, List, [], ◌∷◌, codes, Result, ok, err, bubble_up, ◌>>=◌,
}
use nest_langgraph_ai.State.Phase.{Phase}
use nest_langgraph_ai.State.Shape.{PlanStep, AgentState}
use nest_langgraph_ai.State.Updates.{put, Updates, no_updates}
use nest_langgraph_ai.State.Transitions.{transition_to_phase, fail_agent_run}
use nest_langgraph_ai.Nodes.Services.{Services, PlannerOutput}
use nest_langgraph_ai.Nodes.Repair.{parse_with_repair}

unfoldable pub planner_schema_text : Text
planner_schema_text =
    codes
      "{\"objective\":\"string\",\"steps\":[{\"step_id\":1,\"description\":\"string\",\"tool\":\"tool_name\",\"input\":{}}],\"expected_result\":\"string\"}"

-- The end of `plannerNode`, by the steps of the parsed plan.
unfoldable pub accept_plan : PlannerOutput → List PlanStep → Updates
unfolding transition_to_phase fail_agent_run
accept_plan p [] = fail_agent_run (codes "Failed to create an execution plan.") none
accept_plan p (first_step ∷ more) = transition_to_phase Phase.validate_plan (record no_updates {
  plan = put (first_step ∷ more);
  current_step = put 0;
  selected_tool = put (some first_step.tool);
  tool_params = put (some first_step.input);
  expected_result = put (some p.expected_result);
  objective = put (some p.objective);
  replan_context = put none;
})

-- `plannerNode`.
unfoldable pub planner_node : Services → AgentState → Result Updates
unfolding accept_plan
planner_node sv s = do
  raw ← sv.invoke_llm (sv.planner_prompt s)
  p ← parse_with_repair sv sv.planner_shape planner_schema_text raw
  ok (accept_plan p p.steps)

-- `researcherCoordinatorNode`.
unfoldable pub researcher_coordinator_node : AgentState → Result Updates
researcher_coordinator_node s = ok no_updates

-- `researchJoinNode`.
unfoldable pub research_join_node : AgentState → Result Updates
unfolding transition_to_phase
research_join_node s = ok (transition_to_phase Phase.plan no_updates)

-- `awaitPlanReviewNode`: `interrupt` throws to pause the graph, and returns when the graph is
-- resumed.
unfoldable pub await_plan_review_node : (resumed : Bool) → AgentState → Result Updates
await_plan_review_node true s = ok no_updates
await_plan_review_node false s = err bubble_up
