-- ===== src/Nodes/Normalizing.antt =====
-- From raw output to an envelope: src/modules/agents/nodes/tool-result-normalizer.node.ts.
pub mod Verdicts
use nest_langgraph_ai.Prelude.{
  Text, ℕ, ◌-◌, Bool, true, false, not, Option, none, some, List, [], ◌∷◌, ◌++◌, map, codes,
  decimal, join, take, length, keep_if, is_empty, or_else, if◌then◌else◌, Result, ok,
}
use nest_langgraph_ai.Config.{raw_result_max_bytes}
use nest_langgraph_ai.State.Phase.{Phase}
use nest_langgraph_ai.State.Shape.{AgentState, ToolResult, Attempt}
use nest_langgraph_ai.State.Updates.{put, Updates, no_updates}
use nest_langgraph_ai.State.Transitions.{transition_to_phase}
use nest_langgraph_ai.Tools.Envelope.{to_tool_result}
use nest_langgraph_ai.Nodes.Services.{Services, ParallelStepResult}

unfoldable pub summary_line : ParallelStepResult → Text
summary_line r =
    codes "[Step "
    ++ (decimal r.step_id
        ++ (codes " – "
            ++ (r.tool
                ++ (codes "] "
                    ++ ((if r.success then codes "OK" else codes "FAILED")
                        ++ (codes ": " ++ take 300 r.result))))))

-- `summaryText` of a group's results.
unfoldable pub summary_text : List ParallelStepResult → Text
unfolding summary_line
summary_text results =
    let succeeded = length (keep_if (λ r. r.success) results) in
    join (10 ∷ []) (
      (codes "Parallel execution: "
        ++ (decimal (length results)
            ++ (codes " steps, "
                ++ (decimal succeeded
                    ++ (codes " succeeded, "
                        ++ (decimal (length results - succeeded) ++ codes " failed."))))))
      ∷ map summary_line results)

unfoldable pub envelope : Services → Text → Text → ToolResult
envelope sv tool raw =
    to_tool_result sv.json_parse sv.stringify_pretty tool raw sv.env.critic_result_max_chars
      raw_result_max_bytes

-- The update of both branches.
unfoldable pub judge_result : ToolResult → List Attempt → Updates
unfolding transition_to_phase
judge_result result attempts = transition_to_phase Phase.judge (record no_updates {
  tool_result = put (some result);
  parallel_result = put (some false);
  attempts = put attempts;
})

unfoldable pub attempt_of : AgentState → Text → ToolResult → Attempt
attempt_of s tool result = record {
  tool = tool;
  step = s.current_step;
  params = or_else s.tool_params [];
  result = result;
  replan_generation = some s.counters.replans;
}

-- The branch of a parallel group.
unfoldable pub normalize_parallel : Services → AgentState → List ParallelStepResult → Updates
unfolding envelope judge_result attempt_of
normalize_parallel sv s results =
    let result = envelope sv (codes "parallel_execution") (summary_text results) in
    let attempt = attempt_of s (codes "parallel_execution") result in
    judge_result result (record attempt { params = [] } ∷ [])

-- `state.selectedTool ? [attempt] : []`.
unfoldable pub attempts_of : AgentState → Option Text → ToolResult → List Attempt
attempts_of s none result = []
attempts_of s (some tool) result = if is_empty tool then [] else attempt_of s tool result ∷ []

-- The branch of one result.
unfoldable pub normalize_single : Services → AgentState → Updates
unfolding envelope judge_result attempts_of
normalize_single sv s =
    let result =
      envelope sv (or_else s.selected_tool (codes "unknown")) (or_else s.tool_result_raw []) in
    judge_result result (attempts_of s s.selected_tool result)

-- The results of a parallel group, where the flag is set and the raw text is one.
unfoldable pub parallel_results : Services → AgentState → Option (List ParallelStepResult)
parallel_results sv s = elim s.parallel_result [
  | some true ↦ elim s.tool_result_raw [
    | none ↦ none
    | some raw ↦ if is_empty raw then none else sv.parse_results raw
  ]
  | some false ↦ none
  | none ↦ none
]

-- `toolResultNormalizerNode`.
unfoldable pub normalize_updates : Services → AgentState → Updates
unfolding parallel_results normalize_parallel normalize_single
normalize_updates sv s = elim (parallel_results sv s) [
  | some results ↦ normalize_parallel sv s results
  | none ↦ normalize_single sv s
]

unfoldable pub tool_result_normalizer_node : Services → AgentState → Result Updates
unfolding normalize_updates
tool_result_normalizer_node sv s = ok (normalize_updates sv s)
