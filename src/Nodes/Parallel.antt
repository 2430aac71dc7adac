-- ===== src/Nodes/Parallel.antt =====
-- The parallel executor: src/modules/agents/nodes/parallel-execution.node.ts. The calls of a group
-- are independent of one another, so the order in which they settle does not show in the results.
pub mod Steps
pub mod Grouping
use nest_langgraph_ai.Prelude.{
  Text, ℕ, zero, suc, ◌+◌, ◌-◌, Bool, true, false, not, ◌&&◌, ◌||◌, Option, none, some, List, [],
  ◌∷◌, ◌++◌, map, codes, decimal, includes, is_empty, text_eq, replace_all, or_else, if◌then◌else◌,
  ◌==◌, length, drop, get_elem?, keep_if, Thrown, error, Result, ok, err, ◌>>=◌,
}
use nest_langgraph_ai.Config.{max_parallel_tools}
use nest_langgraph_ai.Json.{Json, string}
use nest_langgraph_ai.State.Phase.{Phase}
use nest_langgraph_ai.State.Shape.{PlanStep, AgentError, AgentState, ErrorCode, Params}
use nest_langgraph_ai.State.Updates.{put, Updates, no_updates}
use nest_langgraph_ai.State.Transitions.{transition_to_phase}
use nest_langgraph_ai.Tools.{Tool, get_tool}
use nest_langgraph_ai.Nodes.Services.{Services, ParallelStepResult}
use nest_langgraph_ai.Nodes.Placeholders.{
  previous_result, inline_content, inline_not_found, extract_inline_content,
}
use nest_langgraph_ai.Nodes.Execution.{
  Resolved, coerce_entry, count_tool_calls, thrown_message, failed_message, timed_out_message,
  unknown_tool_message,
}

-- `a === b` on `parallel_group`.
abbrev pub same_group : Option ℕ → Option ℕ → Bool
same_group none none = true
same_group none (some h) = false
same_group (some g) none = false
same_group (some g) (some h) = g == h

-- The loop that collects the group: steps in a row with its id, at most `room` of them.
unfoldable pub collect_group : Option ℕ → ℕ → List PlanStep → List PlanStep
collect_group g zero steps = []
collect_group g (suc room) [] = []
collect_group g (suc room) (step ∷ steps) =
    if same_group step.parallel_group g then step ∷ collect_group g room steps else []

-- How the substitution in one step ends: an early result, or a value.
pub data Substituted : Type 0 where
  inline_absent : Substituted
  substituted : List Resolved → Substituted

abbrev filled : Option Text → Bool
filled none = false
filled (some t) = not (is_empty t)

-- `__PREVIOUS_RESULT__` with no result before it throws.
unfoldable pub substitute_previous : AgentState → PlanStep → Text → Result (Text × Bool)
substitute_previous s step value =
    if includes previous_result value
    then (if filled s.tool_result_raw
        then ok (replace_all previous_result (or_else s.tool_result_raw []) value, true)
        else err (
            error (
              codes "Step "
              ++ (decimal step.step_id
                  ++ codes " references __PREVIOUS_RESULT__ but no prior result exists."))))
    else ok (value, false)

unfoldable pub substitute_inline : AgentState → Text × Bool → Option (Text × Bool)
substitute_inline s (value, marked) =
    if includes inline_content value
    then (if text_eq (extract_inline_content s.input) inline_not_found
        then none
        else some (replace_all inline_content (extract_inline_content s.input) value, true))
    else some (value, marked)

unfoldable pub substitute_value : AgentState → PlanStep → Text → Json → Result (Option Resolved)
unfolding substitute_previous substitute_inline
substitute_value s step key (string value) = substitute_previous s step value >>= λ v.
    ok (elim (substitute_inline s v) [
      | none ↦ none
      | some (t, marked) ↦ some (record { key = key; value = string t; from_placeholder = marked })
    ])
substitute_value s step key value =
    ok (some (record { key = key; value = value; from_placeholder = false }))

abbrev add_resolved : Resolved → Substituted → Substituted
add_resolved r inline_absent = inline_absent
add_resolved r (substituted rs) = substituted (r ∷ rs)

unfoldable pub substitute_params : AgentState → PlanStep → Params → Result Substituted
unfolding substitute_value
substitute_params s step [] = ok (substituted [])
substitute_params s step ((key, value) ∷ rest) = elim (substitute_value s step key value) [
  | err e ↦ err e
  | ok none ↦ ok inline_absent
  | ok (some r) ↦ elim (substitute_params s step rest) [
    | err e ↦ err e
    | ok more ↦ ok (add_resolved r more)
  ]
]

unfoldable pub step_result : PlanStep → Text → Bool → ParallelStepResult
step_result step result success = record {
  step_id = step.step_id;
  tool = step.tool;
  result = result;
  success = success;
}

unfoldable pub failed_result : PlanStep → Text → ParallelStepResult
unfolding step_result
failed_result step message = step_result step (codes "ERROR: " ++ message) false

-- The call of a known tool. An error that the tool throws is told before the timer is asked.
unfoldable pub invoke_step : Services → PlanStep → Tool → List Resolved → ParallelStepResult
unfolding failed_result
invoke_step sv step tool resolved =
    let run = tool.invoke (map (coerce_entry sv.json_parse tool) resolved) in
    elim run.outcome [
      | err e ↦ failed_result step (failed_message step.tool (thrown_message e))
      | ok result ↦
          if run.timed_out
          then failed_result step (timed_out_message step.tool sv.env.tool_timeout_ms)
          else step_result step result true
    ]

unfoldable pub inline_absent_text : Text
inline_absent_text =
    codes
      "ERROR: __INLINE_CONTENT__ could not be resolved — no attached file block found in the user message."

-- The body of the callback.
unfoldable pub run_step : Services → AgentState → PlanStep → Result ParallelStepResult
unfolding substitute_params invoke_step
run_step sv s step = substitute_params s step step.input >>= λ sub. ok (elim sub [
  | inline_absent ↦ step_result step inline_absent_text false
  | substituted resolved ↦ elim (get_tool sv.registry step.tool) [
    | none ↦ failed_result step (unknown_tool_message sv.registry step.tool)
    | some tool ↦ invoke_step sv step tool resolved
  ]
])

-- One entry of the settled results.
unfoldable pub settle_step : Services → AgentState → PlanStep → ParallelStepResult
unfolding run_step
settle_step sv s step = elim (run_step sv s step) [
  | ok r ↦ r
  | err e ↦ failed_result step (failed_message step.tool (thrown_message e))
]

-- The errors of the steps that failed.
unfoldable pub step_errors : List ParallelStepResult → List AgentError
step_errors results =
    map
      (λ r. record {
        code = ErrorCode.tool_error;
        message = r.result;
        at_phase = Phase.execute_parallel;
        missing_capabilities = none;
      })
      (keep_if (λ r. not r.success) results)

unfoldable pub group_updates : Services → AgentState → List PlanStep → Updates
unfolding settle_step step_errors transition_to_phase count_tool_calls
group_updates sv s group =
    let results = map (settle_step sv s) group in
    transition_to_phase Phase.normalize_tool_result (record no_updates {
      tool_result_raw = put (some (sv.stringify_results results));
      parallel_result = put (some true);
      current_step = put (s.current_step + length group - 1);
      counters = put (count_tool_calls s.counters (length group));
      errors = put (step_errors results);
    })

-- `parallelExecutionNode`.
unfoldable pub parallel_updates : Services → AgentState → Updates
unfolding group_updates collect_group
parallel_updates sv s = elim (get_elem? s.plan s.current_step) [
  | none ↦ transition_to_phase Phase.normalize_tool_result (record no_updates {
    tool_result_raw = put (some (sv.stringify_results []));
    parallel_result = put (some false);
    counters = put (count_tool_calls s.counters 0);
  })
  | some first_step ↦
      group_updates sv s
        (collect_group first_step.parallel_group max_parallel_tools (drop s.current_step s.plan))
]

unfoldable pub parallel_execution_node : Services → AgentState → Result Updates
unfolding parallel_updates
parallel_execution_node sv s = ok (parallel_updates sv s)
