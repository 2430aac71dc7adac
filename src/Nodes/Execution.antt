-- ===== src/Nodes/Execution.antt =====
-- The sequential executor: src/modules/agents/nodes/execution.node.ts.
pub mod Failures
use nest_langgraph_ai.Prelude.{
  Text, ℕ, Bool, true, false, not, ◌&&◌, ◌||◌, Option, none, some, List, [], ◌∷◌, ◌++◌, map, codes,
  decimal, join, includes, is_empty, text_eq, replace_all, or_else, if◌then◌else◌, Thrown, error,
  bubble_up, Result, ok, err,
}
use nest_langgraph_ai.Json.{Json, string, array}
use nest_langgraph_ai.Json.Coerce.{coerce_to_string_array}
use nest_langgraph_ai.State.Phase.{Phase}
use nest_langgraph_ai.State.Shape.{AgentCounters, AgentError, AgentState, ErrorCode, Params}
use nest_langgraph_ai.State.Updates.{put, Updates, no_updates}
use nest_langgraph_ai.State.Transitions.{
  default_agent_counters, increment_agent_counters, transition_to_phase,
}
use nest_langgraph_ai.Tools.{Tool, ToolRun, ToolRegistry, get_tool, get_names}
use nest_langgraph_ai.Nodes.Services.{Services}
use nest_langgraph_ai.Nodes.Placeholders.{
  previous_result, inline_content, inline_not_found, extract_inline_content,
}

-- One entry of the tool's parameters, with the mark of `resolvedFromPlaceholder`.
pub record Resolved : Type 0 where
  pub key : Text
  pub value : Json
  pub from_placeholder : Bool

abbrev truthy_text : Option Text → Bool
truthy_text none = false
truthy_text (some t) = not (is_empty t)

-- The substitution of `__PREVIOUS_RESULT__`: the text, and whether one was made.
unfoldable pub resolve_previous : Option Text → Text → Text × Bool
resolve_previous raw value =
    if includes previous_result value && truthy_text raw
    then (replace_all previous_result (or_else raw []) value, true)
    else (value, false)

-- The substitution of `__INLINE_CONTENT__`; `none` where the message holds no attached file.
unfoldable pub resolve_inline : Text → Text × Bool → Option (Text × Bool)
resolve_inline input (value, marked) =
    if includes inline_content value && not (is_empty input)
    then (if text_eq (extract_inline_content input) inline_not_found
        then none
        else some (replace_all inline_content (extract_inline_content input) value, true))
    else some (value, marked)

unfoldable pub resolve_entry : AgentState → Text → Json → Option Resolved
unfolding resolve_previous resolve_inline
resolve_entry s key (string value) =
    elim (resolve_inline s.input (resolve_previous s.tool_result_raw value)) [
      | none ↦ none
      | some (resolved, marked) ↦
          some (record { key = key; value = string resolved; from_placeholder = marked })
    ]
resolve_entry s key value = some (record { key = key; value = value; from_placeholder = false })

-- The loop over the parameters, which ends at the first that misses its inline content.
unfoldable pub resolve_params : AgentState → Params → Option (List Resolved)
unfolding resolve_entry
resolve_params s [] = some []
resolve_params s ((key, value) ∷ rest) = elim (resolve_entry s key value) [
  | none ↦ none
  | some r ↦ elim (resolve_params s rest) [ none ↦ none | some rs ↦ some (r ∷ rs) ]
]

-- The coercion of a resolved text to the array that the tool's schema declares.
unfoldable pub coerce_entry : (Text → Option Json) → Tool → Resolved → Text × Json
coerce_entry json_parse tool r = (r.key, coerced r.value)
  where
    coerced : Json → Json
    coerced (string t) =
        if r.from_placeholder && tool.is_array_field r.key
        then array (coerce_to_string_array json_parse t)
        else string t
    coerced v = v

unfoldable pub count_tool_calls : AgentCounters → ℕ → AgentCounters
unfolding increment_agent_counters
count_tool_calls counters n =
    increment_agent_counters counters (record default_agent_counters { tool_calls = n })

-- The update of every branch: a raw result, and one tool call counted.
unfoldable pub finish_step : AgentState → Text → Updates
unfolding transition_to_phase count_tool_calls
finish_step s raw = transition_to_phase Phase.normalize_tool_result (record no_updates {
  tool_result_raw = put (some raw);
  counters = put (count_tool_calls s.counters 1);
})

-- The same with a `tool_error`.
unfoldable pub fail_step : AgentState → Text → Updates
unfolding finish_step
fail_step s message =
    let u = finish_step s (codes "ERROR: " ++ message) in
    record u {
      errors = put (
          record {
            code = ErrorCode.tool_error;
            message = message;
            at_phase = Phase.execute;
            missing_capabilities = none;
          }
          ∷ []);
    }

unfoldable pub inline_missing : Text
inline_missing =
    codes
      "ERROR: __INLINE_CONTENT__ could not be resolved — no attached file block found in the user message. The plan must be revised to read the target file from disk using read_file instead of relying on inline content."

abbrev pub thrown_message : Thrown → Text
thrown_message (error m) = m
thrown_message bubble_up = codes "GraphInterrupt"

unfoldable pub failed_message : Text → Text → Text
failed_message tool message = codes "Tool \"" ++ (tool ++ (codes "\" failed: " ++ message))

unfoldable pub timed_out_message : Text → ℕ → Text
timed_out_message tool ms =
    codes "Tool \"" ++ (tool ++ (codes "\" timed out after " ++ (decimal ms ++ codes "ms")))

-- What became of the call: a result counts only if the timer had not fired.
unfoldable pub settle_run : ToolRun → Text → Result Text
unfolding timed_out_message
settle_run run timeout_message = elim run.outcome [
  | err e ↦ err e
  | ok result ↦ if run.timed_out then err (error timeout_message) else ok result
]

unfoldable pub unknown_tool_message : ToolRegistry → Text → Text
unknown_tool_message reg tool =
    codes "Unknown tool \""
    ++ (tool ++ (codes "\". Available: " ++ join (codes ", ") (get_names reg)))

-- The call of a known tool with its parameters.
unfoldable pub run_tool : Services → AgentState → Text → Tool → List Resolved → Updates
unfolding settle_run fail_step finish_step
run_tool sv s name tool resolved =
    elim (settle_run (tool.invoke (map (coerce_entry sv.json_parse tool) resolved))
      (timed_out_message name sv.env.tool_timeout_ms)) [
        | ok result ↦ finish_step s result
        | err e ↦ fail_step s (failed_message name (thrown_message e))
      ]

-- `executionNode`.
unfoldable pub execute_updates : Services → AgentState → Updates
unfolding resolve_params run_tool
execute_updates sv s = elim (resolve_params s (or_else s.tool_params [])) [
  | none ↦ finish_step s inline_missing
  | some resolved ↦ elim (get_tool sv.registry (or_else s.selected_tool [])) [
    | none ↦ fail_step s (unknown_tool_message sv.registry (or_else s.selected_tool []))
    | some tool ↦ run_tool sv s (or_else s.selected_tool []) tool resolved
  ]
]

unfoldable pub execution_node : Services → AgentState → Result Updates
unfolding execute_updates
execution_node sv s = ok (execute_updates sv s)
