-- ===== src/Tests/Scenarios.antt =====
-- The theorems on plans, executions and results at concrete inputs.
use nest_langgraph_ai.Prelude.{
  Text, ◌≤◌, ◌≡◌, ◌↔◌, refl, true, false, Option, none, some, List, [], ◌∷◌, length, codes, text_eq,
  lookup, insert, has, ok, error,
}
use nest_langgraph_ai.State.Phase.{Phase}
use nest_langgraph_ai.State.Shape.{AgentState, Verdict, PlanStep, ToolResult}
use nest_langgraph_ai.State.Updates.{put, Updates, no_updates, apply_updates}
use nest_langgraph_ai.Tools.{ToolRiskLevel, get_tool, get_capability, register_all, empty_registry}
use nest_langgraph_ai.Tools.Envelope.{to_tool_result}
use nest_langgraph_ai.Tools.Classified.{Describes, kept_raw, to_tool_result-Describes}
use nest_langgraph_ai.Tools.Registered.{get_tool-register_all}
use nest_langgraph_ai.Json.{Json}
use nest_langgraph_ai.Json.Extract.{extract_balanced_json}
use nest_langgraph_ai.Json.Extract.Balanced.{IsFirstObject, extract_balanced_json-IsFirstObject}
use nest_langgraph_ai.Nodes.Services.{ParallelStepResult}
use nest_langgraph_ai.Nodes.Validation.{plan_validator_node, is_review_required}
use nest_langgraph_ai.Nodes.Validation.Anchors.{check_anchors}
use nest_langgraph_ai.Nodes.Validation.Checks.{IsValidPlan}
use nest_langgraph_ai.Nodes.Validation.Soundness.{
  plan_validator_node-IsValidPlan, plan_validator_node-review,
}
use nest_langgraph_ai.Nodes.Execution.{
  resolve_params, failed_message, execute_updates, execution_node,
}
use nest_langgraph_ai.Nodes.Execution.Failures.{Fails, throws, StepRun, execution_node-StepRun}
use nest_langgraph_ai.Nodes.Normalizing.{normalize_updates, parallel_results}
use nest_langgraph_ai.Nodes.Normalizing.Verdicts.{normalize_parallel-is_ok}
use nest_langgraph_ai.Router.{is_ok_result}
use nest_langgraph_ai.Router.Dispatch.{ReplannedTo}
use nest_langgraph_ai.Router.Decisions.{routed}
use nest_langgraph_ai.Run.Escalation.{
  normalized, decided, execute_updates-not_ok, parallel_results-replanned,
}
use nest_langgraph_ai.Tests.Examples.{sample-IsBelow}
use nest_langgraph_ai.Tests.Samples.{
  sample_env, sample_services, sample_registry, sample_registrations, search_name, write_name,
  write_tool, step_of, sample_state, sample_decision,
}

abbrev planned : AgentState
planned = record sample_state { phase = Phase.validate_plan }

abbrev begun : Updates
begun = record no_updates {
  phase = put Phase.await_plan_review;
  review_request =
      put (some (record { session_id = b'a' ∷ []; plan = planned.plan; objective = none }));
}

planned-accepted : plan_validator_node sample_services planned ≡ ok begun
unfolding plan_validator_node check_anchors text_eq codes get_tool lookup get_capability
planned-accepted = refl

plan_validator_node-IsValidPlan_example : IsValidPlan sample_registry planned.plan
plan_validator_node-IsValidPlan_example =
    plan_validator_node-IsValidPlan sample_services planned begun planned-accepted (λ e. cc)

writes : is_review_required (get_capability sample_registry write_name).risk ≡ true
unfolding get_capability is_review_required lookup text_eq
writes = refl

plan_validator_node-review_example : begun.phase ≡ put Phase.await_plan_review
plan_validator_node-review_example =
    plan_validator_node-review sample_services planned begun b'a' [] 2 (step_of 3 write_name none)
      planned-accepted (λ e. cc) refl refl refl writes

abbrev first_step : PlanStep
first_step = step_of 1 search_name (some 7)

abbrev executed : AgentState
executed = record sample_state { selected_tool = some write_name }

execution_ok :
    execution_node sample_services executed ≡ ok (execute_updates sample_services executed)
unfolding execution_node
execution_ok = refl

execution_node-StepRun_example :
    StepRun executed (apply_updates executed (execute_updates sample_services executed))
execution_node-StepRun_example =
    execution_node-StepRun sample_services executed (execute_updates sample_services executed)
      execution_ok

abbrev executed_message : Text
executed_message = failed_message write_name (b'x' ∷ [])

executed-Fails : Fails sample_services executed executed_message
unfolding resolve_params get_tool lookup text_eq
executed-Fails = throws [] write_tool (error (b'x' ∷ [])) refl refl refl

execute_updates-not_ok_example :
    is_ok_result
      (normalized sample_services
        (apply_updates executed (execute_updates sample_services executed))).tool_result
    ≡ false
execute_updates-not_ok_example =
    execute_updates-not_ok sample_services executed executed_message executed-Fails tt

abbrev group_results : List ParallelStepResult
group_results = record { step_id = 1; tool = search_name; result = []; success = false } ∷ []

abbrev grouped : AgentState
grouped = record sample_state { parallel_result = some true; tool_result_raw = some (b'r' ∷ []) }

grouped-results : parallel_results sample_services grouped ≡ some group_results
unfolding parallel_results
grouped-results = refl

normalize_parallel-is_ok_example :
    (r : ToolResult) × (((apply_updates grouped
          (normalize_updates sample_services grouped)).tool_result
        ≡ some r)
      × (r.is_ok ≡ true))
normalize_parallel-is_ok_example =
    normalize_parallel-is_ok sample_services grouped group_results grouped-results

parallel_results-replanned_example :
    ReplannedTo
      (decided sample_services grouped (sample_decision Verdict.retry_step))
      (some (b'r' ∷ []))
      (routed sample_env (decided sample_services grouped (sample_decision Verdict.retry_step)))
parallel_results-replanned_example =
    parallel_results-replanned sample_services grouped (sample_decision Verdict.retry_step)
      group_results grouped-results sample-IsBelow refl

abbrev no_json : Text → Option Json
no_json t = none

abbrev no_text : Json → Text
no_text v = []

to_tool_result-Describes_example :
    Describes no_json no_text search_name
      (kept_raw (b'h' ∷ b'i' ∷ []) 1)
      (to_tool_result no_json no_text search_name (b'h' ∷ b'i' ∷ []) 100 1)
    × (length (to_tool_result no_json no_text search_name (b'h' ∷ b'i' ∷ []) 100 1).raw ≤ 1)
to_tool_result-Describes_example =
    to_tool_result-Describes no_json no_text search_name (b'h' ∷ b'i' ∷ []) 100 1

registered : register_all empty_registry sample_registrations ≡ ok sample_registry
unfolding register_all empty_registry has lookup insert text_eq
registered = refl

get_tool-register_all_example : get_tool sample_registry write_name ≡ some write_tool
get_tool-register_all_example =
    get_tool-register_all empty_registry sample_registry sample_registrations 1
      (record {
        tool = write_tool;
        param_hint = none;
        capability = some (record { risk = ToolRiskLevel.write; parallel_safe = false });
      })
      registered refl

abbrev nested_object : Text
nested_object = codes "{\"}\":{}}"

abbrev talkative_answer : Text
talkative_answer = codes "x{\"}\":{}}y}"

extract_balanced_json-IsFirstObject_example :
    (extract_balanced_json talkative_answer ≡ some nested_object)
    ↔ IsFirstObject nested_object talkative_answer
extract_balanced_json-IsFirstObject_example =
    extract_balanced_json-IsFirstObject talkative_answer nested_object

extracted : extract_balanced_json talkative_answer ≡ some nested_object
unfolding extract_balanced_json codes
extracted = refl
