-- ===== src/Nodes/Validation.antt =====
-- The plan preflight: src/modules/agents/nodes/plan-validator.node.ts. Each check returns the two
-- messages of `failValidation` for the first step or group that breaks it.
pub mod Groups
pub mod Anchors
pub mod Contiguity
pub mod Checks
pub mod Soundness
use nest_langgraph_ai.Prelude.{
  Text, ℕ, zero, suc, ◌+◌, Bool, true, false, not, ◌&&◌, ◌||◌, Option, none, some, List, [], ◌∷◌,
  ◌++◌, codes, decimal, length, ltb, ◌==◌, if◌then◌else◌, is_some, is_empty, or_else, some_of,
  Result, ok, err, ◌>>=◌,
}
use nest_langgraph_ai.Config.{Env, max_steps}
use nest_langgraph_ai.Json.{string_includes}
use nest_langgraph_ai.State.Phase.{Phase}
use nest_langgraph_ai.State.Shape.{PlanStep, AgentState, ErrorCode, Params}
use nest_langgraph_ai.State.Updates.{put, Updates, no_updates}
use nest_langgraph_ai.State.Transitions.{
  transition_to_phase, begin_execution_step, fail_agent_run, request_plan_review,
}
use nest_langgraph_ai.Tools.{Tool, ToolRiskLevel, ToolRegistry, get_tool, get_capability}
use nest_langgraph_ai.Nodes.Services.{Services}
use nest_langgraph_ai.Nodes.Placeholders.{previous_result, inline_content}
use nest_langgraph_ai.Nodes.Validation.Groups.{Failure, check_previous_results, check_groups}
use nest_langgraph_ai.Nodes.Validation.Anchors.{check_anchors}

-- `failValidation`.
unfoldable pub fail_validation : Failure → Updates
unfolding fail_agent_run
fail_validation f = fail_agent_run f.answer (
    some (record {
      code = ErrorCode.invariant_violation;
      message = f.message;
      at_phase = Phase.validate_plan;
      missing_capabilities = none;
    }))

-- The loop over the step ids, from an index.
unfoldable pub check_step_ids : ℕ → List PlanStep → Option Failure
check_step_ids i [] = none
check_step_ids i (step ∷ steps) =
    if step.step_id == i + 1
    then check_step_ids (i + 1) steps
    else some (record {
      answer = codes "Non-sequential step IDs.";
      message = codes "Non-sequential step IDs";
    })

unfoldable pub has_placeholder : Params → Bool
has_placeholder input =
    some_of
      (λ entry. string_includes previous_result entry.1 || string_includes inline_content entry.1)
      input

abbrev same_text : Text → Failure
same_text detail = record { answer = detail; message = detail }

-- The schema of a step's tool, unless a placeholder is still to be resolved.
unfoldable pub check_params : Tool → PlanStep → Option Failure
unfolding has_placeholder
check_params tool step =
    if has_placeholder step.input then none else elim (tool.safe_parse step.input) [
      | none ↦ none
      | some issues ↦
          some (same_text (codes "Invalid params for " ++ (step.tool ++ (codes ": " ++ issues))))
    ]

-- One step of the loop over tools and schemas.
unfoldable pub check_tool : ToolRegistry → PlanStep → Option Failure
unfolding check_params
check_tool reg step = elim (get_tool reg step.tool) [
  | none ↦ some (same_text (codes "Unknown tool: " ++ step.tool))
  | some tool ↦
      if is_some step.parallel_group && not (get_capability reg step.tool).parallel_safe
      then some (
          same_text (
            codes "Tool \""
            ++ (step.tool
                ++ (codes "\" is not parallel-safe and cannot be used in parallel group "
                    ++ (decimal (or_else step.parallel_group 0) ++ codes ".")))))
      else check_params tool step
]

unfoldable pub check_tools : ToolRegistry → List PlanStep → Option Failure
unfolding check_tool
check_tools reg [] = none
check_tools reg (step ∷ steps) = elim (check_tool reg step) [
  | some f ↦ some f
  | none ↦ check_tools reg steps
]

-- `REVIEW_REQUIRED_RISKS`.
unfoldable pub is_review_required : ToolRiskLevel → Bool
is_review_required ToolRiskLevel.write = true
is_review_required ToolRiskLevel.network_write = true
is_review_required ToolRiskLevel.execute = true
is_review_required ToolRiskLevel.read_only = false
is_review_required ToolRiskLevel.network_read = false

-- `hasDestructiveTool`.
unfoldable pub has_destructive_tool : ToolRegistry → List PlanStep → Bool
unfolding is_review_required
has_destructive_tool reg steps =
    some_of (λ step. is_review_required (get_capability reg step.tool).risk) steps

-- `state.sessionId` as a condition.
abbrev filled : Option Text → Bool
filled none = false
filled (some t) = not (is_empty t)

abbrev session_of : Option Text → Text
session_of none = []
session_of (some t) = t

unfoldable pub start_first : PlanStep → Updates
unfolding transition_to_phase begin_execution_step
start_first first =
    if is_some first.parallel_group
    then transition_to_phase Phase.execute_parallel (record no_updates { current_step = put 0 })
    else begin_execution_step first 0 no_updates

-- The end of the preflight: a review of the plan, or its first step.
unfoldable pub begin_plan : Services → AgentState → PlanStep → Updates
unfolding start_first request_plan_review has_destructive_tool
begin_plan sv s first =
    if sv.env.require_plan_review && filled s.session_id && has_destructive_tool sv.registry s.plan
    then request_plan_review (session_of s.session_id) s
    else start_first first

unfoldable pub first_failure : List (Option Failure) → Option Failure
first_failure [] = none
first_failure (none ∷ rest) = first_failure rest
first_failure (some f ∷ rest) = some f

-- The checks that run tools or only read the plan, in their order. The check of the anchors may
-- throw, in which case nothing behind it runs.
unfoldable pub preflight : Services → List PlanStep → Result (Option Failure)
unfolding first_failure check_previous_results check_groups check_step_ids check_tools
preflight sv steps =
    elim (first_failure (check_previous_results steps steps ∷ check_groups steps ∷ [])) [
      | some f ↦ ok (some f)
      | none ↦ check_anchors sv steps steps >>= λ anchors.
          ok (first_failure (anchors ∷ check_step_ids 0 steps ∷ check_tools sv.registry steps ∷ []))
    ]

unfoldable pub too_long : AgentState → Failure
too_long s = record {
  answer = codes "Plan is too long (" ++ (decimal (length s.plan) ++ codes " steps).");
  message = codes "Plan too long";
}

-- `planValidatorNode` on a plan of at least one step.
unfoldable pub validate_steps : Services → AgentState → PlanStep → Result Updates
unfolding preflight fail_validation begin_plan
validate_steps sv s first =
    if ltb max_steps (length s.plan)
    then ok (fail_validation (too_long s))
    else preflight sv s.plan >>= λ failure.
        ok (elim failure [ some f ↦ fail_validation f | none ↦ begin_plan sv s first ])

abbrev pub validate_from : Services → AgentState → List PlanStep → Result Updates
validate_from sv s [] = ok (
    fail_validation
      (record { answer = codes "Planner produced an empty plan."; message = codes "Empty plan" }))
validate_from sv s (first ∷ more) = validate_steps sv s first

-- `planValidatorNode`.
unfoldable pub plan_validator_node : Services → AgentState → Result Updates
unfolding validate_steps
plan_validator_node sv s = validate_from sv s s.plan
