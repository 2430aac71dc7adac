-- ===== src/Nodes/Parallel/Steps.antt =====
-- How one step of a group ends (src/modules/agents/nodes/parallel-execution.node.ts).
use nest_langgraph_ai.Prelude.{
  Text, ◌≡◌, refl, ◌⊎◌, inl, inr, true, false, some, List, map, codes, starts_with,
  starts_with-prefix, Bool-cases, Option-cases, Result-cases, ok,
}
use nest_langgraph_ai.State.Shape.{AgentState, PlanStep}
use nest_langgraph_ai.Tools.{Tool, get_tool}
use nest_langgraph_ai.Nodes.Services.{Services, ParallelStepResult}
use nest_langgraph_ai.Nodes.Execution.{Resolved, coerce_entry}
use nest_langgraph_ai.Nodes.Parallel.{
  inline_absent, substituted, substitute_params, step_result, failed_result, inline_absent_text,
  invoke_step, run_step, settle_step,
}

-- The tool of the step was called on its resolved parameters, and this is what it returned in time.
pub record Answered (sv : Services) (s : AgentState) (step : PlanStep) (result : Text)
    : Type 0 where
  pub tool : Tool
  pub resolved : List Resolved
  pub registered : get_tool sv.registry step.tool ≡ some tool
  pub resolves : substitute_params s step step.input ≡ ok (substituted resolved)
  pub outcome : (tool.invoke (map (coerce_entry sv.json_parse tool) resolved)).outcome ≡ ok result
  pub in_time : (tool.invoke (map (coerce_entry sv.json_parse tool) resolved)).timed_out ≡ false

-- The result of a step: it names the step and its tool, and is what the tool answered, or an error.
pub record RanStep (sv : Services) (s : AgentState) (step : PlanStep) (r : ParallelStepResult)
    : Type 0 where
  pub step_id : r.step_id ≡ step.step_id
  pub tool : r.tool ≡ step.tool
  pub result :
      ((r.success ≡ true) × Answered sv s step r.result)
      ⊎ ((r.success ≡ false) × (starts_with (codes "ERROR: ") r.result ≡ true))

module _ (sv : Services) (s : AgentState) (step : PlanStep) where
  failed_result-RanStep : (message : Text) → RanStep sv s step (failed_result step message)
  unfolding failed_result step_result
  failed_result-RanStep message = record {
    step_id = refl;
    tool = refl;
    result = inr (refl, starts_with-prefix (codes "ERROR: ") message);
  }

  inline_absent-RanStep : RanStep sv s step (step_result step inline_absent_text false)
  unfolding step_result inline_absent_text starts_with codes
  inline_absent-RanStep = record { step_id = refl; tool = refl; result = inr (refl, refl) }

  invoke_step-RanStep :
      (tool : Tool) (resolved : List Resolved)
      → get_tool sv.registry step.tool ≡ some tool
      → substitute_params s step step.input ≡ ok (substituted resolved)
      → RanStep sv s step (invoke_step sv step tool resolved)
  unfolding invoke_step step_result
  invoke_step-RanStep tool resolved known resolves =
      let run = tool.invoke (map (coerce_entry sv.json_parse tool) resolved) in
      elim (Result-cases run.outcome) [
        | inr (e, f) ↦ rw (f, invoke_step) (failed_result-RanStep _)
        | inl (result, f) ↦ elim (Bool-cases run.timed_out) [
          | inl late ↦ rw (f, invoke_step, late) (failed_result-RanStep _)
          | inr soon ↦
              rw (f, invoke_step, soon)
                (record {
                  step_id = refl;
                  tool = refl;
                  result = inl (
                    refl,
                    record {
                      tool = tool;
                      resolved = resolved;
                      registered = known;
                      resolves = resolves;
                      outcome = f;
                      in_time = soon;
                    },
                  );
                })
        ]
      ]

  pub settle_step-RanStep : RanStep sv s step (settle_step sv s step)
  unfolding settle_step run_step
  settle_step-RanStep = elim (Result-cases (substitute_params s step step.input)) [
    | inr (e, f) ↦ rw (f, settle_step, run_step) (failed_result-RanStep _)
    | inl (inline_absent, f) ↦ rw (f, settle_step, run_step) inline_absent-RanStep
    | inl (substituted resolved, f) ↦ elim (Option-cases (get_tool sv.registry step.tool)) [
      | inl none_known ↦ rw (f, settle_step, run_step, none_known) (failed_result-RanStep _)
      | inr (tool, known) ↦
          rw (f, settle_step, run_step, known) (invoke_step-RanStep tool resolved known f)
    ]
  ]
