-- ===== src/Nodes/Execution/Failures.antt =====
-- How src/modules/agents/nodes/execution.node.ts reports what became of a step.
use nest_langgraph_ai.Prelude.{
  Text, ◌+◌, ◌≡◌, refl, sym, inl, inr, true, none, some, List, [], map, or_else, Option-cases,
  Result-cases, ok, err, Thrown, ok-injective, arith,
}
use nest_langgraph_ai.State.Phase.{Phase}
use nest_langgraph_ai.State.Shape.{AgentState}
use nest_langgraph_ai.State.Updates.{Updates, apply_updates}
use nest_langgraph_ai.Tools.{Tool, get_tool}
use nest_langgraph_ai.Nodes.Services.{Services}
use nest_langgraph_ai.Nodes.Execution.{
  Resolved, resolve_params, coerce_entry, count_tool_calls, finish_step, fail_step, inline_missing,
  thrown_message, failed_message, timed_out_message, settle_run, unknown_tool_message, run_tool,
  execute_updates, execution_node,
}

-- One step was run from `s` to `t`.
pub record StepRun (s t : AgentState) : Type 0 where
  pub phase : t.phase ≡ Phase.normalize_tool_result
  pub raw : (raw : Text) × (t.tool_result_raw ≡ some raw)
  pub tool_calls : t.counters.tool_calls ≡ s.counters.tool_calls + 1
  pub turn : t.counters.turn ≡ s.counters.turn
  pub current_step : t.current_step ≡ s.current_step
  pub plan : t.plan ≡ s.plan
  pub attempts : t.attempts ≡ s.attempts

finish-StepRun : (s : AgentState) (raw : Text) → StepRun s (apply_updates s (finish_step s raw))
unfolding finish_step apply_updates count_tool_calls
finish-StepRun s raw = record {
  phase = refl;
  raw = (raw, refl);
  tool_calls = ground arith;
  turn = ground arith;
  current_step = refl;
  plan = refl;
  attempts = refl;
}

fail-StepRun : (s : AgentState) (message : Text) → StepRun s (apply_updates s (fail_step s message))
unfolding fail_step apply_updates count_tool_calls
fail-StepRun s message = record {
  phase = refl;
  raw = (_, refl);
  tool_calls = ground arith;
  turn = ground arith;
  current_step = refl;
  plan = refl;
  attempts = refl;
}

run_tool-StepRun :
    (sv : Services) (s : AgentState) (name : Text) (tool : Tool) (resolved : List Resolved)
    → StepRun s (apply_updates s (run_tool sv s name tool resolved))
unfolding run_tool
run_tool-StepRun sv s name tool resolved =
    elim (Result-cases (
      settle_run (tool.invoke (map (coerce_entry sv.json_parse tool) resolved))
        (timed_out_message name sv.env.tool_timeout_ms))) [
          | inl (r, e) ↦ rw (e, run_tool) (finish-StepRun s r)
          | inr (t, e) ↦ rw (e, run_tool) (fail-StepRun s (failed_message name (thrown_message t)))
        ]

execute_updates-StepRun :
    (sv : Services) (s : AgentState) → StepRun s (apply_updates s (execute_updates sv s))
unfolding execute_updates
execute_updates-StepRun sv s = elim (Option-cases (resolve_params s (or_else s.tool_params []))) [
  | inl e ↦ rw (e, execute_updates) (finish-StepRun s inline_missing)
  | inr (resolved, e) ↦ elim (Option-cases (get_tool sv.registry (or_else s.selected_tool []))) [
    | inl n ↦
        rw (e, n, execute_updates)
          (fail-StepRun s (unknown_tool_message sv.registry (or_else s.selected_tool [])))
    | inr (tool, n) ↦
        rw (e, n, execute_updates)
          (run_tool-StepRun sv s (or_else s.selected_tool []) tool resolved)
  ]
]

-- On every branch the executor hands a raw result to the normalizer, counts exactly one tool call
-- and leaves the turn, the plan, the place in it and the attempts as they are.
pub execution_node-StepRun :
    (sv : Services) (s : AgentState) (u : Updates)
    → execution_node sv s ≡ ok u
    → StepRun s (apply_updates s u)
unfolding execution_node
execution_node-StepRun sv s u e =
    rw (sym (ok-injective (execute_updates sv s) u e)) (execute_updates-StepRun sv s)

-- The step fails with a message: its tool is unknown, or the call throws, or it ends too late.
pub data Fails (sv : Services) (s : AgentState) : Text → Type 0 where
  unknown :
      (resolved : List Resolved)
      → resolve_params s (or_else s.tool_params []) ≡ some resolved
      → get_tool sv.registry (or_else s.selected_tool []) ≡ none
      → Fails sv s (unknown_tool_message sv.registry (or_else s.selected_tool []))
  throws :
      (resolved : List Resolved) (tool : Tool) (e : Thrown)
      → resolve_params s (or_else s.tool_params []) ≡ some resolved
      → get_tool sv.registry (or_else s.selected_tool []) ≡ some tool
      → (tool.invoke (map (coerce_entry sv.json_parse tool) resolved)).outcome ≡ err e
      → Fails sv s (failed_message (or_else s.selected_tool []) (thrown_message e))
  late :
      (resolved : List Resolved) (tool : Tool) (result : Text)
      → resolve_params s (or_else s.tool_params []) ≡ some resolved
      → get_tool sv.registry (or_else s.selected_tool []) ≡ some tool
      → (tool.invoke (map (coerce_entry sv.json_parse tool) resolved)).outcome ≡ ok result
      → (tool.invoke (map (coerce_entry sv.json_parse tool) resolved)).timed_out ≡ true
      → Fails sv s (
          failed_message
            (or_else s.selected_tool [])
            (timed_out_message (or_else s.selected_tool []) sv.env.tool_timeout_ms))

pub execute_updates-fail_step :
    (sv : Services) (s : AgentState) (m : Text)
    → Fails sv s m
    → execute_updates sv s ≡ fail_step s m
unfolding execute_updates run_tool settle_run
execute_updates-fail_step sv s _ (unknown resolved p n) = rw (p, n, execute_updates) refl
execute_updates-fail_step sv s _ (throws resolved tool e p n o) =
    rw (p, n, execute_updates, run_tool, settle_run, o) refl
execute_updates-fail_step sv s _ (late resolved tool r p n o t) =
    rw (p, n, execute_updates, run_tool, settle_run, o, t) refl
