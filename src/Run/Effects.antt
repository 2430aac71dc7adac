-- ===== src/Run/Effects.antt =====
-- The effect of each node on the measure.
use nest_langgraph_ai.Prelude.{
  Text, ◌≤◌, ◌<◌, ◌≡◌, refl, inl, inr, ap, ◌&&◌, Bool-cases, Option-cases, Option, none, some, List,
  [], ◌∷◌, length, ltb, arith, Result, ok, err, ◌>>=◌, get_elem?,
}
use nest_langgraph_ai.State.Phase.{Phase}
use nest_langgraph_ai.State.Shape.{AgentState, AgentError, PlanStep}
use nest_langgraph_ai.State.Updates.{change, put, Updates, no_updates}
use nest_langgraph_ai.State.Transitions.{fail_agent_run, complete_agent_run}
use nest_langgraph_ai.Nodes.Services.{Services, PlannerOutput, SupervisorOutput}
use nest_langgraph_ai.Nodes.Repair.{parse_with_repair}
use nest_langgraph_ai.Nodes.Planning.{accept_plan, planner_schema_text, planner_node}
use nest_langgraph_ai.Nodes.Supervising.{
  route_request, to_chat, supervisor_node, is_obviously_conversational, filled, raw_response,
  supervisor_output_schema, supervisor_schema_text,
}
use nest_langgraph_ai.Nodes.Answering.{
  chat_node, chat_answer, generator_node, first_answer, retried_answer,
}
use nest_langgraph_ai.Nodes.Terminal.{terminal_response_node}
use nest_langgraph_ai.Nodes.Normalizing.{tool_result_normalizer_node}
use nest_langgraph_ai.Nodes.Execution.{execution_node}
use nest_langgraph_ai.Nodes.Parallel.{group_updates, parallel_updates, parallel_execution_node}
use nest_langgraph_ai.Nodes.Parallel.Grouping.{group-nonempty}
use nest_langgraph_ai.Nodes.Validation.Groups.{Failure}
use nest_langgraph_ai.Nodes.Validation.{
  fail_validation, begin_plan, preflight, validate_steps, validate_from, plan_validator_node,
}
use nest_langgraph_ai.Run.Measure.{weight_of, Effect}

-- A fatal update is an effect wherever the run is not at its end already.
pub fail-Effect :
    (s : AgentState) (answer : Text) (e : Option AgentError)
    → 1 < weight_of s
    → Effect s (fail_agent_run answer e)
unfolding fail_agent_run
fail-Effect s answer e h = record { turn = refl; decision = refl; lighter = h; elsewhere = refl }

-- A property of every update that a result may hold.
abbrev pub OnOk : (Updates → Type 0) → Result Updates → Type 0
OnOk P (ok u) = P u
OnOk P (err e) = Unit

pub OnOk-bind {ℓ} :
    {A : Type ℓ} (P : Updates → Type 0) (m : Result A) (f : A → Result Updates)
    → ((a : A) → OnOk P (f a))
    → OnOk P (m >>= f)
OnOk-bind P (ok a) f h = h a
OnOk-bind P (err e) f h = tt

accept_plan-Effect :
    (s : AgentState) (p : PlannerOutput) (steps : List PlanStep)
    → s.phase ≡ Phase.plan
    → Effect s (accept_plan p steps)
unfolding accept_plan
accept_plan-Effect s p [] e = ground arith
accept_plan-Effect s p (step ∷ steps) e = ground arith

pub planner-Effect :
    (sv : Services) (s : AgentState) → s.phase ≡ Phase.plan → OnOk (Effect s) (planner_node sv s)
unfolding planner_node
planner-Effect sv s e = OnOk-bind (Effect s) (sv.invoke_llm (sv.planner_prompt s)) _ λ raw.
    OnOk-bind (Effect s) (parse_with_repair sv sv.planner_shape planner_schema_text raw) _
      λ p. accept_plan-Effect s p p.steps e

route_request-Effect :
    (s : AgentState) (o : SupervisorOutput) → 88 < weight_of s → Effect s (route_request s o)
unfolding route_request
route_request-Effect s o e = ground arith

to_chat-Effect : (s : AgentState) (t : Text) → 88 < weight_of s → Effect s (to_chat t)
unfolding to_chat
to_chat-Effect s t e = ground arith

pub supervisor-Effect :
    (sv : Services) (s : AgentState) → 88 < weight_of s → OnOk (Effect s) (supervisor_node sv s)
unfolding supervisor_node
supervisor-Effect sv s e =
    elim (Bool-cases (is_obviously_conversational s.input && filled s.session_memory)) [
      | inl fast ↦ rw fast (to_chat-Effect s s.input e)
      | inr slow ↦ rw slow (
          OnOk-bind (Effect s) (raw_response sv (sv.supervisor_prompt s) s.images) _ λ raw.
            OnOk-bind (Effect s)
              (parse_with_repair sv (supervisor_output_schema sv) supervisor_schema_text raw) _
              λ o. route_request-Effect s o e)
    ]

complete-Effect :
    (s : AgentState) (t : Text) (u : Updates)
    → change s.counters u.counters ≡ s.counters
    → change s.critic_decision u.critic_decision ≡ s.critic_decision
    → 0 < weight_of s
    → Effect s (complete_agent_run t u)
unfolding complete_agent_run
complete-Effect s t u c d h = record {
  turn = ap (λ k. k.turn) c;
  decision = d;
  lighter = h;
  elsewhere = refl;
}

pub chat-Effect :
    (sv : Services) (s : AgentState) → s.phase ≡ Phase.chat → OnOk (Effect s) (chat_node sv s)
unfolding chat_node
chat-Effect sv s e =
    OnOk-bind (Effect s) (chat_answer sv s (sv.chat_prompt s)) _
      λ answer. complete-Effect s _ no_updates refl refl (ground arith)

pub generator-Effect :
    (sv : Services) (s : AgentState)
    → s.phase ≡ Phase.generate
    → OnOk (Effect s) (generator_node sv s)
unfolding generator_node
generator-Effect sv s e =
    OnOk-bind (Effect s) (first_answer sv s (sv.generator_prompt s)) _ λ first.
      OnOk-bind (Effect s) (retried_answer sv (sv.generator_prompt s) first) _
        λ second. complete-Effect s _ no_updates refl refl (ground arith)

pub terminal-Effect :
    (s : AgentState) → 0 < weight_of s → OnOk (Effect s) (terminal_response_node s)
unfolding terminal_response_node
terminal-Effect s h = complete-Effect s _ (record no_updates { errors = put [] }) refl refl h

pub normalizer-Effect :
    (sv : Services) (s : AgentState)
    → s.phase ≡ Phase.normalize_tool_result
    → OnOk (Effect s) (tool_result_normalizer_node sv s)
unfolding tool_result_normalizer_node
normalizer-Effect sv s e = ground arith

pub execution-Effect :
    (sv : Services) (s : AgentState)
    → s.phase ≡ Phase.execute
    → OnOk (Effect s) (execution_node sv s)
unfolding execution_node
execution-Effect sv s e = ground arith

group_updates-Effect :
    (sv : Services) (s : AgentState) (group : List PlanStep)
    → s.phase ≡ Phase.execute_parallel
    → 0 < length group
    → Effect s (group_updates sv s group)
unfolding group_updates
group_updates-Effect sv s group e h = ground arith

parallel_updates-Effect :
    (sv : Services) (s : AgentState)
    → s.phase ≡ Phase.execute_parallel
    → Effect s (parallel_updates sv s)
unfolding parallel_updates
parallel_updates-Effect sv s e = elim (Option-cases (get_elem? s.plan s.current_step)) [
  | inl absent ↦ rw (absent, parallel_updates) (ground arith)
  | inr (step, found) ↦
      rw (found, parallel_updates)
        (group_updates-Effect sv s _ e (group-nonempty s.plan s.current_step step found))
]

pub parallel-Effect :
    (sv : Services) (s : AgentState)
    → s.phase ≡ Phase.execute_parallel
    → OnOk (Effect s) (parallel_execution_node sv s)
unfolding parallel_execution_node
parallel-Effect sv s e = parallel_updates-Effect sv s e

fail_validation-Effect :
    (s : AgentState) (f : Failure) → s.phase ≡ Phase.validate_plan → Effect s (fail_validation f)
unfolding fail_validation
fail_validation-Effect s f e = ground arith

-- The bound on the plan's length keeps its execution lighter than its validation.
begin_plan-Effect :
    (sv : Services) (s : AgentState) (first : PlanStep)
    → s.phase ≡ Phase.validate_plan
    → length s.plan ≤ 20
    → Effect s (begin_plan sv s first)
unfolding begin_plan
begin_plan-Effect sv s first e h = ground arith

conclude-Effect :
    (sv : Services) (s : AgentState) (first : PlanStep) (failure : Option Failure)
    → s.phase ≡ Phase.validate_plan
    → length s.plan ≤ 20
    → Effect s (elim failure [ some f ↦ fail_validation f | none ↦ begin_plan sv s first ])
conclude-Effect sv s first none e h = begin_plan-Effect sv s first e h
conclude-Effect sv s first (some f) e h = fail_validation-Effect s f e

validate_from-Effect :
    (sv : Services) (s : AgentState) (steps : List PlanStep)
    → s.phase ≡ Phase.validate_plan
    → OnOk (Effect s) (validate_from sv s steps)
unfolding validate_steps
validate_from-Effect sv s [] e = fail_validation-Effect s _ e
validate_from-Effect sv s (first ∷ more) e = elim (Bool-cases (ltb 20 (length s.plan))) [
  | inl long ↦ rw long (fail_validation-Effect s _ e)
  | inr fits ↦ rw fits (
      OnOk-bind (Effect s) (preflight sv s.plan) _
        λ failure. conclude-Effect sv s first failure e (ground arith))
]

pub validator-Effect :
    (sv : Services) (s : AgentState)
    → s.phase ≡ Phase.validate_plan
    → OnOk (Effect s) (plan_validator_node sv s)
unfolding plan_validator_node
validator-Effect sv s e = validate_from-Effect sv s s.plan e
