-- ===== src/Nodes/Judging.antt =====
-- The critic: src/modules/agents/nodes/critic.node.ts, with the refinement of
-- `criticDecisionSchema` (state/agent.schemas.ts).
pub mod Decisions
use nest_langgraph_ai.Prelude.{
  Text, Bool, true, false, not, Option, none, some, codes, last?, is_empty, if◌then◌else◌, Result,
  ok, err, error, ◌>>=◌,
}
use nest_langgraph_ai.Json.{Json, null, string, object, truthy, strict_eq, get_field, Fields}
use nest_langgraph_ai.State.Phase.{Phase}
use nest_langgraph_ai.State.Shape.{AgentState, Attempt, CriticDecisionState, Verdict}
use nest_langgraph_ai.State.Updates.{put, Updates, no_updates}
use nest_langgraph_ai.State.Transitions.{transition_to_phase}
use nest_langgraph_ai.Nodes.Services.{Services}
use nest_langgraph_ai.Nodes.Repair.{parse_with_repair}

abbrev preview_of : Option Attempt → Text
preview_of none = codes "Task completed successfully."
preview_of (some a) = a.result.preview

-- `synthesizeFinalAnswer`.
unfoldable pub synthesize_final_answer : AgentState → Text
synthesize_final_answer s = elim s.tool_result [
  | some r ↦ r.preview
  | none ↦ elim s.tool_result_raw [ some raw ↦ raw | none ↦ preview_of (last? s.attempts) ]
]

abbrev filled : Option Text → Bool
filled none = false
filled (some t) = not (is_empty t)

-- The refinement: `complete` and `fatal` need an answer.
unfoldable pub critic_refine : CriticDecisionState → Bool
critic_refine d = elim d.decision [
  | Verdict.complete ↦ filled d.final_answer
  | Verdict.fatal ↦ filled d.final_answer
  | Verdict.advance ↦ true
  | Verdict.retry_step ↦ true
  | Verdict.replan ↦ true
]

-- `criticDecisionSchema.parse`.
unfoldable pub critic_decision_schema : Services → Json → Result CriticDecisionState
unfolding critic_refine
critic_decision_schema sv v = sv.critic_shape v >>= λ d.
    if critic_refine d
    then ok d
    else err (error (codes "finalAnswer is required when decision=complete or fatal"))

abbrev is_text : Text → Option Json → Bool
is_text t none = false
is_text t (some v) = strict_eq v (string t)

abbrev is_truthy : Option Json → Bool
is_truthy none = false
is_truthy (some v) = truthy v

-- `parsed.reason ?? 'Task completed.'`.
abbrev reason_of : Services → Option Json → Text
reason_of sv none = codes "Task completed."
reason_of sv (some null) = codes "Task completed."
reason_of sv (some (string t)) = t
reason_of sv (some v) = sv.print_value v

-- The lenient reading of an object: a final verdict with no answer.
unfoldable pub lenient_verdict : Fields → Option Verdict
lenient_verdict fs =
    if is_truthy (get_field (codes "finalAnswer") fs)
    then none
    else (if is_text (codes "complete") (get_field (codes "decision") fs)
        then some Verdict.complete
        else (if is_text (codes "fatal") (get_field (codes "decision") fs)
            then some Verdict.fatal
            else none))

unfoldable pub lenient_decision : Services → AgentState → Option Json → Option CriticDecisionState
unfolding lenient_verdict synthesize_final_answer
lenient_decision sv s (some (object fs)) = elim (lenient_verdict fs) [
  | none ↦ none
  | some v ↦ some (record {
    decision = v;
    reason = reason_of sv (get_field (codes "reason") fs);
    final_answer = some (synthesize_final_answer s);
  })
]
lenient_decision sv s _ = none

unfoldable pub critic_schema_text : Text
critic_schema_text =
    codes
      "{\"decision\":\"advance|retry_step|replan|complete|fatal\",\"reason\":\"string\",\"finalAnswer?\":\"string\"}"

unfoldable pub decide : CriticDecisionState → Updates
unfolding transition_to_phase
decide d = transition_to_phase Phase.route (record no_updates { critic_decision = put (some d) })

-- `criticNode`.
unfoldable pub critic_node : Services → AgentState → Result Updates
unfolding lenient_decision critic_decision_schema decide
critic_node sv s = sv.invoke_llm (sv.critic_prompt s) >>= λ raw.
    elim (lenient_decision sv s (sv.json_parse raw)) [
      | some d ↦ ok (decide d)
      | none ↦ parse_with_repair sv (critic_decision_schema sv) critic_schema_text raw >>= λ d.
          ok (decide d)
    ]
