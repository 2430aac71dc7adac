-- ===== src/Nodes/Judging/Decisions.antt =====
-- What src/modules/agents/nodes/critic.node.ts returns.
use nest_langgraph_ai.Prelude.{◌≡◌, refl, inl, inr, Result, ok, err, ◌>>=◌, Option-cases}
use nest_langgraph_ai.State.Shape.{AgentState, CriticDecisionState}
use nest_langgraph_ai.State.Updates.{Updates}
use nest_langgraph_ai.Nodes.Services.{Services}
use nest_langgraph_ai.Nodes.Judging.{
  decide, critic_node, lenient_decision, critic_decision_schema, critic_schema_text,
}
use nest_langgraph_ai.Nodes.Repair.{parse_with_repair}

-- A result of the critic is a decision or throws.
abbrev pub IsDecision : Result Updates → Type 0
IsDecision (ok u) = (d : CriticDecisionState) × (u ≡ decide d)
IsDecision (err e) = Unit

IsDecision-bind {ℓ} :
    {A : Type ℓ} (m : Result A) (f : A → Result Updates)
    → ((a : A) → IsDecision (f a))
    → IsDecision (m >>= f)
IsDecision-bind (ok a) f h = h a
IsDecision-bind (err e) f h = tt

pub critic-IsDecision : (sv : Services) (s : AgentState) → IsDecision (critic_node sv s)
unfolding critic_node
critic-IsDecision sv s = IsDecision-bind (sv.invoke_llm (sv.critic_prompt s)) _ λ raw.
    elim (Option-cases (lenient_decision sv s (sv.json_parse raw))) [
      | inr (d, e) ↦ rw e (d, refl)
      | inl e ↦ rw e (
          IsDecision-bind (parse_with_repair sv (critic_decision_schema sv) critic_schema_text raw)
            _ λ d. (d, refl))
    ]
