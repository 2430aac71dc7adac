-- ===== src/Router/Limits.antt =====
-- When the router of src/modules/agents/nodes/decision-router.node.ts stops a run by its limits.
use nest_langgraph_ai.Prelude.{
  ◌<◌, ◌≡◌, refl, ap, ◌∙◌, ◌↔◌, inl, inr, true, false, none, some, Bool-cases, Option-cases, arith,
}
use nest_langgraph_ai.Config.{Env, AgentLimits, get_agent_limits}
use nest_langgraph_ai.State.Shape.{AgentCounters, AgentState, CriticDecisionState}
use nest_langgraph_ai.State.Updates.{Updates, no_updates}
use nest_langgraph_ai.Router.{
  LimitCheck, router_limit_checks, first_exceeded, is_terminal, without_decision, dispatch,
  fail_at_limit, decision_router_node,
}

-- Every counter is below its limit.
pub record IsBelow (c : AgentCounters) (l : AgentLimits) : Type 0 where
  pub turn : c.turn < l.turns
  pub tool_calls : c.tool_calls < l.tool_calls
  pub replans : c.replans < l.replans
  pub step_retries : c.step_retries < l.step_retries
  pub supervisor_fallbacks : c.supervisor_fallbacks < l.supervisor_fallbacks

-- The loop finds nothing exactly when every counter is below its limit.
pub first_exceeded-eq-none_iff :
    (c : AgentCounters) (l : AgentLimits)
    → (first_exceeded (router_limit_checks c l) ≡ none) ↔ IsBelow c l
unfolding first_exceeded router_limit_checks
first_exceeded-eq-none_iff c l = (λ h. ground arith, λ h. ground arith)

-- With the router's cases taken apart: a terminal phase, a limit, no decision, a decision.
pub decision_router_cases :
    (P : Updates → Type 0) (env : Env) (s : AgentState)
    → (is_terminal s.phase ≡ true → P no_updates)
    → ((k : LimitCheck)
        → is_terminal s.phase ≡ false
        → ¬ IsBelow s.counters (get_agent_limits env)
        → P (fail_at_limit k))
    → (is_terminal s.phase ≡ false
        → IsBelow s.counters (get_agent_limits env)
        → s.critic_decision ≡ none
        → P (without_decision s))
    → ((d : CriticDecisionState)
        → is_terminal s.phase ≡ false
        → IsBelow s.counters (get_agent_limits env)
        → s.critic_decision ≡ some d
        → P (dispatch s d d.decision))
    → P (decision_router_node env s)
unfolding decision_router_node
decision_router_cases P env s at_end at_limit undecided decided =
    elim (Bool-cases (is_terminal s.phase)) [
      | inl t ↦ rw (t, decision_router_node) (at_end t)
      | inr f ↦
          elim (Option-cases
            (first_exceeded (router_limit_checks s.counters (get_agent_limits env)))) [
              | inr (k, e) ↦
                  rw (f, e, decision_router_node)
                    (at_limit k f (λ b.
                      absurd (
                        cc
                          (e, (first_exceeded-eq-none_iff s.counters (get_agent_limits env)).1 b))))
              | inl e ↦
                  let below = (first_exceeded-eq-none_iff s.counters (get_agent_limits env)).0 e in
                  elim (Option-cases s.critic_decision) [
                    | inl u ↦ rw (f, e, u, decision_router_node) (undecided f below u)
                    | inr (d, u) ↦ rw (f, e, u, decision_router_node) (decided d f below u)
                  ]
            ]
    ]

-- Below the limits the router acts on the critic's decision.
pub router_below :
    (env : Env) (s : AgentState) (d : CriticDecisionState)
    → is_terminal s.phase ≡ false
    → IsBelow s.counters (get_agent_limits env)
    → s.critic_decision ≡ some d
    → decision_router_node env s ≡ dispatch s d d.decision
unfolding decision_router_node
router_below env s d t b e =
    (rw (t, (first_exceeded-eq-none_iff s.counters (get_agent_limits env)).1 b) refl)
    ∙ ap (λ o. elim o [ none ↦ without_decision s | some d ↦ dispatch s d d.decision ]) e
