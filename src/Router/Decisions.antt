-- ===== src/Router/Decisions.antt =====
-- What the router of src/modules/agents/nodes/decision-router.node.ts promises of one pass.
use nest_langgraph_ai.Prelude.{
  ◌≤◌, ◌≡◌, refl, ◌↔◌, ◌⊎◌, inl, inr, false, Option, none, some, arith, Option-cases,
}
use nest_langgraph_ai.Config.{Env, AgentLimits, get_agent_limits}
use nest_langgraph_ai.State.Phase.{Phase}
use nest_langgraph_ai.State.Shape.{
  AgentCounters, AgentState, CriticDecisionState, Verdict, PlanStep,
}
use nest_langgraph_ai.State.Updates.{apply_updates}
use nest_langgraph_ai.Router.{
  is_terminal, decision_router_node, without_decision, dispatch, fail_at_limit,
}
use nest_langgraph_ai.Router.Limits.{IsBelow, decision_router_cases, router_below}
use nest_langgraph_ai.Router.Dispatch.{Acts, Follows, dispatch-Acts}

-- The state that the router leaves.
abbrev pub routed : Env → AgentState → AgentState
routed env s = apply_updates s (decision_router_node env s)

pub decision_router_node-Acts :
    (env : Env) (s : AgentState) (d : CriticDecisionState)
    → is_terminal s.phase ≡ false
    → IsBelow s.counters (get_agent_limits env)
    → s.critic_decision ≡ some d
    → Acts s d d.decision (routed env s)
decision_router_node-Acts env s d t b e =
    rw (router_below env s d t b e) (dispatch-Acts s d d.decision e)

-- The critic decided to stop the run.
abbrev pub IsFatalDecision : Option CriticDecisionState → Type 0
IsFatalDecision none = ⊥
IsFatalDecision (some d) = d.decision ≡ Verdict.fatal

IsFatalDecision-some_iff :
    (o : Option CriticDecisionState) (d : CriticDecisionState)
    → o ≡ some d
    → IsFatalDecision o ↔ (d.decision ≡ Verdict.fatal)
IsFatalDecision-some_iff o d e = rw e ((λ h. h), λ h. h)

IsFatalDecision-none : (o : Option CriticDecisionState) → o ≡ none → ¬ IsFatalDecision o
IsFatalDecision-none o e = rw e (λ h. h)

Follows-not-fatal :
    (s t : AgentState) (o : Option PlanStep) → Follows s t o → ¬ (t.phase ≡ Phase.fatal)
Follows-not-fatal s t none h e = ground arith
Follows-not-fatal s t (some step) h e = ground (arith, Option-cases step.parallel_group)

Acts-fatal_iff :
    (s t : AgentState) (d : CriticDecisionState) (v : Verdict)
    → Acts s d v t
    → (t.phase ≡ Phase.fatal) ↔ (v ≡ Verdict.fatal)
Acts-fatal_iff s t d Verdict.advance h =
    (λ e. absurd (Follows-not-fatal s t _ h e), λ e. absurd (ground arith))
Acts-fatal_iff s t d Verdict.complete h =
    (λ e. absurd (Follows-not-fatal s t _ h e), λ e. absurd (ground arith))
Acts-fatal_iff s t d Verdict.retry_step h = ground arith
Acts-fatal_iff s t d Verdict.replan h = ground arith
Acts-fatal_iff s t d Verdict.fatal h = (λ e. refl, λ e. h.phase)

without_decision-not-fatal :
    (s : AgentState)
    → is_terminal s.phase ≡ false
    → ¬ ((apply_updates s (without_decision s)).phase ≡ Phase.fatal)
unfolding apply_updates without_decision
without_decision-not-fatal s f e = ground arith

-- On a run that is not over, the router stops it exactly when a counter has reached its limit or
-- the critic decided to stop.
pub decision_router_node-fatal_iff :
    (env : Env) (s : AgentState)
    → is_terminal s.phase ≡ false
    → ((routed env s).phase ≡ Phase.fatal)
      ↔ ((¬ IsBelow s.counters (get_agent_limits env)) ⊎ IsFatalDecision s.critic_decision)
unfolding apply_updates fail_at_limit without_decision
decision_router_node-fatal_iff env s f =
    decision_router_cases
      (λ u.
        ((apply_updates s u).phase ≡ Phase.fatal)
        ↔ ((¬ IsBelow s.counters (get_agent_limits env)) ⊎ IsFatalDecision s.critic_decision))
      env s (λ t. absurd (cc)) (λ k g over. (λ e. inl over, λ e. refl))
      (λ g b n. (
        λ e. absurd (not_fatal e),
        λ h. elim h [ inl over ↦ absurd (over b) | inr d ↦ absurd (IsFatalDecision-none _ n d) ],
      ))
      (λ d g b e. (
        λ h. inr ((IsFatalDecision-some_iff _ d e).1 ((acts d e).0 h)),
        λ h. elim h [
          | inl over ↦ absurd (over b)
          | inr stop ↦ (acts d e).1 ((IsFatalDecision-some_iff _ d e).0 stop)
        ],
      ))
  where
    not_fatal : ¬ ((apply_updates s (without_decision s)).phase ≡ Phase.fatal)
    not_fatal = λ e. without_decision-not-fatal s f e

    acts :
        (d : CriticDecisionState)
        → s.critic_decision ≡ some d
        → ((apply_updates s (dispatch s d d.decision)).phase ≡ Phase.fatal)
          ↔ (d.decision ≡ Verdict.fatal)
    acts d e = Acts-fatal_iff s _ d d.decision (dispatch-Acts s d d.decision e)

-- No counter is above its limit.
pub record IsWithin (c : AgentCounters) (l : AgentLimits) : Type 0 where
  pub turn : c.turn ≤ l.turns
  pub tool_calls : c.tool_calls ≤ l.tool_calls
  pub replans : c.replans ≤ l.replans
  pub step_retries : c.step_retries ≤ l.step_retries
  pub supervisor_fallbacks : c.supervisor_fallbacks ≤ l.supervisor_fallbacks

below-IsWithin : (c : AgentCounters) (l : AgentLimits) → IsBelow c l → IsWithin c l
below-IsWithin c l b = ground arith

Follows-counters :
    (s t : AgentState) (o : Option PlanStep) → Follows s t o → t.counters ≡ s.counters
Follows-counters s t none h = h.counters
Follows-counters s t (some step) h = h.counters

Acts-IsWithin :
    (s t : AgentState) (d : CriticDecisionState) (v : Verdict) (l : AgentLimits)
    → IsBelow s.counters l
    → Acts s d v t
    → IsWithin t.counters l
Acts-IsWithin s t d Verdict.advance l b h =
    rw (Follows-counters s t _ h) (below-IsWithin s.counters l b)
Acts-IsWithin s t d Verdict.complete l b h =
    rw (Follows-counters s t _ h) (below-IsWithin s.counters l b)
Acts-IsWithin s t d Verdict.retry_step l b h = ground arith
Acts-IsWithin s t d Verdict.replan l b h = ground arith
Acts-IsWithin s t d Verdict.fatal l b h = rw h.counters (below-IsWithin s.counters l b)

without_decision-IsWithin :
    (s : AgentState) (l : AgentLimits)
    → IsBelow s.counters l
    → IsWithin (apply_updates s (without_decision s)).counters l
unfolding apply_updates without_decision
without_decision-IsWithin s l b = ground arith

-- The router keeps every counter within its limit.
pub decision_router_node-IsWithin :
    (env : Env) (s : AgentState)
    → IsWithin s.counters (get_agent_limits env)
    → IsWithin (routed env s).counters (get_agent_limits env)
unfolding apply_updates fail_at_limit
decision_router_node-IsWithin env s h =
    decision_router_cases (λ u. IsWithin (apply_updates s u).counters limits) env s (λ t. h)
      (λ k f over. h) (λ f b n. without_decision-IsWithin s limits b)
      (λ d f b e. Acts-IsWithin s _ d d.decision limits b (dispatch-Acts s d d.decision e))
  where
    limits : AgentLimits
    limits = get_agent_limits env
