-- ===== src/Run/Routing.antt =====
-- The router's effect on the measure, and what every cycle keeps.
use nest_langgraph_ai.Prelude.{
  ℕ, ◌+◌, ◌-◌, ◌*◌, ◌≤◌, ◌<◌, ◌≡◌, refl, ◌⊎◌, inl, inr, Bool, true, false, Option, none, some,
  length, Bool-cases, Option-cases, get_elem?, get_elem?-lt, arith, Text,
}
use nest_langgraph_ai.Config.{Env, get_agent_limits}
use nest_langgraph_ai.State.Phase.{Phase, phase_eq}
use nest_langgraph_ai.State.Shape.{AgentState, CriticDecisionState, Verdict}
use nest_langgraph_ai.State.Updates.{Updates, no_updates, apply_updates}
use nest_langgraph_ai.Router.{
  LimitCheck, is_terminal, without_decision, dispatch, advance_to_next_step, handle_replan,
  handle_fatal, handle_retry_step, must_replan, handle_complete, fail_at_limit,
  decision_router_node,
}
use nest_langgraph_ai.Router.Limits.{decision_router_cases}
use nest_langgraph_ai.Run.Measure.{weight, measure}

-- Between two cycles the critic's decision has been used up, or the run is at its end.
abbrev pub IsSettled : AgentState → Type 0
IsSettled s = (is_terminal s.phase ≡ true) ⊎ (s.critic_decision ≡ none)

-- The update leaves a settled state that is lighter than the bound `m`.
abbrev pub Lands : ℕ → ℕ → AgentState → Updates → Type 0
Lands turns m s u = IsSettled (apply_updates s u) × (measure turns (apply_updates s u) ≤ m)

weight_pos : (p : Phase) (r : ℕ) → is_terminal p ≡ false → 1 ≤ weight p r
weight_pos p r h = ground arith

fail-Lands :
    (turns : ℕ) (s : AgentState) (k : LimitCheck)
    → is_terminal s.phase ≡ false
    → Lands turns (measure turns s) s (fail_at_limit k)
unfolding fail_at_limit apply_updates
fail-Lands turns s k h =
    (inl refl, omega (arith, weight_pos s.phase (length s.plan - s.current_step) h))

without-Lands :
    (turns : ℕ) (s : AgentState)
    → s.critic_decision ≡ none
    → phase_eq s.phase Phase.route ≡ false
    → Lands turns (measure turns s) s (without_decision s)
unfolding without_decision apply_updates
without-Lands turns s u h = rw h (inr u, omega arith)

pub stay-Lands :
    (turns : ℕ) (s : AgentState)
    → is_terminal s.phase ≡ true
    → Lands turns (measure turns s) s no_updates
unfolding apply_updates
stay-Lands turns s t = (inl t, omega arith)

-- Behind a node that is not the critic.
pub undecided-Lands :
    (env : Env) (s : AgentState)
    → s.critic_decision ≡ none
    → phase_eq s.phase Phase.route ≡ false
    → Lands env.agent_max_iterations
        (measure env.agent_max_iterations s)
        s
        (decision_router_node env s)
undecided-Lands env s used elsewhere =
    decision_router_cases (Lands turns (measure turns s) s) env s (stay-Lands turns s)
      (λ k f over. fail-Lands turns s k f) (λ f b u. without-Lands turns s used elsewhere)
      (λ d f b e. absurd (cc))
  where
    turns : ℕ
    turns = env.agent_max_iterations

-- What a judged state may weigh when the router has acted on the decision.
abbrev pub judged_bound : ℕ → AgentState → ℕ
judged_bound turns s = (turns - s.counters.turn) * 100 + (2 + (length s.plan - s.current_step) * 4)

advance-Lands :
    (turns : ℕ) (s : AgentState)
    → Lands turns (judged_bound turns s) s (advance_to_next_step s.plan s.current_step)
unfolding advance_to_next_step apply_updates
advance-Lands turns s = elim (Option-cases (get_elem? s.plan (s.current_step + 1))) [
  | inl e ↦ rw (e, advance_to_next_step) (ground arith)
  | inr (step, e) ↦
      rw (e, advance_to_next_step) (ground (arith, get_elem?-lt s.plan (s.current_step + 1) e))
]

complete-Lands :
    (turns : ℕ) (s : AgentState) (b : Bool)
    → Lands turns (judged_bound turns s) s (handle_complete s.plan s.current_step b)
unfolding handle_complete apply_updates
complete-Lands turns s true = ground arith
complete-Lands turns s false = advance-Lands turns s

fatal-Lands :
    (turns : ℕ) (s : AgentState) (d : CriticDecisionState)
    → Lands turns (judged_bound turns s) s (handle_fatal d)
unfolding handle_fatal apply_updates
fatal-Lands turns s d = ground arith

replan-Lands :
    (turns : ℕ) (s : AgentState) (reason : Option Text)
    → s.counters.turn < turns
    → Lands turns (judged_bound turns s) s (handle_replan s.counters reason)
unfolding handle_replan apply_updates
replan-Lands turns s reason h = ground arith

retry-Lands :
    (turns : ℕ) (s : AgentState)
    → s.counters.turn < turns
    → Lands turns (judged_bound turns s) s (handle_retry_step s s.counters)
unfolding handle_retry_step apply_updates
retry-Lands turns s h = elim (Bool-cases (must_replan s s.counters)) [
  | inl e ↦ rw (e, handle_retry_step) (ground arith)
  | inr e ↦ rw (e, handle_retry_step) (ground arith)
]

limit-Lands :
    (turns : ℕ) (s : AgentState) (k : LimitCheck)
    → Lands turns (judged_bound turns s) s (fail_at_limit k)
unfolding fail_at_limit apply_updates
limit-Lands turns s k = (inl refl, omega arith)

dispatch-Lands :
    (turns : ℕ) (s : AgentState) (d : CriticDecisionState) (v : Verdict)
    → s.counters.turn < turns
    → Lands turns (judged_bound turns s) s (dispatch s d v)
unfolding dispatch
dispatch-Lands turns s d Verdict.advance h = advance-Lands turns s
dispatch-Lands turns s d Verdict.retry_step h = retry-Lands turns s h
dispatch-Lands turns s d Verdict.replan h = replan-Lands turns s _ h
dispatch-Lands turns s d Verdict.complete h = complete-Lands turns s _
dispatch-Lands turns s d Verdict.fatal h = fatal-Lands turns s d

-- Behind the critic.
pub decided-Lands :
    (env : Env) (s : AgentState) (d : CriticDecisionState)
    → s.phase ≡ Phase.route
    → s.critic_decision ≡ some d
    → Lands env.agent_max_iterations
        (judged_bound env.agent_max_iterations s)
        s
        (decision_router_node env s)
unfolding get_agent_limits
decided-Lands env s d e u =
    decision_router_cases (Lands turns (judged_bound turns s) s) env s (λ t. absurd (ground arith))
      (λ k f over. limit-Lands turns s k) (λ f b n. absurd (cc))
      (λ d' f b n. dispatch-Lands turns s d' d'.decision b.turn)
  where
    turns : ℕ
    turns = env.agent_max_iterations
