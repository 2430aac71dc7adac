-- ===== src/Run/Progress.antt =====
-- What a cycle achieves, and that a node with an effect achieves it.
use nest_langgraph_ai.Prelude.{
  ℕ, ◌-◌, ◌*◌, ◌<◌, ◌≡◌, ap, ◌∙◌, inl, inr, false, none, some, arith, error, bubble_up, Result, ok,
  err,
}
use nest_langgraph_ai.Config.{Env}
use nest_langgraph_ai.State.Phase.{Phase, phase_eq}
use nest_langgraph_ai.State.Shape.{AgentState}
use nest_langgraph_ai.State.Updates.{Updates, apply_updates}
use nest_langgraph_ai.Nodes.Services.{Services}
use nest_langgraph_ai.Router.{decision_router_node}
use nest_langgraph_ai.Topology.{NodeName, node_error, raw_handler, safe_node_handler, node_handler}
use nest_langgraph_ai.Run.Measure.{weight_of, measure, Effect}
use nest_langgraph_ai.Run.Effects.{OnOk, fail-Effect}
use nest_langgraph_ai.Run.Routing.{IsSettled, Lands, stay-Lands, undecided-Lands}
use nest_langgraph_ai.Run.{Outcome, completed, paused, running, after, route_from}

abbrev pub turns_of : Services → ℕ
turns_of sv = sv.env.agent_max_iterations

-- One cycle from a state that is lighter than `m`: the end, a pause, or a settled lighter state.
abbrev pub Progress : ℕ → ℕ → Outcome → Type 0
Progress turns m (completed t) = t.phase ≡ Phase.complete
Progress turns m (paused t) = Unit
Progress turns m (running t) = IsSettled t × (measure turns t < m)

pub route-Progress :
    (sv : Services) (s : AgentState) (b m : ℕ)
    → Lands (turns_of sv) b s (decision_router_node sv.env s)
    → b < m
    → Progress (turns_of sv) m (route_from sv s)
unfolding route_from node_handler
route-Progress sv s b m (settled, light) h = (settled, omega arith)

pub settled-Lands :
    (env : Env) (s : AgentState)
    → IsSettled s
    → phase_eq s.phase Phase.route ≡ false
    → Lands env.agent_max_iterations
        (measure env.agent_max_iterations s)
        s
        (decision_router_node env s)
unfolding decision_router_node
settled-Lands env s (inl t) e =
    rw (t, decision_router_node) (stay-Lands env.agent_max_iterations s t)
settled-Lands env s (inr u) e = undecided-Lands env s u e

-- Behind a node with an effect.
pub Effect-Progress :
    (sv : Services) (s : AgentState) (r : Result Updates)
    → s.critic_decision ≡ none
    → OnOk (Effect s) r
    → Progress (turns_of sv) (measure (turns_of sv) s) (after r s (route_from sv) paused)
unfolding apply_updates
Effect-Progress sv s (err e) used h = tt
Effect-Progress sv s (ok u) used h =
    route-Progress sv (apply_updates s u) (measure (turns_of sv) (apply_updates s u)) _
      (undecided-Lands sv.env (apply_updates s u) (h.decision ∙ used) h.elsewhere)
      (omega (arith, h.lighter, ap (λ t. (turns_of sv - t) * 100) h.turn))

pub safe-Effect :
    (n : NodeName) (s : AgentState) (r : Result Updates)
    → 1 < weight_of s
    → OnOk (Effect s) r
    → OnOk (Effect s) (safe_node_handler n s r)
unfolding safe_node_handler
safe-Effect n s (ok u) w h = h
safe-Effect n s (err bubble_up) w h = tt
safe-Effect n s (err (error m)) w h = fail-Effect s _ (some (node_error s m)) w

pub node-Progress :
    (sv : Services) (n : NodeName) (s : AgentState)
    → s.critic_decision ≡ none
    → 1 < weight_of s
    → OnOk (Effect s) (raw_handler sv false n s)
    → Progress
        (turns_of sv)
        (measure (turns_of sv) s)
        (after (node_handler sv false n s) s (route_from sv) paused)
unfolding node_handler
node-Progress sv n s used w h = Effect-Progress sv s _ used (safe-Effect n s _ w h)
