-- ===== src/Run/Judged.antt =====
-- The cycles of the critic, the research branches and the terminal node.
use nest_langgraph_ai.Prelude.{
  ℕ, ◌-◌, ◌<◌, ◌≡◌, refl, inl, false, none, some, length, arith, error, bubble_up, Result, ok, err,
}
use nest_langgraph_ai.State.Phase.{Phase, phase_eq}
use nest_langgraph_ai.State.Shape.{AgentState, CriticDecisionState}
use nest_langgraph_ai.State.Updates.{Updates, no_updates, apply_updates}
use nest_langgraph_ai.State.Transitions.{complete_agent_run, transition_to_phase}
use nest_langgraph_ai.Nodes.Services.{Services}
use nest_langgraph_ai.Nodes.Judging.{decide}
use nest_langgraph_ai.Nodes.Judging.Decisions.{IsDecision, critic-IsDecision}
use nest_langgraph_ai.Nodes.Planning.{researcher_coordinator_node, research_join_node}
use nest_langgraph_ai.Nodes.Researching.{
  research_fs_node, research_vector_node, research_fs_updates, research_vector_updates,
}
use nest_langgraph_ai.Nodes.Terminal.{terminal_response_node}
use nest_langgraph_ai.Topology.{NodeName, node_error, raw_handler, safe_node_handler, node_handler}
use nest_langgraph_ai.Run.Measure.{weight, weight_of, measure, Effect}
use nest_langgraph_ai.Run.Effects.{OnOk, fail-Effect}
use nest_langgraph_ai.Run.Routing.{undecided-Lands, decided-Lands, judged_bound}
use nest_langgraph_ai.Run.{paused, after, route_from, research_cycle}
use nest_langgraph_ai.Run.Progress.{
  turns_of, Progress, route-Progress, settled-Lands, Effect-Progress, node-Progress,
}

-- Behind the critic: a decision for the router, or a fatal update.
decide-Progress :
    (sv : Services) (s : AgentState) (d : CriticDecisionState)
    → s.phase ≡ Phase.judge
    → Progress (turns_of sv) (measure (turns_of sv) s) (route_from sv (apply_updates s (decide d)))
unfolding decide apply_updates
decide-Progress sv s d e =
    route-Progress sv (apply_updates s (decide d)) (judged_bound (turns_of sv) s) _
      (decided-Lands sv.env (apply_updates s (decide d)) d refl refl) (ground arith)

critic-Progress_from :
    (sv : Services) (s : AgentState) (r : Result Updates)
    → s.critic_decision ≡ none
    → s.phase ≡ Phase.judge
    → IsDecision r
    → Progress
        (turns_of sv)
        (measure (turns_of sv) s)
        (after (safe_node_handler NodeName.critic s r) s (route_from sv) paused)
unfolding safe_node_handler
critic-Progress_from sv s (ok u) used e (d, same) = rw same (decide-Progress sv s d e)
critic-Progress_from sv s (err bubble_up) used e h = tt
critic-Progress_from sv s (err (error m)) used e h =
    Effect-Progress sv s (ok _) used (fail-Effect s _ (some (node_error s m)) (ground arith))

pub critic-Progress :
    (sv : Services) (s : AgentState)
    → s.critic_decision ≡ none
    → s.phase ≡ Phase.judge
    → Progress
        (turns_of sv)
        (measure (turns_of sv) s)
        (after (node_handler sv false NodeName.critic s) s (route_from sv) paused)
unfolding node_handler
critic-Progress sv s used e = critic-Progress_from sv s _ used e (critic-IsDecision sv s)

-- The state behind the join of the two research branches.
pub joined : Services → AgentState → AgentState
joined sv s =
    apply_updates
      (apply_updates (apply_updates s (research_fs_updates sv s)) (research_vector_updates sv s))
      (transition_to_phase Phase.plan no_updates)

pub research_cycle-joined :
    (sv : Services) (s : AgentState) → research_cycle sv s ≡ route_from sv (joined sv s)
unfolding research_cycle node_handler research_fs_node research_vector_node
    researcher_coordinator_node research_join_node apply_updates joined
research_cycle-joined sv s = refl

joined-lighter :
    (sv : Services) (s : AgentState) (turns : ℕ)
    → s.phase ≡ Phase.research
    → measure turns (joined sv s) < measure turns s
unfolding joined apply_updates research_fs_updates research_vector_updates transition_to_phase
joined-lighter sv s turns e = ground arith

joined-used :
    (sv : Services) (s : AgentState)
    → s.critic_decision ≡ none
    → (joined sv s).critic_decision ≡ none
unfolding joined apply_updates research_fs_updates research_vector_updates transition_to_phase
joined-used sv s used = used

joined-elsewhere :
    (sv : Services) (s : AgentState) → phase_eq (joined sv s).phase Phase.route ≡ false
unfolding joined apply_updates transition_to_phase
joined-elsewhere sv s = refl

-- The research branches run, and the join moves on to planning.
pub research-Progress :
    (sv : Services) (s : AgentState)
    → s.critic_decision ≡ none
    → s.phase ≡ Phase.research
    → Progress (turns_of sv) (measure (turns_of sv) s) (research_cycle sv s)
research-Progress sv s used e = rw (research_cycle-joined sv s) (
    route-Progress sv (joined sv s) (measure (turns_of sv) (joined sv s)) _
      (undecided-Lands sv.env (joined sv s) (joined-used sv s used) (joined-elsewhere sv s))
      (joined-lighter sv s (turns_of sv) e))

pub join-Effect :
    (s : AgentState) → s.phase ≡ Phase.research_join → OnOk (Effect s) (research_join_node s)
unfolding research_join_node transition_to_phase
join-Effect s e = ground arith

-- A node that the phase selects, by its effect.
pub phase-Progress :
    (sv : Services) (n : NodeName) (s : AgentState) (p : Phase)
    → s.critic_decision ≡ none
    → s.phase ≡ p
    → (1 < weight p (length s.plan - s.current_step))
    → OnOk (Effect s) (raw_handler sv false n s)
    → Progress
        (turns_of sv)
        (measure (turns_of sv) s)
        (after (node_handler sv false n s) s (route_from sv) paused)
phase-Progress sv n s p used e w h = node-Progress sv n s used (rw e w) h

-- The terminal node ends the run; a fatal run may still hold the critic's decision.
pub terminal-Progress :
    (sv : Services) (s : AgentState)
    → 0 < weight_of s
    → Progress
        (turns_of sv)
        (measure (turns_of sv) s)
        (after (node_handler sv false NodeName.terminal_response s) s (route_from sv) paused)
unfolding node_handler raw_handler safe_node_handler terminal_response_node complete_agent_run
    apply_updates transition_to_phase
terminal-Progress sv s h =
    route-Progress sv _ _ _ (settled-Lands sv.env _ (inl refl) refl) (omega (arith, h))
