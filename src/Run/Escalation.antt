-- ===== src/Run/Escalation.antt =====
-- How an execution's outcome reaches the router through the normalizer and the critic
-- (src/modules/agents/nodes: execution, tool-result-normalizer, critic, decision-router).
use nest_langgraph_ai.Prelude.{
  Text, ◌≡◌, refl, ap, ◌∙◌, inl, inr, Bool, true, false, Option, none, some, List, codes,
  Option-cases,
}
use nest_langgraph_ai.Config.{get_agent_limits}
use nest_langgraph_ai.State.Shape.{AgentState, CriticDecisionState, Verdict}
use nest_langgraph_ai.State.Updates.{apply_updates}
use nest_langgraph_ai.Nodes.Services.{Services, ParallelStepResult}
use nest_langgraph_ai.Nodes.Execution.{fail_step, finish_step, execute_updates}
use nest_langgraph_ai.Nodes.Execution.Failures.{Fails, execute_updates-fail_step}
use nest_langgraph_ai.Nodes.Normalizing.{
  parallel_results, normalize_updates, normalize_single, normalize_parallel, judge_result,
}
use nest_langgraph_ai.Nodes.Normalizing.Verdicts.{envelope-error, normalize_parallel-is_ok}
use nest_langgraph_ai.Nodes.Judging.{decide}
use nest_langgraph_ai.Router.{is_ok_result}
use nest_langgraph_ai.Router.Limits.{IsBelow}
use nest_langgraph_ai.Router.Dispatch.{ReplannedTo, Acts, RetriedOrReplanned}
use nest_langgraph_ai.Router.Decisions.{routed, decision_router_node-Acts}

-- The state after the normalizer.
abbrev pub normalized : Services → AgentState → AgentState
normalized sv s = apply_updates s (normalize_updates sv s)

-- The state after the critic decided.
abbrev pub decided : Services → AgentState → CriticDecisionState → AgentState
decided sv s d = apply_updates (normalized sv s) (decide d)

error_step : (sv : Services) (s : AgentState) (m : Text) → AgentState
error_step sv s m = apply_updates s (fail_step s m)

-- No results of a group are pending.
abbrev IsSingle : Option Bool → Type 0
IsSingle (some true) = ⊥
IsSingle _ = Unit

parallel_results-single :
    (sv : Services) (s : AgentState) (o : Option Bool)
    → s.parallel_result ≡ o
    → IsSingle o
    → parallel_results sv s ≡ none
unfolding parallel_results
parallel_results-single sv s none e h = rw e refl
parallel_results-single sv s (some false) e h = rw e refl
parallel_results-single sv s (some true) e h = absurd h

fail_step-not_ok :
    (sv : Services) (s : AgentState) (m : Text)
    → IsSingle s.parallel_result
    → is_ok_result (normalized sv (apply_updates s (fail_step s m))).tool_result ≡ false
unfolding apply_updates normalize_updates normalize_single judge_result fail_step finish_step codes
fail_step-not_ok sv s m h =
    rw
      (
        parallel_results-single sv (apply_updates s (fail_step s m)) s.parallel_result refl h,
        normalize_updates,
      )
      (envelope-error sv _ _)

-- A step that fails, since its tool is unknown, throws or is too late, is a failure to the judge:
-- the normalized result is not ok, so that a decision to retry may be granted.
pub execute_updates-not_ok :
    (sv : Services) (s : AgentState) (m : Text)
    → Fails sv s m
    → IsSingle s.parallel_result
    → is_ok_result (normalized sv (apply_updates s (execute_updates sv s))).tool_result ≡ false
execute_updates-not_ok sv s m fails single =
    rw (execute_updates-fail_step sv s m fails) (fail_step-not_ok sv s m single)

not_retried :
    (s t : AgentState) (why : Option Text)
    → is_ok_result s.tool_result ≡ true
    → RetriedOrReplanned s why t
    → ReplannedTo s why t
not_retried s t why fine (inl (may, again)) = absurd (cc (fine, may.0))
not_retried s t why fine (inr (cannot, planned)) = planned

decided-is_ok :
    (sv : Services) (s : AgentState) (d : CriticDecisionState) (results : List ParallelStepResult)
    → parallel_results sv s ≡ some results
    → is_ok_result (decided sv s d).tool_result ≡ true
unfolding decide apply_updates
decided-is_ok sv s d results h =
    let (r, (e, fine)) = normalize_parallel-is_ok sv s results h in ap is_ok_result e ∙ fine

decided-counters :
    (sv : Services) (s : AgentState) (d : CriticDecisionState)
    → (decided sv s d).counters ≡ s.counters
unfolding decide apply_updates normalize_updates normalize_single normalize_parallel judge_result
decided-counters sv s d = elim (Option-cases (parallel_results sv s)) [
  | inl e ↦ rw (e, normalize_updates) refl
  | inr (rs, e) ↦ rw (e, normalize_updates) refl
]

Acts-retry :
    (s t : AgentState) (d : CriticDecisionState) (v : Verdict)
    → v ≡ Verdict.retry_step
    → Acts s d v t
    → RetriedOrReplanned s (some d.reason) t
Acts-retry s t d v e h = rw e at h

-- While no counter is at its limit, a retry that the critic asks for behind the results of a parallel
-- group makes the router plan again, with the critic's reason, even if every step of the group failed.
pub parallel_results-replanned :
    (sv : Services) (s : AgentState) (d : CriticDecisionState) (results : List ParallelStepResult)
    → parallel_results sv s ≡ some results
    → IsBelow s.counters (get_agent_limits sv.env)
    → d.decision ≡ Verdict.retry_step
    → ReplannedTo (decided sv s d) (some d.reason) (routed sv.env (decided sv s d))
unfolding decide apply_updates
parallel_results-replanned sv s d results h below retry =
    not_retried (decided sv s d) _ (some d.reason) (decided-is_ok sv s d results h) (
      Acts-retry (decided sv s d) _ d d.decision retry (
        decision_router_node-Acts sv.env (decided sv s d) d refl
          (rw (decided-counters sv s d) below) refl))
