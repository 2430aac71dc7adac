-- ===== src/Sessions/Review/Decided.antt =====
-- What a decision on a plan does (src/modules/agents/services/plan-review.service.ts).
use nest_langgraph_ai.Prelude.{
  Text, ◌≡◌, ◌≢◌, refl, sym, ap, ◌∙◌, ◌⊎◌, inl, inr, true, false, Option, none, some, is_some,
  Bool-cases, Option-cases, arith,
}
use nest_langgraph_ai.State.Phase.{Phase}
use nest_langgraph_ai.State.Shape.{AgentState, ReviewRequest, PlanStep}
use nest_langgraph_ai.State.Updates.{apply_updates}
use nest_langgraph_ai.State.Transitions.{transition_to_phase, begin_execution_step, fail_agent_run}
use nest_langgraph_ai.Sessions.Errors.{ServiceError, bad_request, Outcome, done, failed}
use nest_langgraph_ai.Sessions.Ids.{is_session_id}
use nest_langgraph_ai.Sessions.Memory.{invalid_session}
use nest_langgraph_ai.Sessions.Review.{
  no_pending, asked_for, pending, first_step_update, reject_update, reject,
}

pub Outcome-cases {ℓ} :
    {A : Type ℓ} (o : Outcome A) → ((a : A) × (o ≡ done a)) ⊎ ((e : ServiceError) × (o ≡ failed e))
Outcome-cases (done a) = inl (a, refl)
Outcome-cases (failed e) = inr (e, refl)

done-injective {ℓ} : {A : Type ℓ} (a b : A) → done a ≡ done b → a ≡ b
done-injective a b h = cc

done-failed : {A : Type 0} (a : A) (e : ServiceError) → done a ≢ failed e
done-failed a e h = ground arith

-- A state with a pending review has a request, and its session a valid name.
pub pending-done :
    (id : Text) (saved : Option AgentState) (values : AgentState) (request : ReviewRequest)
    → pending id saved ≡ done (values, request)
    → (is_session_id id ≡ true) × (saved ≡ some values) × (values.review_request ≡ some request)
unfolding pending
pending-done id saved values request h = elim (Bool-cases (is_session_id id)) [
  | inr v ↦
      let gone : pending id saved ≡ failed (bad_request (invalid_session id)) =
        rw (v, pending) refl in
      absurd (done-failed (values, request) _ (sym h ∙ gone))
  | inl v ↦ elim (Option-cases saved) [
    | inl e ↦
        let gone : pending id saved ≡ failed no_pending = rw (v, e, pending) refl in
        absurd (done-failed (values, request) _ (sym h ∙ gone))
    | inr (found, e) ↦ elim (Option-cases found.review_request) [
      | inl f ↦
          let gone : pending id saved ≡ failed no_pending =
            rw (v, e, pending) (ap (asked_for found) f) in
          absurd (done-failed (values, request) _ (sym h ∙ gone))
      | inr (asked, f) ↦
          let found_done : pending id saved ≡ done (found, asked) =
            rw (v, e, pending) (ap (asked_for found) f) in
          let same : (found, asked) ≡ (values, request) =
            done-injective (found, asked) (values, request) (sym found_done ∙ h) in
          (
            v,
            e ∙ ap (λ p. some p.0) same,
            ap (λ p. p.0.review_request) (sym same) ∙ (f ∙ ap (λ p. some p.1) same),
          )
    ]
  ]
]

pending-valid :
    (id : Text) (values : AgentState) (request : ReviewRequest)
    → is_session_id id ≡ true
    → values.review_request ≡ some request
    → pending id (some values) ≡ done (values, request)
unfolding pending
pending-valid id values request v f = rw (v, pending) (ap (asked_for values) f)

-- A rejection of a pending review sets the phase to fatal and keeps the request and the plan, so the
-- review is still pending and the same plan can be approved.
pub reject-pending :
    (id : Text) (saved : Option AgentState) (values : AgentState) (request : ReviewRequest)
    → pending id saved ≡ done (values, request)
    → let after = apply_updates values reject_update in
      (reject id saved ≡ (done tt, some after))
      × (after.phase ≡ Phase.fatal)
      × (after.plan ≡ values.plan)
      × (pending id (some after) ≡ done (after, request))
unfolding reject reject_update fail_agent_run transition_to_phase apply_updates
reject-pending id saved values request h =
    let (valid, found, asked) = pending-done id saved values request h in
    (rw (h, reject) refl, refl, refl, pending-valid id _ request valid asked)

-- An approved plan begins at its first step, with the request cleared and the plan kept: as a group
-- where the step has one, and else with the step's tool.
pub record Begins (first : PlanStep) (before start : AgentState) : Type 0 where
  pub request : start.review_request ≡ none
  pub plan : start.plan ≡ before.plan
  pub step : start.current_step ≡ 0
  pub counters : start.counters ≡ before.counters
  pub phase :
      ((is_some first.parallel_group ≡ true) × (start.phase ≡ Phase.execute_parallel))
      ⊎ ((is_some first.parallel_group ≡ false)
          × (start.phase ≡ Phase.execute)
          × (start.selected_tool ≡ some first.tool)
          × (start.tool_params ≡ some first.input))

pub first_step_update-Begins :
    (first : PlanStep) (values : AgentState)
    → Begins first values (apply_updates values (first_step_update first))
unfolding first_step_update begin_execution_step transition_to_phase apply_updates
first_step_update-Begins first values = elim (Bool-cases (is_some first.parallel_group)) [
  | inl e ↦
      rw e (record {
        request = refl;
        plan = refl;
        step = refl;
        counters = refl;
        phase = inl (e, refl);
      })
  | inr e ↦ rw e (record {
    request = refl;
    plan = refl;
    step = refl;
    counters = refl;
    phase = inr (e, refl, refl, refl);
  })
]
