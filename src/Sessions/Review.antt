-- ===== src/Sessions/Review.antt =====
-- Reviews of plans by the user, src/modules/agents/services/plan-review.service.ts.
pub mod Decided
pub mod Approved
use nest_langgraph_ai.Prelude.{
  Text, ℕ, Bool, true, false, Option, none, some, List, [], ◌∷◌, ◌++◌, codes, is_some, or_else,
  if◌then◌else◌, Settled, returned, threw,
}
use nest_langgraph_ai.Config.{Env}
use nest_langgraph_ai.State.Phase.{Phase}
use nest_langgraph_ai.State.Shape.{AgentState, AgentError, ErrorCode, PlanStep, ReviewRequest}
use nest_langgraph_ai.State.Updates.{put, Updates, no_updates, apply_updates}
use nest_langgraph_ai.State.Transitions.{transition_to_phase, begin_execution_step, fail_agent_run}
use nest_langgraph_ai.Redis.{Redis}
use nest_langgraph_ai.Saver.Threads.{set_vector_memory_ids}
use nest_langgraph_ai.Sessions.Errors.{
  ServiceError, bad_request, conflict, other, Outcome, done, failed,
}
use nest_langgraph_ai.Sessions.Ids.{is_session_id}
use nest_langgraph_ai.Sessions.Lock.{acquire_session_lock, release_session_lock}
use nest_langgraph_ai.Sessions.Memory.{invalid_session, try_load, persist}

-- `AgentRunResult`.
pub record AgentRunResult : Type 0 where
  pub result : Text
  pub session_id : Text
  pub review_request : Option ReviewRequest

-- `ReviewPageData`.
pub record ReviewPageData : Type 0 where
  pub session_id : Text
  pub objective : Text
  pub plan : List PlanStep

-- The graph's saved state of one session, if it has one, and the state of Redis.
pub record Session (S : Type 0) : Type 0 where
  pub saved : Option AgentState
  pub store : S

-- What a request meets: a fresh value for the lock, the times at which it begins and ends, whether
-- Redis is reached and written, the LLM and the clock's text for memory entries, `JSON.stringify` of
-- ids, and `app.invoke` on a state of the graph, which leaves a state saved and may write to Redis.
pub record Surroundings (S : Type 0) : Type 0 where
  pub redis : Redis S
  pub env : Env
  pub lock_value : Text
  pub begins : ℕ
  pub ends : ℕ
  pub reached : Bool
  pub written : Bool
  pub invoke_llm : Text → Settled Text
  pub timestamp : Text
  pub print_ids : List Text → Text
  pub invoke : AgentState → S → Settled AgentState × Session S

abbrev pub no_pending : ServiceError
no_pending = bad_request (codes "No pending plan review for this session.")

abbrev pub asked_for : AgentState → Option ReviewRequest → Outcome (AgentState × ReviewRequest)
asked_for values none = failed no_pending
asked_for values (some request) = done (values, request)

-- The saved state with the request that is pending, or why there is none.
unfoldable pub pending : Text → Option AgentState → Outcome (AgentState × ReviewRequest)
unfolding is_session_id invalid_session
pending id saved =
    if is_session_id id
    then elim saved [
      | none ↦ failed no_pending
      | some values ↦ asked_for values values.review_request
    ]
    else failed (bad_request (invalid_session id))

-- `getReviewPageData`.
unfoldable pub get_review_page_data : Text → Option AgentState → Outcome ReviewPageData
unfolding pending
get_review_page_data id saved = elim (pending id saved) [
  | failed e ↦ failed e
  | done p ↦ done (record {
    session_id = id;
    objective = or_else p.1.objective (codes "(no objective set)");
    plan = p.1.plan;
  })
]

-- How an approved plan begins.
unfoldable pub first_step_update : PlanStep → Updates
unfolding transition_to_phase begin_execution_step
first_step_update first =
    if is_some first.parallel_group
    then transition_to_phase Phase.execute_parallel
        (record no_updates { current_step = put 0; review_request = put none })
    else begin_execution_step first 0 (record no_updates { review_request = put none })

unfoldable pub replan_update : Updates
unfolding transition_to_phase
replan_update =
    transition_to_phase Phase.research
      (record no_updates { review_request = put none; plan = put [] })

unfoldable pub reject_update : Updates
unfolding fail_agent_run
reject_update = fail_agent_run (codes "Plan rejected by user.") (
    some (record {
      code = ErrorCode.unknown;
      message = codes "User rejected the plan";
      at_phase = Phase.await_plan_review;
      missing_capabilities = none;
    }))

-- `reject`.
unfoldable pub reject : Text → Option AgentState → Outcome (Unit {0}) × Option AgentState
unfolding pending reject_update
reject id saved = elim (pending id saved) [
  | failed e ↦ (failed e, saved)
  | done p ↦ (done tt, some (apply_updates p.0 reject_update))
]

abbrev pub approved : Text → AgentState → AgentRunResult
approved id r = record {
  result = or_else r.final_answer (codes "Completed.");
  session_id = id;
  review_request = none;
}

abbrev pub replanned : Text → AgentState → AgentRunResult
replanned id r = elim (r.review_request) [
  | none ↦ approved id r
  | some request ↦ record {
    result = codes "New plan ready for review.";
    session_id = id;
    review_request = some request;
  }
]

-- The ids that a run leaves, stored if there are any.
unfoldable pub store_ids : {S : Type 0} → Surroundings S → Text → AgentState → S → S
unfolding set_vector_memory_ids
store_ids w id r s = elim (or_else r.vector_memory_ids []) [
  | [] ↦ s
  | i ∷ ids ↦ set_vector_memory_ids w.redis w.env w.print_ids w.ends id (i ∷ ids) s
]

module _ {S : Type 0} (w : Surroundings S) (id : Text) where
  -- The graph goes on from a state, and its result is remembered.
  unfoldable pub resume_from :
      (AgentState → AgentRunResult)
      → (values start : AgentState) → S
      → Outcome AgentRunResult × Session S
  unfolding persist try_load store_ids
  resume_from answer values start s =
      let previous = try_load w.redis w.env w.reached w.begins id s in
      let (o, after) = w.invoke start s in
      elim o [
        | threw message ↦ (failed (other message), after)
        | returned r ↦ (
          done (answer r),
          record after {
            store = store_ids w id r (
                persist w.redis w.env w.invoke_llm w.timestamp w.written w.ends id
                  (or_else values.objective values.input) r previous after.store);
          },
        )
      ]

  -- The same under the session's lock, which is released however it ends.
  unfoldable pub resume_locked :
      (AgentState → AgentRunResult)
      → AgentState
      → Updates
      → Session S
      → Outcome AgentRunResult × Session S
  unfolding acquire_session_lock release_session_lock resume_from
  resume_locked answer values update before =
      let (acquired, locked) = acquire_session_lock w.redis w.begins id w.lock_value before.store in
      let (o, after) = resume_from answer values (apply_updates values update) locked in
      if acquired
      then (
        o,
        record after { store = release_session_lock w.redis w.ends id w.lock_value after.store },
      )
      else (
        failed (
            conflict (
              codes "Session "
              ++ (id
                  ++ codes
                      " is already being processed. Please wait for the current request to complete."))),
        record before { store = locked },
      )

  -- An approval of the plan of a state with a pending review.
  unfoldable pub approve_plan :
      AgentState → List PlanStep → Session S → Outcome AgentRunResult × Session S
  unfolding resume_locked first_step_update
  approve_plan values [] before =
      (failed (bad_request (codes "Session has an empty plan.")), before)
  approve_plan values (first ∷ more) before =
      resume_locked (approved id) values (first_step_update first) before

  -- `approve`.
  unfoldable pub approve : Session S → Outcome AgentRunResult × Session S
  unfolding pending approve_plan
  approve before = elim (pending id before.saved) [
    | failed e ↦ (failed e, before)
    | done p ↦ approve_plan p.0 p.0.plan before
  ]

  -- `replan`.
  unfoldable pub replan : Session S → Outcome AgentRunResult × Session S
  unfolding pending resume_locked replan_update
  replan before = elim (pending id before.saved) [
    | failed e ↦ (failed e, before)
    | done p ↦ resume_locked (replanned id) p.0 replan_update before
  ]
