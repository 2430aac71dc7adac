-- ===== src/Service/Stream.antt =====
-- A request whose events are streamed, `streamRun` of src/modules/agents/agents.service.ts.
pub mod Events
use nest_langgraph_ai.Prelude.{
  Text, ℕ, Bool, true, false, not, ◌&&◌, ◌||◌, Option, none, some, List, [], ◌∷◌, ◌++◌, codes, map,
  decimal, text_eq, includes, is_empty, some_of, is_some, or_else, if◌then◌else◌, Settled, returned,
  threw,
}
use nest_langgraph_ai.Config.{Env}
use nest_langgraph_ai.State.Phase.{
  Phase, phase_eq, phase_text, supervisor, research, validate_plan, generate, chat, fatal_recovery,
  execute, normalize_tool_result, plan, complete, fatal, await_plan_review,
}
use nest_langgraph_ai.State.Shape.{AgentState, PlanStep, ReviewRequest}
use nest_langgraph_ai.State.Updates.{Change, keep, put, Updates}
use nest_langgraph_ai.State.Initial.{create_initial_agent_run_state}
use nest_langgraph_ai.Llm.Models.{select_model_for_phase}
use nest_langgraph_ai.Sessions.Errors.{ServiceError, conflict, other, Outcome, done, failed}
use nest_langgraph_ai.Sessions.Lock.{acquire_session_lock, release_session_lock}
use nest_langgraph_ai.Sessions.Memory.{preview, try_load, persist}
use nest_langgraph_ai.Sessions.Review.{Session, Surroundings, store_ids}
use nest_langgraph_ai.Service.Run.{Host, filled_or, run_answer, thread_of, ids_failure}
use nest_langgraph_ai.Service.Emitting.{
  EventType, StreamEvent, GraphEvent, Printers, plain, said, first_of, model_choice, model_events,
  phase_choices, phase_events, token_events, event_events, model_after, graph_events, last_event,
  error_detail, error_event,
}

-- A whole stream of the graph: its events, the tokens behind the last one, the error that ends it, if
-- one does (and whether it is an `AbortError`), and the session that it leaves.
pub record GraphStream (S : Type 0) : Type 0 where
  pub events : List GraphEvent
  pub rest : List Text
  pub failure : Option (Text × Bool)
  pub session : Session S

module _ {S : Type 0} (h : Host S) (print : Printers) (prompt : Text) where
  -- The updates that a streamed run begins with.
  unfoldable pub stream_start :
      (id : Text) → Option Text → Option (List Phase) → Option (List Text) → Updates
  unfolding create_initial_agent_run_state
  stream_start id memory phases images = create_initial_agent_run_state prompt (record {
    session_memory = memory;
    session_id = some id;
    has_on_token = true;
    stream_phases = phases;
    images = images;
  })

  -- What follows the graph's last event: the event of the saved state, the memory entry and the ids.
  -- An error of the ids is one more event.
  unfoldable pub closing_of :
      (id : Text) → Option Text → GraphStream S → Option AgentState → List StreamEvent × Session S
  unfolding last_event ids_failure persist store_ids error_detail
  closing_of id memory g none = (last_event h.surroundings.env print id none ∷ [], g.session)
  closing_of id memory g (some values) =
      let w = h.surroundings in
      let kept =
        persist w.redis w.env w.invoke_llm w.timestamp w.written w.ends id prompt values memory
          g.session.store in
      let ended = last_event w.env print id (some values) in
      elim (ids_failure h prompt values) [
        | some message ↦ (
          ended ∷ error_event w.env print id (message, false) ∷ [],
          record g.session { store = kept },
        )
        | none ↦ (ended ∷ [], record g.session { store = store_ids w id values kept })
      ]

  unfoldable pub closing : (id : Text) → Option Text → GraphStream S → List StreamEvent × Session S
  unfolding closing_of
  closing id memory g = closing_of id memory g g.session.saved

  -- What `try` encloses, with the error event that its `catch` yields.
  unfoldable pub stream_body :
      (id : Text) → Option Text → GraphStream S → List StreamEvent × Session S
  unfolding graph_events token_events closing error_detail
  stream_body id memory g =
      let w = h.surroundings in
      let begun =
        plain EventType.status (codes "Starting agent execution...") id false
        ∷ graph_events w.env print id none g.events in
      let (closed, after) = closing id memory g in
      elim (g.failure) [
        | some e ↦ (begun ++ (error_event w.env print id e ∷ []), g.session)
        | none ↦ (begun ++ (token_events w.env print id g.rest ++ closed), after)
      ]

  -- `streamRun` where Redis answers the acquisition.
  unfoldable pub stream_locked :
      Option Text
      → Option (List Phase)
      → Option (List Text)
      → (Updates → Session S → GraphStream S)
      → Session S
      → Outcome (List StreamEvent) × Session S
  unfolding acquire_session_lock release_session_lock try_load stream_body stream_start thread_of
  stream_locked session_id phases images stream before =
      let w = h.surroundings in
      let id = thread_of h prompt session_id in
      let (acquired, locked) = acquire_session_lock w.redis w.begins id w.lock_value before.store in
      let memory = try_load w.redis w.env w.reached w.begins id locked in
      let g = stream (stream_start id memory phases images) (record before { store = locked }) in
      let (events, after) = stream_body id memory g in
      if acquired
      then (
        done events,
        record after { store = release_session_lock w.redis w.ends id w.lock_value after.store },
      )
      else (
        failed (
            conflict (
              codes "Session "
              ++ (id
                  ++ codes
                      " is already being processed. Please wait for the current request to complete."))),
        record before { store = locked },
      )

  -- `streamRun`, where the lock's release reaches Redis and the caller reads all events. The
  -- acquisition is outside `try`.
  unfoldable pub stream_run :
      Option Text
      → Option (List Phase)
      → Option (List Text)
      → (Updates → Session S → GraphStream S)
      → Session S
      → Outcome (List StreamEvent) × Session S
  unfolding stream_locked
  stream_run session_id phases images stream before = elim (h.lock_error) [
    | some message ↦ (failed (other message), before)
    | none ↦ stream_locked session_id phases images stream before
  ]
