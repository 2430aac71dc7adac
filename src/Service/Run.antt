-- ===== src/Service/Run.antt =====
-- One request to the agent, `run` of src/modules/agents/agents.service.ts.
pub mod Ended
use nest_langgraph_ai.Prelude.{
  Text, ℕ, ◌*◌, Bool, true, false, Option, none, some, List, [], ◌∷◌, ◌++◌, codes, decimal, ltb,
  is_empty, or_else, if◌then◌else◌, Settled, returned, threw,
}
use nest_langgraph_ai.Config.{Env}
use nest_langgraph_ai.State.Shape.{AgentState}
use nest_langgraph_ai.State.Updates.{Updates}
use nest_langgraph_ai.State.Initial.{create_initial_agent_run_state}
use nest_langgraph_ai.Sessions.Errors.{
  ServiceError, bad_request, conflict, internal, other, Outcome, done, failed,
}
use nest_langgraph_ai.Sessions.Lock.{acquire_session_lock, release_session_lock}
use nest_langgraph_ai.Sessions.Memory.{try_load, persist}
use nest_langgraph_ai.Sessions.Review.{AgentRunResult, Session, Surroundings, store_ids}
use nest_langgraph_ai.Service.Cache.{Hashes, build_cache_key}

-- What a run meets beside a plan review's surroundings: a fresh session id, the hashes and the
-- repository's fingerprint, the graph on the updates of a new run, whether the timer fires before it
-- ends, and the errors of Redis where the source does not catch them on the spot: at the lock's
-- acquisition, the cache's read, its write and the write of the ids. A command that fails has no effect.
pub record Host (S : Type 0) : Type 0 where
  pub surroundings : Surroundings S
  pub new_id : Text
  pub hashes : Hashes
  pub git_hash : Text
  pub run_graph : Updates → Session S → Settled AgentState × Session S
  pub timed_out : Bool
  pub lock_error : Option Text
  pub read_error : Option Text
  pub write_error : Option Text
  pub ids_error : Option Text

unfoldable pub graph_timeout_ms : Env → ℕ
graph_timeout_ms env =
    let all_turns = env.mistral_timeout_ms * env.agent_max_iterations * 4 in
    if ltb all_turns 300000 then all_turns else 300000

-- `a || b`.
abbrev pub filled_or : Option Text → Option Text → Option Text
filled_or none b = b
filled_or (some []) b = b
filled_or (some (c ∷ t)) b = some (c ∷ t)

-- The answer of a run; `none` where no part of it has any text.
unfoldable pub run_answer : AgentState → Option Text
run_answer r = filled_or r.final_answer (
    filled_or (elim (r.tool_result) [ none ↦ none | some result ↦ some result.preview ])
      (filled_or r.tool_result_raw none))

-- The errors that leave a request: NestJS's own, and all others wrapped in one.
unfoldable pub to_http_error {ℓ} : {A : Type ℓ} → Outcome A → Outcome A
to_http_error (failed (other message)) =
    failed (internal (codes "Agent execution failed: " ++ message))
to_http_error o = o

module _ {S : Type 0} (h : Host S) (prompt : Text) where
  -- The graph's end; the timer may end the wait, and the graph goes on on its own.
  unfoldable pub awaited :
      (id : Text) → Option Text → Option (List Text) → Session S → Settled AgentState × Session S
  unfolding graph_timeout_ms create_initial_agent_run_state
  awaited id memory images before =
      let (o, after) =
        h.run_graph
          (create_initial_agent_run_state prompt (record {
            session_memory = memory;
            session_id = some id;
            has_on_token = false;
            stream_phases = none;
            images = images;
          }))
          before in
      if h.timed_out
      then (
        threw (
            codes "Agent timed out after "
            ++ (decimal (graph_timeout_ms h.surroundings.env) ++ codes "ms")),
        after,
      )
      else (o, after)

  -- The ids of a run, where Redis takes them: an error is thrown on, if there is anything to write.
  unfoldable pub ids_failure : AgentState → Option Text
  ids_failure r = elim (or_else r.vector_memory_ids []) [ [] ↦ none | i ∷ ids ↦ h.ids_error ]

  -- What follows an answer: the cached result, the memory entry and the ids.
  unfoldable pub remember :
      (id key answer : Text)
      → AgentState
      → Option Text
      → Session S
      → Outcome AgentRunResult × Session S
  unfolding persist store_ids ids_failure
  remember id key answer r memory after =
      let w = h.surroundings in
      let cached = w.redis.set w.ends key answer (some w.env.cache_ttl_seconds) after.store in
      let kept =
        persist w.redis w.env w.invoke_llm w.timestamp w.written w.ends id prompt r memory cached in
      elim (ids_failure r) [
        | some message ↦ (failed (other message), record after { store = kept })
        | none ↦ (
          done (record { result = answer; session_id = id; review_request = none }),
          record after { store = store_ids w id r kept },
        )
      ]

  -- The answer of a run that ended, and what is stored.
  unfoldable pub finish :
      (id key : Text) → AgentState → Option Text → Session S → Outcome AgentRunResult × Session S
  unfolding run_answer remember
  finish id key r memory after = elim (run_answer r) [
    | none ↦ (
      failed
          (internal (codes "The agent could not produce an answer. Try rephrasing your prompt.")),
      after,
    )
    | some answer ↦ elim (h.write_error) [
      | some message ↦ (failed (other message), after)
      | none ↦ remember id key answer r memory after
    ]
  ]

  -- A run whose result is not cached.
  unfoldable pub run_fresh :
      (id key : Text)
      → Option Text
      → Option (List Text)
      → Session S
      → Outcome AgentRunResult × Session S
  unfolding awaited finish
  run_fresh id key memory images before =
      let (o, after) = awaited id memory images before in
      elim o [
        | threw message ↦ (failed (other message), after)
        | returned r ↦ finish id key r memory after
      ]

  -- What `try` encloses.
  unfoldable pub run_body :
      (id : Text) → Option (List Text) → Session S → Outcome AgentRunResult × Session S
  unfolding try_load build_cache_key run_fresh
  run_body id images before =
      let w = h.surroundings in
      let memory = try_load w.redis w.env w.reached w.begins id before.store in
      let key = build_cache_key h.hashes h.git_hash prompt memory images in
      elim (h.read_error) [
        | some message ↦ (failed (other message), before)
        | none ↦ elim (filled_or (w.redis.get w.begins key before.store) none) [
          | some cached ↦
              (done (record { result = cached; session_id = id; review_request = none }), before)
          | none ↦ run_fresh id key memory images before
        ]
      ]

  -- `sessionId || uuidv4()`.
  unfoldable pub thread_of : Option Text → Text
  thread_of session_id = or_else (filled_or session_id none) h.new_id

  -- `run` where Redis answers the acquisition.
  unfoldable pub run_locked :
      Option Text → Option (List Text) → Session S → Outcome AgentRunResult × Session S
  unfolding acquire_session_lock release_session_lock run_body to_http_error thread_of
  run_locked session_id images before =
      let w = h.surroundings in
      let id = thread_of session_id in
      let (acquired, locked) = acquire_session_lock w.redis w.begins id w.lock_value before.store in
      let (o, after) = run_body id images (record before { store = locked }) in
      if acquired
      then (
        to_http_error o,
        record after { store = release_session_lock w.redis w.ends id w.lock_value after.store },
      )
      else (
        failed (
            conflict (
              codes "Session "
              ++ (id
                  ++ codes
                      " is already being processed. Please wait for the current request to complete."))),
        record before { store = locked },
      )

  -- `run`, where the lock's release reaches Redis; an error of the release is only logged. The
  -- acquisition is outside `try`, so its error leaves as it is.
  unfoldable pub run_agent :
      Option Text → Option (List Text) → Session S → Outcome AgentRunResult × Session S
  unfolding run_locked
  run_agent session_id images before = elim (h.lock_error) [
    | some message ↦ (failed (other message), before)
    | none ↦ run_locked session_id images before
  ]
