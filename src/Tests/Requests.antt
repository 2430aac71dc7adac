-- ===== src/Tests/Requests.antt =====
-- The theorems on sessions and requests at concrete inputs, and runs of them.
use nest_langgraph_ai.Prelude.{
  Text, ℕ, ◌+◌, ◌*◌, ◌≡◌, ◌≢◌, refl, true, false, none, some, [], ◌∷◌, codes, map, join, List, take,
  starts_with, trim, leb, lookup, text_eq, Settled, returned, threw, arith,
}
use nest_langgraph_ai.State.Phase.{Phase}
use nest_langgraph_ai.State.Shape.{AgentState, ReviewRequest}
use nest_langgraph_ai.State.Updates.{no_updates, apply_updates}
use nest_langgraph_ai.Sessions.Errors.{done}
use nest_langgraph_ai.Sessions.Ids.{is_session_id}
use nest_langgraph_ai.Sessions.Lock.{
  session_lock_ttl, lock_key, acquire_session_lock, release_session_lock,
}
use nest_langgraph_ai.Sessions.Lock.Owned.{
  LockOp, lock_ops, acquire_session_lock-excludes, acquire_session_lock-expires,
}
use nest_langgraph_ai.Sessions.Memory.{separator, parse_entries, kept_entries, merge}
use nest_langgraph_ai.Sessions.Memory.Entries.{IsEntry, Without, parse_entries-merge}
use nest_langgraph_ai.Sessions.Review.{
  Session, Surroundings, pending, reject, reject_update, approve,
}
use nest_langgraph_ai.Sessions.Review.Decided.{reject-pending}
use nest_langgraph_ai.Sessions.Review.Approved.{approve-unlocked}
use nest_langgraph_ai.Service.Run.{Host}
use nest_langgraph_ai.Service.Emitting.{Printers}
use nest_langgraph_ai.Service.Stream.{GraphStream, stream_body}
use nest_langgraph_ai.Service.Stream.Events.{EndsOnce, stream_body-EndsOnce}
use nest_langgraph_ai.Tests.Samples.{sample_env, sample_state}
use nest_langgraph_ai.Tests.Store.{Entries, small_redis, small_redis-IsRedis}

abbrev session_name : Text
session_name = codes "a"

abbrev mine : Text
mine = codes "1"

abbrev theirs : Text
theirs = codes "2"

mine-theirs : mine ≢ theirs
unfolding codes
mine-theirs e = ground arith

theirs-mine : theirs ≢ mine
unfolding codes
theirs-mine e = ground arith

abbrev free : Entries
free = []

acquire_session_lock-excludes_example :
    let later =
      lock_ops small_redis session_name
        ((5000, LockOp.release theirs) ∷ [])
        (acquire_session_lock small_redis 1000 session_name mine free).1 in
    (small_redis.get 9000 (lock_key session_name) later ≡ some mine)
    × ((acquire_session_lock small_redis 9000 session_name theirs later).0 ≡ false)
unfolding acquire_session_lock lookup
acquire_session_lock-excludes_example =
    acquire_session_lock-excludes small_redis session_name small_redis-IsRedis 1000 9000 mine theirs
      ((5000, LockOp.release theirs) ∷ []) free refl (omega arith, theirs-mine, omega arith)
      (omega arith)

acquire_session_lock-expires_example :
    let second =
      acquire_session_lock small_redis 200000 session_name theirs
        (acquire_session_lock small_redis 1000 session_name mine free).1 in
    (second.0 ≡ leb (1000 + session_lock_ttl * 1000) 200000)
    × (second.0 ≡ true
        → release_session_lock small_redis 200000 session_name mine second.1 ≡ second.1)
unfolding acquire_session_lock lookup
acquire_session_lock-expires_example =
    acquire_session_lock-expires small_redis session_name small_redis-IsRedis 1000 200000 mine
      theirs free refl (omega arith) mine-theirs

x-IsEntry : IsEntry (codes "x")
unfolding codes starts_with trim
x-IsEntry = record { apart = (refl, tt); trimmed = refl; filled = refl }

y-IsEntry : IsEntry (codes "y")
unfolding codes starts_with trim
y-IsEntry = record { apart = (refl, tt); trimmed = refl; filled = refl }

parse_entries-merge_example :
    (others : List Text) × Without (codes "y") (codes "x" ∷ []) others
    × (parse_entries (some (merge sample_env (some (join separator (codes "x" ∷ []))) (codes "y")))
        ≡ take 3 (codes "y" ∷ others))
unfolding join kept_entries codes text_eq
parse_entries-merge_example =
    parse_entries-merge sample_env (codes "x" ∷ []) (codes "y") (x-IsEntry, tt) y-IsEntry
      (omega arith)

abbrev sample_request : ReviewRequest
sample_request = record { session_id = session_name; plan = sample_state.plan; objective = none }

abbrev reviewed_state : AgentState
reviewed_state = record sample_state {
  phase = Phase.await_plan_review;
  review_request = some sample_request;
}

reject-pending_example :
    let after = apply_updates reviewed_state reject_update in
    (reject session_name (some reviewed_state) ≡ (done tt, some after))
    × (after.phase ≡ Phase.fatal)
    × (after.plan ≡ reviewed_state.plan)
    × (pending session_name (some after) ≡ done (after, sample_request))
unfolding pending is_session_id codes
reject-pending_example =
    reject-pending session_name (some reviewed_state) reviewed_state sample_request refl

-- A graph that answers at once.
abbrev answers : Settled AgentState × Session Entries
answers = (
  returned (record sample_state { phase = Phase.complete; final_answer = some (codes "ok") }),
  record { saved = some sample_state; store = free },
)

abbrev sample_surroundings : Surroundings Entries
sample_surroundings = record {
  redis = small_redis;
  env = sample_env;
  lock_value = mine;
  begins = 1000;
  ends = 9000;
  reached = true;
  written = true;
  invoke_llm = λ t. threw [];
  timestamp = codes "now";
  print_ids = λ ids. [];
  invoke = λ s store. answers;
}

abbrev reviewed : Session Entries
reviewed = record { saved = some reviewed_state; store = free }

no_lock : (t : ℕ) → small_redis.get t (lock_key session_name) free ≢ some mine
unfolding lookup
no_lock t e = ground arith

approve-unlocked_example :
    small_redis.get 9000
      (lock_key session_name)
      (approve sample_surroundings session_name reviewed).1.store
    ≢ some mine
approve-unlocked_example =
    approve-unlocked sample_surroundings session_name small_redis-IsRedis reviewed 9000
      (omega arith) (no_lock 9000)

-- After a rejection the same plan is approved and run.
reject-approve :
    let rejected = reject session_name (some reviewed_state) in
    (approve sample_surroundings session_name (record { saved = rejected.1; store = free })).0
    ≡ done (record { result = codes "ok"; session_id = session_name; review_request = none })
unfolding approve reject pending is_session_id codes acquire_session_lock lookup apply_updates
reject-approve = refl

abbrev sample_host : Host Entries
sample_host = record {
  surroundings = sample_surroundings;
  new_id = codes "n";
  hashes = record { md5 = λ t. t; sha256 = λ t. t; print_urls = λ us. [] };
  git_hash = codes "nogit";
  run_graph = λ u s. answers;
  timed_out = false;
  lock_error = none;
  read_error = none;
  write_error = none;
  ids_error = none;
}

abbrev sample_printers : Printers
sample_printers = record {
  print_switch = λ model phase. [];
  print_plan = λ steps. [];
  print_review = λ request. [];
}

-- A stream of one event with a token, after which the run is complete.
abbrev one_event : GraphStream Entries
one_event = record {
  events = record { snap = no_updates; tokens = codes "t" ∷ [] } ∷ [];
  rest = [];
  failure = none;
  session = record {
    saved = some (record sample_state {
      phase = Phase.complete;
      final_answer = some (codes "ok");
      vector_memory_ids = some (codes "v" ∷ []);
    });
    store = free;
  };
}

stream_body-EndsOnce_example :
    EndsOnce session_name
      (stream_body sample_host sample_printers (codes "q") session_name none one_event).0
stream_body-EndsOnce_example =
    stream_body-EndsOnce sample_host sample_printers (codes "q") session_name none one_event refl

-- Where the ids cannot be written, the event `final` is followed by an event `error`, both done.
stream_body-two_ends :
    map
      (λ e. e.is_done)
      (stream_body
        (record sample_host { ids_error = some (codes "Redis") })
        sample_printers
        (codes "q")
        session_name
        none
        one_event).0
    ≡ false ∷ false ∷ false ∷ true ∷ true ∷ []
unfolding stream_body codes
stream_body-two_ends = refl
