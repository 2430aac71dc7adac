-- ===== src/Service/Run/Ended.antt =====
-- How a request to the agent ends (src/modules/agents/agents.service.ts).
use nest_langgraph_ai.Prelude.{Text, ◌≡◌, ◌⊎◌, Bool, false, Option, none, some, is_empty}
use nest_langgraph_ai.Sessions.Errors.{conflict, internal, other, Outcome, done, failed}
use nest_langgraph_ai.Sessions.Lock.{acquire_session_lock}
use nest_langgraph_ai.Sessions.Review.{AgentRunResult, Session}
use nest_langgraph_ai.Service.Run.{Host}

-- An answer with some text, for the session that was asked for, and no review.
abbrev Answers : Text → AgentRunResult → Type 0
Answers id r = (is_empty r.result ≡ false) × (r.session_id ≡ id) × (r.review_request ≡ none)

-- An answer, or an error of one of two classes of NestJS.
pub HttpEnds : Text → Outcome AgentRunResult → Type 0
HttpEnds id o =
    ((r : AgentRunResult) × (o ≡ done r) × Answers id r)
    ⊎ (((m : Text) × (o ≡ failed (conflict m))) ⊎ ((m : Text) × (o ≡ failed (internal m))))

-- The end of a request: that, or the error of Redis that the acquisition of the lock met.
pub Ends : Text → Option Text → Outcome AgentRunResult → Type 0
Ends id lock_error o =
    ((lock_error ≡ none) × HttpEnds id o)
    ⊎ ((m : Text) × (lock_error ≡ some m) × (o ≡ failed (other m)))

-- The ends of what `try` encloses.
data Body (id : Text) : Outcome AgentRunResult → Type 0 where
  answered : (r : AgentRunResult) → Answers id r → Body id (done r)
  refused : (m : Text) → Body id (failed (internal m))
  broken : (m : Text) → Body id (failed (other m))

module _ {S : Type 0} (h : Host S) (prompt : Text) where
  locked_by : (id : Text) → Session S → Bool × S
  locked_by id before =
      acquire_session_lock h.surroundings.redis h.surroundings.begins id h.surroundings.lock_value
        before.store
