-- ===== src/Sessions/Review/Approved.antt =====
-- What an approval does to the graph and the lock
-- (src/modules/agents/services/plan-review.service.ts).
use nest_langgraph_ai.Prelude.{
  Text, ℕ, ◌≤◌, ◌≡◌, ◌≢◌, sym, subst, ◌⊎◌, inl, inr, Bool, true, some, List, [], ◌∷◌, Bool-cases,
  returned, threw,
}
use nest_langgraph_ai.State.Shape.{AgentState, ReviewRequest, PlanStep}
use nest_langgraph_ai.State.Updates.{Updates, apply_updates}
use nest_langgraph_ai.Redis.{IsRedis}
use nest_langgraph_ai.Sessions.Errors.{ServiceError, other, Outcome, done, failed}
use nest_langgraph_ai.Sessions.Lock.{lock_key, acquire_session_lock}
use nest_langgraph_ai.Sessions.Lock.Values.{
  release_session_lock-frees, acquire_session_lock-refused,
}
use nest_langgraph_ai.Sessions.Review.{
  AgentRunResult, Session, Surroundings, pending, first_step_update, approved, resume_from,
  resume_locked, approve_plan, approve,
}
use nest_langgraph_ai.Sessions.Review.Decided.{Outcome-cases, Begins}

module _ {S : Type 0} (w : Surroundings S) (id : Text) where
  abbrev locking : Session S → Bool × S
  locking before = acquire_session_lock w.redis w.begins id w.lock_value before.store

  -- An approval that goes through: a review is pending, the lock was acquired, the graph goes on from
  -- the beginning of the plan, and its end is the approval's.
  pub record Approves (before : Session S) (r : Outcome AgentRunResult × Session S) : Type 0 where
    pub values : AgentState
    pub request : ReviewRequest
    pub is_pending : pending id before.saved ≡ done (values, request)
    pub first : PlanStep
    pub more : List PlanStep
    pub plan : values.plan ≡ first ∷ more
    pub acquired : (locking before).0 ≡ true
    pub start : AgentState
    pub begun : Begins first values start
    pub saved : r.1.saved ≡ (w.invoke start (locking before).1).1.saved
    pub answered :
        ((message : Text) × ((w.invoke start (locking before).1).0 ≡ threw message)
          × (r.0 ≡ failed (other message)))
        ⊎ ((result : AgentState) × ((w.invoke start (locking before).1).0 ≡ returned result)
            × (r.0 ≡ done (approved id result)))

  pub Refuses : Session S → Outcome AgentRunResult × Session S → Type 0
  Refuses before r = ((e : ServiceError) × (r.0 ≡ failed e)) × (r.1.saved ≡ before.saved)

  pub resume_locked-unlocked :
      (laws : IsRedis w.redis) (answer : AgentState → AgentRunResult) (values : AgentState)
      (u : Updates) (before : Session S) (t : ℕ)
      → w.ends ≤ t
      → w.redis.get t (lock_key id) before.store ≢ some w.lock_value
      → w.redis.get t (lock_key id) (resume_locked w id answer values u before).1.store
        ≢ some w.lock_value
  unfolding resume_locked
  resume_locked-unlocked laws answer values u before t le fresh =
      elim (Bool-cases (locking before).0) [
        | inl e ↦
            rw (e, resume_locked)
              (release_session_lock-frees w.redis id laws w.ends t w.lock_value
                (resume_from w id answer values (apply_updates values u) (locking before).1).1.store
                le)
        | inr e ↦
            rw (e, resume_locked)
              (subst (λ s. w.redis.get t (lock_key id) s ≢ some w.lock_value)
                (sym (
                  acquire_session_lock-refused w.redis id laws w.begins w.lock_value before.store
                    e))
                fresh)
      ]

  plan_unlocked :
      (laws : IsRedis w.redis) (values : AgentState) (plan : List PlanStep) (before : Session S)
      (t : ℕ)
      → w.ends ≤ t
      → w.redis.get t (lock_key id) before.store ≢ some w.lock_value
      → w.redis.get t (lock_key id) (approve_plan w id values plan before).1.store
        ≢ some w.lock_value
  unfolding approve_plan
  plan_unlocked laws values [] before t le fresh = fresh
  plan_unlocked laws values (first ∷ more) before t le fresh =
      resume_locked-unlocked laws (approved id) values (first_step_update first) before t le fresh

  -- However an approval ends, its request does not hold the session's lock from then on, where the
  -- value that it made up for the lock was not there before.
  pub approve-unlocked :
      (laws : IsRedis w.redis) (before : Session S) (t : ℕ)
      → w.ends ≤ t
      → w.redis.get t (lock_key id) before.store ≢ some w.lock_value
      → w.redis.get t (lock_key id) (approve w id before).1.store ≢ some w.lock_value
  unfolding approve approve_plan resume_locked
  approve-unlocked laws before t le fresh = elim (Outcome-cases (pending id before.saved)) [
    | inr (e, p) ↦ rw (p, approve) fresh
    | inl (d, p) ↦ rw (p, approve) (plan_unlocked laws d.0 d.0.plan before t le fresh)
  ]
