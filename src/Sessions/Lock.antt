-- ===== src/Sessions/Lock.antt =====
-- The lock of a session, `acquireSessionLock` of src/modules/agents/agents.service.ts.
pub mod Values
pub mod Owned
use nest_langgraph_ai.Prelude.{
  Text, ℕ, Bool, true, false, Option, none, some, List, [], ◌∷◌, ◌++◌, codes, text_eq,
  if◌then◌else◌,
}
use nest_langgraph_ai.Redis.{Redis}

abbrev pub session_lock_ttl : ℕ
session_lock_ttl = 120

unfoldable pub lock_key : Text → Text
lock_key session_id = codes "session:" ++ (session_id ++ codes ":lock")

module _ {S : Type 0} (redis : Redis S) where
  -- Whether the lock was acquired, with the value that the request made up for it.
  unfoldable pub acquire_session_lock : ℕ → (session_id lock_value : Text) → S → Bool × S
  unfolding lock_key
  acquire_session_lock now session_id lock_value s =
      redis.set_nx now (lock_key session_id) lock_value (some session_lock_ttl) s

  -- The function that `acquireSessionLock` returns: the script compares and deletes in one step.
  unfoldable pub release_session_lock : ℕ → (session_id lock_value : Text) → S → S
  unfolding lock_key text_eq
  release_session_lock now session_id lock_value s = elim (redis.get now (lock_key session_id) s) [
    | none ↦ s
    | some v ↦ if text_eq v lock_value then redis.del now (lock_key session_id) s else s
  ]
