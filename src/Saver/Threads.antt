-- ===== src/Saver/Threads.antt =====
-- What the saver keeps of a thread beside its checkpoints: its memory and the ids of its vectors
-- (src/modules/agents/utils/redis-saver.ts).
use nest_langgraph_ai.Prelude.{
  Text, ℕ, Option, none, some, List, [], ltb, is_empty, or_else, if◌then◌else◌,
}
use nest_langgraph_ai.Config.{Env}
use nest_langgraph_ai.Redis.{Redis}
use nest_langgraph_ai.Saver.Keys.{thread_memory_key, vector_ids_key}

-- The time to live of what is stored for a session.
abbrev pub session_ttl : Env → Option ℕ
session_ttl env = if ltb 0 env.session_ttl_seconds then some env.session_ttl_seconds else none

module _ {S : Type 0} (redis : Redis S) where
  -- `getThreadMemory`.
  unfoldable pub get_thread_memory : ℕ → Text → S → Option Text
  unfolding thread_memory_key
  get_thread_memory now thread_id s = redis.get now (thread_memory_key thread_id) s

  -- `setThreadMemory`.
  unfoldable pub set_thread_memory : Env → ℕ → (thread_id memory : Text) → S → S
  unfolding thread_memory_key
  set_thread_memory env now thread_id memory s =
      redis.set now (thread_memory_key thread_id) memory (session_ttl env) s

  -- `getVectorMemoryIds`; `parse_ids` is `JSON.parse`, and `none` where it throws.
  unfoldable pub get_vector_memory_ids : (Text → Option (List Text)) → ℕ → Text → S → List Text
  unfolding vector_ids_key
  get_vector_memory_ids parse_ids now thread_id s =
      elim (redis.get now (vector_ids_key thread_id) s) [
        | none ↦ []
        | some value ↦ if is_empty value then [] else or_else (parse_ids value) []
      ]

  -- `setVectorMemoryIds`; `print_ids` is `JSON.stringify`.
  unfoldable pub set_vector_memory_ids : Env → (List Text → Text) → ℕ → Text → List Text → S → S
  unfolding vector_ids_key
  set_vector_memory_ids env print_ids now thread_id ids s =
      redis.set now (vector_ids_key thread_id) (print_ids ids) (session_ttl env) s
