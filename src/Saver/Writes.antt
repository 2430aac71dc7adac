-- ===== src/Saver/Writes.antt =====
-- Pending writes and the deletion of a thread: `putWrites` and `deleteThread` of
-- src/modules/agents/utils/redis-saver.ts.
pub mod Forgotten
use nest_langgraph_ai.Prelude.{
  Text, ℕ, suc, Bool, true, false, Option, none, some, List, [], ◌∷◌, ◌++◌, codes, map, decimal,
  is_empty, unique, text_eq, or_else, if◌then◌else◌, Settled, returned, threw,
}
use nest_langgraph_ai.Config.{Env}
use nest_langgraph_ai.Json.{Json}
use nest_langgraph_ai.Redis.{Redis, Pipelines, Command, del_key, hset, expire, exec_all}
use nest_langgraph_ai.Saver.Keys.{
  decode_namespace, legacy_thread_key, thread_namespaces_key, thread_latest_key, thread_history_key,
  legacy_checkpoint_set_key, checkpoint_key, metadata_key, checkpoint_record_key,
  checkpoint_writes_key, thread_memory_key, vector_ids_key,
}
use nest_langgraph_ai.Saver.Threads.{session_ttl}
use nest_langgraph_ai.Saver.Checkpoints.{Configurable, Backing, given, expiring}

-- `WRITES_IDX_MAP`, which is external: the index of a special channel, below zero, by its text.
pub record WriteIndexes : Type 0 where
  pub special_index : Text → Option Text
  pub print_write : (task_id channel : Text) → Json → Text

-- One write: a special channel overwrites its field, and another one only fills it.
unfoldable pub write_command : WriteIndexes → (key task_id : Text) → ℕ → Text × Json → Command
write_command x key task_id index (channel, value) = elim (x.special_index channel) [
  | some special ↦
      hset key (task_id ++ (codes "," ++ special)) (x.print_write task_id channel value) false
  | none ↦
      hset key (task_id ++ (codes "," ++ decimal index)) (x.print_write task_id channel value) true
]

unfoldable pub write_commands :
    WriteIndexes → (key task_id : Text) → ℕ → List (Text × Json) → List Command
unfolding write_command
write_commands x key task_id index [] = []
write_commands x key task_id index (w ∷ ws) =
    write_command x key task_id index w ∷ write_commands x key task_id (suc index) ws

module _ {S : Type 0} (b : Backing S) (env : Env) where
  -- `putWrites`, where the pipeline reaches Redis.
  unfoldable pub put_writes :
      WriteIndexes → ℕ → Configurable → List (Text × Json) → Text → S → Settled (Unit {0}) × S
  unfolding checkpoint_writes_key write_commands
  put_writes x now config writes task_id s = elim (given config.thread_id) [
    | none ↦
        (threw (codes "Failed to put writes. The passed RunnableConfig is missing thread_id."), s)
    | some thread_id ↦ elim (given config.checkpoint_id) [
      | none ↦ (
        threw (codes "Failed to put writes. The passed RunnableConfig is missing checkpoint_id."),
        s,
      )
      | some id ↦ elim writes [
        | [] ↦ (returned tt, s)
        | w ∷ ws ↦ (
          returned tt,
          exec_all b.pipelines now
              (write_commands x (checkpoint_writes_key id) task_id 0 (w ∷ ws)
                ++ expiring (checkpoint_writes_key id) (session_ttl env))
              s,
        )
      ]
    ]
  ]

  abbrev listed : Option Text → List Text
  listed none = []
  listed (some id) = id ∷ []

  -- `getTrackedNamespaces`: the default namespace is always one of them.
  unfoldable pub tracked_namespaces : ℕ → Text → S → List Text
  unfolding thread_namespaces_key decode_namespace unique
  tracked_namespaces now thread_id s = unique (
      map (decode_namespace b.decode) (b.pipelines.smembers now (thread_namespaces_key thread_id) s)
      ++ ([] ∷ []))

  -- The ids that a thread's namespaces name: their histories and their latest checkpoints.
  unfoldable pub namespace_ids : ℕ → Text → List Text → S → List Text
  unfolding thread_latest_key thread_history_key
  namespace_ids now thread_id [] s = []
  namespace_ids now thread_id (n ∷ namespaces) s =
      b.pipelines.zrange_all now (thread_history_key b.encode thread_id n) s
      ++ (listed (given (b.redis.get now (thread_latest_key b.encode thread_id n) s))
          ++ namespace_ids now thread_id namespaces s)

  -- All checkpoints of a thread, each once; the old layout has a set of ids and a latest one.
  unfoldable pub thread_ids : ℕ → Text → S → List Text
  unfolding tracked_namespaces namespace_ids legacy_checkpoint_set_key legacy_thread_key unique
  thread_ids now thread_id s = unique (
      namespace_ids now thread_id (tracked_namespaces now thread_id s) s
      ++ (b.pipelines.smembers now (legacy_checkpoint_set_key thread_id) s
          ++ listed (given (b.redis.get now (legacy_thread_key thread_id) s))))

  -- The keys of checkpoints.
  unfoldable pub checkpoint_keys : List Text → List Text
  unfolding checkpoint_record_key checkpoint_writes_key checkpoint_key metadata_key
  checkpoint_keys [] = []
  checkpoint_keys (id ∷ ids) =
      checkpoint_record_key id
      ∷ checkpoint_writes_key id
      ∷ checkpoint_key id
      ∷ metadata_key id
      ∷ checkpoint_keys ids

  -- The keys of a thread's namespaces.
  unfoldable pub namespace_keys : Text → List Text → List Text
  unfolding thread_latest_key thread_history_key
  namespace_keys thread_id [] = []
  namespace_keys thread_id (n ∷ namespaces) =
      thread_latest_key b.encode thread_id n
      ∷ thread_history_key b.encode thread_id n
      ∷ namespace_keys thread_id namespaces

  -- All keys that `deleteThread` deletes, in their order.
  unfoldable pub deleted_keys : Text → (namespaces ids : List Text) → List Text
  unfolding checkpoint_keys namespace_keys thread_namespaces_key legacy_thread_key
      legacy_checkpoint_set_key thread_memory_key vector_ids_key
  deleted_keys thread_id namespaces ids =
      checkpoint_keys ids
      ++ (namespace_keys thread_id namespaces
          ++ (thread_namespaces_key thread_id
              ∷ legacy_thread_key thread_id
              ∷ legacy_checkpoint_set_key thread_id
              ∷ thread_memory_key thread_id
              ∷ vector_ids_key thread_id
              ∷ []))

  -- `deleteThread`, where Redis is reached.
  unfoldable pub delete_thread : ℕ → Text → S → Settled (Unit {0}) × S
  unfolding tracked_namespaces thread_ids deleted_keys
  delete_thread now thread_id s = elim (thread_ids now thread_id s) [
    | [] ↦ (
      threw (
          codes "Thread ID \""
          ++ (thread_id ++ codes "\" not found or has no associated checkpoints.")),
      s,
    )
    | id ∷ ids ↦ (
      returned tt,
      exec_all b.pipelines now
          (map del_key (deleted_keys thread_id (tracked_namespaces now thread_id s) (id ∷ ids))) s,
    )
  ]
