-- ===== src/Saver/Checkpoints.antt =====
-- Checkpoints in Redis: `put`, `putWrites` and `getTuple` of
-- src/modules/agents/utils/redis-saver.ts.
pub mod Distinct
pub mod Stored
use nest_langgraph_ai.Prelude.{
  Text, ℕ, suc, Bool, true, false, Option, none, some, List, [], ◌∷◌, ◌++◌, codes, map, decimal,
  is_empty, text_eq, or_else, if◌then◌else◌, Settled, returned, threw,
}
use nest_langgraph_ai.Config.{Env}
use nest_langgraph_ai.Json.{Json}
use nest_langgraph_ai.Redis.{
  Redis, Pipelines, Command, set_text, zadd, sadd, expire, zremrangebyrank, hset, exec_all,
}
use nest_langgraph_ai.Saver.Keys.{
  encode_namespace, legacy_thread_key, thread_namespaces_key, thread_latest_key, thread_history_key,
  legacy_checkpoint_set_key, checkpoint_key, metadata_key, checkpoint_record_key,
  checkpoint_writes_key,
}
use nest_langgraph_ai.Saver.Threads.{session_ttl}

-- What the saver reads of a checkpoint: its id, and the rest.
pub record Checkpoint : Type 0 where
  pub id : Text
  pub content : Json

-- `StoredCheckpointRecord`; metadata that is missing is empty.
pub record StoredCheckpointRecord : Type 0 where
  pub checkpoint : Checkpoint
  pub metadata : Json
  pub parent_checkpoint_id : Option Text
  pub checkpoint_namespace : Text

-- `config.configurable`.
pub record Configurable : Type 0 where
  pub thread_id : Option Text
  pub checkpoint_id : Option Text
  pub checkpoint_ns : Option Text

-- `CheckpointTuple`.
pub record CheckpointTuple : Type 0 where
  pub config : Configurable
  pub checkpoint : Checkpoint
  pub metadata : Json
  pub pending_writes : List Text
  pub parent_config : Option Configurable

-- The serializer, `encodeURIComponent` and its inverse, the commands, and the order of pending writes with their
-- decoding, which is by the number behind the comma of a field.
pub record Backing (S : Type 0) : Type 0 where
  pub redis : Redis S
  pub pipelines : Pipelines S
  pub encode : Text → Text
  pub decode : Text → Text
  pub print_record : StoredCheckpointRecord → Text
  pub parse_record : Text → Settled StoredCheckpointRecord
  pub parse_checkpoint : Text → Settled Checkpoint
  pub parse_metadata : Text → Settled Json
  pub no_metadata : Json
  pub sorted_writes : List (Text × Text) → List Text

-- `AGENT_CONSTANTS.checkpointHistoryLimit`.
abbrev pub checkpoint_history_limit : ℕ
checkpoint_history_limit = 25

-- A text that is given and not empty.
abbrev pub given : Option Text → Option Text
given none = none
given (some []) = none
given (some (c ∷ t)) = some (c ∷ t)

abbrev pub expiring : Text → Option ℕ → List Command
expiring key none = []
expiring key (some seconds) = expire key seconds ∷ []

-- The commands for the default namespace only, which an old layout reads too.
unfoldable pub legacy_commands : (thread_key set_key : Text) → Option ℕ → Text → Bool → List Command
legacy_commands thread_key set_key ex id false = []
legacy_commands thread_key set_key ex id true =
    set_text thread_key id ex ∷ sadd set_key id ∷ expiring set_key ex

-- What the pipeline of `put` does behind the record and the latest id.
unfoldable pub index_commands :
    (history_key namespaces_key token thread_key set_key : Text)
    → Option ℕ
    → ℕ
    → Text
    → Bool
    → List Command
unfolding legacy_commands
index_commands history_key namespaces_key token thread_key set_key ex now id is_default =
    zadd history_key now id
    ∷ (expiring history_key ex
        ++ (sadd namespaces_key token
            ∷ (expiring namespaces_key ex
                ++ (legacy_commands thread_key set_key ex id is_default
                    ++ (zremrangebyrank history_key 0 (suc checkpoint_history_limit) ∷ [])))))

unfoldable pub put_rest :
    (encode : Text → Text) → Option ℕ → ℕ → (thread_id namespace id : Text) → List Command
unfolding index_commands thread_history_key
put_rest encode ex now thread_id namespace id =
    index_commands (thread_history_key encode thread_id namespace) (thread_namespaces_key thread_id)
      (encode_namespace encode namespace) (legacy_thread_key thread_id)
      (legacy_checkpoint_set_key thread_id) ex now id (is_empty namespace)

module _ {S : Type 0} (b : Backing S) (env : Env) where
  -- `put`, where the pipeline reaches Redis.
  unfoldable pub put : ℕ → Configurable → Checkpoint → Json → S → Settled Configurable × S
  unfolding thread_latest_key checkpoint_record_key put_rest
  put now config checkpoint metadata s =
      let namespace = or_else config.checkpoint_ns [] in
      elim (given config.thread_id) [
        | none ↦ (
          threw (codes "Failed to put checkpoint. The passed RunnableConfig is missing thread_id."),
          s,
        )
        | some thread_id ↦ (
          returned (record {
            thread_id = some thread_id;
            checkpoint_id = some checkpoint.id;
            checkpoint_ns = some namespace;
          }),
          exec_all b.pipelines now
              (set_text (checkpoint_record_key checkpoint.id)
                  (b.print_record (record {
                    checkpoint = checkpoint;
                    metadata = metadata;
                    parent_checkpoint_id = config.checkpoint_id;
                    checkpoint_namespace = namespace;
                  }))
                  (session_ttl env)
                ∷ set_text (thread_latest_key b.encode thread_id namespace) checkpoint.id
                    (session_ttl env)
                ∷ put_rest b.encode (session_ttl env) now thread_id namespace checkpoint.id)
              s,
        )
      ]

  -- The metadata of an old layout.
  unfoldable pub legacy_metadata : ℕ → Text → S → Settled Json
  unfolding metadata_key
  legacy_metadata now id s = elim (b.redis.get now (metadata_key id) s) [
    | none ↦ returned b.no_metadata
    | some t ↦ b.parse_metadata t
  ]

  -- The record of an old layout: the checkpoint and its metadata under keys of their own.
  unfoldable pub load_legacy : ℕ → Text → S → Settled (Option StoredCheckpointRecord)
  unfolding checkpoint_key legacy_metadata
  load_legacy now id s = elim (b.redis.get now (checkpoint_key id) s) [
    | none ↦ returned none
    | some data_text ↦ elim (b.parse_checkpoint data_text) [
      | threw message ↦ threw message
      | returned checkpoint ↦ elim (legacy_metadata now id s) [
        | threw message ↦ threw message
        | returned metadata ↦ returned (
            some (record {
              checkpoint = checkpoint;
              metadata = metadata;
              parent_checkpoint_id = none;
              checkpoint_namespace = [];
            }))
      ]
    ]
  ]

  -- `loadRecord`; what `JSON.parse` throws is an error.
  unfoldable pub load_record : ℕ → Text → S → Settled (Option StoredCheckpointRecord)
  unfolding checkpoint_record_key load_legacy
  load_record now id s = elim (b.redis.get now (checkpoint_record_key id) s) [
    | none ↦ load_legacy now id s
    | some data_text ↦ elim (b.parse_record data_text) [
      | threw message ↦ threw message
      | returned r ↦ returned (some r)
    ]
  ]

  -- `loadPendingWrites`.
  unfoldable pub load_pending_writes : ℕ → Text → S → List Text
  unfolding checkpoint_writes_key
  load_pending_writes now id s =
      b.sorted_writes (b.pipelines.hgetall now (checkpoint_writes_key id) s)

  -- `buildTuple`.
  unfoldable pub build_tuple :
      (thread_id checkpoint_id : Text) → StoredCheckpointRecord → List Text → CheckpointTuple
  build_tuple thread_id checkpoint_id r writes = record {
    config = record {
      thread_id = some thread_id;
      checkpoint_id = some checkpoint_id;
      checkpoint_ns = some r.checkpoint_namespace;
    };
    checkpoint = r.checkpoint;
    metadata = r.metadata;
    pending_writes = writes;
    parent_config = elim (given r.parent_checkpoint_id) [
      | none ↦ none
      | some parent ↦ some (record {
        thread_id = some thread_id;
        checkpoint_id = some parent;
        checkpoint_ns = some r.checkpoint_namespace;
      })
    ];
  }

  -- The id that is asked for, or the latest one; an old layout has it under the thread's own key.
  unfoldable pub wanted_id : ℕ → Configurable → (thread_id namespace : Text) → S → Option Text
  unfolding thread_latest_key legacy_thread_key
  wanted_id now config thread_id namespace s = elim (given config.checkpoint_id) [
    | some id ↦ some id
    | none ↦ elim (b.redis.get now (thread_latest_key b.encode thread_id namespace) s) [
      | some id ↦ given (some id)
      | none ↦
          if is_empty namespace
          then given (b.redis.get now (legacy_thread_key thread_id) s)
          else none
    ]
  ]

  unfoldable pub tuple_of : ℕ → (thread_id id : Text) → S → Settled (Option CheckpointTuple)
  unfolding load_record load_pending_writes build_tuple
  tuple_of now thread_id id s = elim (load_record now id s) [
    | threw message ↦ threw message
    | returned found ↦ elim found [
      | none ↦ returned none
      | some r ↦ returned (some (build_tuple thread_id id r (load_pending_writes now id s)))
    ]
  ]

  -- `getTuple`, where Redis is reached.
  unfoldable pub get_tuple : ℕ → Configurable → S → Settled (Option CheckpointTuple)
  unfolding wanted_id tuple_of
  get_tuple now config s = elim (given config.thread_id) [
    | none ↦ threw (codes "Thread ID is not configured.")
    | some thread_id ↦ elim (wanted_id now config thread_id (or_else config.checkpoint_ns []) s) [
      | none ↦ returned none
      | some id ↦ tuple_of now thread_id id s
    ]
  ]
