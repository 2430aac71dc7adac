-- ===== src/Saver/Checkpoints/Stored.antt =====
-- A checkpoint that is stored is found again (src/modules/agents/utils/redis-saver.ts).
use nest_langgraph_ai.Prelude.{
  Text, ℕ, ◌≤◌, ◌≡◌, ◌≢◌, refl, ap, ◌∙◌, Bool, true, false, Option, none, some, List, [], ◌∷◌,
  text_eq_refl, or_else, is_empty, All, returned,
}
use nest_langgraph_ai.Config.{Env}
use nest_langgraph_ai.Json.{Json}
use nest_langgraph_ai.Redis.{
  IsRedis, is_alive, if_alive, ArePipelines, Command, set_text, command_key, exec_all,
}
use nest_langgraph_ai.Saver.Keys.{
  encode_namespace, legacy_thread_key, thread_namespaces_key, thread_latest_key, thread_history_key,
  legacy_checkpoint_set_key, checkpoint_record_key,
}
use nest_langgraph_ai.Saver.Threads.{session_ttl}
use nest_langgraph_ai.Saver.Checkpoints.{
  Checkpoint, StoredCheckpointRecord, CheckpointTuple, Backing, given, legacy_commands,
  index_commands, put_rest, put, load_record, load_pending_writes, build_tuple, wanted_id, tuple_of,
  get_tuple,
}
use nest_langgraph_ai.Saver.Checkpoints.Distinct.{
  latest-history, latest-namespaces, latest-legacy, latest-legacy_set, thread-record,
}

-- What holds of four keys holds of the keys of the commands on them.
index_commands-All :
    (P : Text → Type 0) (h n token l s : Text) (ex : Option ℕ) (now : ℕ) (id : Text) (d : Bool)
    → P h
    → P n
    → P l
    → P s
    → All (λ c. P (command_key c)) (index_commands h n token l s ex now id d)
unfolding index_commands legacy_commands
index_commands-All P h n token l s none now id true ph pn pl ps = (ph, (pn, (pl, (ps, (ph, tt)))))
index_commands-All P h n token l s none now id false ph pn pl ps = (ph, (pn, (ph, tt)))
index_commands-All P h n token l s (some seconds) now id true ph pn pl ps =
    (ph, (ph, (pn, (pn, (pl, (ps, (ps, (ph, tt))))))))
index_commands-All P h n token l s (some seconds) now id false ph pn pl ps =
    (ph, (ph, (pn, (pn, (ph, tt)))))

-- The record that `put` stores.
abbrev pub stored_record :
    (checkpoint : Checkpoint) → Json → (parent ns : Option Text) → StoredCheckpointRecord
stored_record checkpoint metadata parent ns = record {
  checkpoint = checkpoint;
  metadata = metadata;
  parent_checkpoint_id = parent;
  checkpoint_namespace = or_else ns [];
}

-- What a tuple says of a checkpoint that was stored.
pub record Tells (thread id : Text) (checkpoint : Checkpoint) (metadata : Json)
    (parent ns : Option Text) (tuple : CheckpointTuple) : Type 0 where
  pub checkpoint_kept : tuple.checkpoint ≡ checkpoint
  pub metadata_kept : tuple.metadata ≡ metadata
  pub config_kept : tuple.config ≡ record {
    thread_id = some thread;
    checkpoint_id = some id;
    checkpoint_ns = some (or_else ns []);
  }
  pub no_parent : given parent ≡ none → tuple.parent_config ≡ none
  pub parent_kept :
      (p : Text)
      → given parent ≡ some p
      → tuple.parent_config
        ≡ some (record {
          thread_id = some thread;
          checkpoint_id = some p;
          checkpoint_ns = some (or_else ns []);
        })

module _ {S : Type 0} (b : Backing S) where
  abbrev pub put_state : Env → ℕ → Text → (parent ns : Option Text) → Checkpoint → Json → S → S
  put_state env now thread parent ns checkpoint metadata s =
      (put b env now
        (record { thread_id = some thread; checkpoint_id = parent; checkpoint_ns = ns }) checkpoint
        metadata s).1

module _ {S : Type 0} (b : Backing S) (redis_laws : IsRedis b.redis)
    (pipeline_laws : ArePipelines b.redis b.pipelines) where
  exec_all-other :
      (now t : ℕ) (j : Text) (cs : List Command) (s : S)
      → now ≤ t
      → All (λ c. command_key c ≢ j) cs
      → b.redis.get t j (exec_all b.pipelines now cs s) ≡ b.redis.get t j s
  unfolding exec_all
  exec_all-other now t j [] s le h = refl
  exec_all-other now t j (c ∷ cs) s le (d, h) =
      exec_all-other now t j cs (b.pipelines.exec now c s) le h
      ∙ pipeline_laws.exec-other now t c j s le d

  -- The value that a command sets is there while it is alive and no later command is on its key.
  exec_all-set :
      (now t : ℕ) (key value : Text) (ex : Option ℕ) (cs : List Command) (s : S)
      → now ≤ t
      → All (λ c. command_key c ≢ key) cs
      → b.redis.get t key (exec_all b.pipelines now (set_text key value ex ∷ cs) s)
        ≡ if_alive (is_alive now ex t) value
  unfolding exec_all
  exec_all-set now t key value ex cs s le h =
      exec_all-other now t key cs (b.pipelines.exec now (set_text key value ex) s) le h
      ∙ (ap (b.redis.get t key) (pipeline_laws.exec-set now key value ex s)
          ∙ (redis_laws.get-set now t key key value ex s le ∙ rw (text_eq_refl key) refl))

  put-latest :
      (env : Env) (now t c : ℕ) (rest : Text) (parent ns : Option Text) (checkpoint : Checkpoint)
      (metadata : Json) (s : S)
      → now ≤ t
      → b.redis.get t
          (thread_latest_key b.encode (c ∷ rest) (or_else ns []))
          (put_state b env now (c ∷ rest) parent ns checkpoint metadata s)
        ≡ if_alive (is_alive now (session_ttl env) t) checkpoint.id
  unfolding put put_rest exec_all
  put-latest env now t c rest parent ns checkpoint metadata s le =
      let thread = c ∷ rest in
      let namespace = or_else ns [] in
      let key = thread_latest_key b.encode thread namespace in
      exec_all-set now t key checkpoint.id (session_ttl env)
        (put_rest b.encode (session_ttl env) now thread namespace checkpoint.id)
        (b.pipelines.exec now
          (set_text (checkpoint_record_key checkpoint.id)
            (b.print_record (stored_record checkpoint metadata parent ns)) (session_ttl env))
          s)
        le
        (index_commands-All (λ j. j ≢ key) (thread_history_key b.encode thread namespace)
          (thread_namespaces_key thread) (encode_namespace b.encode namespace)
          (legacy_thread_key thread) (legacy_checkpoint_set_key thread) (session_ttl env) now
          checkpoint.id (is_empty namespace) (latest-history b.encode thread namespace)
          (latest-namespaces b.encode thread namespace) (latest-legacy b.encode thread namespace)
          (latest-legacy_set b.encode thread namespace))

  put-record :
      (env : Env) (now t c : ℕ) (rest : Text) (parent ns : Option Text) (checkpoint : Checkpoint)
      (metadata : Json) (s : S)
      → now ≤ t
      → b.redis.get t
          (checkpoint_record_key checkpoint.id)
          (put_state b env now (c ∷ rest) parent ns checkpoint metadata s)
        ≡ if_alive
            (is_alive now (session_ttl env) t)
            (b.print_record (stored_record checkpoint metadata parent ns))
  unfolding put put_rest legacy_thread_key thread_namespaces_key thread_history_key
      thread_latest_key legacy_checkpoint_set_key
  put-record env now t c rest parent ns checkpoint metadata s le =
      let thread = c ∷ rest in
      let namespace = or_else ns [] in
      let key = checkpoint_record_key checkpoint.id in
      exec_all-set now t key (b.print_record (stored_record checkpoint metadata parent ns))
        (session_ttl env)
        (set_text (thread_latest_key b.encode thread namespace) checkpoint.id (session_ttl env)
          ∷ put_rest b.encode (session_ttl env) now thread namespace checkpoint.id)
        s le
        (
          thread-record _ checkpoint.id,
          index_commands-All (λ j. j ≢ key) (thread_history_key b.encode thread namespace)
              (thread_namespaces_key thread) (encode_namespace b.encode namespace)
              (legacy_thread_key thread) (legacy_checkpoint_set_key thread) (session_ttl env) now
              checkpoint.id (is_empty namespace) (thread-record _ checkpoint.id)
              (thread-record _ checkpoint.id) (thread-record _ checkpoint.id)
              (thread-record _ checkpoint.id),
        )

  build_tuple-Tells :
      (env : Env) (thread id : Text) (checkpoint : Checkpoint) (metadata : Json)
      (parent ns : Option Text) (writes : List Text)
      → Tells thread id checkpoint metadata parent ns
          (build_tuple b env thread id (stored_record checkpoint metadata parent ns) writes)
  unfolding build_tuple
  build_tuple-Tells env thread id checkpoint metadata parent ns writes = record {
    checkpoint_kept = refl;
    metadata_kept = refl;
    config_kept = refl;
    no_parent = λ e. rw e refl;
    parent_kept = λ p e. rw e refl;
  }

  tuple_of-record :
      (env : Env) (t : ℕ) (thread id data_text : Text) (r : StoredCheckpointRecord) (s : S)
      → b.redis.get t (checkpoint_record_key id) s ≡ some data_text
      → b.parse_record data_text ≡ returned r
      → tuple_of b env t thread id s
        ≡ returned (some (build_tuple b env thread id r (load_pending_writes b env t id s)))
  unfolding tuple_of load_record
  tuple_of-record env t thread id data_text r s e f = rw (e, tuple_of, load_record, f) refl

  -- A checkpoint that was stored, under a thread and with an id that are not empty, is found as the
  -- latest one of its namespace as long as its time to live has not passed: with its content, its
  -- metadata, its place and its parent, where the serializer reads the record back that it prints.
  pub get_tuple-put :
      (env : Env) (now t c d : ℕ) (rest id : Text) (parent ns : Option Text)
      (content metadata : Json) (s : S)
      → now ≤ t
      → is_alive now (session_ttl env) t ≡ true
      → let checkpoint : Checkpoint = record { id = d ∷ id; content = content } in
        let kept = stored_record checkpoint metadata parent ns in
        b.parse_record (b.print_record kept) ≡ returned kept
        → (tuple : CheckpointTuple) × (get_tuple b env t
              (record { thread_id = some (c ∷ rest); checkpoint_id = none; checkpoint_ns = ns })
              (put_state b env now (c ∷ rest) parent ns checkpoint metadata s)
            ≡ returned (some tuple))
          × Tells (c ∷ rest) (d ∷ id) checkpoint metadata parent ns tuple
  unfolding get_tuple wanted_id
  get_tuple-put env now t c d rest id parent ns content metadata s le alive serde =
      let checkpoint : Checkpoint = record { id = d ∷ id; content = content } in
      let kept = stored_record checkpoint metadata parent ns in
      let after = put_state b env now (c ∷ rest) parent ns checkpoint metadata s in
      let latest : b.redis.get t (thread_latest_key b.encode (c ∷ rest) (or_else ns [])) after
          ≡ some (d ∷ id) =
        put-latest env now t c rest parent ns checkpoint metadata s le ∙ rw alive refl in
      let found : b.redis.get t (checkpoint_record_key (d ∷ id)) after
          ≡ some (b.print_record kept) =
        put-record env now t c rest parent ns checkpoint metadata s le ∙ rw alive refl in
      (
        build_tuple b env (c ∷ rest) (d ∷ id) kept (load_pending_writes b env t (d ∷ id) after),
        rw (latest, get_tuple, wanted_id)
            (tuple_of-record env t (c ∷ rest) (d ∷ id) (b.print_record kept) kept after found
              serde),
        build_tuple-Tells env (c ∷ rest) (d ∷ id) checkpoint metadata parent ns
            (load_pending_writes b env t (d ∷ id) after),
      )
