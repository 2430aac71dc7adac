-- ===== src/Tests/Checkpointing.antt =====
-- The theorems on the checkpoint saver at concrete inputs.
use nest_langgraph_ai.Prelude.{
  Text, ℕ, zero, suc, ◌≤◌, ◌≡◌, ◌≢◌, refl, ◌∙◌, true, false, Option, none, some, [], ◌∷◌, codes,
  lookup, insert, text_eq, text_eq_iff, Bool-cases, inl, inr, Settled, returned, threw,
  if◌then◌else◌, arith,
}
use nest_langgraph_ai.Json.{boolean}
use nest_langgraph_ai.Redis.{
  Pipelines, ArePipelines, Command, set_text, zadd, sadd, expire, zremrangebyrank, del_key, hset,
  command_key, exec_all,
}
use nest_langgraph_ai.Saver.Threads.{get_thread_memory}
use nest_langgraph_ai.Saver.Checkpoints.{
  StoredCheckpointRecord, CheckpointTuple, Backing, put, get_tuple,
}
use nest_langgraph_ai.Saver.Checkpoints.Stored.{Tells, put_state, get_tuple-put}
use nest_langgraph_ai.Saver.Retries.{with_retry, Retries, with_retry-Retries}
use nest_langgraph_ai.Saver.Writes.{tracked_namespaces, thread_ids, delete_thread}
use nest_langgraph_ai.Saver.Writes.Forgotten.{delete_thread-forgets}
use nest_langgraph_ai.Tests.Samples.{sample_env}
use nest_langgraph_ai.Tests.Store.{Entries, small_redis, small_redis-IsRedis}

-- Texts only: the commands on sets and hashes are left out.
abbrev small_exec : ℕ → Command → Entries → Entries
small_exec now (set_text key value ex) s = small_redis.set now key value ex s
small_exec now (del_key key) s = small_redis.del now key s
small_exec now (zadd key score member) s = s
small_exec now (sadd key member) s = s
small_exec now (expire key seconds) s = s
small_exec now (zremrangebyrank key first last_from_end) s = s
small_exec now (hset key field value only_new) s = s

abbrev small_pipelines : Pipelines Entries
small_pipelines = record {
  exec = small_exec;
  hgetall = λ now key s. [];
  smembers = λ now key s. [];
  zrange_all = λ now key s. [];
}

if_other : (k j : Text) (x y : Option Text) → k ≢ j → (if text_eq k j then x else y) ≡ y
if_other k j x y differs = elim (Bool-cases (text_eq k j)) [
  | inl e ↦ absurd (differs ((text_eq_iff k j).0 e))
  | inr e ↦ rw e refl
]

small_exec-other :
    (now t : ℕ) (c : Command) (j : Text) (s : Entries)
    → now ≤ t
    → command_key c ≢ j
    → small_redis.get t j (small_exec now c s) ≡ small_redis.get t j s
small_exec-other now t (set_text key value ex) j s le h =
    small_redis-IsRedis.get-set now t key j value ex s le ∙ if_other key j _ _ h
small_exec-other now t (del_key key) j s le h =
    small_redis-IsRedis.get-del now t key j s le ∙ if_other key j _ _ h
small_exec-other now t (zadd key score member) j s le h = refl
small_exec-other now t (sadd key member) j s le h = refl
small_exec-other now t (expire key seconds) j s le h = refl
small_exec-other now t (zremrangebyrank key first last_from_end) j s le h = refl
small_exec-other now t (hset key field value only_new) j s le h = refl

small_pipelines-ArePipelines : ArePipelines small_redis small_pipelines
small_pipelines-ArePipelines = record {
  exec-set = λ now key value ex s. refl;
  exec-del = λ now key s. refl;
  exec-other = small_exec-other;
}

-- The one record that the tests store.
abbrev kept_record : StoredCheckpointRecord
kept_record = record {
  checkpoint = record { id = codes "c"; content = boolean true };
  metadata = boolean false;
  parent_checkpoint_id = some (codes "p");
  checkpoint_namespace = [];
}

abbrev small_backing : Backing Entries
small_backing = record {
  redis = small_redis;
  pipelines = small_pipelines;
  encode = λ t. t;
  decode = λ t. t;
  print_record = λ r. codes "r";
  parse_record = λ t. returned kept_record;
  parse_checkpoint = λ t. threw [];
  parse_metadata = λ t. threw [];
  no_metadata = boolean false;
  sorted_writes = λ ws. [];
}

abbrev thread_name : Text
thread_name = codes "a"

abbrev no_entries : Entries
no_entries = []

get_tuple-put_example :
    (tuple : CheckpointTuple) × (get_tuple small_backing sample_env 9000
        (record { thread_id = some (b'a' ∷ []); checkpoint_id = none; checkpoint_ns = none })
        (put_state small_backing sample_env 1000
          (b'a' ∷ [])
          (some (codes "p"))
          none
          kept_record.checkpoint
          (boolean false)
          no_entries)
      ≡ returned (some tuple))
    × Tells
        (b'a' ∷ [])
        (b'c' ∷ [])
        kept_record.checkpoint
        (boolean false)
        (some (codes "p"))
        none
        tuple
unfolding codes
get_tuple-put_example =
    get_tuple-put small_backing small_redis-IsRedis small_pipelines-ArePipelines sample_env 1000
      9000 b'a' b'c' [] [] (some (codes "p")) none (boolean true) (boolean false) no_entries
      (omega arith) refl refl

-- A thread with one checkpoint in its default namespace.
abbrev one_checkpoint : Entries
one_checkpoint =
    put_state small_backing sample_env 1000 (b'a' ∷ []) (some (codes "p")) none
      kept_record.checkpoint (boolean false) no_entries

one_checkpoint-ids :
    thread_ids small_backing sample_env 2000 (b'a' ∷ []) one_checkpoint ≡ codes "c" ∷ []
unfolding thread_ids put codes text_eq lookup insert exec_all
one_checkpoint-ids = refl

delete_thread-forgets_example :
    let (o, after) = delete_thread small_backing sample_env 2000 (b'a' ∷ []) one_checkpoint in
    (o ≡ returned tt)
    × (get_tuple small_backing sample_env 9000
          (record { thread_id = some (b'a' ∷ []); checkpoint_id = none; checkpoint_ns = some [] })
          after
        ≡ returned none)
    × (get_tuple small_backing sample_env 9000
          (record {
            thread_id = some (b'a' ∷ []);
            checkpoint_id = some (b'c' ∷ []);
            checkpoint_ns = none;
          })
          after
        ≡ returned none)
    × (get_thread_memory small_redis 9000 (b'a' ∷ []) after ≡ none)
unfolding thread_ids tracked_namespaces put codes text_eq lookup insert exec_all
delete_thread-forgets_example =
    delete_thread-forgets small_backing small_redis-IsRedis small_pipelines-ArePipelines sample_env
      2000 9000 b'a' b'c' [] [] [] none one_checkpoint (omega arith) refl refl

-- The second call answers.
abbrev second_call : ℕ → Settled ℕ
second_call zero = threw (codes "read ECONNRESET")
second_call (suc n) = returned 7

with_retry-Retries_example : Retries second_call 3 0 (with_retry second_call 3)
with_retry-Retries_example = with_retry-Retries second_call 3

with_retry-attempts : with_retry second_call 3 ≡ (returned 7, 2)
unfolding with_retry codes
with_retry-attempts = refl
