-- ===== src/Saver/Keys.antt =====
-- The keys of the saver (src/modules/agents/utils/redis-saver.ts).
use nest_langgraph_ai.Prelude.{Text, [], ◌++◌, codes, is_empty, text_eq, if◌then◌else◌}

unfoldable pub thread_memory_key : Text → Text
thread_memory_key thread_id = codes "agent:thread:" ++ (thread_id ++ codes ":memory")

unfoldable pub vector_ids_key : Text → Text
vector_ids_key thread_id = codes "agent:thread:" ++ (thread_id ++ codes ":vector_ids")

-- `encodeNamespace`; `encode` is `encodeURIComponent`.
unfoldable pub encode_namespace : (encode : Text → Text) → Text → Text
encode_namespace encode namespace = if is_empty namespace then codes "default" else encode namespace

-- `decodeNamespace`; `decode` is `decodeURIComponent`.
unfoldable pub decode_namespace : (decode : Text → Text) → Text → Text
unfolding text_eq
decode_namespace decode token = if text_eq token (codes "default") then [] else decode token

unfoldable pub legacy_thread_key : Text → Text
legacy_thread_key thread_id = codes "agent:thread:" ++ thread_id

unfoldable pub thread_namespaces_key : Text → Text
thread_namespaces_key thread_id = codes "agent:thread:" ++ (thread_id ++ codes ":namespaces")

unfoldable pub thread_latest_key : (encode : Text → Text) → (thread_id namespace : Text) → Text
unfolding encode_namespace
thread_latest_key encode thread_id namespace =
    codes "agent:thread:"
    ++ (thread_id ++ (codes ":ns:" ++ (encode_namespace encode namespace ++ codes ":latest")))

unfoldable pub thread_history_key : (encode : Text → Text) → (thread_id namespace : Text) → Text
unfolding encode_namespace
thread_history_key encode thread_id namespace =
    codes "agent:thread:"
    ++ (thread_id ++ (codes ":ns:" ++ (encode_namespace encode namespace ++ codes ":history")))

unfoldable pub legacy_checkpoint_set_key : Text → Text
legacy_checkpoint_set_key thread_id = codes "agent:thread:" ++ (thread_id ++ codes ":checkpoints")

unfoldable pub checkpoint_key : Text → Text
checkpoint_key checkpoint_id = codes "agent:checkpoint:" ++ checkpoint_id

unfoldable pub metadata_key : Text → Text
metadata_key checkpoint_id = codes "agent:checkpoint_metadata:" ++ checkpoint_id

unfoldable pub checkpoint_record_key : Text → Text
checkpoint_record_key checkpoint_id = codes "agent:checkpoint_record:" ++ checkpoint_id

unfoldable pub checkpoint_writes_key : Text → Text
checkpoint_writes_key checkpoint_id = codes "agent:checkpoint_writes:" ++ checkpoint_id
