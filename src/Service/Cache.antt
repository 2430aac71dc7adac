-- ===== src/Service/Cache.antt =====
-- The keys of cached results, `_buildCacheKey` of src/modules/agents/agents.service.ts. Hash functions
-- are external: `md5` and `sha256` give hexadecimal digests.
use nest_langgraph_ai.Prelude.{
  Text, Option, none, some, List, [], ◌∷◌, ◌++◌, codes, take, is_empty, if◌then◌else◌,
}

pub record Hashes : Type 0 where
  pub md5 : Text → Text
  pub sha256 : Text → Text
  pub print_urls : List Text → Text

unfoldable pub memory_hash : Hashes → Option Text → Text
memory_hash h none = codes "nomem"
memory_hash h (some memory) = if is_empty memory then codes "nomem" else take 8 (h.md5 memory)

unfoldable pub images_hash : Hashes → Option (List Text) → Text
images_hash h none = codes "noimg"
images_hash h (some []) = codes "noimg"
images_hash h (some (i ∷ images)) = take 12 (h.sha256 (h.print_urls (i ∷ images)))

-- `_buildCacheKey`; the repository's fingerprint is external too.
unfoldable pub build_cache_key :
    Hashes → (git_hash prompt : Text) → (session_memory : Option Text) → Option (List Text) → Text
unfolding memory_hash images_hash
build_cache_key h git_hash prompt session_memory images =
    codes "agent:cache:"
    ++ h.sha256 (
        git_hash
        ++ (codes ":"
            ++ (memory_hash h session_memory
                ++ (codes ":" ++ (images_hash h images ++ (codes ":" ++ prompt))))))
