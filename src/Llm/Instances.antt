-- ===== src/Llm/Instances.antt =====
-- The cache of model instances, `getLlmInstance` of src/modules/llm/llm.provider.ts. An instance of
-- `ChatMistralAI` is external: `create` stands for its constructor.
pub mod Kept
use nest_langgraph_ai.Prelude.{
  Text, ℕ, ◌≤◌, ◌≡◌, refl, true, Option, none, some, List, [], ◌∷◌, ◌++◌, length, leb, text_eq,
  if◌then◌else◌, lookup, insert, remove, arith,
}
use nest_langgraph_ai.Config.{Env}
use nest_langgraph_ai.Llm.Models.{resolve_text_model}

abbrev pub llm_instance_cache_max : ℕ
llm_instance_cache_max = 20

module _ {Instance : Type 0} (create : Text → Instance) where
  -- Delete the entry that was inserted first, when the cache is full.
  unfoldable pub evict_oldest : List (Text × Instance) → List (Text × Instance)
  evict_oldest [] = []
  evict_oldest ((k, i) ∷ m) =
      if leb llm_instance_cache_max (length ((k, i) ∷ m)) then remove k ((k, i) ∷ m) else (k, i) ∷ m

  unfoldable pub instance_for : Text → List (Text × Instance) → Instance × List (Text × Instance)
  unfolding evict_oldest
  instance_for key cache = elim (lookup key cache) [
    | some instance_ ↦ (instance_, cache)
    | none ↦ (create key, insert key (create key) (evict_oldest cache))
  ]

  -- `getLlmInstance`.
  unfoldable pub get_llm_instance :
      Env → Option Text → List (Text × Instance) → Instance × List (Text × Instance)
  unfolding instance_for
  get_llm_instance env model cache = instance_for (resolve_text_model env model) cache
