-- ===== src/Llm/Models.antt =====
-- Which model answers: src/modules/llm/model-router.ts, and the two resolvers of llm.provider.ts.
use nest_langgraph_ai.Prelude.{
  Text, Bool, Option, List, [], ◌∷◌, codes, text_eq, or_else, some_of, if◌then◌else◌,
}
use nest_langgraph_ai.Config.{Env}

pub data ModelTier : Type 0 where
  fast balanced powerful code : ModelTier

-- `set.has(x)`.
unfoldable pub has_text : List Text → Text → Bool
has_text set x = some_of (λ y. text_eq y x) set

abbrev powerful_phases : List Text
powerful_phases = codes "plan" ∷ codes "generate" ∷ []

abbrev fast_phases : List Text
fast_phases =
    codes "supervisor"
    ∷ codes "validate_plan"
    ∷ codes "route"
    ∷ codes "fatal_recovery"
    ∷ codes "clarification"
    ∷ codes "research_join"
    ∷ codes "memory_persist"
    ∷ codes "normalize_tool_result"
    ∷ codes "execute"
    ∷ codes "execute_parallel"
    ∷ codes "research"
    ∷ []

-- `selectModelForPhase`.
unfoldable pub select_model_for_phase : Env → Text → Text
unfolding has_text
select_model_for_phase env phase =
    if has_text powerful_phases phase
    then env.mistral_model_powerful
    else (if has_text fast_phases phase then env.mistral_model_fast else env.mistral_model_balanced)

-- `selectModelForTier`.
unfoldable pub select_model_for_tier : Env → ModelTier → Text
select_model_for_tier env fast = env.mistral_model_fast
select_model_for_tier env powerful = env.mistral_model_powerful
select_model_for_tier env code = env.mistral_model_code
select_model_for_tier env balanced = env.mistral_model_balanced

-- `resolveTextModel`.
unfoldable pub resolve_text_model : Env → Option Text → Text
resolve_text_model env model = or_else model env.mistral_model_balanced

-- `resolveVisionModel`: a model for text only is replaced.
unfoldable pub resolve_vision_model : Env → Option Text → Text
unfolding has_text
resolve_vision_model env model =
    let requested = or_else model env.mistral_model_vision in
    if has_text
      (env.mistral_model_fast ∷ env.mistral_model_balanced ∷ env.mistral_model_powerful
        ∷ env.mistral_model_code ∷ [])
      requested
    then env.mistral_model_vision
    else requested
