-- ===== src/Llm/Calls.antt =====
-- The calls that nodes make: `invokeLlm`, `streamLlm`, `invokeLlmWithImages` and
-- `streamLlmWithImages` of src/modules/llm/llm.provider.ts.
use nest_langgraph_ai.Prelude.{
  Text, ℕ, Option, some, List, ◌∷◌, ◌++◌, codes, map, Settled, returned, threw, or_else,
}
use nest_langgraph_ai.Config.{Env}
use nest_langgraph_ai.Llm.Models.{resolve_text_model, resolve_vision_model}
use nest_langgraph_ai.Llm.Instances.{get_llm_instance}
use nest_langgraph_ai.Llm.Breaker.{Breakers}
use nest_langgraph_ai.Llm.Errors.{Content, extract_content}
use nest_langgraph_ai.Llm.Retry.{RetryOpts, resolve_opts, Attempt, Retried, with_retry_and_timeout}

-- A message to a vision model: a text and images by their addresses.
pub data VisionPart : Type 0 where
  text : Text → VisionPart
  image_url : Text → VisionPart

-- `buildVisionMessage`.
unfoldable pub build_vision_message : Text → List Text → List VisionPart
build_vision_message prompt images = text prompt ∷ map image_url images

-- What a call is given: a prompt, or one message of parts.
pub data Input : Type 0 where
  prompted : Text → Input
  message : List VisionPart → Input

-- The provider's module variables.
pub record Provider (Instance : Type 0) : Type 0 where
  pub llm_instances : List (Text × Instance)
  pub breakers : Breakers

-- The arguments that a caller may leave out.
pub record CallArguments : Type 0 where
  pub timeout_ms : Option ℕ
  pub max_retries : Option ℕ
  pub session_id : Option Text
  pub model : Option Text

-- What the client library does: the constructor of an instance, and its two calls, of which an
-- attempt's outcome and chunks are told. `iso` prints a time.
pub record Client (Instance : Type 0) : Type 0 where
  pub create : Text → Instance
  pub invoke : Instance → Input → ℕ → Attempt Content
  pub stream : Instance → Input → ℕ → Attempt (Unit {0})
  pub iso : ℕ → Text

abbrev answer : Settled Content → Settled Text
answer (returned c) = returned (extract_content c)
answer (threw reason) = threw reason

module _ {Instance : Type 0} (env : Env) (client : Client Instance) where
  unfoldable pub call_opts : CallArguments → Text → Text → RetryOpts
  unfolding resolve_opts
  call_opts args kind model =
      resolve_opts (or_else args.timeout_ms env.mistral_timeout_ms)
        (or_else args.max_retries env.agent_max_retries) args.session_id
        (kind ++ (codes " [" ++ (model ++ codes "]")))

  -- A call with retries on the instance of a model that is resolved already.
  unfoldable pub call_model :
      {A : Type 0}
      → (Instance → ℕ → Attempt A)
      → Text
      → Text
      → CallArguments
      → ℕ
      → Provider Instance
      → Retried A × Provider Instance
  unfolding call_opts get_llm_instance with_retry_and_timeout
  call_model calls kind model args now p =
      let (instance_, cache) = get_llm_instance client.create env (some model) p.llm_instances in
      let r =
        with_retry_and_timeout (call_opts args kind model) client.iso now (calls instance_)
          p.breakers in
      (r, record { llm_instances = cache; breakers = r.breakers })

  -- `invokeLlm`.
  unfoldable pub invoke_llm :
      Text → CallArguments → ℕ → Provider Instance → Settled Text × Provider Instance
  unfolding call_model resolve_text_model extract_content
  invoke_llm prompt args now p =
      let (r, p') =
        call_model (λ i n. client.invoke i (prompted prompt) n) (codes "LLM")
          (resolve_text_model env args.model) args now p in
      (answer r.outcome, p')

  -- `streamLlm`.
  unfoldable pub stream_llm :
      Text → CallArguments → ℕ → Provider Instance → Retried (Unit {0}) × Provider Instance
  unfolding call_model resolve_text_model
  stream_llm prompt args now p =
      call_model (λ i n. client.stream i (prompted prompt) n) (codes "LLM stream")
        (resolve_text_model env args.model) args now p

  -- `invokeLlmWithImages`.
  unfoldable pub invoke_llm_with_images :
      Text → List Text → CallArguments → ℕ → Provider Instance → Settled Text × Provider Instance
  unfolding call_model resolve_vision_model build_vision_message
  invoke_llm_with_images prompt images args now p =
      let (r, p') =
        call_model (λ i n. client.invoke i (message (build_vision_message prompt images)) n)
          (codes "Vision LLM") (resolve_vision_model env args.model) args now p in
      (answer r.outcome, p')

  -- `streamLlmWithImages`.
  unfoldable pub stream_llm_with_images :
      Text
      → List Text
      → CallArguments
      → ℕ
      → Provider Instance
      → Retried (Unit {0}) × Provider Instance
  unfolding call_model resolve_vision_model build_vision_message
  stream_llm_with_images prompt images args now p =
      call_model (λ i n. client.stream i (message (build_vision_message prompt images)) n)
        (codes "Vision LLM stream") (resolve_vision_model env args.model) args now p
