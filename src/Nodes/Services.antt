-- ===== src/Nodes/Services.antt =====
-- What the nodes call and this repository does not implement, or implements as prompt text: the LLM
-- (`invokeLlm` and its siblings), `JSON.parse` and `JSON.stringify`, Zod's structural parsing,
-- `node:path`, and the prompt builders of src/modules/agents/prompts.
use nest_langgraph_ai.Prelude.{Text, ℕ, Bool, Option, List, Result, Thrown}
use nest_langgraph_ai.Json.{Json}
use nest_langgraph_ai.Config.{Env}
use nest_langgraph_ai.Tools.{ToolRegistry}
use nest_langgraph_ai.State.Shape.{PlanStep, CriticDecisionState, AgentState}

-- `plannerOutputSchema`.
pub record PlannerOutput : Type 0 where
  pub objective : Text
  pub steps : List PlanStep
  pub expected_result : Text

pub data Mode : Type 0 where
  agent chat : Mode

-- `supervisorOutputSchema`; `is_reject` is `status === 'reject'`.
pub record SupervisorOutput : Type 0 where
  pub is_reject : Bool
  pub mode : Option Mode
  pub objective : Option Text
  pub message : Option Text
  pub missing_capabilities : Option (List Text)

-- `ParallelStepResult`.
pub record ParallelStepResult : Type 0 where
  pub step_id : ℕ
  pub tool : Text
  pub result : Text
  pub success : Bool

-- What a token stream yields, and the error that ends it, if one does.
pub record TokenStream : Type 0 where
  pub tokens : List Text
  pub failure : Option Thrown

-- `vector_research` is `buildVectorResearchContext`, with whether its timer fired first.
-- `parse_results` reads a text as an array of parallel results and is `none` where the reading
-- throws; `print_value` is how a value that should be a text prints.
pub record Services : Type 0 where
  pub env : Env
  pub registry : ToolRegistry
  pub invoke_llm : Text → Result Text
  pub invoke_llm_with_images : Text → List Text → Result Text
  pub stream_llm : Text → TokenStream
  pub stream_llm_with_images : Text → List Text → TokenStream
  pub json_parse : Text → Option Json
  pub stringify_pretty : Json → Text
  pub stringify_results : List ParallelStepResult → Text
  pub parse_results : Text → Option (List ParallelStepResult)
  pub print_value : Json → Text
  pub planner_shape : Json → Result PlannerOutput
  pub critic_shape : Json → Result CriticDecisionState
  pub supervisor_shape : Json → Result SupervisorOutput
  pub dirname : Text → Text
  pub basename : Text → Text
  pub vector_research : Text → Result (Text × List Text)
  pub vector_timed_out : Bool
  pub upsert_vector_memory : Text → Result (Unit {0})
  pub planner_prompt : AgentState → Text
  pub critic_prompt : AgentState → Text
  pub supervisor_prompt : AgentState → Text
  pub chat_prompt : AgentState → Text
  pub generator_prompt : AgentState → Text
