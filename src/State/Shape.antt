-- ===== src/State/Shape.antt =====
-- The records of src/modules/agents/state/agent.state.ts and the result envelope of
-- src/modules/agents/tools/tool-result.ts. An optional field is an `Option`.
use nest_langgraph_ai.Prelude.{Text, ℕ, Bool, Option, List}
use nest_langgraph_ai.Json.{Json}
use nest_langgraph_ai.State.Phase.{Phase}

-- `Record<string, unknown>`: the entries in their order.
abbrev pub Params : Type 0
Params = List (Text × Json)

pub record PlanStep : Type 0 where
  pub step_id : ℕ
  pub description : Text
  pub tool : Text
  pub input : Params
  pub parallel_group : Option ℕ

pub record AgentCounters : Type 0 where
  pub turn : ℕ
  pub tool_calls : ℕ
  pub replans : ℕ
  pub step_retries : ℕ
  pub supervisor_fallbacks : ℕ

pub data ErrorCode : Type 0 where
  invariant_violation json_invalid tool_error timeout unknown : ErrorCode

-- Of `details` only the supervisor's `missing_capabilities` is read anywhere; the rest is for logs.
pub record AgentError : Type 0 where
  pub code : ErrorCode
  pub message : Text
  pub at_phase : Phase
  pub missing_capabilities : Option (List Text)

pub data ToolResultKind : Type 0 where
  text json empty : ToolResultKind

-- `toolResultSchema`. `durationMs` is never given by a caller and is left out.
pub record ToolResult : Type 0 where
  pub is_ok : Bool
  pub kind : ToolResultKind
  pub summary : Text
  pub preview : Text
  pub raw : Text
  pub parsed : Option Json
  pub tool : Text
  pub truncated : Bool
  pub error_message : Option Text

pub record Attempt : Type 0 where
  pub tool : Text
  pub step : ℕ
  pub params : Params
  pub result : ToolResult
  pub replan_generation : Option ℕ

pub data Verdict : Type 0 where
  advance retry_step replan complete fatal : Verdict

pub record CriticDecisionState : Type 0 where
  pub decision : Verdict
  pub reason : Text
  pub final_answer : Option Text

pub record ReviewRequest : Type 0 where
  pub session_id : Text
  pub plan : List PlanStep
  pub objective : Option Text

-- `AgentStateShape`, with the two transient fields of the annotation. Of the token callback only
-- its presence is kept, and of an image its URL.
pub record AgentState : Type 0 where
  pub input : Text
  pub phase : Phase
  pub session_id : Option Text
  pub objective : Option Text
  pub review_request : Option ReviewRequest
  pub plan : List PlanStep
  pub current_step : ℕ
  pub expected_result : Option Text
  pub selected_tool : Option Text
  pub tool_params : Option Params
  pub tool_result_raw : Option Text
  pub tool_result : Option ToolResult
  pub final_answer : Option Text
  pub project_context : Option Text
  pub memory_context : Option Text
  pub session_memory : Option Text
  pub counters : AgentCounters
  pub errors : List AgentError
  pub critic_decision : Option CriticDecisionState
  pub attempts : List Attempt
  pub parallel_result : Option Bool
  pub vector_memory_ids : Option (List Text)
  pub replan_context : Option Text
  pub images : Option (List Text)
  pub has_on_token : Bool
  pub stream_phases : Option (List Phase)
