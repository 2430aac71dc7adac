-- ===== src/State/Updates.antt =====
-- What a node returns, `Partial<AgentState>`, and how the channels of `AgentStateAnnotation` take
-- it (src/modules/agents/state/agent.state.ts). A key that is present with the value `undefined`
-- overwrites; a key that is absent keeps the value.
use nest_langgraph_ai.Prelude.{Text, ℕ, ◌-◌, Bool, Option, List, ◌++◌, length, drop}
use nest_langgraph_ai.State.Phase.{Phase}
use nest_langgraph_ai.State.Shape.{
  PlanStep, AgentCounters, AgentError, ToolResult, Attempt, CriticDecisionState, ReviewRequest,
  AgentState, Params,
}

pub data Change {ℓ} (A : Type ℓ) : Type ℓ where
  keep : Change A
  put : A → Change A

-- The reducer `(_, curr) => curr`, and a channel with none.
abbrev pub change {ℓ} : {A : Type ℓ} → A → Change A → A
change prev keep = prev
change prev (put curr) = curr

pub record Updates : Type 0 where
  pub input : Change Text
  pub phase : Change Phase
  pub session_id : Change (Option Text)
  pub objective : Change (Option Text)
  pub review_request : Change (Option ReviewRequest)
  pub plan : Change (List PlanStep)
  pub current_step : Change ℕ
  pub expected_result : Change (Option Text)
  pub selected_tool : Change (Option Text)
  pub tool_params : Change (Option Params)
  pub tool_result_raw : Change (Option Text)
  pub tool_result : Change (Option ToolResult)
  pub final_answer : Change (Option Text)
  pub project_context : Change (Option Text)
  pub memory_context : Change (Option Text)
  pub session_memory : Change (Option Text)
  pub counters : Change AgentCounters
  pub errors : Change (List AgentError)
  pub critic_decision : Change (Option CriticDecisionState)
  pub attempts : Change (List Attempt)
  pub parallel_result : Change (Option Bool)
  pub vector_memory_ids : Change (Option (List Text))
  pub replan_context : Change (Option Text)
  pub images : Change (Option (List Text))
  pub has_on_token : Change Bool
  pub stream_phases : Change (Option (List Phase))

-- `{}`.
abbrev pub no_updates : Updates
no_updates = record {
  input = keep;
  phase = keep;
  session_id = keep;
  objective = keep;
  review_request = keep;
  plan = keep;
  current_step = keep;
  expected_result = keep;
  selected_tool = keep;
  tool_params = keep;
  tool_result_raw = keep;
  tool_result = keep;
  final_answer = keep;
  project_context = keep;
  memory_context = keep;
  session_memory = keep;
  counters = keep;
  errors = keep;
  critic_decision = keep;
  attempts = keep;
  parallel_result = keep;
  vector_memory_ids = keep;
  replan_context = keep;
  images = keep;
  has_on_token = keep;
  stream_phases = keep;
}

-- `AGENT_CONSTANTS.attemptsHistoryCap` and `errorsHistoryCap` (graph/agent.config.ts).
abbrev pub attempts_history_cap : ℕ
attempts_history_cap = 10

abbrev pub errors_history_cap : ℕ
errors_history_cap = 20

-- `xs.slice(-cap)` for a positive cap: the last `cap` items.
unfoldable pub last_items {ℓ} : {A : Type ℓ} → ℕ → List A → List A
last_items cap xs = drop (length xs - cap) xs

-- The reducer `(prev, curr) => [...prev, ...curr].slice(-cap)`.
unfoldable pub append_capped {ℓ} : {A : Type ℓ} → ℕ → List A → Change (List A) → List A
unfolding last_items
append_capped cap prev keep = prev
append_capped cap prev (put curr) = last_items cap (prev ++ curr)

-- One update of the state by the channels' reducers.
unfoldable pub apply_updates : AgentState → Updates → AgentState
unfolding append_capped
apply_updates s u = record {
  input = change s.input u.input;
  phase = change s.phase u.phase;
  session_id = change s.session_id u.session_id;
  objective = change s.objective u.objective;
  review_request = change s.review_request u.review_request;
  plan = change s.plan u.plan;
  current_step = change s.current_step u.current_step;
  expected_result = change s.expected_result u.expected_result;
  selected_tool = change s.selected_tool u.selected_tool;
  tool_params = change s.tool_params u.tool_params;
  tool_result_raw = change s.tool_result_raw u.tool_result_raw;
  tool_result = change s.tool_result u.tool_result;
  final_answer = change s.final_answer u.final_answer;
  project_context = change s.project_context u.project_context;
  memory_context = change s.memory_context u.memory_context;
  session_memory = change s.session_memory u.session_memory;
  counters = change s.counters u.counters;
  errors = append_capped errors_history_cap s.errors u.errors;
  critic_decision = change s.critic_decision u.critic_decision;
  attempts = append_capped attempts_history_cap s.attempts u.attempts;
  parallel_result = change s.parallel_result u.parallel_result;
  vector_memory_ids = change s.vector_memory_ids u.vector_memory_ids;
  replan_context = change s.replan_context u.replan_context;
  images = change s.images u.images;
  has_on_token = change s.has_on_token u.has_on_token;
  stream_phases = change s.stream_phases u.stream_phases;
}
