-- ===== src/Tests/Samples.antt =====
-- Test data: services, tools and states.
use nest_langgraph_ai.Prelude.{
  Text, ℕ, true, false, Option, none, some, List, [], ◌∷◌, Result, ok, err, error, arith,
}
use nest_langgraph_ai.Config.{Env, IsValidEnv}
use nest_langgraph_ai.State.Phase.{Phase}
use nest_langgraph_ai.State.Shape.{AgentState, PlanStep, CriticDecisionState, Verdict}
use nest_langgraph_ai.State.Transitions.{default_agent_counters}
use nest_langgraph_ai.State.Initial.{InitialAgentRunStateOptions}
use nest_langgraph_ai.Tools.{Tool, ToolRegistry, ToolRegistration, ToolRiskLevel}
use nest_langgraph_ai.Nodes.Services.{Services}

abbrev pub sample_env : Env
sample_env = record {
  agent_max_iterations = 3;
  agent_max_retries = 3;
  agent_max_retbacks = 2;
  critic_result_max_chars = 8000;
  tool_timeout_ms = 15000;
  require_plan_review = true;
  mistral_model_fast = [];
  mistral_model_balanced = [];
  mistral_model_powerful = [];
  mistral_model_code = [];
  mistral_model_vision = [];
  mistral_timeout_ms = 30000;
  http_tool_allowed_hosts = [];
  http_tool_allow_private_networks = false;
  http_tool_max_redirects = 3;
  prompt_max_summary_chars = 2000;
  session_ttl_seconds = 3600;
  cache_ttl_seconds = 60;
}

pub sample_env-IsValidEnv : IsValidEnv sample_env
sample_env-IsValidEnv = record {
  iterations_min = omega arith;
  iterations_max = omega arith;
  retries_min = omega arith;
  retries_max = omega arith;
  retbacks_min = omega arith;
  retbacks_max = omega arith;
}

abbrev pub search_name : Text
search_name = b's' ∷ []

abbrev pub write_name : Text
write_name = b'w' ∷ []

abbrev pub search_tool : Tool
search_tool = record {
  name = search_name;
  description = [];
  safe_parse = λ p. none;
  is_array_field = λ k. false;
  invoke = λ p. record { outcome = ok (b'h' ∷ b'i' ∷ []); timed_out = false };
}

abbrev pub write_tool : Tool
write_tool = record {
  name = write_name;
  description = [];
  safe_parse = λ p. none;
  is_array_field = λ k. false;
  invoke = λ p. record { outcome = err (error (b'x' ∷ [])); timed_out = false };
}

abbrev pub sample_registrations : List ToolRegistration
sample_registrations =
    record {
      tool = search_tool;
      param_hint = none;
      capability = some (record { risk = ToolRiskLevel.read_only; parallel_safe = true });
    }
    ∷ record {
      tool = write_tool;
      param_hint = none;
      capability = some (record { risk = ToolRiskLevel.write; parallel_safe = false });
    }
    ∷ []

abbrev pub sample_registry : ToolRegistry
sample_registry = record {
  tools = (search_name, search_tool) ∷ (write_name, write_tool) ∷ [];
  param_hints = [];
  capabilities =
      (search_name, record { risk = ToolRiskLevel.read_only; parallel_safe = true })
      ∷ (write_name, record { risk = ToolRiskLevel.write; parallel_safe = false })
      ∷ [];
}

abbrev no_answer {ℓ} : {A : Type ℓ} → Result A
no_answer = err (error [])

abbrev pub sample_services : Services
sample_services = record {
  env = sample_env;
  registry = sample_registry;
  invoke_llm = λ p. no_answer;
  invoke_llm_with_images = λ p i. no_answer;
  stream_llm = λ p. record { tokens = []; failure = none };
  stream_llm_with_images = λ p i. record { tokens = []; failure = none };
  json_parse = λ t. none;
  stringify_pretty = λ v. [];
  stringify_results = λ rs. b'r' ∷ [];
  parse_results =
      λ t. some (record { step_id = 1; tool = search_name; result = []; success = false } ∷ []);
  print_value = λ v. [];
  planner_shape = λ v. no_answer;
  critic_shape = λ v. no_answer;
  supervisor_shape = λ v. no_answer;
  dirname = λ t. t;
  basename = λ t. t;
  vector_research = λ t. ok ([], []);
  vector_timed_out = false;
  upsert_vector_memory = λ t. ok tt;
  planner_prompt = λ s. [];
  critic_prompt = λ s. [];
  supervisor_prompt = λ s. [];
  chat_prompt = λ s. [];
  generator_prompt = λ s. [];
}

abbrev pub step_of : ℕ → Text → Option ℕ → PlanStep
step_of id tool group = record {
  step_id = id;
  description = [];
  tool = tool;
  input = [];
  parallel_group = group;
}

abbrev pub sample_state : AgentState
sample_state = record {
  input = b'q' ∷ [];
  phase = Phase.route;
  session_id = some (b'a' ∷ []);
  objective = none;
  review_request = none;
  plan =
      step_of 1 search_name (some 7)
      ∷ step_of 2 search_name (some 7)
      ∷ step_of 3 write_name none
      ∷ [];
  current_step = 0;
  expected_result = none;
  selected_tool = none;
  tool_params = none;
  tool_result_raw = none;
  tool_result = none;
  final_answer = none;
  project_context = none;
  memory_context = none;
  session_memory = none;
  counters = default_agent_counters;
  errors = [];
  critic_decision = none;
  attempts = [];
  parallel_result = none;
  vector_memory_ids = none;
  replan_context = none;
  images = none;
  has_on_token = false;
  stream_phases = none;
}

abbrev pub sample_decision : Verdict → CriticDecisionState
sample_decision v = record { decision = v; reason = b'r' ∷ []; final_answer = none }

abbrev pub sample_options : InitialAgentRunStateOptions
sample_options = record {
  session_memory = none;
  session_id = none;
  has_on_token = false;
  stream_phases = none;
  images = none;
}
