-- ===== src/Config.antt =====
-- The configuration that the modelled parts read: src/common/config/env.ts (validated by Joi before
-- it is used) and src/modules/agents/graph/agent.config.ts.
use nest_langgraph_ai.Prelude.{Text, ℕ, ◌*◌, ◌≤◌, Bool, List}

-- The entries of `env`; times are in milliseconds.
pub record Env : Type 0 where
  pub agent_max_iterations : ℕ
  pub agent_max_retries : ℕ
  pub agent_max_retbacks : ℕ
  pub critic_result_max_chars : ℕ
  pub tool_timeout_ms : ℕ
  pub require_plan_review : Bool
  pub mistral_model_fast : Text
  pub mistral_model_balanced : Text
  pub mistral_model_powerful : Text
  pub mistral_model_code : Text
  pub mistral_model_vision : Text
  pub mistral_timeout_ms : ℕ
  pub http_tool_allowed_hosts : List Text
  pub http_tool_allow_private_networks : Bool
  pub http_tool_max_redirects : ℕ
  pub prompt_max_summary_chars : ℕ
  pub session_ttl_seconds : ℕ
  pub cache_ttl_seconds : ℕ

-- The ranges of `envSchema` for the agent's limits.
pub record IsValidEnv (env : Env) : Type 0 where
  pub iterations_min : 1 ≤ env.agent_max_iterations
  pub iterations_max : env.agent_max_iterations ≤ 10
  pub retries_min : 1 ≤ env.agent_max_retries
  pub retries_max : env.agent_max_retries ≤ 10
  pub retbacks_min : 1 ≤ env.agent_max_retbacks
  pub retbacks_max : env.agent_max_retbacks ≤ 10

pub record AgentLimits : Type 0 where
  pub turns : ℕ
  pub tool_calls : ℕ
  pub replans : ℕ
  pub step_retries : ℕ
  pub supervisor_fallbacks : ℕ

-- `getAgentLimits`. The entries of `env` have defaults, so no `??` is taken.
unfoldable pub get_agent_limits : Env → AgentLimits
get_agent_limits env = record {
  turns = env.agent_max_iterations;
  tool_calls = env.agent_max_iterations * 5;
  replans = env.agent_max_iterations;
  step_retries = env.agent_max_retries;
  supervisor_fallbacks = env.agent_max_retbacks;
}

-- `AGENT_PLAN_LIMITS.maxSteps`.
abbrev pub max_steps : ℕ
max_steps = 20

-- `AGENT_CONSTANTS`: `rawResultMaxBytes`, `maxParallelTools`.
abbrev pub raw_result_max_bytes : ℕ
raw_result_max_bytes = 200000

abbrev pub max_parallel_tools : ℕ
max_parallel_tools = 5
