-- ===== src/State/Initial.antt =====
-- The state that a run starts from: src/modules/agents/state/agent-run-state.util.ts.
use nest_langgraph_ai.Prelude.{Text, Bool, Option, none, List, []}
use nest_langgraph_ai.State.Phase.{Phase, supervisor}
use nest_langgraph_ai.State.Updates.{put, Updates, no_updates}
use nest_langgraph_ai.State.Transitions.{default_agent_counters}

pub record InitialAgentRunStateOptions : Type 0 where
  pub session_memory : Option Text
  pub session_id : Option Text
  pub has_on_token : Bool
  pub stream_phases : Option (List Phase)
  pub images : Option (List Text)

unfoldable pub create_initial_agent_run_state : Text → InitialAgentRunStateOptions → Updates
create_initial_agent_run_state prompt options = record no_updates {
  input = put prompt;
  phase = put supervisor;
  session_id = put options.session_id;
  current_step = put 0;
  plan = put [];
  objective = put none;
  review_request = put none;
  expected_result = put none;
  selected_tool = put none;
  tool_params = put none;
  tool_result_raw = put none;
  tool_result = put none;
  critic_decision = put none;
  final_answer = put none;
  project_context = put none;
  memory_context = put none;
  session_memory = put options.session_memory;
  has_on_token = put options.has_on_token;
  stream_phases = put options.stream_phases;
  images = put options.images;
  attempts = put [];
  counters = put default_agent_counters;
  errors = put [];
}
