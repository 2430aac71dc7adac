-- ===== src/State/Phase.antt =====
-- The phases that drive routing: src/modules/agents/state/agent-phase.ts.
use nest_langgraph_ai.Prelude.{Text, codes, Bool, true, false, List, [], ◌∷◌}

-- `AGENT_PHASES`.
pub data Phase : Type 0 where
  supervisor research research_join plan validate_plan await_plan_review : Phase
  execute execute_parallel normalize_tool_result judge generate route : Phase
  chat complete fatal fatal_recovery clarification : Phase

pub Phase-discrete : Discrete Phase
Phase-discrete = hlevel

-- `===` on phases.
abbrev pub phase_eq : Phase → Phase → Bool
phase_eq supervisor supervisor = true
phase_eq research research = true
phase_eq research_join research_join = true
phase_eq plan plan = true
phase_eq validate_plan validate_plan = true
phase_eq await_plan_review await_plan_review = true
phase_eq execute execute = true
phase_eq execute_parallel execute_parallel = true
phase_eq normalize_tool_result normalize_tool_result = true
phase_eq judge judge = true
phase_eq generate generate = true
phase_eq route route = true
phase_eq chat chat = true
phase_eq complete complete = true
phase_eq fatal fatal = true
phase_eq fatal_recovery fatal_recovery = true
phase_eq clarification clarification = true
phase_eq _ _ = false

-- `ROUTABLE_AGENT_PHASES`.
unfoldable pub routable_agent_phases : List Phase
routable_agent_phases =
    supervisor ∷ research ∷ research_join ∷ plan ∷ validate_plan ∷ await_plan_review ∷ execute
    ∷ execute_parallel ∷ normalize_tool_result ∷ judge ∷ generate ∷ chat ∷ fatal_recovery
    ∷ clarification ∷ []

-- The text of a phase, `AGENT_PHASES`.
unfoldable pub phase_text : Phase → Text
phase_text supervisor = codes "supervisor"
phase_text research = codes "research"
phase_text research_join = codes "research_join"
phase_text plan = codes "plan"
phase_text validate_plan = codes "validate_plan"
phase_text await_plan_review = codes "await_plan_review"
phase_text execute = codes "execute"
phase_text execute_parallel = codes "execute_parallel"
phase_text normalize_tool_result = codes "normalize_tool_result"
phase_text judge = codes "judge"
phase_text generate = codes "generate"
phase_text route = codes "route"
phase_text chat = codes "chat"
phase_text complete = codes "complete"
phase_text fatal = codes "fatal"
phase_text fatal_recovery = codes "fatal_recovery"
phase_text clarification = codes "clarification"
