-- ===== src/Run/Measure.antt =====
-- The measure by which every cycle of a run makes progress.
use nest_langgraph_ai.Prelude.{ℕ, ◌+◌, ◌-◌, ◌*◌, ◌<◌, ◌≡◌, false, length}
use nest_langgraph_ai.State.Phase.{Phase, phase_eq}
use nest_langgraph_ai.State.Shape.{AgentState}
use nest_langgraph_ai.State.Updates.{change, Updates}

-- How far a phase is from the end, with `r` steps of the plan still to run.
abbrev pub weight : Phase → ℕ → ℕ
weight Phase.complete r = 0
weight Phase.fatal r = 1
weight Phase.clarification r = 1
weight Phase.fatal_recovery r = 1
weight Phase.chat r = 2
weight Phase.generate r = 2
weight Phase.judge r = 3 + r * 4
weight Phase.normalize_tool_result r = 4 + r * 4
weight Phase.execute r = 5 + r * 4
weight Phase.execute_parallel r = 5 + r * 4
weight Phase.await_plan_review r = 85
weight Phase.validate_plan r = 86
weight Phase.plan r = 87
weight Phase.research_join r = 88
weight Phase.research r = 88
weight Phase.supervisor r = 89
weight Phase.route r = 90

abbrev pub weight_of : AgentState → ℕ
weight_of s = weight s.phase (length s.plan - s.current_step)

-- A turn that is left outweighs every phase behind it.
abbrev pub measure : ℕ → AgentState → ℕ
measure turns s = (turns - s.counters.turn) * 100 + weight_of s

-- What every node but the critic does: it keeps the turn and the critic's decision, and moves on to
-- a lighter phase.
pub record Effect (s : AgentState) (u : Updates) : Type 0 where
  pub turn : (change s.counters u.counters).turn ≡ s.counters.turn
  pub decision : change s.critic_decision u.critic_decision ≡ s.critic_decision
  pub lighter :
      weight
        (change s.phase u.phase)
        (length (change s.plan u.plan) - change s.current_step u.current_step)
      < weight_of s
  pub elsewhere : phase_eq (change s.phase u.phase) Phase.route ≡ false
