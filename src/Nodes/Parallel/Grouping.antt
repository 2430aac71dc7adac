-- ===== src/Nodes/Parallel/Grouping.antt =====
-- Which steps src/modules/agents/nodes/parallel-execution.node.ts runs as one group, and how it
-- moves on behind them.
use nest_langgraph_ai.Prelude.{
  ℕ, zero, suc, ◌+◌, ◌≤◌, ◌<◌, ◌≡◌, refl, ◌⊎◌, true, false, Option, none, some, List, [], ◌∷◌,
  length, drop, get_elem?, arith,
}
use nest_langgraph_ai.Config.{max_parallel_tools}
use nest_langgraph_ai.State.Phase.{Phase}
use nest_langgraph_ai.State.Shape.{PlanStep, AgentState}
use nest_langgraph_ai.State.Updates.{Updates}
use nest_langgraph_ai.Nodes.Services.{Services, ParallelStepResult}
use nest_langgraph_ai.Nodes.Parallel.Steps.{RanStep}
use nest_langgraph_ai.Nodes.Parallel.{same_group, collect_group}

module _ (g : Option ℕ) where
  abbrev MemberAt : List PlanStep → ℕ → Type 0
  MemberAt steps i =
      (step : PlanStep) × ((get_elem? steps i ≡ some step)
        × (same_group step.parallel_group g ≡ true))

  -- The group ends: it is full, or the next step is missing or not of the group.
  abbrev EndsAt : ℕ → List PlanStep → ℕ → Type 0
  EndsAt room steps n =
      (n ≡ room)
      ⊎ ((step : PlanStep)
          → get_elem? steps n ≡ some step
          → same_group step.parallel_group g ≡ false)

drop-get_elem? :
    {A : Type 0} (xs : List A) (i : ℕ) (a : A)
    → get_elem? xs i ≡ some a
    → (rest : List A) × (drop i xs ≡ a ∷ rest)
drop-get_elem? [] i a h = cc
drop-get_elem? (x ∷ xs) zero a h = (xs, ground arith)
drop-get_elem? (x ∷ xs) (suc i) a h = drop-get_elem? xs i a h

same_group_refl : (g : Option ℕ) → same_group g g ≡ true
same_group_refl none = refl
same_group_refl (some g) = ground arith

pub group-nonempty :
    (steps : List PlanStep) (i : ℕ) (step : PlanStep)
    → get_elem? steps i ≡ some step
    → 0 < length (collect_group step.parallel_group max_parallel_tools (drop i steps))
unfolding collect_group
group-nonempty steps i step h =
    let (rest, e) = drop-get_elem? steps i step h in
    rw (e, same_group_refl step.parallel_group) (omega arith)

-- One group run from `s` to `t`: its steps are `first` and those behind it in the plan with the same
-- group id, at most five of them and as many as there are; each of them was run on `s`, and the raw
-- result is the text of their results in the plan's order.
pub record GroupRun (sv : Services) (s : AgentState) (first : PlanStep) (t : AgentState)
    : Type 0 where
  pub size : ℕ
  pub min_size : 1 ≤ size
  pub max_size : size ≤ max_parallel_tools
  pub members :
      (i : ℕ)
      → i < size
      → (step : PlanStep) × ((get_elem? s.plan (s.current_step + i) ≡ some step)
          × (same_group step.parallel_group first.parallel_group ≡ true))
  pub ends :
      (size ≡ max_parallel_tools)
      ⊎ ((step : PlanStep)
          → get_elem? s.plan (s.current_step + size) ≡ some step
          → same_group step.parallel_group first.parallel_group ≡ false)
  pub results : List ParallelStepResult
  pub one_each : length results ≡ size
  pub ran :
      (i : ℕ)
      → i < size
      → (step : PlanStep) × (r : ParallelStepResult) × (get_elem? s.plan (s.current_step + i)
          ≡ some step)
        × (get_elem? results i ≡ some r)
        × RanStep sv s step r
  pub raw : t.tool_result_raw ≡ some (sv.stringify_results results)
  pub marked : t.parallel_result ≡ some true
  pub current_step : t.current_step + 1 ≡ s.current_step + size
  pub tool_calls : t.counters.tool_calls ≡ s.counters.tool_calls + size
  pub turn : t.counters.turn ≡ s.counters.turn
  pub plan : t.plan ≡ s.plan
  pub phase : t.phase ≡ Phase.normalize_tool_result
