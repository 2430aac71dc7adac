-- ===== src/Nodes/Validation/Checks.antt =====
-- What each check of src/modules/agents/nodes/plan-validator.node.ts shows of a plan.
use nest_langgraph_ai.Prelude.{
  ℕ, zero, suc, ◌+◌, ◌≤◌, ◌≡◌, refl, sym, ◌∙◌, inl, inr, true, false, Option, none, some, List, [],
  ◌∷◌, length, get_elem?, is_some, arith, Bool-cases, Option-cases, All, Result, ok, err, ◌>>=◌,
}
use nest_langgraph_ai.Config.{max_steps}
use nest_langgraph_ai.State.Shape.{PlanStep}
use nest_langgraph_ai.Tools.{Tool, ToolRegistry, get_tool, get_capability}
use nest_langgraph_ai.Nodes.Services.{Services}
use nest_langgraph_ai.Nodes.Validation.Groups.{
  Failure, check_previous_results, check_groups, breaks_rule_a, is_contiguous,
}
use nest_langgraph_ai.Nodes.Validation.Contiguity.{positions, check_groups_sound}
use nest_langgraph_ai.Nodes.Validation.Anchors.{check_anchors}
use nest_langgraph_ai.Nodes.Validation.{
  check_step_ids, has_placeholder, check_params, check_tool, check_tools, first_failure, preflight,
}

-- The ids count the steps from 1.
check_step_ids_sound :
    (k : ℕ) (steps : List PlanStep)
    → check_step_ids k steps ≡ none
    → (i : ℕ) (step : PlanStep) → get_elem? steps i ≡ some step
    → step.step_id ≡ k + i + 1
unfolding check_step_ids
check_step_ids_sound k [] h i step e = absurd (cc)
check_step_ids_sound k (x ∷ xs) h zero step e = ground arith
check_step_ids_sound k (x ∷ xs) h (suc i) step e =
    omega (arith, check_step_ids_sound (k + 1) xs (ground arith) i step e)

-- A step names a tool that is registered and accepts its input, unless the input waits for a
-- placeholder, and in a parallel group the tool is safe to run in parallel.
pub record IsRunnable (reg : ToolRegistry) (step : PlanStep) : Type 0 where
  pub tool : Tool
  pub is_registered : get_tool reg step.tool ≡ some tool
  pub accepts : has_placeholder step.input ≡ false → tool.safe_parse step.input ≡ none
  pub is_parallel_safe :
      is_some step.parallel_group ≡ true → (get_capability reg step.tool).parallel_safe ≡ true

check_params_sound :
    (tool : Tool) (step : PlanStep)
    → check_params tool step ≡ none
    → has_placeholder step.input ≡ false
    → tool.safe_parse step.input ≡ none
unfolding check_params
check_params_sound tool step h n = ground arith

check_tool_sound :
    (reg : ToolRegistry) (step : PlanStep) → check_tool reg step ≡ none → IsRunnable reg step
unfolding check_tool
check_tool_sound reg step h = elim (Option-cases (get_tool reg step.tool)) [
  | inl e ↦ absurd (ground arith)
  | inr (tool, e) ↦ record {
    tool = tool;
    is_registered = e;
    accepts = check_params_sound tool step (ground arith);
    is_parallel_safe = λ g. ground arith;
  }
]

check_tools_sound :
    (reg : ToolRegistry) (steps : List PlanStep)
    → check_tools reg steps ≡ none
    → All (IsRunnable reg) steps
unfolding check_tools
check_tools_sound reg [] h = tt
check_tools_sound reg (x ∷ xs) h = elim (Option-cases (check_tool reg x)) [
  | inl e ↦ (check_tool_sound reg x e, check_tools_sound reg xs (ground arith))
  | inr (f, e) ↦ absurd (ground arith)
]

check_previous_results_sound :
    (all steps : List PlanStep)
    → check_previous_results all steps ≡ none
    → All (λ step. breaks_rule_a all step ≡ false) steps
unfolding check_previous_results
check_previous_results_sound all [] h = tt
check_previous_results_sound all (x ∷ xs) h = elim (Bool-cases (breaks_rule_a all x)) [
  | inl e ↦ absurd (ground arith)
  | inr e ↦ (e, check_previous_results_sound all xs (ground arith))
]

-- What the preflight promises of a plan.
pub record IsValidPlan (reg : ToolRegistry) (steps : List PlanStep) : Type 0 where
  pub min_length : 1 ≤ length steps
  pub max_length : length steps ≤ max_steps
  pub ids : (i : ℕ) (step : PlanStep) → get_elem? steps i ≡ some step → step.step_id ≡ i + 1
  pub runnable : All (IsRunnable reg) steps
  pub earlier_result : All (λ step. breaks_rule_a steps step ≡ false) steps
  pub adjacent : (g : ℕ) → is_contiguous (positions g 0 steps) ≡ true
  pub max_group : (g : ℕ) → length (positions g 0 steps) ≤ 5

-- The checks behind the anchors' check passed.
pub record Passes (reg : ToolRegistry) (steps : List PlanStep) : Type 0 where
  rule_a : check_previous_results steps steps ≡ none
  rule_b : check_groups steps ≡ none
  ids : check_step_ids 0 steps ≡ none
  tools : check_tools reg steps ≡ none

first_failure-pair :
    (a b : Option Failure) → first_failure (a ∷ b ∷ []) ≡ none → (a ≡ none) × (b ≡ none)
unfolding first_failure
first_failure-pair none none h = (refl, refl)
first_failure-pair none (some f) h = absurd (cc)
first_failure-pair (some f) b h = absurd (cc)

first_failure-triple :
    (a b c : Option Failure) → first_failure (a ∷ b ∷ c ∷ []) ≡ none → (b ≡ none) × (c ≡ none)
unfolding first_failure
first_failure-triple none b c h = first_failure-pair b c h
first_failure-triple (some f) b c h = absurd (cc)

pub bind-ok {ℓ} :
    {A B : Type ℓ} (m : Result A) (f : A → B) (b : B)
    → (m >>= λ a. ok (f a)) ≡ ok b
    → (a : A) × ((m ≡ ok a) × (f a ≡ b))
bind-ok (ok a) f b h = (a, (refl, cc))
bind-ok (err e) f b h = absurd (cc)

-- What is left of the preflight behind the rules on groups.
later_checks : Services → List PlanStep → Option Failure → Option Failure
later_checks sv steps anchors =
    first_failure (anchors ∷ check_step_ids 0 steps ∷ check_tools sv.registry steps ∷ [])

preflight-later_checks :
    (sv : Services) (steps : List PlanStep)
    → first_failure (check_previous_results steps steps ∷ check_groups steps ∷ []) ≡ none
    → preflight sv steps
      ≡ (check_anchors sv steps steps >>= λ anchors. ok (later_checks sv steps anchors))
unfolding preflight later_checks
preflight-later_checks sv steps e = rw (e, preflight) refl

pub preflight-Passes :
    (sv : Services) (steps : List PlanStep)
    → preflight sv steps ≡ ok none
    → Passes sv.registry steps
unfolding preflight later_checks
preflight-Passes sv steps h =
    elim (Option-cases
      (first_failure (check_previous_results steps steps ∷ check_groups steps ∷ []))) [
        | inr (f, e) ↦ absurd (ground arith)
        | inl e ↦
            let (anchors, (same, later)) =
              bind-ok (check_anchors sv steps steps) (later_checks sv steps) none
                (sym (preflight-later_checks sv steps e) ∙ h) in
            let (a, b) = first_failure-pair _ _ e in
            let (c, d) = first_failure-triple anchors _ _ later in
            record { rule_a = a; rule_b = b; ids = c; tools = d }
      ]

pub Passes-IsValidPlan :
    (reg : ToolRegistry) (steps : List PlanStep)
    → 1 ≤ length steps
    → length steps ≤ max_steps
    → Passes reg steps
    → IsValidPlan reg steps
Passes-IsValidPlan reg steps some_steps fits p = record {
  min_length = some_steps;
  max_length = fits;
  ids = λ i step e. omega (arith, check_step_ids_sound 0 steps p.ids i step e);
  runnable = check_tools_sound reg steps p.tools;
  earlier_result = check_previous_results_sound steps steps p.rule_a;
  adjacent = λ g. (check_groups_sound g steps p.rule_b).0;
  max_group = λ g. (check_groups_sound g steps p.rule_b).1;
}
