-- ===== src/Nodes/Validation/Groups.antt =====
-- Rules A and B of the plan preflight, on parallel groups.
use nest_langgraph_ai.Prelude.{
  Text, ℕ, ◌+◌, Bool, true, false, not, ◌&&◌, Option, none, some, List, [], ◌∷◌, ◌++◌, codes,
  decimal, length, ltb, ◌==◌, if◌then◌else◌, keep_if, some_of, map,
}
use nest_langgraph_ai.Json.{string_includes}
use nest_langgraph_ai.State.Shape.{PlanStep, Params}
use nest_langgraph_ai.Nodes.Placeholders.{previous_result}

-- The two arguments of `failValidation`.
pub record Failure : Type 0 where
  pub answer : Text
  pub message : Text

-- `s.parallel_group === g` for a group that is given.
unfoldable pub in_group : ℕ → PlanStep → Bool
in_group g step = elim step.parallel_group [ none ↦ false | some h ↦ h == g ]

-- `Math.min(...ids)`, from a bound that the first id replaces.
unfoldable pub minimum : ℕ → List ℕ → ℕ
minimum m [] = m
minimum m (n ∷ ns) = minimum (if ltb n m then n else m) ns

-- The earliest step id of a group, which holds at least one step.
unfoldable pub group_start : ℕ → List PlanStep → ℕ → ℕ
unfolding in_group minimum
group_start g steps own_id = minimum own_id (map (λ s. s.step_id) (keep_if (in_group g) steps))

unfoldable pub uses_previous_result : Params → Bool
uses_previous_result input = some_of (λ entry. string_includes previous_result entry.1) input

previous_failure : PlanStep → Failure
previous_failure step = record {
  answer =
      codes "Parallel group step "
      ++ (decimal step.step_id
          ++ codes " cannot use __PREVIOUS_RESULT__ — no prior step has run yet.");
  message =
      codes "Parallel group step "
      ++ (decimal step.step_id ++ codes " uses __PREVIOUS_RESULT__ with no prior step");
}

-- Rule A at one step.
unfoldable pub breaks_rule_a : List PlanStep → PlanStep → Bool
unfolding group_start uses_previous_result
breaks_rule_a steps step = elim step.parallel_group [
  | none ↦ false
  | some g ↦ not (ltb 1 (group_start g steps step.step_id)) && uses_previous_result step.input
]

-- Rule A, the loop over the steps.
unfoldable pub check_previous_results : List PlanStep → List PlanStep → Option Failure
unfolding breaks_rule_a previous_failure
check_previous_results steps [] = none
check_previous_results steps (step ∷ rest) =
    if breaks_rule_a steps step
    then some (previous_failure step)
    else check_previous_results steps rest

-- `groupIndices`: the indices of each group's steps, the groups in order of appearance.
unfoldable pub add_index : ℕ → ℕ → List (ℕ × List ℕ) → List (ℕ × List ℕ)
add_index g i [] = (g, i ∷ []) ∷ []
add_index g i ((h, is) ∷ m) = if h == g then (h, is ++ i ∷ []) ∷ m else (h, is) ∷ add_index g i m

unfoldable pub group_indices : ℕ → List (ℕ × List ℕ) → List PlanStep → List (ℕ × List ℕ)
unfolding add_index
group_indices i m [] = m
group_indices i m (step ∷ steps) =
    group_indices (i + 1) (elim step.parallel_group [ none ↦ m | some g ↦ add_index g i m ]) steps

-- Whether each index is the one before it plus 1.
unfoldable pub is_contiguous : List ℕ → Bool
is_contiguous [] = true
is_contiguous (i ∷ []) = true
is_contiguous (i ∷ j ∷ is) = j == i + 1 && is_contiguous (j ∷ is)

-- Rule B at one group.
unfoldable pub check_group : ℕ → List ℕ → Option Failure
unfolding is_contiguous
check_group g indices =
    if not (is_contiguous indices)
    then some (record {
      answer =
          codes "Parallel group "
          ++ (decimal g
              ++ codes " has non-contiguous steps — all steps in a group must be adjacent.");
      message = codes "Non-contiguous parallel group " ++ decimal g;
    })
    else (if ltb 5 (length indices)
        then some (record {
          answer =
              codes "Parallel group "
              ++ (decimal g
                  ++ (codes " has "
                      ++ (decimal (length indices) ++ codes " steps. Maximum allowed is 5.")));
          message = codes "Parallel group " ++ (decimal g ++ codes " exceeds max size");
        })
        else none)

unfoldable pub check_group_list : List (ℕ × List ℕ) → Option Failure
unfolding check_group
check_group_list [] = none
check_group_list ((g, indices) ∷ m) = elim (check_group g indices) [
  | some f ↦ some f
  | none ↦ check_group_list m
]

-- Rule B: the groups are contiguous and of at most five steps.
unfoldable pub check_groups : List PlanStep → Option Failure
unfolding check_group_list group_indices
check_groups steps = check_group_list (group_indices 0 [] steps)
