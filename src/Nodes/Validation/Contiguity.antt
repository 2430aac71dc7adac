-- ===== src/Nodes/Validation/Contiguity.antt =====
-- What rule B of the plan preflight shows of a parallel group: `groupIndices` holds the positions
-- of each group's steps.
use nest_langgraph_ai.Prelude.{
  append_nil, ℕ, ◌+◌, ◌≤◌, ◌≡◌, refl, sym, ap, ◌∙◌, inl, inr, true, false, Option, none, some, List,
  [], ◌∷◌, ◌++◌, length, ◌==◌, ==_iff, arith, Bool-cases, Option-cases, if◌then◌else◌,
}
use nest_langgraph_ai.State.Shape.{PlanStep}
use nest_langgraph_ai.Nodes.Validation.Groups.{
  in_group, add_index, group_indices, is_contiguous, check_group, check_group_list, check_groups,
}

-- The indices of a group's steps, the first step having the index `i`.
unfoldable pub positions : ℕ → ℕ → List PlanStep → List ℕ
unfolding in_group
positions g i [] = []
positions g i (step ∷ steps) =
    if in_group g step then i ∷ positions g (i + 1) steps else positions g (i + 1) steps

indices_of : ℕ → List (ℕ × List ℕ) → List ℕ
indices_of g [] = []
indices_of g ((h, is) ∷ m) = if h == g then is else indices_of g m

append_assoc : (xs ys zs : List ℕ) → (xs ++ ys) ++ zs ≡ xs ++ (ys ++ zs)
append_assoc [] ys zs = refl
append_assoc (x ∷ xs) ys zs = ap (λ l. x ∷ l) (append_assoc xs ys zs)

indices_of-add_index-same :
    (g i : ℕ) (m : List (ℕ × List ℕ)) → indices_of g (add_index g i m) ≡ indices_of g m ++ i ∷ []
unfolding indices_of add_index
indices_of-add_index-same g i [] = ground arith
indices_of-add_index-same g i ((h, is) ∷ m) = elim (Bool-cases (h == g)) [
  | inl e ↦ rw e (rw e refl)
  | inr e ↦ rw e (rw e (indices_of-add_index-same g i m))
]

indices_of-add_index-other :
    (g k i : ℕ) (m : List (ℕ × List ℕ))
    → (k == g) ≡ false
    → indices_of g (add_index k i m) ≡ indices_of g m
unfolding indices_of add_index
indices_of-add_index-other g k i [] n = rw n refl
indices_of-add_index-other g k i ((h, is) ∷ m) n = elim (Bool-cases (h == k)) [
  | inl e ↦ ground (arith)
  | inr e ↦ rw e (ap (λ l. if h == g then is else l) (indices_of-add_index-other g k i m n))
]

indices_of-step :
    (g i : ℕ) (o : Option ℕ) (m : List (ℕ × List ℕ)) (rest : List ℕ)
    → indices_of g (elim o [ none ↦ m | some k ↦ add_index k i m ]) ++ rest
      ≡ indices_of g m ++ (if elim o [ none ↦ false | some k ↦ k == g ] then i ∷ rest else rest)
indices_of-step g i none m rest = refl
indices_of-step g i (some k) m rest = elim (Bool-cases (k == g)) [
  | inl e ↦
      rw (e, (==_iff k g).0 e)
        (ap (λ l. l ++ rest) (indices_of-add_index-same g i m)
          ∙ append_assoc (indices_of g m) (i ∷ []) rest)
  | inr e ↦ rw e (ap (λ l. l ++ rest) (indices_of-add_index-other g k i m e))
]

indices_of-group_indices :
    (g i : ℕ) (m : List (ℕ × List ℕ)) (steps : List PlanStep)
    → indices_of g (group_indices i m steps) ≡ indices_of g m ++ positions g i steps
unfolding group_indices positions in_group
indices_of-group_indices g i m [] = sym (append_nil (indices_of g m))
indices_of-group_indices g i m (step ∷ steps) =
    indices_of-group_indices g (i + 1) _ steps
    ∙ indices_of-step g i step.parallel_group m (positions g (i + 1) steps)

group_indices-positions :
    (g : ℕ) (steps : List PlanStep) → indices_of g (group_indices 0 [] steps) ≡ positions g 0 steps
unfolding indices_of
group_indices-positions g steps = indices_of-group_indices g 0 [] steps

check_group_list_sound :
    (g : ℕ) (m : List (ℕ × List ℕ))
    → check_group_list m ≡ none
    → (is_contiguous (indices_of g m) ≡ true) × (length (indices_of g m) ≤ 5)
unfolding check_group_list check_group indices_of is_contiguous
check_group_list_sound g [] h = ground arith
check_group_list_sound g ((k, is) ∷ m) h = elim (Option-cases (check_group k is)) [
  | inr (f, e) ↦ absurd (ground arith)
  | inl e ↦ elim (Bool-cases (k == g)) [
    | inl same ↦ rw same (ground arith)
    | inr other ↦ rw other (check_group_list_sound g m (ground arith))
  ]
]

-- Under rule B each group stands in adjacent steps, at most five of them.
pub check_groups_sound :
    (g : ℕ) (steps : List PlanStep)
    → check_groups steps ≡ none
    → (is_contiguous (positions g 0 steps) ≡ true) × (length (positions g 0 steps) ≤ 5)
unfolding check_groups
check_groups_sound g steps h =
    rw (sym (group_indices-positions g steps))
      (check_group_list_sound g (group_indices 0 [] steps) h)
