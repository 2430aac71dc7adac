-- ===== src/State/Bounds.antt =====
-- How the reducers of src/modules/agents/state/agent.state.ts bound the histories, and what they
-- make of the initial state of src/modules/agents/state/agent-run-state.util.ts.
use nest_langgraph_ai.Prelude.{
  append_nil, Text, ℕ, zero, suc, ◌-◌, ◌≤◌, ◌≡◌, refl, sym, ap, ◌⊎◌, inl, inr, List, [], ◌∷◌, ◌++◌,
  length, take, drop, length-drop, leb, Bool-cases, arith,
}
use nest_langgraph_ai.State.Shape.{AgentState}
use nest_langgraph_ai.State.Updates.{
  Change, keep, put, Updates, attempts_history_cap, errors_history_cap, last_items, append_capped,
  apply_updates,
}
use nest_langgraph_ai.State.Initial.{InitialAgentRunStateOptions, create_initial_agent_run_state}

-- The histories are within their caps.
pub record IsBounded (s : AgentState) : Type 0 where
  pub attempts : length s.attempts ≤ attempts_history_cap
  pub errors : length s.errors ≤ errors_history_cap

length-append_capped {ℓ} :
    {A : Type ℓ} (cap : ℕ) (prev : List A) (c : Change (List A))
    → length prev ≤ cap
    → length (append_capped cap prev c) ≤ cap
unfolding append_capped last_items
length-append_capped cap prev keep h = h
length-append_capped cap prev (put curr) h =
    omega (arith, length-drop (length (prev ++ curr) - cap) (prev ++ curr))

drop_none {ℓ} : {A : Type ℓ} (n : ℕ) (xs : List A) → n ≡ 0 → drop n xs ≡ xs
drop_none n xs e = rw e refl

take-drop : {A : Type 0} (n : ℕ) (xs : List A) → xs ≡ take n xs ++ drop n xs
take-drop zero xs = refl
take-drop (suc n) [] = refl
take-drop (suc n) (x ∷ xs) = ap (λ l. x ∷ l) (take-drop n xs)

-- What a capped history is after an update: unchanged, or the latest of the old and the new items, as
-- many as the cap has room for.
abbrev pub KeepsLatest : {A : Type 0} → ℕ → List A → Change (List A) → List A → Type 0
KeepsLatest cap prev keep next = next ≡ prev
KeepsLatest {A = A} cap prev (put curr) next =
    (older : List A) × (prev ++ curr ≡ older ++ next) × ((older ≡ []) ⊎ (length next ≡ cap))

latest-cases :
    {A : Type 0} (cap : ℕ) (all : List A)
    → (older : List A) × (all ≡ older ++ drop (length all - cap) all)
      × ((older ≡ []) ⊎ (length (drop (length all - cap) all) ≡ cap))
latest-cases cap all = elim (Bool-cases (leb (length all) cap)) [
  | inl e ↦ ([], sym (drop_none (length all - cap) all (ground arith)), inl refl)
  | inr e ↦ (
    take (length all - cap) all,
    take-drop (length all - cap) all,
    inr (ground (arith, length-drop (length all - cap) all)),
  )
]

append_capped-KeepsLatest :
    {A : Type 0} (cap : ℕ) (prev : List A) (c : Change (List A))
    → KeepsLatest cap prev c (append_capped cap prev c)
unfolding append_capped last_items
append_capped-KeepsLatest cap prev keep = refl
append_capped-KeepsLatest cap prev (put curr) = latest-cases cap (prev ++ curr)

-- Every update of the state keeps the attempts and the errors within 10 and 20 items, and as they are
-- or the latest ones of those before and the update's, as many as there is room for.
pub apply_updates-IsBounded :
    (s : AgentState) (u : Updates)
    → IsBounded s
    → IsBounded (apply_updates s u)
      × KeepsLatest attempts_history_cap s.attempts u.attempts (apply_updates s u).attempts
      × KeepsLatest errors_history_cap s.errors u.errors (apply_updates s u).errors
unfolding apply_updates
apply_updates-IsBounded s u h = (
  record {
    attempts = length-append_capped attempts_history_cap s.attempts u.attempts h.attempts;
    errors = length-append_capped errors_history_cap s.errors u.errors h.errors;
  },
  append_capped-KeepsLatest attempts_history_cap s.attempts u.attempts,
  append_capped-KeepsLatest errors_history_cap s.errors u.errors,
)

append_capped-nil {ℓ} :
    {A : Type ℓ} (cap : ℕ) (prev : List A)
    → length prev ≤ cap
    → append_capped cap prev (put []) ≡ prev
unfolding append_capped last_items
append_capped-nil cap prev h =
    rw (append_nil prev) (drop_none (length prev - cap) prev (omega arith))

-- The initial state of a run does not clear the histories: on a thread that has a state already,
-- the attempts and the errors of the earlier runs are still there when the next run starts, since
-- the reducers append the empty lists of `createInitialAgentRunState`.
pub create_initial_agent_run_state-keeps_histories :
    (prev : AgentState) (prompt : Text) (options : InitialAgentRunStateOptions)
    → IsBounded prev
    → ((apply_updates prev (create_initial_agent_run_state prompt options)).attempts
        ≡ prev.attempts)
      × ((apply_updates prev (create_initial_agent_run_state prompt options)).errors ≡ prev.errors)
unfolding apply_updates create_initial_agent_run_state
create_initial_agent_run_state-keeps_histories prev prompt options h = (
  append_capped-nil attempts_history_cap prev.attempts h.attempts,
  append_capped-nil errors_history_cap prev.errors h.errors,
)
