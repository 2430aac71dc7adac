-- ===== src/Run/Termination.antt =====
-- Every run ends: its cycles lower the measure.
use nest_langgraph_ai.Prelude.{ℕ, ◌<◌, ◌≡◌, Option, none, some}
use nest_langgraph_ai.State.Phase.{Phase}
use nest_langgraph_ai.Nodes.Services.{Services}
use nest_langgraph_ai.Run.{RunEnd, finished, interrupted, out_of_steps}
use nest_langgraph_ai.Run.Pauses.{Interrupts}
use nest_langgraph_ai.Run.Progress.{Progress}

-- How a run may end: complete, interrupted by a node, or out of supersteps, and then it had fewer of
-- them than `enough`.
abbrev pub Ends : (ℕ → Services) → (limit enough : ℕ) → Option RunEnd → Type 0
Ends services limit enough (some (finished t)) = t.phase ≡ Phase.complete
Ends services limit enough (some (interrupted t)) = (k : ℕ) × Interrupts (services k) t
Ends services limit enough (some (out_of_steps t)) = limit < enough
Ends services limit enough none = ⊥
