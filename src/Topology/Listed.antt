-- ===== src/Topology/Listed.antt =====
-- The phases that nodes move on to, against the table of
-- src/modules/agents/state/agent-transition.util.ts.
use nest_langgraph_ai.Prelude.{◌≡◌, ◌⊎◌, Bool, true, false, Option, none, some, Result, ok, err}
use nest_langgraph_ai.State.Phase.{Phase}
use nest_langgraph_ai.State.Shape.{AgentState}
use nest_langgraph_ai.State.Updates.{change, Updates}
use nest_langgraph_ai.State.Transitions.{is_expected}
use nest_langgraph_ai.Nodes.Services.{Services}
use nest_langgraph_ai.Topology.{NodeName, node_handler}

-- The phase that an update leaves is the phase before it, or the table lists the transition.
abbrev pub IsListed : Phase → Updates → Type 0
IsListed p u = (change p u.phase ≡ p) ⊎ (is_expected p (change p u.phase) ≡ true)

abbrev pub AllListed : Phase → Result Updates → Type 0
AllListed p (ok u) = IsListed p u
AllListed p (err e) = Unit

-- What an update that leaves the phase for `plan` does: the table does not list it.
abbrev pub GoesUnlisted : Phase → Result Updates → Type 0
GoesUnlisted p (ok u) = (change p u.phase ≡ Phase.plan) × (is_expected p (change p u.phase) ≡ false)
GoesUnlisted p (err e) = ⊥

-- What the nodes of a phase do; no node stands for `none`. The phase `research` is left by the join
-- behind the coordinator and the two branches.
abbrev pub ListedAt : Services → Bool → AgentState → Phase → Option NodeName → Type 0
ListedAt sv resumed s p none = Unit
ListedAt sv resumed s p (some NodeName.researcher_coordinator) =
    AllListed p (node_handler sv resumed NodeName.researcher_coordinator s)
    × AllListed p (node_handler sv resumed NodeName.research_fs s)
    × AllListed p (node_handler sv resumed NodeName.research_vector s)
    × GoesUnlisted p (node_handler sv resumed NodeName.research_join s)
ListedAt sv resumed s p (some n) = AllListed p (node_handler sv resumed n s)
