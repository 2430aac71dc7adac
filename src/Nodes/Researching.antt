-- ===== src/Nodes/Researching.antt =====
-- The research branches and the memory of results: src/modules/agents/nodes/research-fs.node.ts,
-- research-vector.node.ts, memory-persist.node.ts, and src/common/utils/timeout.util.ts.
use nest_langgraph_ai.Prelude.{
  Text, ℕ, ◌-◌, Bool, true, false, not, ◌||◌, Option, none, some, List, [], ◌∷◌, ◌++◌, codes,
  decimal, join, take, length, ltb, leb, includes, is_empty, or_else, if◌then◌else◌, trim, split_on,
  error, Result, ok, err,
}
use nest_langgraph_ai.Json.{boolean, number, string}
use nest_langgraph_ai.State.Phase.{Phase}
use nest_langgraph_ai.State.Shape.{AgentState, AgentError, ErrorCode, Params}
use nest_langgraph_ai.State.Updates.{Change, keep, put, Updates, no_updates}
use nest_langgraph_ai.Tools.{ToolRun, get_tool}
use nest_langgraph_ai.Nodes.Services.{Services}

abbrev filled : Option Text → Bool
filled none = false
filled (some t) = not (is_empty t)

unfoldable pub objective_of : AgentState → Text
objective_of s = or_else s.objective s.input

-- `withTimeout`: the timer that fires first rejects.
unfoldable pub with_timeout : ToolRun → ℕ → Text → Result Text
with_timeout run ms label =
    if run.timed_out
    then err (error (label ++ (codes " timed out after " ++ (decimal ms ++ codes "ms"))))
    else run.outcome

-- `RESEARCH_CONFIG.summarizeThreshold` and `AGENT_CONSTANTS.researcherTreeMaxLines`.
abbrev summarize_threshold : ℕ
summarize_threshold = 4000

abbrev researcher_tree_max_lines : ℕ
researcher_tree_max_lines = 80

unfoldable pub summary_prompt : Text → Text → Text → Text
summary_prompt label text objective = join (10 ∷ []) (
    codes "You are summarizing project context to help an AI agent plan its next actions."
    ∷ (codes "The agent's current objective is: " ++ objective)
    ∷ []
    ∷ (codes "Summarize the following "
        ++ (label ++ codes " concisely. Keep all details that are relevant to the objective."))
    ∷ codes
        "Omit details that are clearly irrelevant. Preserve file paths, function names, and exact identifiers."
    ∷ codes "Output plain text only — no JSON, no markdown headers."
    ∷ []
    ∷ (label ++ codes ":")
    ∷ text
    ∷ []
    ∷ codes "Summary:"
    ∷ [])

-- `maybeSummarize`.
unfoldable pub maybe_summarize : Services → Text → Text → Text → Text
unfolding summary_prompt
maybe_summarize sv label text objective =
    if leb (length text) summarize_threshold
    then text
    else elim (sv.invoke_llm (summary_prompt label text objective)) [
      | ok summary ↦ trim summary
      | err e ↦ text
    ]

-- A section for a tool that is registered: its text, or the text that says it is unavailable.
unfoldable pub tool_section : Services → Text → Params → (Text → Text) → Text → List Text
unfolding with_timeout
tool_section sv name input section unavailable = elim (get_tool sv.registry name) [
  | none ↦ []
  | some tool ↦ elim (with_timeout (tool.invoke input) sv.env.tool_timeout_ms name) [
    | ok text ↦ section text ∷ []
    | err e ↦ unavailable ∷ []
  ]
]

unfoldable pub truncated_tree : Text → Text
truncated_tree tree =
    let lines = split_on 10 tree in
    if ltb researcher_tree_max_lines (length lines)
    then join (10 ∷ []) (take researcher_tree_max_lines lines)
      ++ (10 ∷ codes "… ("
          ++ (decimal (length lines - researcher_tree_max_lines) ++ codes " more entries)"))
    else tree

unfoldable pub tree_section : Services → Text → Text → Text
unfolding truncated_tree maybe_summarize
tree_section sv objective tree =
    maybe_summarize sv (codes "project file tree")
      (codes "## Project file tree\n" ++ truncated_tree tree) objective

unfoldable pub git_section : Text → Text
git_section status =
    codes "## Git status\n" ++ (if is_empty status then codes "(clean working tree)" else status)

unfoldable pub radar_section : Services → Text → Text → Text
unfolding maybe_summarize
radar_section sv objective radar =
    maybe_summarize sv (codes "repo impact radar") (codes "## Impact radar\n" ++ radar) objective

-- The sections of `researchFsNode`: the context that is there, or what three tools say.
unfoldable pub workspace_sections : Services → AgentState → List Text
unfolding tool_section tree_section git_section radar_section maybe_summarize objective_of
workspace_sections sv s =
    if filled s.project_context
    then maybe_summarize sv (codes "project context (cached)") (or_else s.project_context [])
        (objective_of s)
      ∷ []
    else tool_section sv (codes "tree_dir") ((codes "path", string (codes ".")) ∷ [])
        (tree_section sv (objective_of s)) (codes "## Project file tree\n(unavailable)")
      ++ (tool_section sv (codes "git_info") ((codes "action", string (codes "status")) ∷ [])
            git_section (codes "## Git status\n(unavailable)")
          ++ tool_section sv (codes "repo_impact_radar")
              ((codes "objective", string (objective_of s))
                ∷ (codes "maxResults", number (codes "6"))
                ∷ (codes "includeTests", boolean true)
                ∷ [])
              (radar_section sv (objective_of s)) (codes "## Impact radar\n(unavailable)"))

-- `researchFsNode`.
unfoldable pub research_fs_updates : Services → AgentState → Updates
research_fs_updates sv s = record no_updates {
  project_context = put (some (join (10 ∷ 10 ∷ []) (workspace_sections sv s)));
}

unfoldable pub research_fs_node : Services → AgentState → Result Updates
research_fs_node sv s = ok (research_fs_updates sv s)

-- The vector context and its ids; every error becomes the text that says it is unavailable.
unfoldable pub vector_context : Services → AgentState → Text × List Text
unfolding objective_of
vector_context sv s =
    if sv.vector_timed_out
    then (codes "## Vector memory\n(unavailable: timed out)", [])
    else elim (sv.vector_research (objective_of s)) [
      | ok found ↦ found
      | err e ↦ (codes "## Vector memory\n(unavailable: timed out)", [])
    ]

unfoldable pub vector_warnings : Text → Change (List AgentError)
vector_warnings text =
    if includes (codes "(unavailable:") text
    then put (
        record {
          code = ErrorCode.tool_error;
          message = codes "Vector memory search was unavailable during research";
          at_phase = Phase.research;
          missing_capabilities = none;
        }
        ∷ [])
    else keep

unfoldable pub memory_sections : AgentState → Text → List Text
memory_sections s text =
    if filled s.session_memory
    then (codes "## Session memory\n" ++ or_else s.session_memory []) ∷ text ∷ []
    else text ∷ []

-- `researchVectorNode`.
unfoldable pub research_vector_updates : Services → AgentState → Updates
research_vector_updates sv s =
    let found = vector_context sv s in
    record no_updates {
      memory_context = put (some (join (10 ∷ 10 ∷ []) (memory_sections s found.0)));
      vector_memory_ids = put (some found.1);
      errors = vector_warnings found.0;
    }

unfoldable pub research_vector_node : Services → AgentState → Result Updates
research_vector_node sv s = ok (research_vector_updates sv s)

-- The text that `memoryPersistNode` stores, if the run has an objective and an answer.
unfoldable pub memory_text : AgentState → Option Text
unfolding objective_of
memory_text s =
    if is_empty (trim (objective_of s)) || is_empty (trim (or_else s.final_answer []))
    then none
    else some (
        join (10 ∷ []) (
          (codes "Objective: " ++ trim (objective_of s))
          ∷ (codes "Result: " ++ trim (or_else s.final_answer []))
          ∷ []))

-- `memoryPersistNode`: what the upsert does, an error included, changes no state.
unfoldable pub memory_persist_node : Services → AgentState → Result Updates
unfolding memory_text
memory_persist_node sv s = elim (memory_text s) [
  | none ↦ ok no_updates
  | some text ↦ elim (sv.upsert_vector_memory text) [ ok u ↦ ok no_updates | err e ↦ ok no_updates ]
]
