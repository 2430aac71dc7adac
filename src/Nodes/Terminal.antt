-- ===== src/Nodes/Terminal.antt =====
-- The last answer of a run that failed or needs the user: src/modules/agents/nodes/
-- terminal-response.node.ts.
use nest_langgraph_ai.Prelude.{
  Text, ℕ, not, Option, none, some, List, [], ◌∷◌, ◌++◌, codes, join, take, length, ltb, last?,
  is_empty, or_else, if◌then◌else◌, ◌==◌, leb, span, trim, Result, ok,
}
use mathlib.Core.List.{reverse}
use nest_langgraph_ai.State.Phase.{Phase, phase_eq}
use nest_langgraph_ai.State.Shape.{AgentState, AgentError}
use nest_langgraph_ai.State.Updates.{put, Updates, no_updates}
use nest_langgraph_ai.State.Transitions.{complete_agent_run}

-- The text around a JSON blob, `raw.replace(/\[?\{[\s\S]{20,}\}\]?/g, '')`: from the first brace, with
-- a bracket in front of it, to the last closing brace, with a bracket behind it, if 20 units or more
-- stand between the braces. No second match can follow, since none of the rest has a closing brace.
drop_first : ℕ → Text → Text
drop_first c [] = []
drop_first c (d ∷ t) = if d == c then t else d ∷ t

-- By what stands behind the first opening brace, reversed, and split at its first closing brace.
join_around : (raw before_reversed : Text) → Text × Text → Text
unfolding drop_first
join_around raw before_reversed (behind_reversed, []) = raw
join_around raw before_reversed (behind_reversed, c ∷ inner) =
    if leb 20 (length inner)
    then reverse (drop_first b'[' before_reversed) ++ drop_first b']' (reverse behind_reversed)
    else raw

strip_after : (raw : Text) → Text × Text → Text
unfolding join_around
strip_after raw (before, []) = raw
strip_after raw (before, c ∷ rest) =
    join_around raw (reverse before) (span (λ d. not (d == b'}')) (reverse rest))

unfoldable pub strip_json : Text → Text
unfolding strip_after
strip_json raw = trim (strip_after raw (span (λ d. not (d == b'{')) raw))

-- `humanizeError`.
unfoldable pub humanize_error : Text → Text
humanize_error raw =
    let no_json = strip_json raw in
    let truncated : Text =
      if ltb 300 (length no_json) then take 300 no_json ++ codes "..." else no_json in
    if is_empty truncated then take 200 raw else truncated

abbrev capability_message : AgentError → Option (List Text) → Text
capability_message e none =
    codes "I ran into a problem and need a bit more context: "
    ++ (humanize_error e.message
        ++ codes "\n\nCould you rephrase your request or give me more details?")
capability_message e (some caps) =
    codes "I don't have the right tools for that — specifically I'm missing: "
    ++ (join (codes ", ") caps
        ++ codes ". Could you try rephrasing or breaking it into smaller steps?")

-- `buildClarificationMessage`, by the last error.
unfoldable pub clarification_message : Option AgentError → Text
unfolding humanize_error
clarification_message none =
    codes
      "I need a bit more information to help you with that. Could you rephrase your request or add some details?"
clarification_message (some e) =
    capability_message e
      (if phase_eq e.at_phase Phase.supervisor then e.missing_capabilities else none)

-- The sentences around the hint, by the phase that failed.
unfoldable pub fatal_frame : Phase → Text × Text
fatal_frame Phase.plan = (
  codes "I wasn't able to build a valid plan for your request: ",
  codes
      "\n\nTry breaking the task into smaller pieces, or be more specific about what you'd like me to do.",
)
fatal_frame Phase.validate_plan = (
  codes "I wasn't able to build a valid plan for your request: ",
  codes
      "\n\nTry breaking the task into smaller pieces, or be more specific about what you'd like me to do.",
)
fatal_frame Phase.execute = (
  codes "I ran into an error while executing the plan: ",
  codes
      "\n\nThe task might need different tools or a simpler approach — try rephrasing your request.",
)
fatal_frame Phase.judge = (
  codes "I completed the steps but couldn't verify the results: ",
  codes "\n\nTry asking me again with a more specific goal.",
)
fatal_frame _ = (
  codes "Sorry, I hit a snag while working on your request: ",
  codes "\n\nYou can try rephrasing your prompt or simplifying the task.",
)

-- `buildFatalMessage`, by the objective and the last error.
unfoldable pub fatal_message : Text → Option AgentError → Text
unfolding fatal_frame humanize_error
fatal_message objective none =
    codes "Sorry, I wasn't able to complete the task"
    ++ ((if is_empty objective then [] else codes " (\"" ++ (take 80 objective ++ codes "\")"))
        ++ codes
            ". Something went wrong internally. You can try rephrasing your prompt — that often helps.")
fatal_message objective (some e) =
    let frame = fatal_frame e.at_phase in frame.0 ++ (humanize_error e.message ++ frame.1)

unfoldable pub terminal_answer : AgentState → Text
unfolding clarification_message fatal_message
terminal_answer s =
    if phase_eq s.phase Phase.clarification
    then clarification_message (last? s.errors)
    else fatal_message (or_else s.objective s.input) (last? s.errors)

-- `terminalResponseNode`.
unfoldable pub terminal_response_node : AgentState → Result Updates
unfolding complete_agent_run terminal_answer
terminal_response_node s =
    ok (complete_agent_run (terminal_answer s) (record no_updates { errors = put [] }))
