-- ===== src/Nodes/Supervising.antt =====
-- The supervisor: src/modules/agents/nodes/supervisor.node.ts, with the refinement of
-- `supervisorOutputSchema` (state/agent.schemas.ts).
use nest_langgraph_ai.Prelude.{
  Text, ℕ, Bool, true, false, not, ◌&&◌, ◌||◌, Option, none, some, List, [], ◌∷◌, map, codes,
  text_eq, length, leb, some_of, is_empty, or_else, if◌then◌else◌, trim, is_space, is_word,
  to_lower, runs, Result, ok, err, error, ◌>>=◌,
}
use nest_langgraph_ai.Json.{Json}
use nest_langgraph_ai.State.Phase.{Phase}
use nest_langgraph_ai.State.Shape.{AgentState, ErrorCode}
use nest_langgraph_ai.State.Updates.{put, Updates, no_updates}
use nest_langgraph_ai.State.Transitions.{transition_to_phase, request_clarification}
use nest_langgraph_ai.Nodes.Services.{Services, SupervisorOutput, Mode}
use nest_langgraph_ai.Nodes.Repair.{parse_with_repair}

-- `ACTION_KEYWORDS`.
unfoldable pub action_keywords : List Text
action_keywords =
    codes "create"
    ∷ codes "modify"
    ∷ codes "find"
    ∷ codes "delete"
    ∷ codes "build"
    ∷ codes "fix"
    ∷ codes "run"
    ∷ codes "execute"
    ∷ codes "patch"
    ∷ codes "update"
    ∷ codes "write"
    ∷ codes "add"
    ∷ codes "remove"
    ∷ codes "rename"
    ∷ codes "move"
    ∷ codes "copy"
    ∷ codes "install"
    ∷ codes "deploy"
    ∷ codes "generate"
    ∷ codes "refactor"
    ∷ codes "implement"
    ∷ codes "migrate"
    ∷ []

-- The words of the second regular expression.
unfoldable pub chat_words : List Text
chat_words =
    codes "what"
    ∷ codes "who"
    ∷ codes "why"
    ∷ codes "how"
    ∷ codes "when"
    ∷ codes "where"
    ∷ codes "tell"
    ∷ codes "show"
    ∷ codes "explain"
    ∷ codes "the"
    ∷ codes "it"
    ∷ codes "this"
    ∷ codes "that"
    ∷ codes "they"
    ∷ codes "them"
    ∷ codes "those"
    ∷ codes "his"
    ∷ codes "her"
    ∷ codes "its"
    ∷ []

-- The maximal runs of `\w` in lower case: what `\b(…)\b` with the flag `i` can match.
unfoldable pub words_of : Text → List Text
words_of t = map (map to_lower) (runs is_word t)

-- `text.split(/\s+/).length` of a trimmed text: its runs of other characters, and 1 for none.
unfoldable pub count_words : Text → ℕ
count_words t = at_least_one (length (runs (λ c. not (is_space c)) t))
  where
    at_least_one : ℕ → ℕ
    at_least_one n = if leb n 0 then 1 else n

abbrev begins_word : Text → Bool
begins_word [] = false
begins_word (c ∷ t) = is_word c

abbrev is_first : List Text → List Text → Bool
is_first [] keywords = false
is_first (w ∷ ws) keywords = some_of (text_eq w) keywords

-- Whether an action keyword begins the text.
unfoldable pub begins_with_action : Text → Bool
unfolding words_of
begins_with_action t = begins_word t && is_first (words_of t) action_keywords

-- `isObviouslyConversational`.
unfoldable pub is_obviously_conversational : Text → Bool
unfolding count_words begins_with_action
is_obviously_conversational input =
    not (begins_with_action (trim input))
    && ((leb (count_words (trim input)) 8
          && some_of (λ w. some_of (text_eq w) chat_words) (words_of (trim input)))
        || leb (count_words (trim input)) 3)

abbrev pub filled : Option Text → Bool
filled none = false
filled (some t) = not (is_empty t)

-- The refinement: `ok` needs an objective, `reject` a message.
unfoldable pub supervisor_refine : SupervisorOutput → Bool
supervisor_refine o = if o.is_reject then filled o.message else filled o.objective

-- `supervisorOutputSchema.parse`.
unfoldable pub supervisor_output_schema : Services → Json → Result SupervisorOutput
unfolding supervisor_refine
supervisor_output_schema sv v = sv.supervisor_shape v >>= λ o.
    if supervisor_refine o then ok o else err (error (codes "objective or message is required"))

unfoldable pub to_chat : Text → Updates
unfolding transition_to_phase
to_chat objective =
    transition_to_phase Phase.chat (record no_updates { objective = put (some objective) })

unfoldable pub reject_task : SupervisorOutput → Updates
unfolding request_clarification
reject_task o = request_clarification (record {
  code = ErrorCode.unknown;
  message = or_else o.message (codes "Supervisor rejected the task.");
  at_phase = Phase.supervisor;
  missing_capabilities = some (or_else o.missing_capabilities []);
})

-- `isChatMode`.
unfoldable pub is_chat_mode : Option Mode → Text → Bool
unfolding count_words
is_chat_mode (some Mode.chat) input = true
is_chat_mode (some Mode.agent) input = false
is_chat_mode none input = leb (count_words (trim input)) 5

-- What the supervisor does with a parsed answer.
unfoldable pub route_request : AgentState → SupervisorOutput → Updates
unfolding to_chat reject_task is_chat_mode transition_to_phase
route_request s o =
    if o.is_reject
    then (if is_obviously_conversational s.input then to_chat s.input else reject_task o)
    else (if is_chat_mode o.mode s.input
        then to_chat (or_else o.objective s.input)
        else transition_to_phase Phase.research
            (record no_updates { objective = put (some (or_else o.objective s.input)) }))

unfoldable pub supervisor_schema_text : Text
supervisor_schema_text =
    codes
      "{\"status\":\"ok|reject\",\"mode?\":\"agent|chat\",\"objective?\":\"string\",\"message?\":\"string\",\"missing_capabilities?\":[\"string\"]}"

-- `getStructuredNodeRawResponse`: the vision model where the request has images.
unfoldable pub raw_response : Services → Text → Option (List Text) → Result Text
raw_response sv prompt (some (i ∷ is)) = sv.invoke_llm_with_images prompt (i ∷ is)
raw_response sv prompt (some []) = sv.invoke_llm prompt
raw_response sv prompt none = sv.invoke_llm prompt

-- `supervisorNode`.
unfoldable pub supervisor_node : Services → AgentState → Result Updates
unfolding route_request raw_response supervisor_output_schema
supervisor_node sv s =
    let asked : Result Updates = raw_response sv (sv.supervisor_prompt s) s.images >>= λ raw.
    parse_with_repair sv (supervisor_output_schema sv) supervisor_schema_text raw >>= λ o.
    ok (route_request s o) in
    if is_obviously_conversational s.input && filled s.session_memory
    then ok (to_chat s.input)
    else asked
