-- ===== src/Nodes/Answering.antt =====
-- The answers of a run: src/modules/agents/nodes/generator.node.ts and chat.node.ts. Tokens are
-- passed to the callback as they come; the answer is what they add up to.
use nest_langgraph_ai.Prelude.{
  Text, Bool, true, ◌&&◌, Option, none, some, List, [], ◌∷◌, ◌++◌, codes, some_of, last?, is_empty,
  if◌then◌else◌, trim, Result, ok, err, ◌>>=◌,
}
use nest_langgraph_ai.State.Phase.{Phase, phase_eq}
use nest_langgraph_ai.State.Shape.{AgentState, Attempt}
use nest_langgraph_ai.State.Updates.{Updates, no_updates}
use nest_langgraph_ai.State.Transitions.{complete_agent_run}
use nest_langgraph_ai.Nodes.Services.{Services, TokenStream}

-- `shouldStream` of both nodes, for a node's phase.
unfoldable pub should_stream : AgentState → Phase → Bool
should_stream s phase =
    s.has_on_token && elim s.stream_phases [ none ↦ true | some ps ↦ some_of (phase_eq phase) ps ]

unfoldable pub accumulate : List Text → Text
accumulate [] = []
accumulate (t ∷ ts) = t ++ accumulate ts

-- The generator's stream: an error in it is answered by one plain call.
unfoldable pub streamed_or_invoked : Services → Text → Result Text
unfolding accumulate
streamed_or_invoked sv prompt =
    let stream = sv.stream_llm prompt in
    elim stream.failure [ none ↦ ok (accumulate stream.tokens) | some e ↦ sv.invoke_llm prompt ]

unfoldable pub first_answer : Services → AgentState → Text → Result Text
unfolding streamed_or_invoked should_stream
first_answer sv s prompt =
    if should_stream s Phase.generate then streamed_or_invoked sv prompt else sv.invoke_llm prompt

abbrev last_preview : Option Attempt → Option Text → Text
last_preview (some a) raw = a.result.preview
last_preview none (some raw) = raw
last_preview none none = codes "The task was completed but no summary could be generated."

-- The answer of last resort.
unfoldable pub synthesized_answer : AgentState → Text
synthesized_answer s =
    codes "[Auto-synthesized] " ++ last_preview (last? s.attempts) s.tool_result_raw

-- The retry of an answer that is blank.
unfoldable pub retried_answer : Services → Text → Text → Result Text
retried_answer sv prompt answer = if is_empty (trim answer) then sv.invoke_llm prompt else ok answer

unfoldable pub answer_or_synthesized : AgentState → Text → Text
unfolding synthesized_answer
answer_or_synthesized s answer = if is_empty (trim answer) then synthesized_answer s else answer

-- `generatorNode`.
unfoldable pub generator_node : Services → AgentState → Result Updates
unfolding first_answer retried_answer answer_or_synthesized complete_agent_run
generator_node sv s = do
  first ← first_answer sv s (sv.generator_prompt s)
  second ← retried_answer sv (sv.generator_prompt s) first
  ok (complete_agent_run (trim (answer_or_synthesized s second)) no_updates)

-- The images of a request, where it has some.
abbrev chat_images : Option (List Text) → List Text
chat_images none = []
chat_images (some is) = is

unfoldable pub chat_stream : Services → Text → List Text → TokenStream
chat_stream sv prompt [] = sv.stream_llm prompt
chat_stream sv prompt (i ∷ is) = sv.stream_llm_with_images prompt (i ∷ is)

unfoldable pub chat_invoke : Services → Text → List Text → Result Text
chat_invoke sv prompt [] = sv.invoke_llm prompt
chat_invoke sv prompt (i ∷ is) = sv.invoke_llm_with_images prompt (i ∷ is)

abbrev stream_result : TokenStream → Result Text
stream_result stream = elim stream.failure [ none ↦ ok (accumulate stream.tokens) | some e ↦ err e ]

-- The chat's answer. An error in its stream is not caught.
unfoldable pub chat_answer : Services → AgentState → Text → Result Text
unfolding should_stream accumulate chat_stream chat_invoke
chat_answer sv s prompt =
    if should_stream s Phase.chat
    then stream_result (chat_stream sv prompt (chat_images s.images))
    else chat_invoke sv prompt (chat_images s.images)

-- `chatNode`.
unfoldable pub chat_node : Services → AgentState → Result Updates
unfolding chat_answer complete_agent_run
chat_node sv s = chat_answer sv s (sv.chat_prompt s) >>= λ answer.
    ok (complete_agent_run (trim answer) no_updates)
