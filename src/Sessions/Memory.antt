-- ===== src/Sessions/Memory.antt =====
-- The memory of a session: src/modules/agents/services/session-memory.service.ts.
pub mod Entries
use nest_langgraph_ai.Prelude.{
  Text, ℕ, Bool, true, false, not, ◌&&◌, ◌||◌, Option, none, some, List, [], ◌∷◌, ◌++◌, codes, map,
  join, length, take, ltb, leb, text_eq, keep_if, trim, split, is_empty, is_some, or_else,
  if◌then◌else◌, Settled, returned, threw,
}
use nest_langgraph_ai.Config.{Env}
use nest_langgraph_ai.State.Shape.{AgentState}
use nest_langgraph_ai.Redis.{Redis}
use nest_langgraph_ai.Saver.Threads.{get_thread_memory, set_thread_memory}
use nest_langgraph_ai.Sessions.Ids.{is_session_id}

abbrev pub separator : Text
separator = 10 ∷ b'-' ∷ b'-' ∷ b'-' ∷ 10 ∷ []

-- `parseEntries`.
unfoldable pub parse_entries : Option Text → List Text
unfolding split trim
parse_entries none = []
parse_entries (some raw) =
    if is_empty raw then [] else keep_if (λ e. not (is_empty e)) (map trim (split separator raw))

-- The entries that a merge keeps: the new one first, each once, three at most.
unfoldable pub kept_entries : List Text → Text → List Text
unfolding text_eq
kept_entries existing entry = take 3 (entry ∷ keep_if (λ item. not (text_eq item entry)) existing)

abbrev pub max_chars : Env → ℕ
max_chars env = if ltb env.prompt_max_summary_chars 1200 then 1200 else env.prompt_max_summary_chars

unfoldable pub truncate : Env → Text → Text
truncate env merged =
    if ltb (max_chars env) (length merged)
    then take (max_chars env) merged ++ (10 ∷ codes "...[truncated]")
    else merged

-- `merge`.
unfoldable pub merge : Env → Option Text → Text → Text
unfolding parse_entries kept_entries truncate
merge env previous entry =
    truncate env (join separator (kept_entries (parse_entries previous) entry))

-- `preview` of src/common/utils/pretty-log.util.ts.
unfoldable pub preview : Text → ℕ → Text
preview t n = if leb (length t) n then t else take n t ++ codes "…"

abbrev short_answer_threshold : ℕ
short_answer_threshold = 300

-- The answer of a run, as far as it has one; an empty one is kept.
unfoldable pub answer_of : AgentState → Option Text
answer_of r = elim (r.final_answer) [
  | some t ↦ some t
  | none ↦ elim (r.tool_result) [ some result ↦ some result.preview | none ↦ r.tool_result_raw ]
]

unfoldable pub extraction_prompt : (objective answer : Text) → Text
unfolding preview
extraction_prompt objective answer = join (10 ∷ []) (
    codes "Extract 2-4 key facts or learnings from this completed AI agent run."
    ∷ codes "Each fact must be a single sentence that would help a future AI agent answer"
    ∷ codes "follow-up questions or avoid repeating the same work."
    ∷ []
    ∷ (codes "Objective: " ++ preview objective 200)
    ∷ (codes "Outcome: " ++ preview answer 400)
    ∷ []
    ∷ codes "Rules:"
    ∷ codes
        "- Include concrete values: file paths, function names, command results, decisions made."
    ∷ codes "- Do NOT include vague summaries like \"the task was completed successfully\"."
    ∷ codes "- Output as plain numbered list (1. ... 2. ... etc.), no JSON, no markdown headers."
    ∷ codes "- Maximum 4 facts, each under 120 characters."
    ∷ []
    ∷ codes "Facts:"
    ∷ [])

unfoldable pub entry_with : (timestamp objective last : Text) → Text
unfolding preview
entry_with timestamp objective last = join (10 ∷ []) (
    (codes "[" ++ (timestamp ++ codes "]"))
    ∷ (codes "Objective: " ++ preview objective 160)
    ∷ last
    ∷ [])

-- The facts that the LLM extracts from a long final answer, if it gives any.
unfoldable pub extracted_facts :
    (Text → Settled Text) → AgentState → (objective answer : Text) → Option Text
unfolding extraction_prompt trim
extracted_facts invoke_llm r objective answer =
    if not (is_empty (or_else r.final_answer [])) && leb short_answer_threshold (length answer)
    then elim (invoke_llm (extraction_prompt objective answer)) [
      | threw message ↦ none
      | returned facts ↦ if is_empty (trim facts) then none else some (trim facts)
    ]
    else none

-- `buildEntry`; `invoke_llm` calls the fast model, and `timestamp` is the time.
unfoldable pub build_entry : (Text → Settled Text) → Text → Text → AgentState → Option Text
unfolding trim answer_of extracted_facts entry_with preview
build_entry invoke_llm timestamp prompt r =
    let objective = trim (or_else r.objective prompt) in
    let answer = or_else (answer_of r) [] in
    if is_empty objective || is_empty answer
    then none
    else some (
        entry_with timestamp objective (elim (extracted_facts invoke_llm r objective answer) [
          | some facts ↦ codes "Key facts:" ++ (10 ∷ facts)
          | none ↦ codes "Outcome: " ++ preview answer 280
        ]))

-- `SessionMemoryResponseDto`.
pub record SessionMemory : Type 0 where
  pub session_id : Text
  pub entries : List Text
  pub raw : Text

unfoldable pub invalid_session : Text → Text
invalid_session id =
    codes "Invalid sessionId \""
    ++ (id ++ codes "\". Must be 1–64 alphanumeric/hyphen/underscore characters.")

module _ {S : Type 0} (redis : Redis S) (env : Env) where
  -- `tryLoad`: nothing where Redis is not reached.
  unfoldable pub try_load : (reached : Bool) → ℕ → Text → S → Option Text
  unfolding get_thread_memory
  try_load reached now id s = if reached then get_thread_memory redis now id s else none

  -- `getSessionMemory`.
  unfoldable pub get_session_memory : (reached : Bool) → ℕ → Text → S → Settled SessionMemory
  unfolding is_session_id try_load parse_entries invalid_session
  get_session_memory reached now id s =
      if is_session_id id
      then returned (record {
        session_id = id;
        entries = parse_entries (try_load reached now id s);
        raw = or_else (try_load reached now id s) [];
      })
      else threw (invalid_session id)

  -- `addEntry`, where Redis takes the write.
  unfoldable pub add_entry :
      (reached : Bool) → ℕ → (id entry : Text) → S → Settled SessionMemory × S
  unfolding is_session_id try_load merge trim set_thread_memory invalid_session
  add_entry reached now id entry s =
      let merged = merge env (try_load reached now id s) (trim entry) in
      if is_session_id id
      then (
        returned (record { session_id = id; entries = parse_entries (some merged); raw = merged }),
        set_thread_memory redis env now id merged s,
      )
      else (threw (invalid_session id), s)

  -- `clear`.
  unfoldable pub clear : ℕ → Text → S → Settled (Unit {0}) × S
  unfolding is_session_id set_thread_memory invalid_session
  clear now id s =
      if is_session_id id
      then (returned tt, set_thread_memory redis env now id [] s)
      else (threw (invalid_session id), s)

  -- `persist`: an error of the write is only logged.
  unfoldable pub persist :
      (Text → Settled Text)
      → Text
      → (written : Bool) → ℕ
      → (thread_id prompt : Text) → AgentState
      → Option Text
      → S
      → S
  unfolding build_entry merge set_thread_memory
  persist invoke_llm timestamp written now thread_id prompt r previous s =
      elim (build_entry invoke_llm timestamp prompt r) [
        | none ↦ s
        | some entry ↦
            if written
            then set_thread_memory redis env now thread_id (merge env previous entry) s
            else s
      ]
