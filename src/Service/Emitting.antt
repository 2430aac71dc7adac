-- ===== src/Service/Emitting.antt =====
-- The events that a streamed run emits, in `streamRun` of src/modules/agents/agents.service.ts.
use nest_langgraph_ai.Prelude.{
  Text, ℕ, Bool, true, false, not, ◌&&◌, ◌||◌, Option, none, some, List, [], ◌∷◌, ◌++◌, codes, map,
  decimal, text_eq, includes, is_empty, some_of, is_some, or_else, if◌then◌else◌,
}
use nest_langgraph_ai.Config.{Env}
use nest_langgraph_ai.State.Phase.{
  Phase, phase_eq, phase_text, supervisor, research, validate_plan, generate, chat, fatal_recovery,
  execute, normalize_tool_result, plan, complete, fatal, await_plan_review,
}
use nest_langgraph_ai.State.Shape.{AgentState, PlanStep, ReviewRequest}
use nest_langgraph_ai.State.Updates.{Change, keep, put, Updates}
use nest_langgraph_ai.Llm.Models.{select_model_for_phase}
use nest_langgraph_ai.Sessions.Memory.{preview}
use nest_langgraph_ai.Service.Run.{run_answer}

pub data EventType : Type 0 where
  status model_switch tool_call_started tool_call_finished plan_made llm_stream_reset : EventType
  llm_token final review_required error : EventType

-- `StreamEvent`; `step` and `model` are given by some events only.
pub record StreamEvent : Type 0 where
  pub kind : EventType
  pub data_text : Text
  pub session_id : Text
  pub is_done : Bool
  pub step : Option ℕ
  pub model : Option Text

-- What the graph's stream gives for a node: what the node returned, and the tokens that were queued
-- up to then.
pub record GraphEvent : Type 0 where
  pub snap : Updates
  pub tokens : List Text

-- `JSON.stringify` of what the events tell.
pub record Printers : Type 0 where
  pub print_switch : (model phase : Text) → Text
  pub print_plan : List PlanStep → Text
  pub print_review : ReviewRequest → Text

abbrev pub plain : EventType → (data_text id : Text) → Bool → StreamEvent
plain kind data_text id is_done = record {
  kind = kind;
  data_text = data_text;
  session_id = id;
  is_done = is_done;
  step = none;
  model = none;
}

-- What a node's update says of a channel.
abbrev pub said {ℓ} : {A : Type ℓ} → Change A → Option A
said keep = none
said (put a) = some a

abbrev said_text : Change (Option Text) → Text
said_text keep = []
said_text (put t) = or_else t []

abbrev said_plan : Change (List PlanStep) → List PlanStep
said_plan keep = []
said_plan (put steps) = steps

abbrev user_visible_phases : List Phase
user_visible_phases = supervisor ∷ research ∷ validate_plan ∷ generate ∷ chat ∷ fatal_recovery ∷ []

-- The event of the first test that holds: an `if` with `else if`s.
abbrev pub first_of : List (Bool × StreamEvent) → List StreamEvent
first_of [] = []
first_of ((true, e) ∷ others) = e ∷ []
first_of ((false, e) ∷ others) = first_of others

abbrev is_no_plan : List PlanStep → Bool
is_no_plan [] = true
is_no_plan (s ∷ steps) = false

-- `${snap.currentStep}`.
abbrev print_step : Option ℕ → Text
print_step none = codes "undefined"
print_step (some n) = decimal n

abbrev review_text : Printers → Option ReviewRequest → Text
review_text print none = []
review_text print (some request) = print.print_review request

abbrev same_text : Option Text → Text → Bool
same_text none current = false
same_text (some last) current = text_eq last current

module _ (env : Env) (print : Printers) (id : Text) where
  unfoldable pub model_choice : Option Text → Phase → Bool × StreamEvent
  unfolding select_model_for_phase phase_text text_eq
  model_choice last p =
      let current = select_model_for_phase env (phase_text p) in
      (
        not (same_text last current),
        record (plain EventType.model_switch (print.print_switch current (phase_text p)) id false) {
          model = some current;
        },
      )

  -- The model's event for a phase, where the model is another one than before.
  unfoldable pub model_events : Option Text → Phase → List StreamEvent
  unfolding model_choice
  model_events last p = first_of (model_choice last p ∷ [])

  -- The events for a phase itself, each with its test.
  unfoldable pub phase_choices : Updates → Phase → List (Bool × StreamEvent)
  unfolding preview phase_text
  phase_choices snap p =
      (
        phase_eq p execute && not (is_empty (said_text snap.selected_tool)),
        record (plain EventType.tool_call_started
            (said_text snap.selected_tool
              ++ (codes " (step " ++ (print_step (said snap.current_step) ++ codes ")")))
            id false) { step = said snap.current_step },
      )
      ∷ (
        phase_eq p normalize_tool_result,
        plain EventType.tool_call_finished (preview (said_text snap.tool_result_raw) 200) id false,
      )
      ∷ (
        phase_eq p plan && not (is_no_plan (said_plan snap.plan)),
        plain EventType.plan_made (print.print_plan (said_plan snap.plan)) id false,
      )
      ∷ (
        some_of (phase_eq p) user_visible_phases,
        plain EventType.status (codes "Phase: " ++ phase_text p) id false,
      )
      ∷ []

  -- The event for a phase itself.
  unfoldable pub phase_events : Updates → Phase → List StreamEvent
  unfolding phase_choices
  phase_events snap p = first_of (phase_choices snap p)

  -- The queued tokens.
  unfoldable pub token_events : List Text → List StreamEvent
  token_events [] = []
  token_events (t ∷ ts) =
      plain EventType.llm_stream_reset [] id false
      ∷ map (λ token. plain EventType.llm_token token id false) (t ∷ ts)

  -- The events of one event of the graph.
  unfoldable pub event_events : Option Text → GraphEvent → List StreamEvent
  unfolding model_events phase_events token_events
  event_events last e = elim (said e.snap.phase) [
    | none ↦ token_events e.tokens
    | some p ↦ model_events last p ++ (phase_events e.snap p ++ token_events e.tokens)
  ]

  -- The model that was told last.
  unfoldable pub model_after : Option Text → Change Phase → Option Text
  unfolding select_model_for_phase phase_text
  model_after last keep = last
  model_after last (put p) = some (select_model_for_phase env (phase_text p))

  unfoldable pub graph_events : Option Text → List GraphEvent → List StreamEvent
  unfolding event_events model_after
  graph_events last [] = []
  graph_events last (e ∷ es) =
      event_events last e ++ graph_events (model_after last e.snap.phase) es

  -- The event that says how the run ended, of the graph's saved state.
  unfoldable pub last_event : Option AgentState → StreamEvent
  unfolding run_answer
  last_event none = plain EventType.error (codes "Task ended without proper final answer.") id true
  last_event (some values) =
      if (phase_eq values.phase complete || phase_eq values.phase fatal)
        && not (is_empty (or_else values.final_answer []))
      then plain EventType.final (or_else values.final_answer []) id true
      else (if phase_eq values.phase await_plan_review && is_some values.review_request
          then plain EventType.review_required (review_text print values.review_request) id false
          else plain EventType.error
              (or_else (run_answer values) (codes "Task ended without proper final answer.")) id
              true)

  -- What is said of an error that is not one of NestJS.
  unfoldable pub error_detail : Text × Bool → Text
  unfolding includes
  error_detail (message, is_abort) =
      (if includes (codes "timed out") message || includes (codes "timeout") message || is_abort
        then codes "Stream failed (timeout): "
        else (if includes (codes "ECONNREFUSED") message
              || includes (codes "ECONNRESET") message
              || includes (codes "Redis") message
            then codes "Stream failed (infrastructure): "
            else codes "Stream failed: "))
      ++ message

  abbrev pub error_event : Text × Bool → StreamEvent
  error_event e = plain EventType.error (error_detail e) id true
