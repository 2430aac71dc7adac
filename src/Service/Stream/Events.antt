-- ===== src/Service/Stream/Events.antt =====
-- The order of a stream's events (src/modules/agents/agents.service.ts).
use nest_langgraph_ai.Prelude.{
  Text, ◌≡◌, ◌≢◌, refl, sym, ap, ◌∙◌, ◌⊎◌, inl, inr, Bool, true, false, not, ◌&&◌, ◌||◌, Option,
  none, some, List, [], ◌∷◌, ◌++◌, map, codes, is_empty, is_some, or_else, All, All-append,
  Bool-cases, Option-cases, arith,
}
use mathlib.Core.List.{append_assoc}
use nest_langgraph_ai.Config.{Env}
use nest_langgraph_ai.State.Phase.{Phase, phase_eq, complete, fatal, await_plan_review}
use nest_langgraph_ai.State.Shape.{AgentState}
use nest_langgraph_ai.State.Updates.{Updates}
use nest_langgraph_ai.Service.Run.{Host, ids_failure}
use nest_langgraph_ai.Service.Emitting.{
  EventType, StreamEvent, first_of, said, said, GraphEvent, Printers, model_events, phase_events,
  token_events, event_events, graph_events, model_after, phase_choices, model_choice, last_event,
  plain, error_event,
}
use nest_langgraph_ai.Service.Stream.{GraphStream, closing_of, closing, stream_body}

-- An event of this session that neither ends the stream nor asks for a review.
pub record IsOpen (id : Text) (e : StreamEvent) : Type 0 where
  pub not_done : e.is_done ≡ false
  pub not_review : e.kind ≢ EventType.review_required
  pub of_session : e.session_id ≡ id

-- An event of this session that ends the stream, or asks for a review.
pub record IsLast (id : Text) (e : StreamEvent) : Type 0 where
  pub ends : (e.is_done ≡ true) ⊎ (e.kind ≡ EventType.review_required)
  pub of_session : e.session_id ≡ id

module _ (env : Env) (print : Printers) (id : Text) where
  Open : List StreamEvent → Type 0
  Open = All (IsOpen id)

  opens :
      (e : StreamEvent)
      → e.is_done ≡ false
      → e.kind ≢ EventType.review_required
      → e.session_id ≡ id
      → IsOpen id e
  opens e h n k = record { not_done = h; not_review = n; of_session = k }

  first_of-Open :
      (cs : List (Bool × StreamEvent)) → All (λ c. IsOpen id c.1) cs → Open (first_of cs)
  unfolding Open
  first_of-Open [] h = tt
  first_of-Open ((true, e) ∷ cs) (h, more) = (h, tt)
  first_of-Open ((false, e) ∷ cs) (h, more) = first_of-Open cs more

  tokens-Open :
      (ts : List Text)
      → Open (
          map
            (λ t. record {
              kind = EventType.llm_token;
              data_text = t;
              session_id = id;
              is_done = false;
              step = none;
              model = none;
            })
            ts)
  unfolding Open
  tokens-Open [] = tt
  tokens-Open (t ∷ ts) = (opens _ refl (λ k. absurd (cc)) refl, tokens-Open ts)

  token_events-Open : (ts : List Text) → Open (token_events env print id ts)
  unfolding Open token_events
  token_events-Open [] = tt
  token_events-Open (t ∷ ts) = (opens _ refl (λ k. absurd (cc)) refl, tokens-Open (t ∷ ts))

  model_events-Open : (last : Option Text) (p : Phase) → Open (model_events env print id last p)
  unfolding model_events model_choice
  model_events-Open last p =
      first_of-Open (model_choice env print id last p ∷ [])
        (opens _ refl (λ k. absurd (cc)) refl, tt)

  phase_events-Open : (snap : Updates) (p : Phase) → Open (phase_events env print id snap p)
  unfolding phase_events phase_choices
  phase_events-Open snap p = first_of-Open (phase_choices env print id snap p) (
    opens _ refl (λ k. absurd (cc)) refl,
    (
      opens _ refl (λ k. absurd (cc)) refl,
      (opens _ refl (λ k. absurd (cc)) refl, (opens _ refl (λ k. absurd (cc)) refl, tt)),
    ),
  )

  event_events-Open :
      (e : GraphEvent) (last : Option Text) → Open (event_events env print id last e)
  unfolding Open event_events
  event_events-Open e last = elim (Option-cases (said e.snap.phase)) [
    | inl n ↦ rw (n, event_events) (token_events-Open e.tokens)
    | inr (p, n) ↦
        rw (n, event_events)
          (All-append (IsOpen id) (model_events env print id last p)
            (phase_events env print id e.snap p ++ token_events env print id e.tokens)
            (model_events-Open last p)
            (All-append (IsOpen id) (phase_events env print id e.snap p)
              (token_events env print id e.tokens) (phase_events-Open e.snap p)
              (token_events-Open e.tokens)))
  ]

  graph_events-Open :
      (es : List GraphEvent) (last : Option Text) → Open (graph_events env print id last es)
  unfolding Open graph_events
  graph_events-Open [] last = tt
  graph_events-Open (e ∷ es) last =
      All-append (IsOpen id) (event_events env print id last e)
        (graph_events env print id (model_after env print id last e.snap.phase) es)
        (event_events-Open e last)
        (graph_events-Open es (model_after env print id last e.snap.phase))

  last_event-IsLast : (saved : Option AgentState) → IsLast id (last_event env print id saved)
  unfolding last_event
  last_event-IsLast none = record { ends = inl refl; of_session = refl }
  last_event-IsLast (some values) =
      let over =
        (phase_eq values.phase complete || phase_eq values.phase fatal)
        && not (is_empty (or_else values.final_answer [])) in
      let review = phase_eq values.phase await_plan_review && is_some values.review_request in
      elim (Bool-cases over) [
        | inl e ↦ rw e (record { ends = inl refl; of_session = refl })
        | inr e ↦ elim (Bool-cases review) [
          | inl f ↦ rw (e, f) (record { ends = inr refl; of_session = refl })
          | inr f ↦ rw (e, f) (record { ends = inl refl; of_session = refl })
        ]
      ]

-- Events of one session of which exactly the last one ends the stream, or asks for a review.
pub EndsOnce : Text → List StreamEvent → Type 0
EndsOnce id events =
    (before : List StreamEvent) × (last : StreamEvent) × (events ≡ before ++ (last ∷ []))
    × All (IsOpen id) before
    × IsLast id last

module _ {S : Type 0} (h : Host S) (print : Printers) (prompt : Text) (id : Text) where
  no_ids_failure : (values : AgentState) → h.ids_error ≡ none → ids_failure h prompt values ≡ none
  unfolding ids_failure
  no_ids_failure values e = ground (arith, e)

  closing_of-IsLast :
      (memory : Option Text) (g : GraphStream S) (saved : Option AgentState)
      → h.ids_error ≡ none
      → (closing_of h print prompt id memory g saved).0
        ≡ last_event h.surroundings.env print id saved ∷ []
  unfolding closing_of
  closing_of-IsLast memory g none ids = refl
  closing_of-IsLast memory g (some values) ids = rw (no_ids_failure values ids, closing_of) refl

  -- Where Redis takes the ids of a run, exactly one event of a stream says that it is done or asks for
  -- a review, and it is the last one, whatever the graph yields and however it ends; all events are of
  -- the session.
  pub stream_body-EndsOnce :
      (memory : Option Text) (g : GraphStream S)
      → h.ids_error ≡ none
      → EndsOnce id (stream_body h print prompt id memory g).0
  unfolding stream_body closing EndsOnce Open
  stream_body-EndsOnce memory g ids =
      let env = h.surroundings.env in
      let begun =
        plain EventType.status (codes "Starting agent execution...") id false
        ∷ graph_events env print id none g.events in
      let begun_open : All (IsOpen id) begun = (
        opens env print id _ refl (λ k. absurd (cc)) refl,
        graph_events-Open env print id g.events none,
      ) in
      elim (Option-cases g.failure) [
        | inr (e, f) ↦
            rw (f, stream_body)
              (
                begun,
                error_event env print id e,
                refl,
                begun_open,
                record { ends = inl refl; of_session = refl },
              )
        | inl f ↦
            rw (f, stream_body)
              (
                begun ++ token_events env print id g.rest,
                last_event env print id g.session.saved,
                ap (λ c. begun ++ (token_events env print id g.rest ++ c))
                      (closing_of-IsLast memory g g.session.saved ids)
                    ∙ sym (
                        append_assoc begun (token_events env print id g.rest)
                          (last_event env print id g.session.saved ∷ [])),
                All-append (IsOpen id) begun (token_events env print id g.rest) begun_open
                    (token_events-Open env print id g.rest),
                last_event-IsLast env print id g.session.saved,
              )
      ]
