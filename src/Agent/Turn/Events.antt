-- ===== src/Agent/Turn/Events.antt =====
-- Every event of a stream keeps the history in complete rounds, in the loop of
-- internal/agent/loop.go.
use ssh_bot.Base.{
  ℕ, ◌+◌, ◌≡◌, refl, ap, ◌∙◌, false, ◌&&◌, Option, none, some, List, [], ◌∷◌, ◌++◌, append_assoc,
  arith, ltb, ltb_false→le, Bool-cases, inl, inr, Bytes, length, length-append, All, All-append,
  lookup,
}
use ssh_bot.Llm.Types.{
  ToolCall, Message, StreamEvent, thinking_delta, text_delta, tool_call_start, tool_call_args,
  tool_call_end, message_end, error,
}
use ssh_bot.Session.Store.{Store}
use ssh_bot.Session.{Session}
use ssh_bot.Tool.Registry.{Registry}
use ssh_bot.Agent.Exec.{Env}
use ssh_bot.Agent.Turn.Keeps.{
  IsKnown, IsKnown-insert, IsKnown-add, collect-IsKnown, Inv, Holds, stop_here,
  messages-save_session, after_calls-Holds,
}
use ssh_bot.Agent.Turn.Rounds.{IsCapped, IsAssistant, Rounds, unsaved}
use ssh_bot.Agent.Turn.{
  max_arguments_len, PartialCall, Turn, Flow, continue, return, is_blank, emit, save_session,
  push_messages, has_no_calls, after_assistant, answered, with_calls, on_start, add_args, on_args,
  on_event, on_events, empty_assistant_response, arguments_exceeded, provider_error,
}

module _ (store : Store) (env : Env) (step : ℕ) (reg : Registry) (base : List Message)
    (keeps : (key : Bytes) (x : Session) (s : store.State) → (store.save key x s).session ≡ x) where
  after_assistant-Holds :
      (ev : StreamEvent) (o : Option Bytes) (t : Turn store.State) (prev : List Message)
      → Rounds prev
      → t.session.messages ≡ base ++ (prev ++ t.asst ∷ [])
      → (t.asst.tool_calls ≡ [] → is_blank t.asst.content ≡ false)
      → IsAssistant t.asst
      → IsKnown t.partials t.order
      → Holds store env step reg base (after_assistant store env step reg ev (o, t))
  unfolding on_event
  after_assistant-Holds ev (some e) t prev r h full a k = record {
    added = prev ++ t.asst ∷ [];
    ended = unsaved prev t.asst e refl r a refl;
    messages = h;
  }
  after_assistant-Holds ev none t prev r h full a k =
      after_calls-Holds store env step reg base keeps t.asst.tool_calls (emit t (ev ∷ [])) prev r h
        refl full a k

  answered-Holds :
      (ev : StreamEvent) (t : Turn store.State)
      → Inv store env step reg base t
      → Holds store env step reg base (answered store env step reg ev t)
  unfolding on_event
  answered-Holds ev t i =
      elim (Bool-cases
        (has_no_calls store env step reg t.asst.tool_calls && is_blank t.asst.content)) [
          | inl e ↦
              rw e (
                stop_here store env step reg base keeps _ empty_assistant_response (λ x. cc) refl i)
          | inr e ↦
              let t' = push_messages store env step reg t (t.asst ∷ []) in
              let saved = save_session store env step reg t' in
              rw e (
                after_assistant-Holds ev saved.0 saved.1 i.added i.rounds
                  (messages-save_session store env step reg base keeps t'
                    ∙ ap (λ ms. ms ++ t.asst ∷ []) i.messages
                    ∙ append_assoc base i.added (t.asst ∷ []))
                  (λ h. ground arith) i.asst_is i.known)
        ]

  add_args-Holds :
      (id delta : Bytes) (pc : PartialCall) (t : Turn store.State)
      → Inv store env step reg base t
      → Holds store env step reg base (add_args store env step reg id delta pc t)
  unfolding on_event
  add_args-Holds id delta pc t i =
      elim (Bool-cases (ltb max_arguments_len (length pc.args + length delta))) [
        | inl e ↦
            rw e (stop_here store env step reg base keeps _ arguments_exceeded (λ x. cc) refl i)
        | inr e ↦ rw e (record {
          added = i.added;
          rounds = i.rounds;
          messages = i.messages;
          known =
              IsKnown-insert id (record pc { args = pc.args ++ delta }) t.partials t.order
                (omega (arith, ltb_false→le _ _ e, length-append pc.args delta)) i.known;
          asst_is = i.asst_is;
        })
      ]

  on_start-Inv :
      (id name : Bytes) (o : Option PartialCall) (t : Turn store.State)
      → Inv store env step reg base t
      → Inv store env step reg base (on_start store env step reg id name o t)
  unfolding on_event
  on_start-Inv id name (some pc) t i = i
  on_start-Inv id name none t i = record {
    added = i.added;
    rounds = i.rounds;
    messages = i.messages;
    known =
        IsKnown-add id (record { name = name; args = [] }) t.partials t.order (omega arith) i.known;
    asst_is = i.asst_is;
  }

  on_args-Holds :
      (id name delta : Bytes) (o : Option PartialCall) (t : Turn store.State)
      → Inv store env step reg base t
      → Holds store env step reg base (on_args store env step reg id name delta o t)
  unfolding on_event
  on_args-Holds id name delta (some pc) t i = add_args-Holds id delta pc t i
  on_args-Holds id name delta none t i =
      add_args-Holds id delta (record { name = name; args = [] })
        (on_start store env step reg id name none t) (on_start-Inv id name none t i)

  with_calls-Holds :
      (ev : StreamEvent) (t : Turn store.State) (calls : List ToolCall)
      → All IsCapped calls
      → Inv store env step reg base t
      → Holds store env step reg base (with_calls store env step reg ev t (some calls))
  unfolding on_event
  with_calls-Holds ev t calls fit i = answered-Holds ev _ (record {
    added = i.added;
    rounds = i.rounds;
    messages = i.messages;
    known = i.known;
    asst_is = record {
      role_is = i.asst_is.role_is;
      capped = All-append IsCapped t.asst.tool_calls calls i.asst_is.capped fit;
    };
  })

  pub on_event-Holds :
      (t : Turn store.State) (ev : StreamEvent)
      → Inv store env step reg base t
      → Holds store env step reg base (on_event store env step reg t ev)
  unfolding on_event
  on_event-Holds t (thinking_delta text) i = record {
    added = i.added;
    rounds = i.rounds;
    messages = i.messages;
    known = i.known;
    asst_is = i.asst_is;
  }
  on_event-Holds t (text_delta text) i = record {
    added = i.added;
    rounds = i.rounds;
    messages = i.messages;
    known = i.known;
    asst_is = i.asst_is;
  }
  on_event-Holds t (tool_call_start id name text) i =
      on_start-Inv id name (lookup id t.partials) t i
  on_event-Holds t (tool_call_args id name delta) i =
      on_args-Holds id name delta (lookup id t.partials) t i
  on_event-Holds t (tool_call_end id name text) i = i
  on_event-Holds t (message_end reason usage) i =
      let (calls, e, fit) = collect-IsKnown t.partials t.order i.known in
      rw e (with_calls-Holds (message_end reason usage) t calls fit i)
  on_event-Holds t (error e) i =
      stop_here store env step reg base keeps _ (provider_error e) (λ x. cc) refl i

  flow-Holds :
      (f : Flow store.State) (evs : List StreamEvent)
      → ((t : Turn store.State)
          → Inv store env step reg base t
          → Holds store env step reg base (on_events store env step reg t evs))
      → Holds store env step reg base f
      → Holds store env step reg base
          (elim f [ continue t ↦ on_events store env step reg t evs | return e t ↦ return e t ])
  flow-Holds (continue t) evs later h = later t h
  flow-Holds (return e t) evs later h = h

  -- The events of one stream, whatever they are and in whatever order they come: the loop goes on
  -- with complete rounds, or the turn is over and has added what it should.
  pub on_events-Holds :
      (evs : List StreamEvent) (t : Turn store.State)
      → Inv store env step reg base t
      → Holds store env step reg base (on_events store env step reg t evs)
  unfolding on_events
  on_events-Holds [] t i = i
  on_events-Holds (ev ∷ evs) t i =
      flow-Holds (on_event store env step reg t ev) evs (on_events-Holds evs)
        (on_event-Holds t ev i)
