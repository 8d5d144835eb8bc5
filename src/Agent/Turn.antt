-- ===== src/Agent/Turn.antt =====
-- One step of `Run` in internal/agent/loop.go: the loop over the events of one stream. A return
-- leaves the loop with its error; the events after it are not read.
pub mod Rounds
pub mod Keeps
pub mod Events
pub mod Ready
pub mod Goes
use ssh_bot.Base.{
  ℕ, ◌+◌, ◌*◌, Bool, true, false, ◌&&◌, Option, none, some, List, [], ◌∷◌, ◌++◌, map, ltb,
  if◌then◌else◌, Bytes, utf8, length, Assoc, lookup, insert, trim_space,
}
use ssh_bot.Llm.Types.{
  ToolCall, Message, message, assistant, StreamEvent, thinking_delta, text_delta, tool_call_start,
  tool_call_args, tool_call_end, message_end, error, Usage,
}
use ssh_bot.Session.Store.{Store, SaveResult}
use ssh_bot.Session.{Session}
use ssh_bot.Tool.Registry.{Registry}
use ssh_bot.Agent.Exec.{Env, exec_tools, result_message, start_event}

abbrev pub max_arguments_len : ℕ
max_arguments_len = 100 * 1024

pub data RunError : Type 0 where
  save_pre_turn : Bytes → RunError
  provider_stream : Bytes → RunError
  arguments_exceeded : RunError
  empty_assistant_response : RunError
  save_assistant : Bytes → RunError
  save_tools : Bytes → RunError
  provider_error : Bytes → RunError
  no_message_end : RunError
  max_steps_reached : RunError
  nil_partial : RunError

pub record PartialCall : Type 0 where
  pub name : Bytes
  pub args : Bytes

-- The variables of `Run`: the session and the store's state, the events emitted so far, and those
-- of the step.
pub record Turn (S : Type 0) : Type 0 where
  pub session : Session
  pub stored : S
  pub emitted : List StreamEvent
  pub asst : Message
  pub thinking_buf : Bytes
  pub text_buf : Bytes
  pub partials : Assoc PartialCall
  pub order : List Bytes

-- Going on with the loop, or returning; `none` is a nil error.
pub data Flow (S : Type 0) : Type 0 where
  continue : Turn S → Flow S
  return : Option RunError → Turn S → Flow S

abbrev pub is_blank : Bytes → Bool
is_blank s = elim (trim_space s) [ [] ↦ true | c ∷ t ↦ false ]

abbrev pub emit : {S : Type 0} → Turn S → List StreamEvent → Turn S
emit t evs = record t { emitted = t.emitted ++ evs }

cons_call : Bytes → Option PartialCall → Option (List ToolCall) → Option (List ToolCall)
cons_call id none calls = none
cons_call id (some pc) none = none
cons_call id (some pc) (some calls) =
    some (record { id = id; name = pc.name; arguments = pc.args } ∷ calls)

-- The calls that `for _, id := range order` appends; a missing entry would be a nil dereference.
pub collect : Assoc PartialCall → List Bytes → Option (List ToolCall)
unfolding cons_call
collect partials [] = some []
collect partials (id ∷ order) = cons_call id (lookup id partials) (collect partials order)

module _ (store : Store) (env : Env) (step : ℕ) (reg : Registry) where
  abbrev pub T : Type 0
  T = Turn store.State

  -- saveSession, which may change the session in hand.
  unfoldable pub save_session : T → Option Bytes × T
  save_session t =
      let r = store.save t.session.key t.session t.stored in
      (r.error, record t { session = r.session; stored = r.state })

  abbrev pub push_messages : T → List Message → T
  push_messages t ms = record t {
    session = record t.session { messages = t.session.messages ++ ms };
  }

  after_tools : Option Bytes × T → Flow store.State
  after_tools (none, t) = continue t
  after_tools (some e, t) = return (some (save_tools e)) t

  -- The Start events, the tools, their results into the session, and the save after them.
  run_tools : List ToolCall → T → Flow store.State
  unfolding after_tools save_session
  run_tools calls t =
      let (results, ends) = exec_tools env step reg calls in
      after_tools (
        save_session
          (push_messages (emit (emit t (map start_event calls)) ends) (map result_message results)))

  pub after_calls : List ToolCall → T → Flow store.State
  unfolding run_tools
  after_calls [] t = return none t
  after_calls (c ∷ cs) t = run_tools (c ∷ cs) t

  after_assistant : StreamEvent → Option Bytes × T → Flow store.State
  unfolding after_calls
  after_assistant ev (some e, t) = return (some (save_assistant e)) t
  after_assistant ev (none, t) = after_calls t.asst.tool_calls (emit t (ev ∷ []))

  abbrev has_no_calls : List ToolCall → Bool
  has_no_calls [] = true
  has_no_calls (c ∷ cs) = false

  -- The assistant's message is complete.
  answered : StreamEvent → T → Flow store.State
  unfolding after_assistant save_session
  answered ev t =
      if has_no_calls t.asst.tool_calls && is_blank t.asst.content
      then return (some empty_assistant_response)
          (emit t (error (utf8 "agent: empty assistant response") ∷ []))
      else after_assistant ev (save_session (push_messages t (t.asst ∷ [])))

  with_calls : StreamEvent → T → Option (List ToolCall) → Flow store.State
  unfolding answered
  with_calls ev t none = return (some nil_partial) t
  with_calls ev t (some calls) = answered ev (record t {
    asst = record t.asst {
      thinking = t.thinking_buf;
      content = t.text_buf;
      tool_calls = t.asst.tool_calls ++ calls;
    };
  })

  -- case EventToolCallStart
  on_start : Bytes → Bytes → Option PartialCall → T → T
  on_start id name none t = record t {
    partials = insert id (record { name = name; args = [] }) t.partials;
    order = t.order ++ id ∷ [];
  }
  on_start id name (some pc) t = t

  -- case EventToolCallArgs, at the entry found or made
  add_args : Bytes → Bytes → PartialCall → T → Flow store.State
  add_args id delta pc t =
      if ltb max_arguments_len (length pc.args + length delta)
      then return (some arguments_exceeded) (emit t (error (utf8 "tool arguments too large") ∷ []))
      else continue
          (record t { partials = insert id (record pc { args = pc.args ++ delta }) t.partials })

  on_args : Bytes → Bytes → Bytes → Option PartialCall → T → Flow store.State
  unfolding add_args on_start
  on_args id name delta (some pc) t = add_args id delta pc t
  on_args id name delta none t =
      add_args id delta (record { name = name; args = [] }) (on_start id name none t)

  -- The switch on the event's type.
  pub on_event : T → StreamEvent → Flow store.State
  unfolding with_calls on_start on_args collect
  on_event t (thinking_delta text) =
      continue
        (emit (record t { thinking_buf = t.thinking_buf ++ text }) (thinking_delta text ∷ []))
  on_event t (text_delta text) =
      continue (emit (record t { text_buf = t.text_buf ++ text }) (text_delta text ∷ []))
  on_event t (tool_call_start id name text) = continue (on_start id name (lookup id t.partials) t)
  on_event t (tool_call_args id name delta) = on_args id name delta (lookup id t.partials) t
  on_event t (tool_call_end id name text) = continue t
  on_event t (message_end reason usage) =
      with_calls (message_end reason usage) t (collect t.partials t.order)
  on_event t (error e) = return (some (provider_error e)) (emit t (error e ∷ []))

  -- for ev := range events
  pub on_events : T → List StreamEvent → Flow store.State
  unfolding on_event
  on_events t [] = continue t
  on_events t (ev ∷ evs) = elim (on_event t ev) [
    | continue t' ↦ on_events t' evs
    | return e t' ↦ return e t'
  ]
