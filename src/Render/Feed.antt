-- ===== src/Render/Feed.antt =====
-- `Feed` and `Stop` of internal/render/renderer.go. What the select statement receives is a list of
-- inputs in the order of arrival; the sender's answers and the building of a card are parameters.
pub mod Final
use ssh_bot.Base.{
  ℕ, ◌+◌, Bool, true, false, not, ◌&&◌, ◌||◌, Option, none, some, List, [], ◌∷◌, ◌++◌,
  if◌then◌else◌, Bytes, beq, length,
}
use ssh_bot.Llm.Types.{
  StreamEvent, thinking_delta, text_delta, tool_call_start, tool_call_args, tool_call_end,
  message_end, error,
}
use ssh_bot.Render.Card.{StateSnapshot, snapshot}
use ssh_bot.Render.State.{State, apply, mark_done}

pub data Input : Type 0 where
  tick : Input
  event : ℕ → StreamEvent → Input
  closed : Input
  cancelled : Input

-- What Patch answers; ErrRateLimited is told apart.
pub data PatchResult : Type 0 where
  patched : PatchResult
  rate_limited : PatchResult
  refused : PatchResult

abbrev pub default_flush_interval : ℕ
default_flush_interval = 250

abbrev pub backoff_interval : ℕ
backoff_interval = 500

-- The renderer, the variables of Feed and the bodies handed to Patch so far.
pub record Renderer : Type 0 where
  pub state : State
  pub interval : ℕ
  pub backed_off : Bool
  pub dirty : Bool
  pub last_snap : Bytes
  pub patches : List Bytes

-- New
abbrev pub new : State → Renderer
new s = record {
  state = s;
  interval = default_flush_interval;
  backed_off = false;
  dirty = false;
  last_snap = [];
  patches = [];
}

-- How Feed ends: not yet, with nil, or with the context's error.
pub data Ended : Type 0 where
  running : Ended
  drained : Ended
  aborted : Ended

abbrev pub is_text : StreamEvent → Bool
is_text (text_delta t) = true
is_text (thinking_delta t) = false
is_text (tool_call_start i n t) = false
is_text (tool_call_args i n t) = false
is_text (tool_call_end i n t) = false
is_text (message_end r u) = false
is_text (error e) = false

-- The events behind which the card is always sent.
abbrev pub is_critical : StreamEvent → Bool
is_critical (tool_call_end i n t) = true
is_critical (error e) = true
is_critical (message_end r u) = true
is_critical (thinking_delta t) = false
is_critical (text_delta t) = false
is_critical (tool_call_start i n t) = false
is_critical (tool_call_args i n t) = false

module _ (build : StateSnapshot → Option Bytes) (patch : ℕ → Bytes → PatchResult) where
  answered : Bytes → PatchResult → Renderer → Renderer
  answered body patched r = record r { last_snap = body; dirty = false }
  answered body rate_limited r = record r { backed_off = true; interval = backoff_interval }
  answered body refused r = r

  -- The call of Patch and what is made of its answer.
  send : Bytes → Renderer → Renderer
  unfolding answered
  send body r =
      answered body (patch (length r.patches) body) (record r { patches = r.patches ++ body ∷ [] })

  flush_body : Bool → Option Bytes → Renderer → Renderer
  unfolding send
  flush_body force none r = r
  flush_body force (some body) r = if not force && beq body r.last_snap then r else send body r

  pub flush : Bool → Renderer → Renderer
  unfolding flush_body
  flush force r =
      if not r.dirty && not force then r else flush_body force (build (snapshot r.state)) r

  -- The event is applied, and the card sent at once where that is due.
  pub on_event : ℕ → StreamEvent → Renderer → Renderer
  unfolding flush
  on_event now ev r =
      let first_text = is_text ev && not r.state.thinking_done in
      let (changed, s) = apply now ev r.state in
      let r' = record r { state = s; dirty = if changed then true else r.dirty } in
      let r'' = if first_text then flush true r' else r' in
      if is_critical ev then flush true r'' else r''

  -- Feed
  pub feed : List Input → Renderer → Ended × Renderer
  unfolding flush on_event
  feed [] r = (running, r)
  feed (tick ∷ ins) r = feed ins (flush false r)
  feed (event now ev ∷ ins) r = feed ins (on_event now ev r)
  feed (closed ∷ ins) r = (drained, flush true r)
  feed (cancelled ∷ ins) r = (aborted, flush true r)

  -- Stop: the bytes that it sends, if a card can be built.
  pub stop : State → Option Bytes × State
  stop s = let s' = mark_done s in (build (snapshot s'), s')
