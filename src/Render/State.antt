-- ===== src/Render/State.antt =====
-- The state machine of internal/render/state.go. A *ToolEntry is a position in `tools`: every entry
-- is appended there once, and `tool_by_id` holds positions. Times are numbers of ticks.
pub mod Folds
pub mod Entries
use ssh_bot.Base.{
  ℕ, zero, suc, Bool, true, false, not, ◌||◌, Option, none, some, List, [], ◌∷◌, ◌++◌, ◌==◌, leb,
  if◌then◌else◌, Bytes, utf8, length, take, Assoc, lookup, insert, has_prefix, trim_prefix,
  trim_space,
}
use ssh_bot.Llm.Types.{
  StreamEvent, thinking_delta, text_delta, tool_call_start, tool_call_args, tool_call_end,
  message_end, error,
}

pub data Phase : Type 0 where
  idle thinking text tool_executing done failed : Phase

pub record ToolEntry : Type 0 where
  pub id : Bytes
  pub name : Bytes
  pub args_prev : Bytes
  pub started_at : ℕ
  pub ended_at : Option ℕ
  pub success : Bool
  pub error_msg : Bytes

pub record State : Type 0 where
  pub phase : Phase
  pub thinking_text : Bytes
  pub thinking_done : Bool
  pub thinking_start : Option ℕ
  pub body : Bytes
  pub tools : List ToolEntry
  pub tool_by_id : Assoc ℕ
  pub started_at : ℕ
  pub error_text : Bytes
  pub trace_id : Bytes
  pub model : Bytes

-- NewState
abbrev pub new_state : ℕ → State
new_state now = record {
  phase = idle;
  thinking_text = [];
  thinking_done = false;
  thinking_start = none;
  body = [];
  tools = [];
  tool_by_id = [];
  started_at = now;
  error_text = [];
  trace_id = [];
  model = [];
}

-- truncate; "…" is three bytes
pub truncate : Bytes → ℕ → Bytes
truncate s n = if leb (length s) n then s else take n s ++ utf8 "…"

abbrev pub is_idle : Phase → Bool
is_idle idle = true
is_idle thinking = false
is_idle text = false
is_idle tool_executing = false
is_idle done = false
is_idle failed = false

-- Phase == PhaseIdle || Phase == PhaseThinking
abbrev pub before_text : Phase → Bool
before_text idle = true
before_text thinking = true
before_text text = false
before_text tool_executing = false
before_text done = false
before_text failed = false

on_thinking : ℕ → Bytes → State → Bool × State
on_thinking now delta s =
    let s' =
      if is_idle s.phase then record s { phase = thinking; thinking_start = some now } else s in
    if not s.thinking_done
    then (true, record s' { thinking_text = s.thinking_text ++ delta })
    else (false, s')

on_text : Bytes → State → Bool × State
on_text delta s = (
  true,
  record s {
    thinking_done = true;
    phase = if before_text s.phase then text else s.phase;
    body = s.body ++ delta;
  },
)

-- A new entry stands behind the others.
on_start : ℕ → Bytes → Bytes → Bytes → Option ℕ → State → Bool × State
on_start now id name preview (some i) s = (false, record s { phase = tool_executing })
on_start now id name preview none s = (
  true,
  record s {
    phase = tool_executing;
    tool_by_id = insert id (length s.tools) s.tool_by_id;
    tools =
        s.tools
        ++ record {
          id = id;
          name = name;
          args_prev = truncate preview 60;
          started_at = now;
          ended_at = none;
          success = false;
          error_msg = [];
        }
          ∷ [];
  },
)

-- The entry at a call's end.
pub end_entry : ℕ → Bytes → ToolEntry → ToolEntry
end_entry now result e =
    let failed = has_prefix result (utf8 "error:") in
    record e {
      ended_at = some now;
      success = not failed;
      error_msg = if failed then trim_space (trim_prefix result (utf8 "error:")) else e.error_msg;
    }

-- A write through the pointer at position `i`.
pub modify : ℕ → (ToolEntry → ToolEntry) → List ToolEntry → List ToolEntry
modify i f [] = []
modify zero f (e ∷ es) = f e ∷ es
modify (suc i) f (e ∷ es) = e ∷ modify i f es

on_end : ℕ → Bytes → Option ℕ → State → Bool × State
on_end now result none s = (false, s)
on_end now result (some i) s = (true, record s { tools = modify i (end_entry now result) s.tools })

-- Apply
pub apply : ℕ → StreamEvent → State → Bool × State
unfolding on_thinking on_text on_start on_end
apply now (thinking_delta delta) s = on_thinking now delta s
apply now (text_delta delta) s = on_text delta s
apply now (tool_call_start id name preview) s =
    on_start now id name preview (lookup id s.tool_by_id) s
apply now (tool_call_args id name delta) s = (false, s)
apply now (tool_call_end id name result) s = on_end now result (lookup id s.tool_by_id) s
apply now (message_end reason usage) s = (false, s)
apply now (error e) s = (true, record s { phase = failed; error_text = e })

-- MarkDone
pub mark_done : State → State
mark_done s = elim s.phase [ failed ↦ s | _ ↦ record s { phase = done } ]

-- MarkError
pub mark_error : Bytes → State → State
mark_error msg s = record s {
  phase = failed;
  error_text = elim (trim_space msg) [ [] ↦ utf8 "unknown error" | c ∷ t ↦ msg ];
}

-- The states after a run of events, each at its time.
unfoldable pub apply_all : List (ℕ × StreamEvent) → State → State
unfolding apply
apply_all [] s = s
apply_all ((now, ev) ∷ evs) s = apply_all evs (apply now ev s).1
