-- ===== src/Agent/Exec.antt =====
-- `execTools` and `execOne` of internal/agent/loop.go. What a tool does is a parameter, with its
-- panics; so are %q, the JSON decoder, and the order in which concurrent calls report their end.
use ssh_bot.Base.{
  ℕ, ◌≡◌, refl, Bool, true, false, Option, none, some, List, [], ◌∷◌, ◌++◌, map, leb, if◌then◌else◌,
  Bytes, utf8, length, take,
}
use ssh_bot.Llm.Types.{
  ToolCall, Message, tool, StreamEvent, tool_call_start, tool_call_end, ChatRequest,
}
use ssh_bot.Tool.Registry.{Registry, get}
use ssh_bot.Tool.{Tool}

-- How Tool.Call can end: with a result, a UserError, another error (a timeout too) or a panic.
pub data CallOutcome : Type 0 where
  returned : Bytes → CallOutcome
  user_error : Bytes → CallOutcome
  other_error : Bytes → CallOutcome
  panicked : Bytes → CallOutcome

-- Provider.Stream: an error, or the events of the channel.
pub data Stream : Type 0 where
  refused : Bytes → Stream
  events : List StreamEvent → Stream

-- What the loop does not implement. The number is the step of the loop at which it is asked.
pub record Env : Type 0 where
  pub stream : ℕ → ChatRequest → Stream
  pub up : ℕ → Tool → Bool
  pub call : ℕ → Tool → ToolCall → CallOutcome
  pub arrange : ℕ → List StreamEvent → List StreamEvent
  pub quote : Bytes → Bytes
  pub json_error : Bytes → Option Bytes

pub record ToolResult : Type 0 where
  pub id : Bytes
  pub name : Bytes
  pub content : Bytes
  pub is_error : Bool

-- truncate; "…" is three bytes
pub truncate : Bytes → ℕ → Bytes
truncate s n = if leb (length s) n then s else take n s ++ utf8 "…"

-- previewArgs
pub preview_args : Bytes → Bytes
preview_args s = if leb (length s) 200 then s else take 200 s ++ utf8 "…"

outcome_result : ToolCall → CallOutcome → ToolResult
outcome_result c (returned content) = record {
  id = c.id;
  name = c.name;
  content = content;
  is_error = false;
}
outcome_result c (user_error msg) = record {
  id = c.id;
  name = c.name;
  content = msg;
  is_error = true;
}
outcome_result c (other_error msg) = record {
  id = c.id;
  name = c.name;
  content = utf8 "tool error: " ++ msg;
  is_error = true;
}
outcome_result c (panicked msg) = record {
  id = c.id;
  name = c.name;
  content = utf8 "internal error: " ++ msg;
  is_error = true;
}

-- The error of the JSON check, which an empty text passes.
arguments_error : (Bytes → Option Bytes) → Bytes → Option Bytes
arguments_error json_error [] = none
arguments_error json_error (c ∷ s) = json_error (c ∷ s)

checked_result : ToolCall → Option Bytes → ToolResult → ToolResult
checked_result c none r = r
checked_result c (some e) r = record {
  id = c.id;
  name = c.name;
  content = utf8 "invalid JSON arguments from model: " ++ e;
  is_error = true;
}

module _ (env : Env) (step : ℕ) where
  found_result : ToolCall → Option Tool → ToolResult
  found_result c none = record {
    id = c.id;
    name = c.name;
    content = utf8 "unknown tool " ++ env.quote c.name;
    is_error = true;
  }
  found_result c (some t) =
      checked_result c (arguments_error env.json_error c.arguments)
        (outcome_result c (env.call step t c))

  -- execOne
  pub exec_one : Registry → ToolCall → ToolResult
  unfolding found_result checked_result arguments_error outcome_result
  exec_one reg c = found_result c (get reg c.name)

  -- The End event of one call.
  pub end_event : ToolResult → StreamEvent
  end_event r =
      tool_call_end r.id r.name
        (if r.is_error then utf8 "error: " ++ truncate r.content 80 else utf8 "success")

  -- execTools: the results in the order of the calls, and the End events as they were sent.
  pub exec_tools : Registry → List ToolCall → List ToolResult × List StreamEvent
  exec_tools reg calls =
      let results = map (exec_one reg) calls in (results, env.arrange step (map end_event results))

-- The message that feeds a result back.
pub result_message : ToolResult → Message
result_message r = record {
  role = tool;
  content = r.content;
  thinking = [];
  tool_calls = [];
  tool_call_id = r.id;
  name = r.name;
  is_error = r.is_error;
}

-- The Start event of one call, sent once its arguments are complete.
pub start_event : ToolCall → StreamEvent
start_event c = tool_call_start c.id c.name (preview_args c.arguments)

-- The messages are the answers to the calls, in order.
abbrev pub Answers : List ToolCall → List Message → Type 0
Answers [] [] = Unit
Answers [] (m ∷ ms) = ⊥
Answers (c ∷ cs) [] = ⊥
Answers (c ∷ cs) (m ∷ ms) =
    (m.role ≡ tool) × (m.tool_call_id ≡ c.id) × (m.name ≡ c.name) × Answers cs ms

module _ (env : Env) (step : ℕ) (reg : Registry) where
  found_result-id :
      (c : ToolCall) (o : Option Tool)
      → ((found_result env step c o).id ≡ c.id) × ((found_result env step c o).name ≡ c.name)
  unfolding exec_one
  found_result-id c none = (refl, refl)
  found_result-id c (some t) =
      checked c (arguments_error env.json_error c.arguments) (env.call step t c)
    where
      checked :
          (c : ToolCall) (e : Option Bytes) (o : CallOutcome)
          → ((checked_result c e (outcome_result c o)).id ≡ c.id)
            × ((checked_result c e (outcome_result c o)).name ≡ c.name)
      checked c (some e) o = (refl, refl)
      checked c none (returned m) = (refl, refl)
      checked c none (user_error m) = (refl, refl)
      checked c none (other_error m) = (refl, refl)
      checked c none (panicked m) = (refl, refl)

  -- Every call gets one result, under its own id and name, whatever its tool does: a missing tool,
  -- bad arguments, errors and panics included.
  pub exec_tools-Answers :
      (calls : List ToolCall) → Answers calls (map result_message (exec_tools env step reg calls).0)
  unfolding exec_tools exec_one result_message
  exec_tools-Answers [] = tt
  exec_tools-Answers (c ∷ calls) =
      let ids = found_result-id c (get reg c.name) in (refl, ids.0, ids.1, exec_tools-Answers calls)
