-- ===== src/Llm/Types.antt =====
-- internal/llm/types.go: the conversation history and the unified stream events.
use ssh_bot.Base.{ℕ, Bool, false, List, [], Bytes}

pub data Role : Type 0 where
  user assistant tool : Role

-- ToolCall; the arguments are the bytes of a json.RawMessage.
pub record ToolCall : Type 0 where
  pub id : Bytes
  pub name : Bytes
  pub arguments : Bytes

pub record Message : Type 0 where
  pub role : Role
  pub content : Bytes
  pub thinking : Bytes
  pub tool_calls : List ToolCall
  pub tool_call_id : Bytes
  pub name : Bytes
  pub is_error : Bool

-- llm.Message{Role: role, Content: content}: the fields left out have their zero values.
abbrev pub message : Role → Bytes → Message
message role content = record {
  role = role;
  content = content;
  thinking = [];
  tool_calls = [];
  tool_call_id = [];
  name = [];
  is_error = false;
}

pub record ToolSpec : Type 0 where
  pub name : Bytes
  pub description : Bytes
  pub input_schema : Bytes

-- ChatRequest, less the options that no caller of the agent sets (Model, Temperature, MaxTokens).
pub record ChatRequest : Type 0 where
  pub system : Bytes
  pub messages : List Message
  pub tools : List ToolSpec
  pub enable_thinking : Bool

pub record Usage : Type 0 where
  pub input_tokens : ℕ
  pub output_tokens : ℕ

-- StreamEvent: each kind of event with the fields that it carries. An `error` carries the text of
-- Err.
pub data StreamEvent : Type 0 where
  thinking_delta : Bytes → StreamEvent
  text_delta : Bytes → StreamEvent
  tool_call_start : (id : Bytes) (name : Bytes) (text : Bytes) → StreamEvent
  tool_call_args : (id : Bytes) (name : Bytes) (args_delta : Bytes) → StreamEvent
  tool_call_end : (id : Bytes) (name : Bytes) (text : Bytes) → StreamEvent
  message_end : (stop_reason : Bytes) → Usage → StreamEvent
  error : (err : Bytes) → StreamEvent
