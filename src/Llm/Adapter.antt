-- ===== src/Llm/Adapter.antt =====
-- EinoAdapter of internal/llm/eino_adapter.go around translateStream, and FakeProvider. The model of
-- the library and the JSON Schema decoder are a parameter. The adapter's options for the model name,
-- the temperature and the number of tokens are left out, as no caller sets them.
use ssh_bot.Base.{
  Bool, true, false, Option, none, some, List, [], ◌∷◌, map, if◌then◌else◌, Bytes, trim_space,
}
use ssh_bot.Llm.Translate.{PartialTc, Chunk, Ending, translate_stream}
use ssh_bot.Llm.Types.{
  Role, user, assistant, tool, Message, ToolCall, ToolSpec, ChatRequest, StreamEvent,
}

pub data EinoRole : Type 0 where
  eino_system eino_user eino_assistant eino_tool : EinoRole

-- schema.ToolCall, whose Type is always "function"
pub record EinoCall : Type 0 where
  pub id : Bytes
  pub name : Bytes
  pub arguments : Bytes

-- schema.Message, as far as it is set
pub record EinoMessage : Type 0 where
  pub role : EinoRole
  pub content : Bytes
  pub name : Bytes
  pub reasoning_content : Bytes
  pub tool_call_id : Bytes
  pub tool_calls : List EinoCall

-- roleToEino; a Role has no other value here.
pub role_to_eino : Role → EinoRole
role_to_eino user = eino_user
role_to_eino assistant = eino_assistant
role_to_eino tool = eino_tool

reasoning : Role → Bytes → Bytes
reasoning assistant thinking = thinking
reasoning user thinking = []
reasoning tool thinking = []

call_to_eino : ToolCall → EinoCall
call_to_eino c = record { id = c.id; name = c.name; arguments = c.arguments }

-- The body of the loop of toEinoMessages; an empty field is left at its zero value.
pub message_to_eino : Message → EinoMessage
unfolding role_to_eino reasoning call_to_eino
message_to_eino m = record {
  role = role_to_eino m.role;
  content = m.content;
  name = m.name;
  reasoning_content = reasoning m.role m.thinking;
  tool_call_id = m.tool_call_id;
  tool_calls = map call_to_eino m.tool_calls;
}

abbrev is_empty : Bytes → Bool
is_empty [] = true
is_empty (c ∷ s) = false

abbrev pub system_message : Bytes → EinoMessage
system_message system = record {
  role = eino_system;
  content = system;
  name = [];
  reasoning_content = [];
  tool_call_id = [];
  tool_calls = [];
}

-- toEinoMessages, which returns no error
pub to_eino_messages : ChatRequest → List EinoMessage
unfolding message_to_eino
to_eino_messages req =
    let messages = map message_to_eino req.messages in
    if is_empty (trim_space req.system) then messages else system_message req.system ∷ messages

pub record EinoModel : Type 1 where
  pub Schema : Type 0
  -- json.Unmarshal into a jsonschema.Schema
  pub parse_schema : Bytes → Option Schema
  -- Stream: an error, or the chunks of the reader and how it ends
  pub stream :
      List EinoMessage
      → List (Bytes × Bytes × Option Schema)
      → Option (List (Option Chunk) × Ending)

pub data AdapterError : Type 0 where
  -- the tool whose schema does not parse
  convert_tools : Bytes → AdapterError
  stream_refused : AdapterError

module _ (model : EinoModel) where
  abbrev pub ToolInfo : Type 0
  ToolInfo = Bytes × Bytes × Option model.Schema

  pub data Tools : Type 0 where
    infos : List ToolInfo → Tools
    bad_schema : Bytes → Tools

  with_info : ToolInfo → Tools → Tools
  with_info info (infos rest) = infos (info ∷ rest)
  with_info info (bad_schema name) = bad_schema name

  checked_info : ToolSpec → Option model.Schema → Tools → Tools
  unfolding with_info
  checked_info t none rest = bad_schema t.name
  checked_info t (some js) rest = with_info (t.name, t.description, some js) rest

  tool_info : ToolSpec → Bytes → Tools → Tools
  unfolding checked_info
  tool_info t [] rest = with_info (t.name, t.description, none) rest
  tool_info t (c ∷ raw) rest = checked_info t (model.parse_schema (c ∷ raw)) rest

  -- toEinoTools; the first schema that does not parse is the error.
  pub to_eino_tools : List ToolSpec → Tools
  unfolding tool_info
  to_eino_tools [] = infos []
  to_eino_tools (t ∷ ts) = tool_info t t.input_schema (to_eino_tools ts)

  pub data Streamed : Type 0 where
    refused : AdapterError → Streamed
    events : List StreamEvent → Streamed

  translated : (List PartialTc → List PartialTc) → Option (List (Option Chunk) × Ending) → Streamed
  translated arrange none = refused stream_refused
  translated arrange (some (chunks, ending)) = events (translate_stream arrange chunks ending)

  streamed : (List PartialTc → List PartialTc) → ChatRequest → Tools → Streamed
  unfolding translated to_eino_messages
  streamed arrange req (bad_schema name) = refused (convert_tools name)
  streamed arrange req (infos tools) =
      translated arrange (model.stream (to_eino_messages req) tools)

  -- EinoAdapter.Stream, where `arrange` is the order in which Go walks the open tool calls
  pub stream : (List PartialTc → List PartialTc) → ChatRequest → Streamed
  unfolding streamed to_eino_tools
  stream arrange req = streamed arrange req (to_eino_tools req.tools)

-- FakeProvider: the scripts that are left.
pub record FakeProvider : Type 0 where
  pub name : Bytes
  pub script : List (List StreamEvent)

-- FakeProvider.Stream, under a context that is not cancelled; `none` is the error.
pub fake_stream : FakeProvider → Option (List StreamEvent) × FakeProvider
fake_stream f = elim f.script [
  | [] ↦ (none, f)
  | evs ∷ rest ↦ (some evs, record f { script = rest })
]
