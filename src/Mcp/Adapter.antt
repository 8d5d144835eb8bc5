-- ===== src/Mcp/Adapter.antt =====
-- internal/mcp/adapter.go: a tool of a server as a tool of the bot.
use ssh_bot.Agent.Exec.{CallOutcome, returned, user_error, other_error}
use ssh_bot.Base.{
  Bool, true, false, Option, none, some, List, [], ◌∷◌, ◌++◌, map, Bytes, utf8, join, trim_space,
}
use ssh_bot.Mcp.{
  Tried, done, failed, Definition, Content, text_content, encoded, CallToolResult, Library,
}
use ssh_bot.Tool.Registry.{mcp_name_prefix}
use ssh_bot.Tool.{Tool, mcp}

-- prefixedToolName
unfoldable pub prefixed_tool_name : (server_name tool_name : Bytes) → Bytes
prefixed_tool_name server_name tool_name = mcp_name_prefix ++ server_name ++ utf8 "__" ++ tool_name

pub record ServerStatus : Type 0 where
  pub name : Bytes
  pub connected : Bool
  pub last_error : Bytes
  pub tools : List Bytes

-- toServerStatus
unfoldable pub to_server_status : Bytes → Bool → Bytes → List Definition → ServerStatus
to_server_status name connected last_err defs = record {
  name = name;
  connected = connected;
  last_error = last_err;
  tools = map (λ d. prefixed_tool_name name d.name) defs;
}

content_text : Content → Bytes
content_text (text_content t) = t
content_text (encoded raw) = raw

-- callToolResultText
pub call_tool_result_text : List Content → Bytes
unfolding content_text
call_tool_result_text [] = []
call_tool_result_text (c ∷ cs) = trim_space (join (map content_text (c ∷ cs)) (utf8 "\n"))

module _ (lib : Library) where
  -- adaptedTool; statusFn reads the status of the server's own record, which stays as it is made.
  pub record AdaptedTool : Type 0 where
    pub server_name : Bytes
    pub definition : Definition
    pub client : lib.Client
    pub status : ServerStatus

  schema : Bytes → Bytes → Bytes
  schema computed [] = computed
  schema computed (c ∷ raw) = c ∷ raw

  -- Name, Description, InputSchema and Source
  unfoldable pub as_tool : AdaptedTool → Tool
  unfolding schema
  as_tool t = record {
    name = prefixed_tool_name t.server_name t.definition.name;
    description = t.definition.description;
    input_schema = schema t.definition.input_schema t.definition.raw_input_schema;
    source = mcp;
  }

  -- Available
  pub is_available : AdaptedTool → Bool
  is_available t = t.status.connected

  parsed : Bytes → Option (Option lib.Arguments)
  parsed [] = some none
  parsed (c ∷ args) = lib.parse (c ∷ args)

  outcome_of : Tried CallToolResult → CallOutcome
  outcome_of (failed e) = other_error e
  outcome_of (done resp) =
      let text = call_tool_result_text resp.content in
      elim resp.is_error [ true ↦ user_error text | false ↦ returned text ]

  called : AdaptedTool → Option (Option lib.Arguments) → lib.World → CallOutcome × lib.World
  unfolding outcome_of
  called t none w = (user_error (utf8 "invalid arguments"), w)
  called t (some arguments) w =
      let r = lib.call_tool t.client t.definition.name arguments w in (outcome_of r.0, r.1)

  -- Call
  pub call : AdaptedTool → Bytes → lib.World → CallOutcome × lib.World
  unfolding called parsed
  call t args w = called t (parsed args) w

  -- adaptTools
  unfoldable pub adapt_tools :
      Bytes → lib.Client → List Definition → ServerStatus → List AdaptedTool
  adapt_tools server_name c defs status =
      map (λ d. record { server_name = server_name; definition = d; client = c; status = status })
        defs
