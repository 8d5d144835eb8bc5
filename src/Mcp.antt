-- ===== src/Mcp.antt =====
-- internal/mcp: tools of Model Context Protocol servers. The client library (mark3labs/mcp-go),
-- encoding/json and the %q of fmt are a parameter, with the servers as a state that calls pass on.
pub mod Adapter
pub mod Manager
use ssh_bot.Base.{ℕ, Bool, List, Option, Bytes, Assoc}

-- A value or an error.
pub data Tried (A : Type 0) : Type 0 where
  done : A → Tried A
  failed : Bytes → Tried A

-- mcp.Tool, as far as it is read; the schema is the encoding of InputSchema.
pub record Definition : Type 0 where
  pub name : Bytes
  pub description : Bytes
  pub input_schema : Bytes
  pub raw_input_schema : Bytes

-- An item of a result: a text, or any other item as its encoding.
pub data Content : Type 0 where
  text_content : Bytes → Content
  encoded : Bytes → Content

pub record CallToolResult : Type 0 where
  pub is_error : Bool
  pub content : List Content

-- ServerConfig; the timeout is a number of milliseconds, and 0 any duration that is not positive.
pub record ServerConfig : Type 0 where
  pub name : Bytes
  pub enabled : Bool
  pub transport : Bytes
  pub command : Bytes
  pub args : List Bytes
  pub env : Assoc Bytes
  pub url : Bytes
  pub headers : Assoc Bytes
  pub initialize_timeout : ℕ

pub record Library : Type 1 where
  pub Client : Type 0
  pub World : Type 0
  pub Arguments : Type 0
  pub new_stdio : (command : Bytes) (env args : List Bytes) → World → Tried Client × World
  pub new_http : (url : Bytes) (headers : Assoc Bytes) (timeout : ℕ) → World → Tried Client × World
  pub new_sse : (url : Bytes) (headers : Assoc Bytes) (timeout : ℕ) → World → Tried Client × World
  -- within a timeout, under a client name; an error is a text
  pub initialize : Client → (timeout : ℕ) (client_name : Bytes) → World → Option Bytes × World
  -- in what is left of the time
  pub list_tools : Client → World → Tried (List Definition) × World
  pub call_tool : Client → (name : Bytes) → Option Arguments → World → Tried CallToolResult × World
  pub close : Client → World → World
  -- json.Unmarshal into a map, and %q
  pub parse : Bytes → Option (Option Arguments)
  pub quoted : Bytes → Bytes
