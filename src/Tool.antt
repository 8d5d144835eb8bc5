-- ===== src/Tool.antt =====
-- internal/tool: the tools that the agent can call and their registry.
pub mod Registry
use ssh_bot.Base.{Bytes}

-- Source, a string in the program with these two values.
pub data Source : Type 0 where
  builtin mcp : Source

-- What the registry and the agent read of a Tool; its Call and Available are parameters where they
-- are used.
pub record Tool : Type 0 where
  pub name : Bytes
  pub description : Bytes
  pub input_schema : Bytes
  pub source : Source
