-- ===== src/Mcp/Manager.antt =====
-- internal/mcp/manager.go and the constructors of internal/mcp/client.go. The order in which Go walks
-- a map is the order of the association list here, which no theorem relies on.
pub mod Loaded
pub mod Names
pub mod Recorded
use ssh_bot.Base.{
  ℕ, zero, suc, ◌+◌, Bool, true, false, Option, none, some, List, [], ◌∷◌, ◌++◌, map, if◌then◌else◌,
  Bytes, utf8, beq, Assoc, insert,
}
use ssh_bot.Mcp.Adapter.{ServerStatus, to_server_status, AdaptedTool, adapt_tools, as_tool}
use ssh_bot.Mcp.{Tried, done, failed, Definition, ServerConfig, Library}
use ssh_bot.Tool.Registry.{Registry, register}
use ssh_bot.Tool.{Tool}

-- timeoutOrDefault, in milliseconds
pub timeout_or_default : ℕ → ℕ
timeout_or_default zero = 10000
timeout_or_default (suc d) = suc d

-- envMapToList
env_map_to_list : Assoc Bytes → List Bytes
env_map_to_list env = map (λ e. e.0 ++ utf8 "=" ++ e.1) env

abbrev pub down : Bytes → Bytes → ServerStatus
down name e = record { name = name; connected = false; last_error = e; tools = [] }

module _ (lib : Library) where
  pub record ManagedServer : Type 0 where
    pub config : ServerConfig
    pub client : Option lib.Client
    pub status : ServerStatus
    pub adapted : List (AdaptedTool lib)

  pub record Manager : Type 0 where
    pub servers : Assoc ManagedServer

  -- newClient; every transport has its constructor.
  pub new_client : ServerConfig → lib.World → Tried lib.Client × lib.World
  unfolding timeout_or_default env_map_to_list
  new_client cfg w =
      if beq cfg.transport (utf8 "stdio")
      then lib.new_stdio cfg.command (env_map_to_list cfg.env) cfg.args w
      else if beq cfg.transport (utf8 "http")
      then lib.new_http cfg.url cfg.headers (timeout_or_default cfg.initialize_timeout) w
      else if beq cfg.transport (utf8 "sse")
      then lib.new_sse cfg.url cfg.headers (timeout_or_default cfg.initialize_timeout) w
      else (failed (utf8 "unsupported mcp transport " ++ lib.quoted cfg.transport), w)

  -- A server that is not connected, with its error.
  abbrev pub broken : ServerConfig → Bytes → ManagedServer
  broken cfg e = record { config = cfg; client = none; status = down cfg.name e; adapted = [] }

  abbrev pub connected : ServerConfig → lib.Client → List Definition → ManagedServer
  connected cfg c defs =
      let status = to_server_status cfg.name true [] defs in
      record {
        config = cfg;
        client = some c;
        status = status;
        adapted = adapt_tools lib cfg.name c defs status;
      }

  listed :
      ServerConfig → lib.Client → Tried (List Definition) × lib.World → ManagedServer × lib.World
  listed cfg c (failed e, w) = (broken cfg e, lib.close c w)
  listed cfg c (done defs, w) = (connected cfg c defs, w)

  initialized : ServerConfig → lib.Client → Option Bytes × lib.World → ManagedServer × lib.World
  unfolding listed
  initialized cfg c (some e, w) = (
    broken cfg (utf8 "initialize mcp client " ++ lib.quoted cfg.name ++ utf8 ": " ++ e),
    lib.close c w,
  )
  initialized cfg c (none, w) = listed cfg c (lib.list_tools c w)

  opened : ServerConfig → Tried lib.Client × lib.World → ManagedServer × lib.World
  unfolding initialized timeout_or_default
  opened cfg (failed e, w) = (broken cfg e, w)
  opened cfg (done c, w) = initialized cfg c (
      lib.initialize c (timeout_or_default cfg.initialize_timeout)
        (utf8 "ssh-bot-mcp-client-" ++ cfg.name) w)

  -- loadOne
  pub load_one : ServerConfig → lib.World → ManagedServer × lib.World
  unfolding opened new_client
  load_one cfg w = opened cfg (new_client cfg w)

  set_server : ManagedServer → Manager → Manager
  set_server s m = record { servers = insert s.config.name s m.servers }

  -- The body of LoadAll's loop.
  pub load : ServerConfig → lib.World → ManagedServer × lib.World
  unfolding load_one
  load c w = if c.enabled then load_one c w else (broken c (utf8 "disabled"), w)

  load_each : List ServerConfig → Manager → lib.World → Manager × lib.World
  unfolding load set_server
  load_each [] m w = (m, w)
  load_each (c ∷ cs) m w = let r = load c w in load_each cs (set_server r.0 m) r.1

  -- LoadAll, which forgets the servers that the manager had, and returns no error
  unfoldable pub load_all : List ServerConfig → Manager → lib.World → Manager × lib.World
  unfolding load_each
  load_all cs m w = load_each cs (record { servers = [] }) w

  tools_of : Assoc ManagedServer → List (AdaptedTool lib)
  tools_of [] = []
  tools_of ((n, s) ∷ rest) =
      let others = tools_of rest in if s.status.connected then s.adapted ++ others else others

  -- Tools
  pub tools : Manager → List (AdaptedTool lib)
  unfolding tools_of
  tools m = tools_of m.servers

  -- Status
  pub statuses : Manager → List ServerStatus
  statuses m = map (λ e. e.1.status) m.servers

  close_client : Option lib.Client → lib.World → lib.World
  close_client none w = w
  close_client (some c) w = lib.close c w

  close_each : Assoc ManagedServer → lib.World → lib.World
  unfolding close_client
  close_each [] w = w
  close_each ((n, s) ∷ rest) w = close_each rest (close_client s.client w)

  -- Close
  pub close : Manager → lib.World → lib.World
  unfolding close_each
  close m w = close_each m.servers w

-- The loop of cmd/bot/main.go that registers the tools; a refused one is logged and skipped.
pub register_all : List Tool → Registry → Registry
register_all [] r = r
register_all (t ∷ ts) r = register_all ts (register r t).1

-- mcpOK and mcpFailed of cmd/bot/main.go, and what its log calls skipped
pub record Counts : Type 0 where
  pub mcp_ok : ℕ
  pub mcp_failed : ℕ

pub counted : List ServerStatus → Counts
counted [] = record { mcp_ok = 0; mcp_failed = 0 }
counted (s ∷ ss) =
    let rest = counted ss in
    if s.connected
    then record { mcp_ok = rest.mcp_ok + 1; mcp_failed = rest.mcp_failed }
    else record { mcp_ok = rest.mcp_ok; mcp_failed = rest.mcp_failed + 1 }
