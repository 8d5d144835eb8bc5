-- ===== src/Tests/McpRuns.antt =====
-- internal/mcp at concrete inputs: a client library whose only server lists one tool, and at which no
-- other transport connects.
use ssh_bot.Base.{
  ℕ, ◌+◌, ◌≡◌, ◌≢◌, refl, false, true, none, some, [], ◌∷◌, List, Bytes, utf8, map, beq, All,
  lookup,
}
use ssh_bot.Mcp.Adapter.{AdaptedTool, as_tool, to_server_status}
use ssh_bot.Mcp.Manager.Loaded.{Stands, last_named, load_all-Stands, Distinct, counted-load_all}
use ssh_bot.Mcp.Manager.Names.{register_all-named}
use ssh_bot.Mcp.Manager.{Manager, load_all, statuses, counted, register_all}
use ssh_bot.Mcp.{done, failed, Definition, ServerConfig, Library}
use ssh_bot.Tool.Registry.{Registry, get}
use ssh_bot.Tool.{Tool, builtin}

abbrev read_tool : Definition
read_tool = record {
  name = utf8 "read";
  description = [];
  input_schema = [];
  raw_input_schema = [];
}

abbrev one_server : Library
one_server = record {
  Client = Bytes;
  World = ℕ;
  Arguments = Bytes;
  new_stdio = λ command env args w. (done command, w + 1);
  new_http = λ url headers timeout w. (failed url, w);
  new_sse = λ url headers timeout w. (failed url, w);
  initialize = λ c timeout name w. (none, w);
  list_tools = λ c w. (done (read_tool ∷ []), w);
  call_tool = λ c name arguments w. (failed name, w);
  close = λ c w. w;
  parse = λ args. some (some args);
  quoted = λ s. s;
}

abbrev server : Bytes → Bytes → ServerConfig
server name transport = record {
  name = name;
  enabled = true;
  transport = transport;
  command = name;
  args = [];
  env = [];
  url = utf8 "https://down";
  headers = [];
  initialize_timeout = 0;
}

abbrev three_servers : List ServerConfig
three_servers =
    server (utf8 "w") (utf8 "stdio")
    ∷ server (utf8 "x") (utf8 "http")
    ∷ record (server (utf8 "y") (utf8 "sse")) { enabled = false }
    ∷ []

abbrev no_servers : Manager one_server
no_servers = record { servers = [] }

load_all-Stands_example :
    Stands one_server
      (last_named one_server (utf8 "x") three_servers 0)
      (lookup (utf8 "x") (load_all one_server three_servers no_servers 0).0.servers)
load_all-Stands_example = load_all-Stands one_server three_servers no_servers 0 (utf8 "x")

three_servers-Distinct : Distinct one_server three_servers
unfolding beq utf8
three_servers-Distinct = ((refl, (refl, tt)), ((refl, tt), (tt, tt)))

counted-load_all_example :
    (counted (statuses one_server (load_all one_server three_servers no_servers 0).0)).mcp_ok
      + (counted
          (statuses one_server (load_all one_server three_servers no_servers 0).0)).mcp_failed
    ≡ 3
counted-load_all_example =
    counted-load_all one_server three_servers no_servers 0 three_servers-Distinct

abbrev clock : Tool
clock = record { name = utf8 "clock"; description = []; input_schema = []; source = builtin }

abbrev only_clock : Registry
only_clock = record { tools = (utf8 "clock", clock) ∷ [] }

abbrev read_twice : List (AdaptedTool one_server)
read_twice =
    let t : AdaptedTool one_server = record {
      server_name = utf8 "w";
      definition = read_tool;
      client = utf8 "w";
      status = to_server_status (utf8 "w") true [] (read_tool ∷ []);
    } in
    t ∷ t ∷ []

clock_there : get only_clock (utf8 "clock") ≡ some clock
unfolding get lookup beq utf8
clock_there = refl

register_all-named_example :
    All
      (λ t.
        get
          (register_all (map (as_tool one_server) read_twice) only_clock)
          (as_tool one_server t).name
        ≢ none)
      read_twice
    × (get (register_all (map (as_tool one_server) read_twice) only_clock) (utf8 "clock")
        ≡ some clock)
register_all-named_example =
    register_all-named one_server read_twice only_clock (utf8 "clock") clock clock_there
