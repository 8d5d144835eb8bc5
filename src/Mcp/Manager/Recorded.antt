-- ===== src/Mcp/Manager/Recorded.antt =====
-- What loadOne of internal/mcp/manager.go and the test of LoadAll leave of one configured server.
use ssh_bot.Base.{
  ◌≡◌, refl, ap, Bool, true, false, Option, none, some, List, [], ◌∷◌, ◌++◌, map, if◌then◌else◌,
  Bytes, utf8, All,
}
use ssh_bot.Mcp.Adapter.{ServerStatus, prefixed_tool_name, to_server_status, adapt_tools}
use ssh_bot.Mcp.Manager.{
  timeout_or_default, ManagedServer, broken, connected, listed, initialized, opened, new_client,
  load_one, load, load_all,
}
use ssh_bot.Mcp.{Tried, done, failed, Definition, ServerConfig, Library}

module _ (lib : Library) where
  -- A connection that fails, with the error that is recorded: no client could be made, or the client
  -- could not be initialized, or did not list its tools.
  pub data Fails (c : ServerConfig) (w : lib.World) (e : Bytes) : Type 0 where
    not_made : (new_client lib c w).0 ≡ failed e → Fails c w e
    not_initialized :
        (k : lib.Client) (x : Bytes)
        → (new_client lib c w).0 ≡ done k
        → (lib.initialize k
            (timeout_or_default c.initialize_timeout)
            (utf8 "ssh-bot-mcp-client-" ++ c.name)
            (new_client lib c w).1).0
          ≡ some x
        → e ≡ utf8 "initialize mcp client " ++ lib.quoted c.name ++ utf8 ": " ++ x
        → Fails c w e
    not_listed :
        (k : lib.Client)
        → (new_client lib c w).0 ≡ done k
        → (lib.list_tools k
            (lib.initialize k
              (timeout_or_default c.initialize_timeout)
              (utf8 "ssh-bot-mcp-client-" ++ c.name)
              (new_client lib c w).1).1).0
          ≡ failed e
        → Fails c w e

  -- A connection to a client that is initialized without an error and then lists these tools.
  pub record Connects (c : ServerConfig) (w : lib.World) (k : lib.Client) (defs : List Definition)
      : Type 0 where
    pub made : (new_client lib c w).0 ≡ done k
    pub ready :
        (lib.initialize k
          (timeout_or_default c.initialize_timeout)
          (utf8 "ssh-bot-mcp-client-" ++ c.name)
          (new_client lib c w).1).0
        ≡ none
    pub lists :
        (lib.list_tools k
          (lib.initialize k
            (timeout_or_default c.initialize_timeout)
            (utf8 "ssh-bot-mcp-client-" ++ c.name)
            (new_client lib c w).1).1).0
        ≡ done defs

  -- A record without a client and without tools, under an error.
  pub record IsDown (c : ServerConfig) (e : Bytes) (s : ManagedServer lib) : Type 0 where
    pub of_config : s.config ≡ c
    pub no_client : s.client ≡ none
    pub status_is :
        s.status ≡ record { name = c.name; connected = false; last_error = e; tools = [] }
    pub no_tools : s.adapted ≡ []

  -- A record of a client, its tools under their prefixed names, each adapted to the client.
  pub record IsUp (c : ServerConfig) (k : lib.Client) (defs : List Definition)
      (s : ManagedServer lib) : Type 0 where
    pub of_config : s.config ≡ c
    pub has_client : s.client ≡ some k
    pub named : s.status.name ≡ c.name
    pub connected_now : s.status.connected ≡ true
    pub no_error : s.status.last_error ≡ []
    pub tool_names : s.status.tools ≡ map (λ d. prefixed_tool_name c.name d.name) defs
    pub definitions : map (λ t. t.definition) s.adapted ≡ defs
    pub clients : All (λ t. (t.server_name ≡ c.name) × (t.client ≡ k)) s.adapted

  -- How a server of a configuration can stand, when it was loaded with the servers in state `w`.
  pub data Recorded (c : ServerConfig) (w : lib.World) (s : ManagedServer lib) : Type 0 where
    disabled : c.enabled ≡ false → IsDown c (utf8 "disabled") s → Recorded c w s
    not_connected : (e : Bytes) → c.enabled ≡ true → Fails c w e → IsDown c e s → Recorded c w s
    serving :
        (k : lib.Client) (defs : List Definition)
        → c.enabled ≡ true
        → Connects c w k defs
        → IsUp c k defs s
        → Recorded c w s

  broken-IsDown : (c : ServerConfig) (e : Bytes) → IsDown c e (broken lib c e)
  broken-IsDown c e = record {
    of_config = refl;
    no_client = refl;
    status_is = refl;
    no_tools = refl;
  }

  adapted_lem :
      (n : Bytes) (k : lib.Client) (defs : List Definition) (status : ServerStatus)
      → (map (λ t. t.definition) (adapt_tools lib n k defs status) ≡ defs)
        × All (λ t. (t.server_name ≡ n) × (t.client ≡ k)) (adapt_tools lib n k defs status)
  unfolding adapt_tools
  adapted_lem n k [] status = (refl, tt)
  adapted_lem n k (d ∷ defs) status =
      let (same, all) = adapted_lem n k defs status in (ap (λ ds. d ∷ ds) same, ((refl, refl), all))

  connected-IsUp :
      (c : ServerConfig) (k : lib.Client) (defs : List Definition)
      → IsUp c k defs (connected lib c k defs)
  unfolding to_server_status
  connected-IsUp c k defs =
      let (same, all) = adapted_lem c.name k defs (to_server_status c.name true [] defs) in
      record {
        of_config = refl;
        has_client = refl;
        named = refl;
        connected_now = refl;
        no_error = refl;
        tool_names = refl;
        definitions = same;
        clients = all;
      }

  module _ (c : ServerConfig) (w : lib.World) (on : c.enabled ≡ true) where
    abbrev readied : lib.Client → Option Bytes × lib.World
    readied k =
        lib.initialize k (timeout_or_default c.initialize_timeout)
          (utf8 "ssh-bot-mcp-client-" ++ c.name) (new_client lib c w).1

    listed-Recorded :
        (k : lib.Client) (r : Tried (List Definition) × lib.World)
        → (new_client lib c w).0 ≡ done k
        → (readied k).0 ≡ none
        → (lib.list_tools k (readied k).1).0 ≡ r.0
        → Recorded c w (listed lib c k r).0
    unfolding load_one
    listed-Recorded k (failed e, v) m i l =
        not_connected e on (not_listed k m l) (broken-IsDown c e)
    listed-Recorded k (done defs, v) m i l =
        serving k defs on (record { made = m; ready = i; lists = l }) (connected-IsUp c k defs)

    initialized-Recorded :
        (k : lib.Client) (r : Option Bytes × lib.World)
        → (new_client lib c w).0 ≡ done k
        → readied k ≡ r
        → Recorded c w (initialized lib c k r).0
    unfolding load_one
    initialized-Recorded k (some x, v) m i =
        not_connected _ on (not_initialized k x m (ap (λ p. p.0) i) refl) (broken-IsDown c _)
    initialized-Recorded k (none, v) m i =
        listed-Recorded k (lib.list_tools k v) m (ap (λ p. p.0) i)
          (ap (λ p. (lib.list_tools k p.1).0) i)

    opened-Recorded :
        (r : Tried lib.Client × lib.World)
        → new_client lib c w ≡ r
        → Recorded c w (opened lib c r).0
    unfolding load_one
    opened-Recorded (failed e, v) o =
        not_connected e on (not_made (ap (λ p. p.0) o)) (broken-IsDown c e)
    opened-Recorded (done k, v) o =
        initialized-Recorded k
          (lib.initialize k (timeout_or_default c.initialize_timeout)
            (utf8 "ssh-bot-mcp-client-" ++ c.name) v)
          (ap (λ p. p.0) o)
          (ap
            (λ (p : Tried lib.Client × lib.World).
              lib.initialize k (timeout_or_default c.initialize_timeout)
                (utf8 "ssh-bot-mcp-client-" ++ c.name) p.1)
            o)

  pub load-Recorded : (c : ServerConfig) (w : lib.World) → Recorded c w (load lib c w).0
  unfolding load_all
  load-Recorded c w = by_test c.enabled refl
    where
      by_test :
          (b : Bool)
          → c.enabled ≡ b
          → Recorded c w (if b then load_one lib c w else (broken lib c (utf8 "disabled"), w)).0
      by_test true on = opened-Recorded c w on (new_client lib c w) refl
      by_test false off = disabled off (broken-IsDown c (utf8 "disabled"))

  config-Recorded :
      (c : ServerConfig) (w : lib.World) (s : ManagedServer lib) → Recorded c w s → s.config ≡ c
  config-Recorded c w s (disabled off d) = d.of_config
  config-Recorded c w s (not_connected x on f d) = d.of_config
  config-Recorded c w s (serving k defs on o u) = u.of_config

  pub config-load : (c : ServerConfig) (w : lib.World) → (load lib c w).0.config ≡ c
  config-load c w = config-Recorded c w (load lib c w).0 (load-Recorded c w)
