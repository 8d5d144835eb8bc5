-- ===== src/Mcp/Manager/Loaded.antt =====
-- What LoadAll of internal/mcp/manager.go leaves of each configured server.
use ssh_bot.Base.{
  ◌+◌, ◌≡◌, refl, ap, ◌∙◌, arith, false, Bool-cases, inl, inr, Option, none, some, List, [], ◌∷◌,
  map, if◌then◌else◌, Bytes, beq, All, length, Assoc, lookup, insert, lookup-insert,
}
use ssh_bot.Mcp.Manager.{
  ManagedServer, Manager, set_server, load, load_each, load_all, statuses, counted,
}
use ssh_bot.Mcp.Manager.Recorded.{Recorded, load-Recorded, config-load}
use ssh_bot.Mcp.{ServerConfig, Library}

module _ (lib : Library) where
  -- The last configuration of a name, with the state of the servers when its turn comes, or `before`
  -- where there is none.
  abbrev last_from :
      Option (ServerConfig × lib.World)
      → Bytes
      → List ServerConfig
      → lib.World
      → Option (ServerConfig × lib.World)
  last_from before n [] w = before
  last_from before n (c ∷ cs) w =
      last_from (if beq c.name n then some (c, w) else before) n cs (load lib c w).1

  abbrev pub last_named : Bytes → List ServerConfig → lib.World → Option (ServerConfig × lib.World)
  last_named n cs w = last_from none n cs w

  abbrev pub Stands : Option (ServerConfig × lib.World) → Option (ManagedServer lib) → Type 0
  Stands none none = Unit
  Stands none (some s) = ⊥
  Stands (some c) none = ⊥
  Stands (some (c, w)) (some s) = Recorded lib c w s

  set-Stands :
      (n : Bytes) (c : ServerConfig) (w : lib.World) (before : Option (ServerConfig × lib.World))
      (m : Manager lib)
      → Stands before (lookup n m.servers)
      → Stands
          (if beq c.name n then some (c, w) else before)
          (lookup n (set_server lib (load lib c w).0 m).servers)
  unfolding load_all
  set-Stands n c w before m h =
      let s = (load lib c w).0 in
      let shown : lookup n (set_server lib s m).servers
          ≡ (if beq c.name n then some s else lookup n m.servers) =
        lookup-insert s.config.name n s m.servers
        ∙ ap (λ x. if beq (x.name) n then some s else lookup n m.servers) (config-load lib c w) in
      elim (Bool-cases (beq c.name n)) [
        | inl e ↦ rw (shown, e) (load-Recorded lib c w)
        | inr e ↦ rw (shown, e) h
      ]

  load_each-Stands :
      (cs : List ServerConfig) (n : Bytes) (before : Option (ServerConfig × lib.World))
      (m : Manager lib) (w : lib.World)
      → Stands before (lookup n m.servers)
      → Stands (last_from before n cs w) (lookup n (load_each lib cs m w).0.servers)
  unfolding load_all
  load_each-Stands [] n before m w h = h
  load_each-Stands (c ∷ cs) n before m w h =
      load_each-Stands cs n _ _ (load lib c w).1 (set-Stands n c w before m h)

  -- Whatever servers fail, LoadAll records every configured one: under each name that a configuration
  -- has stands what became of the last such configuration when its turn came. It is down, without a
  -- client and tools, because it is disabled, or with the error of making the client, of initializing
  -- it or of listing its tools; or it is connected, with a client that was initialized without an
  -- error and with the tools that this client listed. Nothing stands under any other name.
  pub load_all-Stands :
      (cs : List ServerConfig) (m : Manager lib) (w : lib.World) (n : Bytes)
      → Stands (last_named n cs w) (lookup n (load_all lib cs m w).0.servers)
  unfolding load_all lookup
  load_all-Stands cs m w n = load_each-Stands cs n none (record { servers = [] }) w tt

  counted-all :
      (m : Assoc (ManagedServer lib))
      → (counted (map (λ e. e.1.status) m)).mcp_ok + (counted (map (λ e. e.1.status) m)).mcp_failed
        ≡ length m
  unfolding counted
  counted-all [] = omega arith
  counted-all ((n, s) ∷ m) = elim (Bool-cases s.status.connected) [
    | inl e ↦ rw e (omega (arith, counted-all m))
    | inr e ↦ rw e (omega (arith, counted-all m))
  ]

  length-insert :
      (k : Bytes) (s : ManagedServer lib) (m : Assoc (ManagedServer lib))
      → lookup k m ≡ none
      → length (insert k s m) ≡ length m + 1
  unfolding lookup insert
  length-insert k s [] h = omega arith
  length-insert k s ((j, t) ∷ m) h = elim (Bool-cases (beq j k)) [
    | inl e ↦ absurd (taken (rw e at h))
    | inr e ↦ rw e (omega (arith, length-insert k s m (rw e at h)))
  ]
    where
      taken : some t ≡ none → ⊥
      taken x = cc

  -- No two configurations share a name.
  abbrev pub Distinct : List ServerConfig → Type 0
  Distinct [] = Unit
  Distinct (c ∷ cs) = All (λ d. beq c.name d.name ≡ false) cs × Distinct cs

  abbrev Unused : List ServerConfig → Assoc (ManagedServer lib) → Type 0
  Unused cs m = All (λ c. lookup c.name m ≡ none) cs

  insert-Unused :
      (k : Bytes) (s : ManagedServer lib) (cs : List ServerConfig) (m : Assoc (ManagedServer lib))
      → Unused cs m
      → All (λ d. beq k d.name ≡ false) cs
      → Unused cs (insert k s m)
  insert-Unused k s [] m h fresh = tt
  insert-Unused k s (c ∷ cs) m h fresh =
      (rw (lookup-insert k c.name s m, fresh.0) h.0, insert-Unused k s cs m h.1 fresh.1)

  length-load_each :
      (cs : List ServerConfig) (m : Manager lib) (w : lib.World)
      → Distinct cs
      → Unused cs m.servers
      → length (load_each lib cs m w).0.servers ≡ length m.servers + length cs
  unfolding load_all
  length-load_each [] m w d h = omega arith
  length-load_each (c ∷ cs) m w d h =
      let s = (load lib c w).0 in
      let same : s.config.name ≡ c.name = ap (λ x. x.name) (config-load lib c w) in
      let fresh : Unused cs (insert s.config.name s m.servers) =
        rw same (insert-Unused c.name s cs m.servers h.1 d.0) in
      let longer : length (insert s.config.name s m.servers) ≡ length m.servers + 1 =
        rw same (length-insert c.name s m.servers h.0) in
      omega (arith, length-load_each cs (set_server lib s m) (load lib c w).1 d.1 fresh, longer)

  nil-Unused : (cs : List ServerConfig) → Unused cs []
  unfolding lookup
  nil-Unused [] = tt
  nil-Unused (c ∷ cs) = (refl, nil-Unused cs)

  -- With distinct names, the servers that cmd/bot/main.go counts as connected and as failed are all
  -- the configured ones, disabled ones included: what it logs as skipped, the rest, is always 0.
  pub counted-load_all :
      (cs : List ServerConfig) (m : Manager lib) (w : lib.World)
      → Distinct cs
      → (counted (statuses lib (load_all lib cs m w).0)).mcp_ok
          + (counted (statuses lib (load_all lib cs m w).0)).mcp_failed
        ≡ length cs
  unfolding load_all statuses
  counted-load_all cs m w d =
      let all = counted-all (load_all lib cs m w).0.servers in
      omega (arith, all, length-load_each cs (record { servers = [] }) w d (nil-Unused cs))
