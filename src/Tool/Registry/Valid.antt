-- ===== src/Tool/Registry/Valid.antt =====
-- What internal/tool/registry.go promises of registered names.
use ssh_bot.Base.{
  ◌≡◌, ◌≢◌, true, false, Option, none, some, [], ◌∷◌, arith, if◌then◌else◌, Bytes, beq, beq_iff,
  has_prefix, Assoc, lookup, lookup-insert, Bool-cases, inl, inr, not, ◌&&◌,
}
use ssh_bot.Tool.Registry.{
  Registry, empty_registry, mcp_name_prefix, RegisterError, name_is_empty, must_use_prefix,
  must_not_use_prefix, already_registered, is_mcp, is_some, register, get, remove_keys,
  remove_by_prefix,
}
use ssh_bot.Tool.{Tool}

-- A registered tool stands under its own name, which is not empty and has the reserved prefix
-- exactly when the tool comes from an MCP server.
pub record IsValid (r : Registry) : Type 0 where
  pub own_name : (n : Bytes) (t : Tool) → get r n ≡ some t → t.name ≡ n
  pub not_empty : (n : Bytes) (t : Tool) → get r n ≡ some t → n ≢ []
  pub prefix_iff :
      (n : Bytes) (t : Tool) → get r n ≡ some t → has_prefix n mcp_name_prefix ≡ is_mcp t.source

-- What Register answers, and when.
pub data Outcome (r : Registry) (t : Tool) (res : Option RegisterError × Registry) : Type 0 where
  unnamed : t.name ≡ [] → res ≡ (some name_is_empty, r) → Outcome r t res
  unprefixed :
      is_mcp t.source ≡ true
      → has_prefix t.name mcp_name_prefix ≡ false
      → res ≡ (some (must_use_prefix t.name), r)
      → Outcome r t res
  reserved :
      is_mcp t.source ≡ false
      → has_prefix t.name mcp_name_prefix ≡ true
      → res ≡ (some (must_not_use_prefix t.name), r)
      → Outcome r t res
  taken : get r t.name ≢ none → res ≡ (some (already_registered t.name), r) → Outcome r t res
  added :
      res.0 ≡ none
      → t.name ≢ []
      → get r t.name ≡ none
      → has_prefix t.name mcp_name_prefix ≡ is_mcp t.source
      → ((n : Bytes) → get res.1 n ≡ (if beq t.name n then some t else get r n))
      → Outcome r t res

-- Register on every branch: a tool whose name is empty, has the wrong prefix for its source or is
-- taken leaves the registry as it was and gets the error that says so; any other is added under its
-- name, and no other name is touched.
pub register-Outcome : (r : Registry) (t : Tool) → Outcome r t (register r t)
unfolding register get
register-Outcome r t = elim (Bool-cases (beq t.name [])) [
  | inl e ↦ unnamed ((beq_iff t.name []).0 e) (rw e)
  | inr named ↦ elim (Bool-cases (is_mcp t.source && not (has_prefix t.name mcp_name_prefix))) [
    | inl e ↦ unprefixed (ground arith) (ground arith) (rw (named, e))
    | inr e ↦ elim (Bool-cases (not (is_mcp t.source) && has_prefix t.name mcp_name_prefix)) [
      | inl f ↦ reserved (ground arith) (ground arith) (rw (named, e, f))
      | inr f ↦ elim (Bool-cases (is_some (lookup t.name r.tools))) [
        | inl g ↦ taken (ground arith) (rw (named, e, f, g))
        | inr g ↦
            added (rw (named, e, f, g)) (ground (arith, beq_iff t.name [])) (ground arith)
              (ground arith) (λ n. rw (named, e, f, g) (lookup-insert t.name n t r.tools))
      ]
    ]
  ]
]

Outcome-IsValid :
    (r : Registry) (t : Tool) (res : Option RegisterError × Registry)
    → Outcome r t res
    → IsValid r
    → IsValid res.1
Outcome-IsValid r t res (unnamed _ e) v = rw e v
Outcome-IsValid r t res (unprefixed _ _ e) v = rw e v
Outcome-IsValid r t res (reserved _ _ e) v = rw e v
Outcome-IsValid r t res (taken _ e) v = rw e v
Outcome-IsValid r t res (added _ ne new p at) v = record {
  own_name = λ n u h. ground (arith, at n, beq_iff t.name n, v.own_name n u);
  not_empty = λ n u h. ground (arith, at n, beq_iff t.name n, v.not_empty n u);
  prefix_iff = λ n u h. ground (arith, at n, beq_iff t.name n, v.prefix_iff n u);
}

lookup-remove_keys :
    (prefix n : Bytes) (m : Assoc Tool)
    → lookup n (remove_keys prefix m) ≡ (if has_prefix n prefix then none else lookup n m)
unfolding remove_keys lookup
lookup-remove_keys prefix n [] = ground arith
lookup-remove_keys prefix n ((j, t) ∷ m) =
    ground (arith, lookup-remove_keys prefix n m, beq_iff j n)

-- RemoveByPrefix drops exactly the tools whose names start with the prefix.
get-remove_by_prefix :
    (r : Registry) (prefix n : Bytes)
    → get (remove_by_prefix r prefix) n ≡ (if has_prefix n prefix then none else get r n)
unfolding get remove_by_prefix
get-remove_by_prefix r prefix n = lookup-remove_keys prefix n r.tools

remove_by_prefix-IsValid :
    (r : Registry) (prefix : Bytes) → IsValid r → IsValid (remove_by_prefix r prefix)
remove_by_prefix-IsValid r prefix v = record {
  own_name = λ n u h. ground (arith, get-remove_by_prefix r prefix n, v.own_name n u);
  not_empty = λ n u h. ground (arith, get-remove_by_prefix r prefix n, v.not_empty n u);
  prefix_iff = λ n u h. ground (arith, get-remove_by_prefix r prefix n, v.prefix_iff n u);
}

-- Registries that the operations can build.
pub data Built : Registry → Type 0 where
  start : Built empty_registry
  registered : {r : Registry} (t : Tool) → Built r → Built (register r t).1
  removed : {r : Registry} (prefix : Bytes) → Built r → Built (remove_by_prefix r prefix)

get-empty : (n : Bytes) (u : Tool) → get empty_registry n ≡ some u → ⊥
unfolding get lookup
get-empty n u h = cc

-- Every registry built by Register and RemoveByPrefix is well formed.
pub Built-IsValid : {r : Registry} → Built r → IsValid r
Built-IsValid start = record {
  own_name = λ n u h. absurd (get-empty n u h);
  not_empty = λ n u h. absurd (get-empty n u h);
  prefix_iff = λ n u h. absurd (get-empty n u h);
}
Built-IsValid (registered {r} t b) =
    Outcome-IsValid r t (register r t) (register-Outcome r t) (Built-IsValid b)
Built-IsValid (removed {r} prefix b) = remove_by_prefix-IsValid r prefix (Built-IsValid b)
