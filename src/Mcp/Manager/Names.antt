-- ===== src/Mcp/Manager/Names.antt =====
-- The tools of internal/mcp in the registry of internal/tool/registry.go.
use ssh_bot.Base.{
  ◌≡◌, ◌≢◌, refl, sym, ap, ◌∙◌, true, false, Bool-cases, inl, inr, Option, none, some, List, [],
  ◌∷◌, ◌++◌, map, Bytes, utf8, beq, beq_refl, beq_iff, has_prefix, has_prefix-append, All,
}
use ssh_bot.Mcp.Adapter.{AdaptedTool, as_tool, prefixed_tool_name}
use ssh_bot.Mcp.Manager.{register_all}
use ssh_bot.Mcp.{Library}
use ssh_bot.Tool.Registry.Valid.{
  Outcome, unnamed, unprefixed, reserved, taken, added, register-Outcome,
}
use ssh_bot.Tool.Registry.{Registry, RegisterError, mcp_name_prefix, register, get, is_mcp}
use ssh_bot.Tool.{Tool}

-- Register never takes a name away.
registered_stays :
    (r : Registry) (t : Tool) (n : Bytes) (x : Tool) (res : Option RegisterError × Registry)
    → Outcome r t res
    → get r n ≡ some x
    → get res.1 n ≡ some x
registered_stays r t n x res (unnamed e same) h = rw same h
registered_stays r t n x res (unprefixed a b same) h = rw same h
registered_stays r t n x res (reserved a b same) h = rw same h
registered_stays r t n x res (taken a same) h = rw same h
registered_stays r t n x res (added a b free d e) h = elim (Bool-cases (beq t.name n)) [
  | inl own ↦ absurd (clash (sym free ∙ rw ((beq_iff t.name n).0 own) h))
  | inr other ↦ e n ∙ rw other h
]
  where
    clash : none ≡ some x → ⊥
    clash y = cc

register_all_stays :
    (ts : List Tool) (r : Registry) (n : Bytes) (x : Tool)
    → get r n ≡ some x
    → get (register_all ts r) n ≡ some x
unfolding register_all
register_all_stays [] r n x h = h
register_all_stays (t ∷ ts) r n x h =
    register_all_stays ts (register r t).1 n x
      (registered_stays r t n x (register r t) (register-Outcome r t) h)

module _ (lib : Library) where
  name-prefix : (t : AdaptedTool lib) → has_prefix (as_tool lib t).name mcp_name_prefix ≡ true
  unfolding as_tool prefixed_tool_name mcp_name_prefix
  name-prefix t =
      has_prefix-append mcp_name_prefix (t.server_name ++ utf8 "__" ++ t.definition.name)

  name_present : (t : AdaptedTool lib) → (as_tool lib t).name ≢ []
  unfolding has_prefix mcp_name_prefix utf8
  name_present t e = absurd (clash (sym (name-prefix t) ∙ ap (λ n. has_prefix n mcp_name_prefix) e))
    where
      clash : true ≡ false → ⊥
      clash y = cc

  source-as_tool : (t : AdaptedTool lib) → is_mcp (as_tool lib t).source ≡ true
  unfolding as_tool
  source-as_tool t = refl

  named_after :
      (r : Registry) (t : AdaptedTool lib) (res : Option RegisterError × Registry)
      → Outcome r (as_tool lib t) res
      → get res.1 (as_tool lib t).name ≢ none
  named_after r t res (unnamed e same) = absurd (name_present t e)
  named_after r t res (unprefixed a b same) = absurd (clash (sym (name-prefix t) ∙ b))
    where
      clash : true ≡ false → ⊥
      clash y = cc
  named_after r t res (reserved a b same) = absurd (clash (sym (source-as_tool t) ∙ a))
    where
      clash : true ≡ false → ⊥
      clash y = cc
  named_after r t res (taken a same) = rw same a
  named_after r t res (added a b free d e) =
      λ h. clash (sym (e (as_tool lib t).name ∙ rw (beq_refl (as_tool lib t).name)) ∙ h)
    where
      clash : some (as_tool lib t) ≡ none → ⊥
      clash y = cc

  stays_named :
      (ts : List Tool) (r : Registry) (n : Bytes)
      → get r n ≢ none
      → get (register_all ts r) n ≢ none
  stays_named ts r n h = by_value (get r n) refl
    where
      clash : (x : Tool) → some x ≡ none → ⊥
      clash x y = cc

      by_value : (o : Option Tool) → get r n ≡ o → get (register_all ts r) n ≢ none
      by_value none e = absurd (h e)
      by_value (some x) e = λ none_there. clash x (sym (register_all_stays ts r n x e) ∙ none_there)

  each_named :
      (ts : List (AdaptedTool lib)) (r : Registry)
      → All (λ t. get (register_all (map (as_tool lib) ts) r) (as_tool lib t).name ≢ none) ts
  unfolding register_all
  each_named [] r = tt
  each_named (t ∷ ts) r = (
    stays_named (map (as_tool lib) ts) (register r (as_tool lib t)).1 (as_tool lib t).name
        (named_after r t (register r (as_tool lib t)) (register-Outcome r (as_tool lib t))),
    each_named ts (register r (as_tool lib t)).1,
  )

  -- Registering the tools of MCP servers into any registry: each of their names is taken in the end,
  -- so that none is refused for its name or source but only as a duplicate, and a tool that stood
  -- under a name before, a built-in one for instance, still stands under it.
  pub register_all-named :
      (ts : List (AdaptedTool lib)) (r : Registry) (n : Bytes) (x : Tool)
      → get r n ≡ some x
      → All (λ t. get (register_all (map (as_tool lib) ts) r) (as_tool lib t).name ≢ none) ts
        × (get (register_all (map (as_tool lib) ts) r) n ≡ some x)
  register_all-named ts r n x h =
      (each_named ts r, register_all_stays (map (as_tool lib) ts) r n x h)
