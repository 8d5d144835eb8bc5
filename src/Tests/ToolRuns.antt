-- ===== src/Tests/ToolRuns.antt =====
-- Registrations of internal/tool/registry.go.
use mathlib.Core.List.{Perm}
use ssh_bot.Base.{[], ◌∷◌, map, utf8}
use ssh_bot.Tool.Registry.Sorted.{IsListed, list-IsListed}
use ssh_bot.Tool.Registry.Valid.{
  Outcome, IsValid, register-Outcome, start, registered, removed, Built-IsValid,
}
use ssh_bot.Tool.Registry.{Registry, empty_registry, register, list, remove_by_prefix}
use ssh_bot.Tool.{Tool, builtin, mcp}

abbrev clock_tool : Tool
clock_tool = record { name = utf8 "clock"; description = []; input_schema = []; source = builtin }

abbrev wiki_tool : Tool
wiki_tool = record { name = utf8 "mcp__w__read"; description = []; input_schema = []; source = mcp }

abbrev two_tools : Registry
two_tools = record { tools = (utf8 "mcp__w__read", wiki_tool) ∷ (utf8 "clock", clock_tool) ∷ [] }

register-Outcome_example : Outcome two_tools clock_tool (register two_tools clock_tool)
register-Outcome_example = register-Outcome two_tools clock_tool

Built-IsValid_example : IsValid (
    remove_by_prefix
      (register (register empty_registry clock_tool).1 wiki_tool).1
      (utf8 "mcp__w__"))
Built-IsValid_example =
    Built-IsValid (removed (utf8 "mcp__w__") (registered wiki_tool (registered clock_tool start)))

list-IsListed_example :
    IsListed (list two_tools) × Perm (list two_tools) (map (λ e. e.1) two_tools.tools)
list-IsListed_example = list-IsListed two_tools
