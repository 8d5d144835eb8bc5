-- ===== src/Agent/Context.antt =====
-- internal/agent/context.go: the request for one step of the loop.
use ssh_bot.Base.{Bool, List, [], ◌∷◌, ◌++◌, map, ◌==◌, if◌then◌else◌, Bytes, utf8}
use ssh_bot.Llm.Types.{ToolSpec, ChatRequest}
use ssh_bot.Session.{Session}
use ssh_bot.Tool.Registry.{Registry, available}
use ssh_bot.Tool.{Tool}

-- firstLine
pub first_line : Bytes → Bytes
first_line [] = []
first_line (c ∷ s) = let rest = first_line s in if c == b'\n' then [] else c ∷ rest

default_preamble : Bytes
default_preamble =
    utf8
      "You are an AI assistant running inside a Feishu (Lark) chat. Answer in the user's language. Prefer concise, well-formatted markdown. When a tool is appropriate, call it; do not guess time-sensitive facts."

-- The fixed lines behind the preamble, as they are written one after the other.
fixed_lines : List Bytes
fixed_lines =
    utf8
      "\n\nFormatting constraints for Feishu cards: output only Feishu-compatible markdown (lark_md subset). Avoid HTML tags and markdown tables. Use inline code sparingly and only for identifiers or commands. Do not rely on fancy markdown features."
    ∷ utf8 "\n\nDefault answer style unless the user asks otherwise:"
    ∷ utf8 "\n- Start with one direct answer sentence."
    ∷ utf8 "\n- Then give 2 to 4 short bullets only if they add value."
    ∷ utf8 "\n- Use at most 3 short sections."
    ∷ utf8 "\n- Keep each paragraph to 1 or 2 sentences."
    ∷ utf8 "\n- Avoid unnecessary blank lines and avoid many tiny sections."
    ∷ utf8
        "\n- Do not add emojis unless they clearly help. If you use emojis, only use simple common Unicode emojis such as ✅ ❌ 💡 📌."
    ∷ utf8 "\n\nPreferred structure example:"
    ∷ utf8 "\n结论：这是最关键的判断。"
    ∷ utf8 "\n• 原因一：一句话说清。"
    ∷ utf8 "\n• 原因二：一句话说清。"
    ∷ utf8 "\n下一步：如果需要，再给一个明确动作。"
    ∷ []

concat : List Bytes → Bytes
concat [] = []
concat (s ∷ ss) = s ++ concat ss

tool_line : Tool → Bytes
tool_line t = utf8 "- " ++ t.name ++ utf8 ": " ++ first_line t.description ++ b'\n' ∷ []

tool_lines : List Tool → Bytes
unfolding concat tool_line
tool_lines [] = []
tool_lines (t ∷ ts) = utf8 "\n\nAvailable tools:\n" ++ concat (map tool_line (t ∷ ts))

module _ (up : Tool → Bool) where
  -- composeSystem
  pub compose_system : Bytes → Registry → Bytes
  unfolding tool_lines fixed_lines default_preamble
  compose_system preamble reg =
      (elim preamble [ [] ↦ default_preamble | c ∷ s ↦ c ∷ s ])
      ++ concat fixed_lines
      ++ tool_lines (available up reg)

  -- specsFromRegistry
  pub specs_from_registry : Registry → List ToolSpec
  specs_from_registry reg =
      map
        (λ t. record { name = t.name; description = t.description; input_schema = t.input_schema })
        (available up reg)

  -- buildRequest
  pub build_request : Session → Registry → Bytes → Bool → ChatRequest
  build_request sess reg preamble enable_thinking = record {
    system = compose_system preamble reg;
    messages = sess.messages;
    tools = specs_from_registry reg;
    enable_thinking = enable_thinking;
  }
