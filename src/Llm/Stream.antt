-- ===== src/Llm/Stream.antt =====
-- The contract of a provider's event channel, in the comment on StreamEvent in
-- internal/llm/types.go: exactly one terminator, and nothing after it.
use ssh_bot.Base.{List, [], ◌∷◌, ◌++◌, Bytes}
use ssh_bot.Llm.Types.{
  StreamEvent, thinking_delta, text_delta, tool_call_start, tool_call_args, tool_call_end,
  message_end, error,
}

-- message_end and error end a stream.
abbrev pub IsBody : StreamEvent → Type 0
IsBody (message_end r u) = ⊥
IsBody (error e) = ⊥
IsBody (thinking_delta t) = Unit
IsBody (text_delta t) = Unit
IsBody (tool_call_start i n t) = Unit
IsBody (tool_call_args i n d) = Unit
IsBody (tool_call_end i n t) = Unit

-- The deltas of one kind, joined.
abbrev pub text_of : List StreamEvent → Bytes
text_of [] = []
text_of (text_delta t ∷ evs) = t ++ text_of evs
text_of (_ ∷ evs) = text_of evs

abbrev pub thinking_of : List StreamEvent → Bytes
thinking_of [] = []
thinking_of (thinking_delta t ∷ evs) = t ++ thinking_of evs
thinking_of (_ ∷ evs) = thinking_of evs
