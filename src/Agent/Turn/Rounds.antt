-- ===== src/Agent/Turn/Rounds.antt =====
-- The shape of what a turn of internal/agent/loop.go adds to the history.
use ssh_bot.Base.{◌≤◌, ◌≡◌, ◌≢◌, List, [], ◌∷◌, ◌++◌, Bytes, length, All, Option, none, some, false}
use ssh_bot.Llm.Types.{ToolCall, Message, assistant}
use ssh_bot.Agent.Exec.{Answers}
use ssh_bot.Agent.Turn.{max_arguments_len, RunError, save_assistant, nil_partial, is_blank}

abbrev pub IsCapped : ToolCall → Type 0
IsCapped c = length c.arguments ≤ max_arguments_len

-- An assistant's message whose tool calls have arguments within the cap.
pub record IsAssistant (m : Message) : Type 0 where
  pub role_is : m.role ≡ assistant
  pub capped : All IsCapped m.tool_calls

-- Complete rounds: an assistant's message with tool calls, and then one answer for each of them, in
-- order.
pub data Rounds : List Message → Type 0 where
  start : {ms : List Message} → ms ≡ [] → Rounds ms
  round :
      (prev rs : List Message) {ms : List Message} (m : Message)
      → Rounds prev
      → IsAssistant m
      → m.tool_calls ≢ []
      → Answers m.tool_calls rs
      → ms ≡ prev ++ m ∷ rs
      → Rounds ms

-- What a finished turn adds: rounds, then an answer without tool calls that is not blank; or, on an
-- error, rounds alone. Where the save of an assistant's message failed, that message stands at the
-- end, and a nil entry of the map of partial calls is never met.
pub data Ended : Option RunError → List Message → Type 0 where
  answer :
      {e : Option RunError} (prev : List Message) {ms : List Message} (m : Message)
      → e ≡ none
      → Rounds prev
      → IsAssistant m
      → m.tool_calls ≡ []
      → is_blank m.content ≡ false
      → ms ≡ prev ++ m ∷ []
      → Ended e ms
  unsaved :
      {e : Option RunError} (prev : List Message) {ms : List Message} (m : Message) (err : Bytes)
      → e ≡ some (save_assistant err)
      → Rounds prev
      → IsAssistant m
      → ms ≡ prev ++ m ∷ []
      → Ended e ms
  stopped :
      {e : Option RunError} {ms : List Message} (err : RunError)
      → e ≡ some err
      → err ≢ nil_partial
      → Rounds ms
      → Ended e ms
