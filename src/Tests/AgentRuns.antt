-- ===== src/Tests/AgentRuns.antt =====
-- A turn of internal/agent/loop.go with one tool call, saved in memory.
use ssh_bot.Agent.Exec.{
  Env, events, returned, Answers, exec_tools, result_message, exec_tools-Answers,
}
use ssh_bot.Agent.Loop.Answers.{Replies, run_answers}
use ssh_bot.Agent.Loop.Transcript.{run-Ended}
use ssh_bot.Agent.Loop.{Config, steps_of, run}
use ssh_bot.Agent.Turn.Ready.{IsReply}
use ssh_bot.Agent.Turn.Rounds.{Ended}
use ssh_bot.Base.{
  ℕ, zero, suc, ◌≡◌, ◌<◌, refl, arith, inl, inr, trim_space, Bool, true, false, none, List, [], ◌∷◌,
  ◌++◌, map, Bytes, utf8,
}
use ssh_bot.Llm.Types.{
  ToolCall, Message, message, user, StreamEvent, thinking_delta, text_delta, tool_call_start,
  tool_call_args, message_end, ChatRequest,
}
use ssh_bot.Session.Memory.{MemoryStore, memory_store}
use ssh_bot.Session.{Session}
use ssh_bot.Tool.Registry.{Registry}
use ssh_bot.Tool.{Tool, builtin}

abbrev clock : Tool
clock = record {
  name = utf8 "clock";
  description = utf8 "the time";
  input_schema = utf8 "{}";
  source = builtin;
}

abbrev clock_registry : Registry
clock_registry = record { tools = (utf8 "clock", clock) ∷ [] }

abbrev answers : ℕ → List StreamEvent
answers zero =
    thinking_delta (utf8 "hm")
    ∷ tool_call_start (utf8 "c1") (utf8 "clock") []
    ∷ tool_call_args (utf8 "c1") (utf8 "clock") (utf8 "{}")
    ∷ message_end [] (record { input_tokens = 1; output_tokens = 1 })
    ∷ []
answers (suc n) =
    text_delta (utf8 "noon") ∷ message_end [] (record { input_tokens = 1; output_tokens = 1 }) ∷ []

abbrev one_tool_env : Env
one_tool_env = record {
  stream = λ step req. events (answers step);
  up = λ step t. true;
  call = λ step t c. returned (utf8 "12:00");
  arrange = λ step evs. evs;
  quote = λ s. s;
  json_error = λ s. none;
}

abbrev two_steps : Config
two_steps = record { max_steps = 2; preamble = []; thinking = false }

abbrev new_session : Session
new_session = record {
  key = utf8 "user:ou_1";
  user_open_id = utf8 "ou_1";
  chat_id = utf8 "oc_1";
  chat_type = utf8 "p2p";
  provider = [];
  messages = [];
  created_at = none;
  updated_at = none;
  trace_id = [];
}

abbrev no_sessions : MemoryStore
no_sessions = record { sessions = [] }

memory_keeps :
    (key : Bytes) (x : Session) (s : MemoryStore) → (memory_store.save key x s).session ≡ x
memory_keeps key x s = refl

run-Ended_example :
    (added : List Message) × Ended
      (run memory_store one_tool_env two_steps clock_registry new_session no_sessions
        (utf8 "time?")).0
      added
    × ((run memory_store one_tool_env two_steps clock_registry new_session no_sessions
          (utf8 "time?")).1.session.messages
        ≡ new_session.messages ++ message user (utf8 "time?") ∷ added)
run-Ended_example =
    run-Ended memory_store one_tool_env two_steps clock_registry memory_keeps new_session
      no_sessions (utf8 "time?")

abbrev two_calls : List ToolCall
two_calls =
    record { id = utf8 "c1"; name = utf8 "clock"; arguments = utf8 "{}" }
    ∷ record { id = utf8 "c2"; name = utf8 "missing"; arguments = [] }
    ∷ []

exec_tools-Answers_example :
    Answers two_calls (map result_message (exec_tools one_tool_env 0 clock_registry two_calls).0)
exec_tools-Answers_example = exec_tools-Answers one_tool_env 0 clock_registry two_calls

abbrev calls_first : ℕ → Bool
calls_first zero = true
calls_first (suc n) = false

first-IsReply : IsReply true (answers 0)
unfolding utf8
first-IsReply = record {
  body =
      thinking_delta (utf8 "hm")
      ∷ tool_call_start (utf8 "c1") (utf8 "clock") []
      ∷ tool_call_args (utf8 "c1") (utf8 "clock") (utf8 "{}")
      ∷ [];
  reason = [];
  usage = record { input_tokens = 1; output_tokens = 1 };
  is = refl;
  deltas = (tt, (tt, (tt, tt)));
  fits = omega arith;
  calls_is = refl;
  full = inl refl;
}

last-IsReply : (n : ℕ) → IsReply false (answers (suc n))
unfolding utf8 trim_space
last-IsReply n = record {
  body = text_delta (utf8 "noon") ∷ [];
  reason = [];
  usage = record { input_tokens = 1; output_tokens = 1 };
  is = refl;
  deltas = (tt, tt);
  fits = omega arith;
  calls_is = refl;
  full = inr refl;
}

each-Replies : (k : ℕ) (req : ChatRequest) → Replies (calls_first k) (one_tool_env.stream k req)
each-Replies zero req = first-IsReply
each-Replies (suc n) req = last-IsReply n

two_allowed : 1 < steps_of two_steps
unfolding steps_of
two_allowed = omega arith

run_answers_example :
    (run memory_store one_tool_env two_steps clock_registry new_session no_sessions
      (utf8 "time?")).0
    ≡ none
run_answers_example =
    run_answers memory_store one_tool_env two_steps clock_registry (λ key x s. refl) calls_first
      each-Replies 1 two_allowed refl new_session no_sessions (utf8 "time?")
