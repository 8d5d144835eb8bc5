-- ===== src/Tests/LarkRuns.antt =====
-- Messages and commands of internal/lark, over the store in memory.
use mathlib.Core.Logic.{◌↔◌}
use ssh_bot.Base.{
  ℕ, ◌≡◌, ◌≢◌, ◌⊎◌, refl, true, false, none, [], ◌∷◌, Bytes, utf8, beq, trim_space, arith,
}
use ssh_bot.Lark.Commands.Effects.{Effect, dispatch_command-Effect}
use ssh_bot.Lark.Commands.{Desk, dispatch_command}
use ssh_bot.Lark.Handler.Locked.{Balanced, handle-Balanced}
use ssh_bot.Lark.Handler.{Answers, handle}
use ssh_bot.Lark.Parser.Keys.{session_key_inj, NoColon}
use ssh_bot.Lark.Parser.{MessageEvent, session_key, is_command}
use ssh_bot.Session.Lock.{acquired}
use ssh_bot.Session.Memory.{MemoryStore, memory_store}

abbrev event : Bytes → Bytes → MessageEvent
event text message_id = record {
  chat_id = 99 ∷ [];
  chat_type = utf8 "group";
  sender_open_id = utf8 "ou_1";
  message_id = message_id;
  text = text;
  mentioned_bot = true;
}

abbrev desk : Desk
desk = record {
  registry = record { tools = [] };
  up = λ t. true;
  names = utf8 "claude" ∷ [];
  has_model = λ s. beq s (utf8 "claude");
  now = 7;
}

abbrev nothing_stored : MemoryStore
nothing_stored = record { sessions = [] }

dispatch_command-Effect_example :
    Effect memory_store desk
      (event (utf8 "/model claude") [])
      nothing_stored
      (dispatch_command memory_store desk (event (utf8 "/model claude") []) nothing_stored).1
    × (((dispatch_command memory_store desk (event (utf8 "/model claude") []) nothing_stored).0
          ≡ none)
        ↔ (is_command (trim_space (utf8 "/model claude")) ≡ false))
dispatch_command-Effect_example =
    dispatch_command-Effect memory_store desk (event (utf8 "/model claude") []) nothing_stored

abbrev all_well : Answers memory_store
all_well = record {
  desk = desk;
  send = λ s. none;
  lock = acquired (utf8 "t");
  resolves = λ s. true;
  initial_card = none;
  run = λ sess text s. (none, s);
  long_parts = utf8 "more" ∷ [];
  reply_fails = λ s. false;
  default_model = utf8 "claude";
  trace_id = utf8 "tr";
  now = 7;
}

handle-Balanced_example :
    Balanced memory_store all_well
      (event (utf8 "hi") [])
      nothing_stored
      (handle memory_store all_well (event (utf8 "hi") []) nothing_stored)
handle-Balanced_example =
    handle-Balanced memory_store all_well (event (utf8 "hi") []) nothing_stored

no_colon : NoColon (99 ∷ [])
no_colon = (differ, tt)
  where
    differ : ◌≢◌ {A = ℕ} 99 b':'
    differ e = omega (arith, e)

same_keys : session_key (event [] (utf8 "m1")) ≡ session_key (event [] (utf8 "m2"))
unfolding session_key
same_keys = refl

session_key_inj_example :
    (utf8 "ou_1" ≡ utf8 "ou_1")
    × (beq (utf8 "group") (utf8 "p2p") ≡ beq (utf8 "group") (utf8 "p2p"))
    × ((beq (utf8 "group") (utf8 "p2p") ≡ true) ⊎ ((event [] (utf8 "m1")).chat_id ≡ 99 ∷ []))
session_key_inj_example =
    session_key_inj (event [] (utf8 "m1")) (event [] (utf8 "m2")) no_colon no_colon same_keys
