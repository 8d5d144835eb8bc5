-- ===== src/Lark/Handler.antt =====
-- `Handle` of internal/lark/handler.go over any store of sessions: the list of what it does, in order,
-- how it returns and the store that it leaves, given what the locker, the sender, the provider
-- registry and the agent answer. A command is dispatchCommand of commands.go on that store.
pub mod Locked
use ssh_bot.Agent.Turn.{RunError, max_steps_reached, empty_assistant_response}
use ssh_bot.Base.{
  ℕ, ◌≡◌, refl, sym, ◌∙◌, ap, Bool, true, false, not, ◌&&◌, Bool-cases, inl, inr, Option, none,
  some, List, [], ◌∷◌, ◌++◌, append_assoc, if◌then◌else◌, Bytes, utf8, beq, All, All-append,
}
use ssh_bot.Lark.Commands.{Desk, dispatch_command}
use ssh_bot.Lark.Parser.{MessageEvent, session_key}
use ssh_bot.Session.Lock.{Acquired, acquired, busy, failed}
use ssh_bot.Session.Store
use ssh_bot.Session.Store.{Store, GetResult, found}
use ssh_bot.Session.{Session}

pub data Action : Type 0 where
  -- SendPlainCard with a command's reply
  replied : Bytes → Action
  -- SendMessage
  messaged : Bytes → Action
  -- a TryAcquire that took the lock of a key, and its Release
  locked : (key token : Bytes) → Action
  released : (key token : Bytes) → Action
  -- the card sent first, the turn of the agent, MarkError, Stop, and ReplyInThread
  carded : Action
  ran : Session → Bytes → Action
  marked : Bytes → Action
  stopped : Action
  threaded : Bytes → Action

-- How Handle returns.
pub data HandleError : Type 0 where
  lock_error : Bytes → HandleError
  store_error : Bytes → HandleError
  no_provider : HandleError
  card_error : Bytes → HandleError
  run_error : RunError → HandleError
  send_error : Bytes → HandleError

-- userFacingRunError
pub user_facing_run_error : RunError → Bytes
user_facing_run_error max_steps_reached = utf8 "已达到推理步数上限（12 步），请拆解问题后重试。"
user_facing_run_error empty_assistant_response = utf8 "模型返回了空响应，请稍后重试。"
user_facing_run_error _ = utf8 "处理过程中出错了，请稍后重试。"

unavailable : Bytes
unavailable = utf8 "⚠" ++ 0xEF ∷ 0xB8 ∷ 0x8F ∷ utf8 " 服务暂时不可用，请稍后重试。"

no_model : Bytes
no_model = utf8 "⚠" ++ 0xEF ∷ 0xB8 ∷ 0x8F ∷ utf8 " 当前没有可用的 AI 模型，请联系管理员。"

module _ (store : Store) where
  -- What Handle is answered: what the commands read, what sending a reply ends with, the lock, whether
  -- Resolve finds a provider, the error of the first card, the agent's run on the session, which also
  -- saves to the store, the parts that do not fit the card, and which of the replies fails.
  pub record Answers : Type 0 where
    pub desk : Desk
    pub send : Bytes → Option Bytes
    pub lock : Acquired
    pub resolves : Bytes → Bool
    pub initial_card : Option Bytes
    pub run : Session → Bytes → store.State → Option RunError × store.State
    pub long_parts : List Bytes
    pub reply_fails : Bytes → Bool
    pub default_model : Bytes
    pub trace_id : Bytes
    pub now : ℕ

  -- The error, the actions and the store.
  pub record Done : Type 0 where
    pub error : Option HandleError
    pub acts : List Action
    pub state : store.State

  module _ (a : Answers) (ev : MessageEvent) where
    -- The loop over the threaded parts, which a failed reply breaks.
    thread_replies : List Bytes → List Action
    thread_replies [] = []
    thread_replies (p ∷ ps) =
        let rest = thread_replies ps in
        if a.reply_fails p then threaded p ∷ [] else threaded p ∷ rest

    -- Behind the run.
    finished : Option RunError × store.State → Done
    unfolding thread_replies user_facing_run_error
    finished (some e, s) = record {
      error = some (run_error e);
      acts = marked (user_facing_run_error e) ∷ stopped ∷ [];
      state = s;
    }
    finished (none, s) = record {
      error = none;
      acts = stopped ∷ thread_replies a.long_parts;
      state = s;
    }

    behind : List Action → Done → Done
    behind acts d = record d { acts = acts ++ d.acts }

    with_card : Session → Option Bytes → store.State → Done
    unfolding finished behind
    with_card sess (some e) s = record {
      error = some (card_error e);
      acts = carded ∷ [];
      state = s;
    }
    with_card sess none s =
        behind (carded ∷ ran sess ev.text ∷ []) (finished (a.run sess ev.text s))

    -- The session, new where there is none, under this turn's trace id.
    pub session_of : Option Session → Session
    session_of (some sess) = record sess { trace_id = a.trace_id }
    session_of none = record {
      key = session_key ev;
      user_open_id = ev.sender_open_id;
      chat_id = ev.chat_id;
      chat_type = ev.chat_type;
      provider = a.default_model;
      messages = [];
      created_at = some a.now;
      updated_at = none;
      trace_id = a.trace_id;
    }

    with_provider : Session → store.State → Done
    unfolding with_card no_model
    with_provider sess s =
        if a.resolves sess.provider
        then with_card sess a.initial_card s
        else record { error = some no_provider; acts = messaged no_model ∷ []; state = s }

    -- Behind the lock.
    with_session : GetResult → store.State → Done
    unfolding with_provider session_of unavailable
    with_session (Store.failed e) s = record {
      error = some (store_error e);
      acts = messaged unavailable ∷ [];
      state = s;
    }
    with_session (found o) s = with_provider (session_of o) s

    -- With the lock in hand; the deferred Release is the last thing done.
    in_lock : Bytes → store.State → Done
    unfolding with_session
    in_lock token s =
        let d = with_session (store.get (session_key ev) s) s in
        record d {
          acts = locked (session_key ev) token ∷ d.acts ++ released (session_key ev) token ∷ [];
        }

    at_lock : Acquired → store.State → Done
    unfolding in_lock
    at_lock (failed e) s = record {
      error = some (lock_error e);
      acts = messaged unavailable ∷ [];
      state = s;
    }
    at_lock busy s = record {
      error = none;
      acts = messaged (utf8 "⏳ 上一条还在处理中，请稍候再发。") ∷ [];
      state = s;
    }
    at_lock (acquired token) s = in_lock token s

    send_result : Option Bytes → Option HandleError
    send_result none = none
    send_result (some e) = some (send_error e)

    send_reply : Bytes → store.State → Done
    unfolding send_result
    send_reply [] s = record { error = none; acts = []; state = s }
    send_reply (c ∷ text) s = record {
      error = send_result (a.send (c ∷ text));
      acts = replied (c ∷ text) ∷ [];
      state = s;
    }

    -- Behind dispatchCommand, which has left the store in the state given.
    at_command : Option Bytes × store.State → Done
    unfolding send_reply at_lock
    at_command (some text, s) = send_reply text s
    at_command (none, s) = at_lock a.lock s

    abbrev pub is_blank : Bool
    is_blank = elim ev.text [ [] ↦ true | c ∷ s ↦ false ]

    -- Handle, at an event that is not nil
    pub handle : store.State → Done
    unfolding at_command
    handle s =
        if not (beq ev.chat_type (utf8 "p2p")) && not ev.mentioned_bot
        then record { error = none; acts = []; state = s }
        else if is_blank
        then record { error = none; acts = []; state = s }
        else at_command (dispatch_command store a.desk ev s)
