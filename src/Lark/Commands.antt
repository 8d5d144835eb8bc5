-- ===== src/Lark/Commands.antt =====
-- internal/lark/commands.go: the commands, over any store. The aliases of the model registry and
-- which tools are reachable are parameters.
pub mod Effects
use ssh_bot.Base.{
  ℕ, Bool, true, false, not, Option, none, some, List, [], ◌∷◌, ◌++◌, map, if◌then◌else◌, Bytes,
  utf8, beq, has_prefix, trim_prefix, trim_space, join,
}
use ssh_bot.Lark.Parser.{MessageEvent, session_key, is_command}
use ssh_bot.Session.Store.{Store, GetResult, found, failed, SaveResult}
use ssh_bot.Session.{Session}
use ssh_bot.Tool.Registry.{Registry, list}
use ssh_bot.Tool.{Tool, Source, builtin, mcp}

-- Sprintf("`%s`")
abbrev ticked : Bytes → Bytes
ticked s = utf8 "`" ++ s ++ utf8 "`"

-- The sign of a warning and the variation selector U+FE0F behind it.
abbrev warning_sign : Bytes
warning_sign = utf8 "⚠" ++ 0xEF ∷ 0xB8 ∷ 0x8F ∷ []

-- modelListText
pub model_list_text : List Bytes → Bytes
model_list_text [] = utf8 "**可用模型**：_无_"
model_list_text (n ∷ ns) = utf8 "**可用模型**：`" ++ join (n ∷ ns) (utf8 "`、`") ++ utf8 "`"

source_text : Source → Bytes
source_text builtin = utf8 "builtin"
source_text mcp = utf8 "mcp"

tool_lines : (Tool → Bool) → List Tool → Bytes
unfolding source_text
tool_lines up [] = []
tool_lines up (t ∷ ts) =
    utf8 "- "
    ++ (if up t then utf8 "✅" else warning_sign)
    ++ utf8 " "
    ++ ticked t.name
    ++ utf8 " ("
    ++ source_text t.source
    ++ utf8 ")\n"
    ++ tool_lines up ts

tools_text_of : (Tool → Bool) → List Tool → Bytes
unfolding tool_lines
tools_text_of up [] = utf8 "**可用工具**：_无_"
tools_text_of up (t ∷ ts) = utf8 "**可用工具**\n" ++ tool_lines up (t ∷ ts)

-- toolsListText
pub tools_list_text : (Tool → Bool) → Registry → Bytes
unfolding tools_text_of
tools_list_text up reg = tools_text_of up (list reg)

-- helpText
pub help_text : (Tool → Bool) → Registry → List Bytes → Bytes
help_text up reg names =
    utf8 "**可用指令**\n"
    ++ utf8 "- `/clear` 清空当前对话上下文\n"
    ++ utf8 "- `/help` 显示此帮助\n"
    ++ utf8 "- `/model <别名>` 切换 AI 模型\n"
    ++ utf8 "- `/tools` 列出可用工具\n"
    ++ utf8 "- `/whoami` 显示当前会话标识（调试用）\n\n"
    ++ model_list_text names
    ++ utf8 "\n\n"
    ++ tools_list_text up reg

-- What dispatchCommand reads besides the event and the store.
pub record Desk : Type 0 where
  pub registry : Registry
  pub up : Tool → Bool
  pub names : List Bytes
  pub has_model : Bytes → Bool
  pub now : ℕ

-- The session that /model makes where there is none.
pub new_session : Desk → MessageEvent → Session
new_session desk ev = record {
  key = session_key ev;
  user_open_id = ev.sender_open_id;
  chat_id = ev.chat_id;
  chat_type = ev.chat_type;
  provider = [];
  messages = [];
  created_at = some desk.now;
  updated_at = none;
  trace_id = [];
}

abbrev pub session_or : Session → Option Session → Session
session_or fresh none = fresh
session_or fresh (some sess) = sess

module _ (store : Store) (desk : Desk) (ev : MessageEvent) where
  -- A reply, and the store behind the command.
  abbrev Reply : Type 0
  Reply = Bytes × store.State

  cleared : Option Bytes × store.State → Reply
  cleared (none, s) = (utf8 "✅ 已清空上下文。", s)
  cleared (some e, s) = (warning_sign ++ utf8 " 清空失败，请稍后重试。", s)

  switch_reply : Bytes → Option Bytes → Bytes
  switch_reply arg none = utf8 "✅ 已切换模型为 " ++ ticked arg ++ utf8 "。"
  switch_reply arg (some e) = warning_sign ++ utf8 " 模型切换失败，请稍后重试。"

  switched : Bytes → SaveResult store.State → Reply
  unfolding switch_reply
  switched arg r = (switch_reply arg r.error, r.state)

  switch_in : Bytes → GetResult → store.State → Reply
  unfolding switched
  switch_in arg (failed e) s = (warning_sign ++ utf8 " 模型切换失败，请稍后重试。", s)
  switch_in arg (found o) s =
      let sess = record (session_or (new_session desk ev) o) { provider = arg } in
      switched arg (store.save sess.key sess s)

  -- case strings.HasPrefix(cmd, "/model")
  switch_model : Bytes → store.State → Reply
  unfolding switch_in
  switch_model [] s = (model_list_text desk.names, s)
  switch_model (c ∷ arg) s =
      if not (desk.has_model (c ∷ arg))
      then (
        warning_sign
            ++ utf8 " 未知模型 "
            ++ ticked (c ∷ arg)
            ++ utf8 "。\n\n"
            ++ model_list_text desk.names,
        s,
      )
      else switch_in (c ∷ arg) (store.get (session_key ev) s) s

  whoami : Bytes
  whoami =
      utf8 "session_key: "
      ++ ticked (session_key ev)
      ++ utf8 "\nopen_id: "
      ++ ticked ev.sender_open_id
      ++ utf8 "\nchat_type: "
      ++ ticked ev.chat_type

  -- The switch on the command.
  command : Bytes → store.State → Reply
  unfolding cleared switch_model whoami
  command cmd s =
      if beq cmd (utf8 "/clear")
      then cleared (store.delete (session_key ev) s)
      else if beq cmd (utf8 "/help")
      then (help_text desk.up desk.registry desk.names, s)
      else if has_prefix cmd (utf8 "/model")
      then switch_model (trim_space (trim_prefix cmd (utf8 "/model"))) s
      else if beq cmd (utf8 "/tools")
      then (tools_list_text desk.up desk.registry, s)
      else if beq cmd (utf8 "/whoami")
      then (whoami, s)
      else (utf8 "未知命令 " ++ ticked cmd ++ utf8 "。输入 `/help` 查看可用命令。", s)

  -- dispatchCommand; `none` where the message is no command.
  pub dispatch_command : store.State → Option Bytes × store.State
  unfolding command
  dispatch_command s =
      let cmd = trim_space ev.text in
      if is_command cmd then (let (text, s') = command cmd s in (some text, s')) else (none, s)
