-- ===== src/Session.antt =====
-- internal/session/store.go: the session record and the caps on what is stored. Times are numbers
-- of ticks, and `none` is the zero time.
pub mod Itoa
pub mod Store
pub mod Trim
pub mod Memory
pub mod Redis
pub mod Lock
pub use Itoa.{itoa}
use ssh_bot.Base.{
  ℕ, ◌+◌, ◌-◌, ◌*◌, Option, List, ◌++◌, map, ltb, if◌then◌else◌, Bytes, utf8, length, take, drop,
}
use ssh_bot.Llm.Types.{Message}

pub record Session : Type 0 where
  pub key : Bytes
  pub user_open_id : Bytes
  pub chat_id : Bytes
  pub chat_type : Bytes
  pub provider : Bytes
  pub messages : List Message
  pub created_at : Option ℕ
  pub updated_at : Option ℕ
  pub trace_id : Bytes

abbrev pub max_messages : ℕ
max_messages = 40

abbrev pub max_message_content : ℕ
max_message_content = 20 * 1024

-- "\n[… truncated " + itoa(truncated) + " chars]"
pub marker : ℕ → Bytes
unfolding utf8
marker truncated = utf8 "\n[… truncated " ++ itoa truncated ++ utf8 " chars]"

-- The content that the first loop of TrimMessages leaves.
pub trim_content : Bytes → Bytes
trim_content content =
    if ltb max_message_content (length content)
    then take max_message_content content ++ marker (length content - max_message_content)
    else content

pub trim_message : Message → Message
trim_message m = record m { content = trim_content m.content }

-- TrimMessages
unfoldable pub trim_messages : List Message → List Message
unfolding trim_message
trim_messages msgs =
    let cut = map trim_message msgs in
    if ltb max_messages (length cut) then drop (length cut - max_messages) cut else cut
