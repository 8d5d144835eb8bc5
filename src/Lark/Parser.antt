-- ===== src/Lark/Parser.antt =====
-- internal/lark/parser.go. An event's pointers are options; the JSON decoder of a text message's
-- content is a parameter.
pub mod Keys
use ssh_bot.Base.{
  ℕ, zero, suc, Bool, true, false, ◌&&◌, ◌||◌, Option, none, some, List, [], ◌∷◌, ◌++◌, ◌==◌, leb,
  if◌then◌else◌, Bytes, utf8, beq, has_prefix, length, drop, trim_space,
}

pub record MessageEvent : Type 0 where
  pub chat_id : Bytes
  pub chat_type : Bytes
  pub sender_open_id : Bytes
  pub message_id : Bytes
  pub text : Bytes
  pub mentioned_bot : Bool

-- What Parse reads of raw.Event.Message; a mention is its Id's open_id, `none` for any nil on the way.
pub record RawMessage : Type 0 where
  pub chat_id : Option Bytes
  pub chat_type : Option Bytes
  pub message_id : Option Bytes
  pub message_type : Option Bytes
  pub content : Option Bytes
  pub mentions : List (Option Bytes)

-- raw.Event with its Message and its Sender, whose id and open_id can be nil.
pub record RawEvent : Type 0 where
  pub message : Option RawMessage
  pub sender : Option (Option Bytes)

-- str
abbrev pub str : Option Bytes → Bytes
str none = []
str (some s) = s

is_digit : ℕ → Bool
is_digit c = leb b'0' c && leb c b'9'

-- The class \s: tab, newline, form feed, carriage return, space.
is_space : ℕ → Bool
is_space c = c == 9 || c == 10 || c == 12 || c == 13 || c == 32

drop_while : (ℕ → Bool) → Bytes → Bytes
drop_while p [] = []
drop_while p (c ∷ s) = let rest = drop_while p s in if p c then rest else c ∷ s

-- What is left behind a match of `\d+\s*`, if there is one.
after_digits : Bytes → Option Bytes
unfolding is_digit is_space drop_while
after_digits [] = none
after_digits (c ∷ s) =
    if is_digit c then some (drop_while is_space (drop_while is_digit s)) else none

-- What is left behind a match of `@_user_\d+\s*` at the start.
pub after_mention : Bytes → Option Bytes
unfolding after_digits
after_mention s = if has_prefix s (utf8 "@_user_") then after_digits (drop 7 s) else none

-- ReplaceAllString, from left to right, on fuel.
strip_from : ℕ → Bytes → Bytes
unfolding after_mention
strip_from zero s = s
strip_from (suc fuel) [] = []
strip_from (suc fuel) (c ∷ s) = elim (after_mention (c ∷ s)) [
  | none ↦ c ∷ strip_from fuel s
  | some rest ↦ strip_from fuel rest
]

-- stripMentions
pub strip_mentions : Bytes → Bytes
unfolding strip_from
strip_mentions s = strip_from (length s) s

abbrev mentions_bot : Bytes → List (Option Bytes) → Bool
mentions_bot bot [] = false
mentions_bot bot (none ∷ ms) = mentions_bot bot ms
mentions_bot bot (some id ∷ ms) = if beq id bot then true else mentions_bot bot ms

module _ (content_text : Bytes → Option Bytes) where
  -- extractText
  pub extract_text : Option Bytes → Option Bytes → Bytes
  extract_text none content = []
  extract_text (some t) none = []
  extract_text (some t) (some content) =
      if beq t (utf8 "text") then str (content_text content) else []

  parsed : Bytes → RawMessage → Option Bytes → MessageEvent
  unfolding extract_text strip_mentions
  parsed bot msg open_id = record {
    chat_id = str msg.chat_id;
    chat_type = str msg.chat_type;
    sender_open_id = str open_id;
    message_id = str msg.message_id;
    text = trim_space (strip_mentions (extract_text msg.message_type msg.content));
    mentioned_bot = elim bot [ [] ↦ false | c ∷ s ↦ mentions_bot (c ∷ s) msg.mentions ];
  }

  -- Parse; a nil event is `none` too.
  pub parse : Option RawEvent → Bytes → Option MessageEvent
  unfolding parsed
  parse none bot = none
  parse (some raw) bot = elim raw.message [
    | none ↦ none
    | some msg ↦ elim raw.sender [ none ↦ none | some open_id ↦ some (parsed bot msg open_id) ]
  ]

-- SessionKey
unfoldable pub session_key : MessageEvent → Bytes
session_key ev =
    if beq ev.chat_type (utf8 "p2p")
    then utf8 "p2p:" ++ ev.sender_open_id
    else utf8 "group:" ++ ev.chat_id ++ utf8 ":" ++ ev.sender_open_id

-- IsCommand
pub is_command : Bytes → Bool
is_command text = has_prefix text (utf8 "/")
