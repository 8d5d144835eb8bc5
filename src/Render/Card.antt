-- ===== src/Render/Card.antt =====
-- `BuildCardJSON` of internal/render/state.go. The Markdown functions of internal/render/markdown.go
-- and markdown_ast.go, the JSON encoder and the text of a duration are parameters. The call of
-- itself is on fuel.
pub mod Trims
use ssh_bot.Base.{
  ℕ, zero, suc, ◌+◌, ◌*◌, Bool, true, false, not, ◌&&◌, ◌||◌, Option, none, some, List, [], ◌∷◌,
  ◌++◌, map, ltb, if◌then◌else◌, Bytes, utf8, length, take, join,
}
use ssh_bot.Render.Json.{Json, str, bool, arr, obj, items, fields, tagged, hr, lark_div, note}
use ssh_bot.Render.State.{
  Phase, idle, thinking, text, tool_executing, done, failed, is_idle, ToolEntry, State, truncate,
}

pub record StateSnapshot : Type 0 where
  pub phase : Phase
  pub thinking_text : Bytes
  pub thinking_done : Bool
  pub body : Bytes
  pub tools : List ToolEntry
  pub error_text : Bytes
  pub trace_id : Bytes
  pub model : Bytes

-- Snapshot: the entries are copied, so a later write to an entry does not show.
unfoldable pub snapshot : State → StateSnapshot
snapshot s = record {
  phase = s.phase;
  thinking_text = s.thinking_text;
  thinking_done = s.thinking_done;
  body = s.body;
  tools = s.tools;
  error_text = s.error_text;
  trace_id = s.trace_id;
  model = s.model;
}

-- What the card takes from elsewhere.
pub record Format : Type 0 where
  pub encode : Json → Option Bytes
  pub text_elements : Bytes → List Json
  pub markdown_div : Bytes → Json
  pub preview : Bytes → Bytes
  pub quote_lines : Bytes → Bytes
  pub inline_code : Bytes → Bytes
  pub bullet : Bytes
  pub emoji : Bytes → Bytes
  -- fmt.Sprintf("%.1fs", end - start)
  pub seconds : ℕ → ℕ → Bytes

abbrev pub max_card_json_bytes : ℕ
max_card_json_bytes = 25 * 1024

abbrev pub keep : ℕ
keep = 20000

abbrev pub is_failed : Phase → Bool
is_failed failed = true
is_failed idle = false
is_failed thinking = false
is_failed text = false
is_failed tool_executing = false
is_failed done = false

abbrev is_done : Phase → Bool
is_done done = true
is_done idle = false
is_done thinking = false
is_done text = false
is_done tool_executing = false
is_done failed = false

abbrev pub is_empty : Bytes → Bool
is_empty [] = true
is_empty (c ∷ s) = false

header_for_phase : Phase → Bytes
header_for_phase p = if is_failed p then utf8 "AI 助手（遇到问题）" else utf8 "AI 助手"

template_for_phase : Phase → Bytes
template_for_phase p = if is_failed p then utf8 "red" else utf8 "blue"

-- userFacingError
user_facing_error : Bytes → Bytes
user_facing_error raw = truncate raw 120

pub truncation_mark : Bytes
truncation_mark = utf8 "\n\n*[本卡片过长，已截断；完整内容通过线程回复继续]*"

-- trimTextForSize
pub trim_text_for_size : StateSnapshot → Option StateSnapshot
unfolding truncation_mark
trim_text_for_size s =
    if is_empty s.body
    then none
    else if ltb keep (length s.body)
    then some (record s { body = take keep s.body ++ truncation_mark })
    else none

module _ (fmt : Format) where
  -- Status
  status_at : Option ℕ → ToolEntry → Bytes
  status_at none t = utf8 "⏳"
  status_at (some end) t =
      if t.success
      then utf8 "✅ " ++ fmt.seconds t.started_at end
      else utf8 "❌ " ++ truncate t.error_msg 60

  pub status : ToolEntry → Bytes
  unfolding status_at
  status t = status_at t.ended_at t

  tool_line : ToolEntry → Json
  unfolding status
  tool_line t = fmt.markdown_div (
      fmt.bullet
      ++ fmt.inline_code (t.name ++ utf8 "(" ++ t.args_prev ++ utf8 ")")
      ++ utf8 " "
      ++ fmt.emoji (status t))

  error_elements : StateSnapshot → List Json
  error_elements s =
      lark_div (
        utf8 "❌ **"
        ++ user_facing_error s.error_text
        ++ utf8 "**\n\n如问题持续，请联系管理员。\n```\ntrace: "
        ++ s.trace_id
        ++ utf8 "\n```")
      ∷ []

  thinking_elements : StateSnapshot → List Json
  thinking_elements s =
      if not (is_empty s.thinking_text) && not s.thinking_done
      then lark_div
          (utf8 "💭 **思考中...**\n" ++ fmt.quote_lines (fmt.preview (truncate s.thinking_text 300)))
        ∷ hr
        ∷ []
      else if not (is_empty s.thinking_text) && s.thinking_done
      then note (utf8 "💭 思考完成") ∷ []
      else []

  body_elements : StateSnapshot → List Json
  body_elements s =
      if not (is_empty s.body)
      then fmt.text_elements s.body
      else if is_idle s.phase
      then lark_div (utf8 "💭 初始化中…") ∷ []
      else []

  tool_elements : List ToolEntry → List Json
  unfolding tool_line
  tool_elements [] = []
  tool_elements (t ∷ ts) = hr ∷ fmt.markdown_div (utf8 "🔧 **工具调用**") ∷ map tool_line (t ∷ ts)

  footer_parts : StateSnapshot → List Bytes
  footer_parts s =
      (if not (is_empty s.trace_id) then (utf8 "trace: " ++ s.trace_id) ∷ [] else [])
      ++ (if not (is_empty s.model) then (utf8 "model: " ++ s.model) ∷ [] else [])

  footer_elements : StateSnapshot → List Json
  unfolding footer_parts
  footer_elements s =
      if is_done s.phase && (not (is_empty s.trace_id) || not (is_empty s.model))
      then hr ∷ note (join (footer_parts s) (utf8 " · ")) ∷ []
      else []

  pub elements : StateSnapshot → List Json
  unfolding error_elements thinking_elements body_elements tool_elements footer_elements
  elements s =
      if is_failed s.phase
      then error_elements s
      else thinking_elements s ++ body_elements s ++ tool_elements s.tools ++ footer_elements s

  -- The card, as a value.
  pub card : StateSnapshot → Json
  unfolding elements header_for_phase template_for_phase
  card s = obj (
      fields (
        (
          utf8 "config",
          obj (
              fields
                ((utf8 "update_multi", bool true) ∷ (utf8 "wide_screen_mode", bool true) ∷ [])),
        )
        ∷ (
          utf8 "header",
          obj (
              fields (
                (utf8 "template", str (template_for_phase s.phase))
                ∷ (utf8 "title", tagged "plain_text" "content" (str (header_for_phase s.phase)))
                ∷ [])),
        )
        ∷ (utf8 "elements", arr (items (elements s)))
        ∷ []))

-- The bytes, the encoder's error, or a recursion deeper than the fuel.
pub data Built : Type 0 where
  built : Bytes → Built
  encode_failed : Built
  out_of_fuel : Built

-- The retry with the trimmed snapshot; `again` is the call of BuildCardJSON.
resend : (StateSnapshot → Built) → Bytes → Option StateSnapshot → Built
resend again raw none = built raw
resend again raw (some snap) = again snap

encoded : (StateSnapshot → Built) → StateSnapshot → Option Bytes → Built
unfolding resend
encoded again s none = encode_failed
encoded again s (some raw) =
    if ltb max_card_json_bytes (length raw)
    then resend again raw (trim_text_for_size s)
    else built raw

-- BuildCardJSON
pub build_card_json : Format → ℕ → StateSnapshot → Built
unfolding encoded
build_card_json fmt zero s = out_of_fuel
build_card_json fmt (suc fuel) s = encoded (build_card_json fmt fuel) s (fmt.encode (card fmt s))
