-- ===== src/Render/Markdown.antt =====
-- internal/render/markdown.go. The regular expressions, html.UnescapeString and the walk over the
-- syntax tree in markdown_ast.go are a parameter.
use ssh_bot.Base.{
  ℕ, zero, suc, ◌+◌, ◌≢◌, arith, Bool, true, false, not, ◌&&◌, ◌||◌, Option, none, some, List, [],
  ◌∷◌, ◌++◌, map, ◌==◌, ltb, if◌then◌else◌, Bytes, utf8, has_prefix, trim_space, join, split_lines,
  All,
}
use mathlib.Core.List.{reverse}

-- The steps that the standard library does.
pub record Patterns : Type 0 where
  -- sanitizeHTMLText: break tags to line feeds, other tags away, entities unescaped
  pub sanitize_html_text : Bytes → Bytes
  -- mdTableSplitRE, and the group of headingLineRE
  pub is_table_split : Bytes → Bool
  pub heading : Bytes → Option Bytes
  -- renderFeishuMarkdown, `none` on an error
  pub render_feishu_markdown : Bytes → Option Bytes

abbrev is_empty : Bytes → Bool
is_empty [] = true
is_empty (c ∷ s) = false

-- "\r\n" to "\n"
normalize_crlf : Bytes → Bytes
normalize_crlf [] = []
normalize_crlf (c ∷ []) = c ∷ []
normalize_crlf (c ∷ d ∷ s) =
    let pair = normalize_crlf s in
    let rest = normalize_crlf (d ∷ s) in if c == b'\r' && d == b'\n' then b'\n' ∷ pair else c ∷ rest

-- "\r" to "\n"
normalize_cr : Bytes → Bytes
normalize_cr s = map (λ c. if c == b'\r' then b'\n' else c) s

-- normalizeNewlines
pub normalize_newlines : Bytes → Bytes
unfolding normalize_crlf normalize_cr
normalize_newlines s = normalize_cr (normalize_crlf s)

quote_lines : Bytes → Bytes
quote_lines [] = []
quote_lines (c ∷ s) =
    let rest = quote_lines s in if c == b'\n' then b'\n' ∷ b'>' ∷ b' ' ∷ rest else c ∷ rest

-- quoteMarkdownLines
pub quote_markdown_lines : Bytes → Bytes
unfolding quote_lines
quote_markdown_lines [] = []
quote_markdown_lines (c ∷ s) = b'>' ∷ b' ' ∷ quote_lines (c ∷ s)

drop_blanks : Bytes → Bytes
drop_blanks [] = []
drop_blanks (c ∷ s) = let rest = drop_blanks s in if c == b' ' || c == b'\t' then rest else c ∷ s

-- strings.TrimRight(line, " \t")
trim_blanks : Bytes → Bytes
unfolding drop_blanks
trim_blanks line = reverse (drop_blanks (reverse line))

-- Three or more line feeds to two, behind `n` of them
collapse : ℕ → Bytes → Bytes
collapse n [] = []
collapse n (c ∷ s) =
    let more = collapse (n + 1) s in
    let rest = collapse 0 s in if c == b'\n' then (if ltb n 2 then c ∷ more else more) else c ∷ rest

-- cleanupRenderedMarkdown
pub cleanup_rendered_markdown : Bytes → Bytes
unfolding trim_blanks collapse
cleanup_rendered_markdown [] = []
cleanup_rendered_markdown (c ∷ s) =
    trim_space (collapse 0 (join (map trim_blanks (split_lines (c ∷ s))) (utf8 "\n")))

bold : Bytes → Bytes
bold text = if is_empty text then [] else utf8 "**" ++ text ++ utf8 "**"

module _ (patterns : Patterns) where
  -- A line outside a fence; a line that splits a table is dropped.
  plain_line : Bytes → List Bytes → List Bytes
  unfolding bold trim_blanks
  plain_line line out = if patterns.is_table_split line then out else elim (patterns.heading line) [
    | some text ↦ bold (trim_space text) ∷ out
    | none ↦ trim_blanks line ∷ out
  ]

  fallback_lines : (in_fence : Bool) → List Bytes → List Bytes
  unfolding plain_line
  fallback_lines in_fence [] = []
  fallback_lines in_fence (line ∷ lines) =
      let turned = fallback_lines (not in_fence) lines in
      let same = fallback_lines in_fence lines in
      if has_prefix (trim_space line) (utf8 "```")
      then line ∷ turned
      else if in_fence
      then line ∷ same
      else plain_line line same

  -- normalizeLarkFallback
  pub normalize_lark_fallback : Bytes → Bytes
  unfolding fallback_lines normalize_newlines cleanup_rendered_markdown
  normalize_lark_fallback input =
      let text = normalize_newlines input in
      if is_empty text
      then []
      else cleanup_rendered_markdown (
          join
            (fallback_lines false
              (split_lines (normalize_newlines (patterns.sanitize_html_text text))))
            (utf8 "\n"))

  -- NormalizeLarkPreview
  pub normalize_lark_preview : Bytes → Bytes
  normalize_lark_preview input = normalize_lark_fallback input

  rendered_or : Bytes → Option Bytes → Bytes
  unfolding normalize_lark_fallback
  rendered_or text none = normalize_lark_fallback text
  rendered_or text (some out) =
      if is_empty (trim_space out) then normalize_lark_fallback text else out

  -- NormalizeLarkMarkdown
  pub normalize_lark_markdown : Bytes → Bytes
  unfolding rendered_or normalize_newlines
  normalize_lark_markdown input =
      let text = normalize_newlines input in
      if is_empty (trim_space text)
      then []
      else rendered_or text (patterns.render_feishu_markdown text)

-- listBullet
pub list_bullet : ℕ → Bytes
list_bullet zero = utf8 "• "
list_bullet (suc zero) = utf8 "◦ "
list_bullet (suc (suc n)) = utf8 "▪ "

-- The corner brackets 「 and 」 to square ones
replace_corners : Bytes → Bytes
replace_corners [] = []
replace_corners (a ∷ []) = a ∷ []
replace_corners (a ∷ b ∷ []) = a ∷ b ∷ []
replace_corners (a ∷ b ∷ c ∷ s) =
    let cut = replace_corners s in
    let rest = replace_corners (b ∷ c ∷ s) in
    if a == 0xe3 && b == 0x80 && c == 0x8c
    then b'[' ∷ cut
    else if a == 0xe3 && b == 0x80 && c == 0x8d
    then b']' ∷ cut
    else a ∷ rest

-- formatInlineCode
pub format_inline_code : Bytes → Bytes
unfolding replace_corners
format_inline_code text =
    let s = trim_space text in
    if is_empty s then utf8 "「」" else utf8 "「" ++ replace_corners s ++ utf8 "」"

-- No carriage return is left.
pub normalize_newlines-All : (s : Bytes) → All (λ c. c ≢ b'\r') (normalize_newlines s)
unfolding normalize_newlines
normalize_newlines-All s = each (normalize_crlf s)
  where
    line_feed : (c : ℕ) → (if c == b'\r' then b'\n' else c) ≢ b'\r'
    line_feed c e = ground (arith, e)

    each : (s : Bytes) → All (λ c. c ≢ b'\r') (normalize_cr s)
    each [] = tt
    each (c ∷ s) = (line_feed c, each s)
