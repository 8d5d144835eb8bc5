-- ===== src/Tests/ConfigRuns.antt =====
-- A .env file of internal/config at concrete inputs: one file, and quotes that are taken off.
use ssh_bot.Base.{
  ℕ, ◌≡◌, ◌≢◌, refl, arith, beq, Bool, true, false, Bool-cases, inl, inr, ◌==◌, trim_space, Option,
  none, some, [], ◌∷◌, ◌++◌, List, if◌then◌else◌, Bytes, utf8, All, Assoc, lookup,
}
use ssh_bot.Config.Dotenv.Keeps.{load_dotenv_if_exists-keeps}
use ssh_bot.Config.Dotenv.Quoted.{escaped, IsPlain, IsUnquoting, read_as, parse_dotenv_value-quoted}
use ssh_bot.Config.Dotenv.{
  System, absent, opened, malformed, trailing_content, parse_dotenv_value, load_dotenv_if_exists,
}

abbrev lines : List Bytes
lines = utf8 "# keys" ∷ utf8 "export A = two" ∷ utf8 "B='x y' # z" ∷ []

abbrev quote_text : Bytes
quote_text = b'a' ∷ b'"' ∷ b'b' ∷ []

behind : ℕ → Option Bytes → Option Bytes
behind c none = none
behind c (some v) = some (c ∷ v)

-- What stands between double quotes, behind the first one: a backslash gives the byte behind it.
unescape : (behind_slash : Bool) → Bytes → Option Bytes
unfolding behind
unescape behind_slash [] = none
unescape true (c ∷ s) = behind c (unescape false s)
unescape false (c ∷ s) =
    let taken = unescape true s in
    let kept = behind c (unescape false s) in
    if c == b'\\'
    then taken
    else if c == b'"'
    then (elim s [ [] ↦ some [] | d ∷ t ↦ none ])
    else kept

unquote : Bytes → Option Bytes
unfolding unescape
unquote [] = none
unquote (c ∷ s) = if c == b'"' then unescape false s else none

unescape-escaped : (w : Bytes) → unescape false (escaped w ++ b'"' ∷ []) ≡ some w
unfolding unescape escaped
unescape-escaped [] = refl
unescape-escaped (c ∷ w) = elim (Bool-cases (c == b'\\')) [
  | inl a ↦ rw a (rw (unescape-escaped w))
  | inr a ↦ elim (Bool-cases (c == b'"')) [
    | inl b ↦ rw (a, b) (rw (unescape-escaped w))
    | inr b ↦ rw (a, b) (rw (a, b, unescape-escaped w))
  ]
]

abbrev one_file : System
one_file = record {
  file = λ path. if beq path (utf8 ".env") then opened lines none else absent;
  clean = λ path. path;
  dir = λ path. path;
  joined = λ parts. [];
  unquote = unquote;
  refuses = λ key v. none;
}

abbrev a_set : Assoc Bytes
a_set = (utf8 "A", utf8 "one") ∷ []

a_set_there : lookup (utf8 "A") a_set ≡ some (utf8 "one")
unfolding lookup beq utf8
a_set_there = refl

load_dotenv_if_exists-keeps_example :
    lookup (utf8 "A") (load_dotenv_if_exists one_file (utf8 ".env" ∷ []) a_set).1
    ≡ some (utf8 "one")
load_dotenv_if_exists-keeps_example =
    load_dotenv_if_exists-keeps one_file (utf8 ".env" ∷ []) a_set (utf8 "A") (utf8 "one")
      a_set_there

abbrev spaced : Bytes
spaced = b'x' ∷ b' ' ∷ b'y' ∷ []

spaced_unquoted : All (λ b. b ≢ b'\'') spaced
spaced_unquoted = (λ e. omega (arith, e), (λ e. omega (arith, e), (λ e. omega (arith, e), tt)))

one_file-IsUnquoting : IsUnquoting one_file
unfolding unquote
one_file-IsUnquoting = record { unescapes = λ w p. unescape-escaped w }

quote_text-IsPlain : IsPlain quote_text
quote_text-IsPlain =
    ((omega arith, omega arith), ((omega arith, omega arith), ((omega arith, omega arith), tt)))

parse_dotenv_value-quoted_example :
    (parse_dotenv_value one_file (b'\'' ∷ spaced ++ b'\'' ∷ utf8 " # z")
      ≡ read_as spaced (utf8 " # z"))
    × (parse_dotenv_value one_file (b'"' ∷ escaped quote_text ++ b'"' ∷ utf8 " # z")
        ≡ read_as quote_text (utf8 " # z"))
parse_dotenv_value-quoted_example =
    parse_dotenv_value-quoted one_file one_file-IsUnquoting spaced quote_text (utf8 " # z")
      spaced_unquoted quote_text-IsPlain

-- More text behind the closing quote is refused.
trailing_refused : read_as spaced (utf8 " z") ≡ malformed (trailing_content (utf8 "z"))
unfolding trim_space utf8
trailing_refused = refl
