-- ===== src/Config/Dotenv/Quoted.antt =====
-- How parseDotenvValue of internal/config/dotenv.go reads quoted values.
use ssh_bot.Base.{
  ℕ, suc, ◌≡◌, ◌≢◌, refl, ap, arith, false, Bool-cases, Option-cases, inl, inr, some, [], ◌∷◌, ◌++◌,
  ◌≤◌, ◌<◌, utf8, has_prefix, trim_space, if◌then◌else◌, ◌==◌, Bytes, All, length, take, drop,
  index_byte, take-append_self,
}
use ssh_bot.Config.Dotenv.{
  System, Parsed, parsed, malformed, trailing_content, validate_dotenv_tail, checked_tail,
  single_quoted, find_closing_double_quote, double_quoted, parse_dotenv_value,
}

-- The value where the rest of the line, less the white space around it, is empty or starts with a #,
-- else the error with that rest.
abbrev pub with_rest : Bytes → Bytes → Parsed
with_rest v [] = parsed v
with_rest v (c ∷ rest) = if c == b'#' then parsed v else malformed (trailing_content (c ∷ rest))

abbrev pub read_as : Bytes → Bytes → Parsed
read_as v tail = with_rest v (trim_space tail)

checked_tail-read_as :
    (v tail : Bytes) → checked_tail v (validate_dotenv_tail tail) ≡ read_as v tail
unfolding parse_dotenv_value validate_dotenv_tail has_prefix utf8
checked_tail-read_as v tail = by_rest (trim_space tail) refl
  where
    by_rest :
        (t : Bytes)
        → trim_space tail ≡ t
        → checked_tail v (validate_dotenv_tail tail) ≡ with_rest v t
    by_rest [] e = rw e
    by_rest (c ∷ t) e = elim (Bool-cases (c == b'#')) [ inl h ↦ rw e (rw h) | inr h ↦ rw e (rw h) ]

-- Backslashes before the quotes and backslashes of a text.
unfoldable pub escaped : Bytes → Bytes
escaped [] = []
escaped (c ∷ v) =
    let rest = escaped v in
    if c == b'\\' then b'\\' ∷ c ∷ rest else if c == b'"' then b'\\' ∷ c ∷ rest else c ∷ rest

-- strconv.Unquote takes the backslashes away again from a text of printable ASCII.
abbrev pub IsPlain : Bytes → Type 0
IsPlain w = All (λ b. (32 ≤ b) × (b < 127)) w

pub record IsUnquoting (sys : System) : Type 0 where
  pub unescapes : (w : Bytes) → IsPlain w → sys.unquote (b'"' ∷ escaped w ++ b'"' ∷ []) ≡ some w

take_past : (v tail : Bytes) (c : ℕ) → take (suc (length v)) (v ++ c ∷ tail) ≡ v ++ c ∷ []
take_past [] tail c = refl
take_past (b ∷ v) tail c = ap (λ s. b ∷ s) (take_past v tail c)

drop_past : (v tail : Bytes) (c : ℕ) → drop (suc (length v)) (v ++ c ∷ tail) ≡ tail
drop_past [] tail c = refl
drop_past (b ∷ v) tail c = drop_past v tail c

index-quote :
    (v tail : Bytes)
    → All (λ b. b ≢ b'\'') v
    → index_byte b'\'' (v ++ b'\'' ∷ tail) ≡ some (length v)
unfolding index_byte
index-quote [] tail h = elim (Option-cases (index_byte b'\'' tail)) [
  | inl e ↦ rw e
  | inr (i, e) ↦ rw e
]
index-quote (c ∷ v) tail h = rw (index-quote v tail h.1) (rw (other c h.0))
  where
    other : (c : ℕ) → c ≢ b'\'' → (c == b'\'') ≡ false
    other c ne = ground (arith, ne)

closing-escaped :
    (v tail : Bytes)
    → find_closing_double_quote false (escaped v ++ b'"' ∷ tail) ≡ some (length (escaped v))
unfolding find_closing_double_quote escaped
closing-escaped [] tail = refl
closing-escaped (c ∷ v) tail = elim (Bool-cases (c == b'\\')) [
  | inl a ↦ rw a (rw (closing-escaped v tail))
  | inr a ↦ elim (Bool-cases (c == b'"')) [
    | inl b ↦ rw (a, b) (rw (closing-escaped v tail))
    | inr b ↦ rw (a, b) (rw (a, b, closing-escaped v tail))
  ]
]

single_quoted_lem :
    (v tail : Bytes)
    → All (λ b. b ≢ b'\'') v
    → single_quoted (v ++ b'\'' ∷ tail) (index_byte b'\'' (v ++ b'\'' ∷ tail)) ≡ read_as v tail
unfolding single_quoted
single_quoted_lem v tail h =
    rw
      (
        index-quote v tail h,
        take-append_self (length v) v (b'\'' ∷ tail) refl,
        drop_past v tail b'\'',
      )
      (checked_tail-read_as v tail)

double_quoted_lem :
    (sys : System) (w tail : Bytes)
    → sys.unquote (b'"' ∷ escaped w ++ b'"' ∷ []) ≡ some w
    → double_quoted sys
        (escaped w ++ b'"' ∷ tail)
        (find_closing_double_quote false (escaped w ++ b'"' ∷ tail))
      ≡ read_as w tail
unfolding parse_dotenv_value
double_quoted_lem sys w tail u =
    rw (closing-escaped w tail, take_past (escaped w) tail b'"', drop_past (escaped w) tail b'"', u)
      (checked_tail-read_as w tail)

module _ (sys : System) where
  -- A value without a single quote is read back from single quotes, and a value of printable ASCII from
  -- double quotes with backslashes before its quotes and backslashes, over a strconv.Unquote that
  -- takes those away. In both cases the rest of the line behind the closing quote must be white space
  -- or a comment that starts with a #: with anything else the value is refused with that rest.
  pub parse_dotenv_value-quoted :
      IsUnquoting sys
      → (v w tail : Bytes) → All (λ b. b ≢ b'\'') v
      → IsPlain w
      → (parse_dotenv_value sys (b'\'' ∷ v ++ b'\'' ∷ tail) ≡ read_as v tail)
        × (parse_dotenv_value sys (b'"' ∷ escaped w ++ b'"' ∷ tail) ≡ read_as w tail)
  unfolding parse_dotenv_value
  parse_dotenv_value-quoted laws v w tail h p =
      (single_quoted_lem v tail h, double_quoted_lem sys w tail (laws.unescapes w p))
