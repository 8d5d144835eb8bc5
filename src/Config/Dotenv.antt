-- ===== src/Config/Dotenv.antt =====
-- internal/config/dotenv.go. The environment is an association list; strconv.Unquote, filepath.Clean,
-- the files and the refusals of os.Setenv are a parameter. A file is given as the lines that its
-- scanner yields, with the error that the scan ends with.
pub mod Keeps
pub mod Quoted
use ssh_bot.Base.{
  ℕ, zero, suc, ◌+◌, Bool, true, false, not, ◌&&◌, ◌||◌, Option, none, some, List, [], ◌∷◌, ◌++◌,
  if◌then◌else◌, ◌==◌, Bytes, utf8, beq, has_prefix, trim_prefix, trim_space, index_byte, take,
  drop, Assoc, lookup, insert,
}

-- What os.Stat and os.Open say of a path.
pub data File : Type 0 where
  absent : File
  stat_failed : Bytes → File
  directory : File
  open_failed : Bytes → File
  opened : (lines : List Bytes) (scan_error : Option Bytes) → File

pub record System : Type 0 where
  pub file : Bytes → File
  pub clean : Bytes → Bytes
  -- filepath.Dir and filepath.Join
  pub dir : Bytes → Bytes
  pub joined : List Bytes → Bytes
  -- strconv.Unquote
  pub unquote : Bytes → Option Bytes
  -- the error of os.Setenv at a key and a value
  pub refuses : Bytes → Bytes → Option Bytes

pub data ValueError : Type 0 where
  unterminated_single : ValueError
  unterminated_double : ValueError
  invalid_syntax : ValueError
  trailing_content : Bytes → ValueError

pub data DotenvError : Type 0 where
  stat_error : Bytes → DotenvError
  open_error : Bytes → DotenvError
  missing_equals : ℕ → DotenvError
  empty_key : ℕ → DotenvError
  invalid_key : ℕ → Bytes → DotenvError
  bad_value : ℕ → ValueError → DotenvError
  not_set : Bytes → Bytes → DotenvError
  scan_failed : Bytes → DotenvError

pub data Parsed : Type 0 where
  parsed : Bytes → Parsed
  malformed : ValueError → Parsed

abbrev pub is_empty : Bytes → Bool
is_empty [] = true
is_empty (c ∷ s) = false

-- validateDotenvTail; `none` is no error.
pub validate_dotenv_tail : Bytes → Option ValueError
validate_dotenv_tail tail =
    let t = trim_space tail in
    if is_empty t || has_prefix t (utf8 "#") then none else some (trailing_content t)

pub checked_tail : Bytes → Option ValueError → Parsed
checked_tail v none = parsed v
checked_tail v (some e) = malformed e

-- The single-quoted value, after its first quote.
single_quoted : Bytes → Option ℕ → Parsed
unfolding checked_tail
single_quoted rest none = malformed unterminated_single
single_quoted rest (some i) = checked_tail (take i rest) (validate_dotenv_tail (drop (suc i) rest))

shifted : Option ℕ → Option ℕ
shifted none = none
shifted (some i) = some (suc i)

-- findClosingDoubleQuote on the text after its first byte, as an index there; `escaped` is the loop
-- behind a backslash, which skips a byte.
pub find_closing_double_quote : (escaped : Bool) → Bytes → Option ℕ
unfolding shifted
find_closing_double_quote escaped [] = none
find_closing_double_quote true (c ∷ s) = shifted (find_closing_double_quote false s)
find_closing_double_quote false (c ∷ s) =
    let past = shifted (find_closing_double_quote true s) in
    let next = shifted (find_closing_double_quote false s) in
    if c == b'\\' then past else if c == b'"' then some 0 else next

unquoted : Bytes → Option Bytes → Parsed
unfolding checked_tail
unquoted tail none = malformed invalid_syntax
unquoted tail (some v) = checked_tail v (validate_dotenv_tail tail)

-- The place of " #" in a text.
index_comment : Bytes → Option ℕ
unfolding shifted
index_comment [] = none
index_comment (c ∷ s) =
    let rest = shifted (index_comment s) in
    if c == b' ' && has_prefix s (utf8 "#") then some 0 else rest

before_comment : Bytes → Option ℕ → Bytes
before_comment raw none = raw
before_comment raw (some i) = take i raw

contains_any_blank : Bytes → Bool
contains_any_blank [] = false
contains_any_blank (c ∷ s) = c == b' ' || c == b'\t' || contains_any_blank s

without_export : Bytes → Bytes
without_export line =
    if has_prefix line (utf8 "export ")
    then trim_space (trim_prefix line (utf8 "export "))
    else line

module _ (sys : System) where
  -- The double-quoted value, after its first quote.
  double_quoted : Bytes → Option ℕ → Parsed
  unfolding unquoted
  double_quoted rest none = malformed unterminated_double
  double_quoted rest (some i) =
      unquoted (drop (suc i) rest) (sys.unquote (b'"' ∷ take (suc i) rest))

  -- parseDotenvValue
  unfoldable pub parse_dotenv_value : Bytes → Parsed
  unfolding single_quoted double_quoted before_comment index_comment
  parse_dotenv_value [] = parsed []
  parse_dotenv_value (c ∷ rest) =
      if c == b'\''
      then single_quoted rest (index_byte b'\'' rest)
      else if c == b'"'
      then double_quoted rest (find_closing_double_quote false rest)
      else parsed (trim_space (before_comment (c ∷ rest) (index_comment (c ∷ rest))))

  stored : Bytes → Bytes → Assoc Bytes → Option Bytes → Option DotenvError × Assoc Bytes
  stored key v env (some e) = (some (not_set key e), env)
  stored key v env none = (none, insert key v env)

  set_value : ℕ → Bytes → Parsed → Assoc Bytes → Option DotenvError × Assoc Bytes
  unfolding stored
  set_value n key (malformed e) env = (some (bad_value n e), env)
  set_value n key (parsed v) env = stored key v env (sys.refuses key v)

  assign : ℕ → Bytes → Bytes → Option Bytes → Assoc Bytes → Option DotenvError × Assoc Bytes
  unfolding set_value parse_dotenv_value
  assign n key raw (some v) env = (none, env)
  assign n key raw none env = set_value n key (parse_dotenv_value (trim_space raw)) env

  with_key : ℕ → Bytes → Bytes → Assoc Bytes → Option DotenvError × Assoc Bytes
  unfolding assign contains_any_blank
  with_key n key raw env =
      if is_empty key
      then (some (empty_key n), env)
      else if contains_any_blank key
      then (some (invalid_key n key), env)
      else assign n key raw (lookup key env) env

  cut_line : ℕ → Bytes → Option ℕ → Assoc Bytes → Option DotenvError × Assoc Bytes
  unfolding with_key
  cut_line n line none env = (some (missing_equals n), env)
  cut_line n line (some i) env = with_key n (trim_space (take i line)) (drop (suc i) line) env

  -- The body of the loop of loadDotenvFile, at a line and its number.
  unfoldable pub load_line : ℕ → Bytes → Assoc Bytes → Option DotenvError × Assoc Bytes
  unfolding cut_line without_export
  load_line n text env =
      let line = trim_space text in
      if is_empty line || has_prefix line (utf8 "#")
      then (none, env)
      else (let assignment = without_export line in
          cut_line n assignment (index_byte b'=' assignment) env)

  unless_stopped :
      Option DotenvError × Assoc Bytes
      → (Assoc Bytes → Option DotenvError × Assoc Bytes)
      → Option DotenvError × Assoc Bytes
  unless_stopped (some e, env) more = (some e, env)
  unless_stopped (none, env) more = more env

  -- The loop, which returns at the first error.
  load_lines : ℕ → List Bytes → Option Bytes → Assoc Bytes → Option DotenvError × Assoc Bytes
  unfolding load_line unless_stopped
  load_lines n [] none env = (none, env)
  load_lines n [] (some e) env = (some (scan_failed e), env)
  load_lines n (text ∷ lines) scan_error env =
      unless_stopped (load_line n text env) (λ env'. load_lines (suc n) lines scan_error env')

  pub data Result : Type 0 where
    -- the path that was loaded, "" where none exists
    loaded : Bytes → Result
    not_loaded : DotenvError → Result

  contains : Bytes → List Bytes → Bool
  contains p [] = false
  contains p (q ∷ qs) = beq q p || contains p qs

  finished : Bytes → Option DotenvError × Assoc Bytes → Result × Assoc Bytes
  finished path (none, env) = (loaded path, env)
  finished path (some e, env) = (not_loaded e, env)

  -- What becomes of a path that was not seen before; `passed` goes on with the next one.
  with_file : Bytes → Assoc Bytes → Result × Assoc Bytes → File → Result × Assoc Bytes
  unfolding load_lines finished
  with_file path env passed absent = passed
  with_file path env passed (stat_failed e) = (not_loaded (stat_error e), env)
  with_file path env passed directory = passed
  with_file path env passed (open_failed e) = (not_loaded (open_error e), env)
  with_file path env passed (opened lines scan_error) =
      finished path (load_lines 1 lines scan_error env)

  -- LoadDotenvIfExists, with the cleaned paths seen so far
  load_from : List Bytes → List Bytes → Assoc Bytes → Result × Assoc Bytes
  unfolding with_file contains
  load_from seen [] env = (loaded [], env)
  load_from seen (path ∷ paths) env =
      let path' = sys.clean path in
      let skipped = load_from seen paths env in
      let passed = load_from (path' ∷ seen) paths env in
      if is_empty path
      then skipped
      else if contains path' seen
      then skipped
      else with_file path' env passed (sys.file path')

  -- LoadDotenvIfExists
  pub load_dotenv_if_exists : List Bytes → Assoc Bytes → Result × Assoc Bytes
  unfolding load_from
  load_dotenv_if_exists paths env = load_from [] paths env

  -- DotenvCandidatePaths
  pub dotenv_candidate_paths : Bytes → List Bytes
  dotenv_candidate_paths config_path =
      if is_empty config_path
      then utf8 ".env" ∷ []
      else (let config_dir = sys.dir config_path in
          utf8 ".env"
          ∷ sys.joined (config_dir ∷ utf8 ".env" ∷ [])
          ∷ sys.joined (config_dir ∷ utf8 ".." ∷ utf8 ".env" ∷ [])
          ∷ [])
