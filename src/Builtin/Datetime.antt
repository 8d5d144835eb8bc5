-- ===== src/Builtin/Datetime.antt =====
-- internal/tool/builtin/datetime.go. The package time, encoding/json, strings.ToLower and the %q of
-- fmt are a parameter. A duration is a number of nanoseconds modulo 2^64, as int64 holds it.
pub mod Sums
use ssh_bot.Agent.Exec.{CallOutcome, returned, other_error}
use ssh_bot.Base.{
  ℕ, ◌+◌, ◌-◌, ◌*◌, ◌%◌, Bool, true, false, not, ◌&&◌, ◌||◌, Option, none, some, [], ◌∷◌, ◌++◌, leb,
  ◌==◌, if◌then◌else◌, Bytes, utf8, beq,
}

abbrev pub word : ℕ
word = 18446744073709551616

pub data DurationError : Type 0 where
  invalid_duration : DurationError
  unsupported_unit : ℕ → DurationError

pub data Duration : Type 0 where
  nanoseconds : ℕ → Duration
  not_parsed : DurationError → Duration

unfoldable pub is_digit : ℕ → Bool
is_digit c = leb b'0' c && leb c b'9'

-- The length of a unit, in nanoseconds, outside and inside the time part.
pub unit_of : Bool → ℕ → Option ℕ
unit_of in_time c =
    if not in_time && c == b'D'
    then some 86400000000000
    else if in_time && c == b'H'
    then some 3600000000000
    else if in_time && c == b'M'
    then some 60000000000
    else if in_time && c == b'S'
    then some 1000000000
    else none

-- The loop of parseISODuration behind the P: `read` is the number that its inner loop has read so far,
-- `none` at the head of the outer loop.
pub components : (in_time : Bool) (read : Option ℕ) (total : ℕ) → Bytes → Duration
unfolding is_digit unit_of
components in_time none total [] = nanoseconds total
components in_time (some n) total [] = not_parsed invalid_duration
components in_time none total (c ∷ s) =
    let time_part = components true none total s in
    let number = components in_time (some (c - b'0')) total s in
    if c == b'T' then time_part else if is_digit c then number else not_parsed invalid_duration
components in_time (some n) total (c ∷ s) =
    let number = components in_time (some ((n * 10 + (c - b'0')) % word)) total s in
    if is_digit c then number else elim (unit_of in_time c) [
      | none ↦ not_parsed (unsupported_unit c)
      | some unit ↦ components in_time none ((total + n * unit % word) % word) s
    ]

-- parseISODuration
unfoldable pub parse_iso_duration : Bytes → Duration
unfolding components
parse_iso_duration [] = not_parsed invalid_duration
parse_iso_duration (c ∷ []) = not_parsed invalid_duration
parse_iso_duration (c ∷ d ∷ s) =
    if c == b'P' then components false none 0 (d ∷ s) else not_parsed invalid_duration

-- The arguments of a call; json.Unmarshal gives "" for a missing one.
pub record Request : Type 0 where
  pub action : Bytes
  pub timezone : Bytes
  pub iso_input : Bytes
  pub delta : Bytes

pub record Clock : Type 1 where
  pub Location : Type 0
  pub Time : Type 0
  pub decode : Bytes → Option Request
  pub load_location : Bytes → Option Location
  pub now : Time
  -- time.Parse and Format with time.RFC3339, and Add of a duration
  pub parse : Bytes → Option Time
  pub format_in : Location → Time → Bytes
  pub add : ℕ → Time → Time
  pub to_lower : Bytes → Bytes
  pub quoted : Bytes → Bytes

abbrev is_empty : Bytes → Bool
is_empty [] = true
is_empty (c ∷ s) = false

abbrev blank_request : Request
blank_request = record { action = []; timezone = []; iso_input = []; delta = [] }

module _ (clock : Clock) where
  -- The texts of wrapped errors end where the library's begin.
  converted : clock.Location → Option clock.Time → CallOutcome
  converted loc none = other_error (utf8 "parse iso_input: ")
  converted loc (some t) = returned (clock.format_in loc t)

  moved : clock.Location → clock.Time → Duration → CallOutcome
  moved loc t (not_parsed e) = other_error (utf8 "parse delta: ")
  moved loc t (nanoseconds d) = returned (clock.format_in loc (clock.add d t))

  added : clock.Location → Bytes → Option clock.Time → CallOutcome
  unfolding moved parse_iso_duration
  added loc delta none = other_error (utf8 "parse iso_input: ")
  added loc delta (some t) = moved loc t (parse_iso_duration delta)

  answered : clock.Location → Request → CallOutcome
  unfolding converted added
  answered loc req =
      let action = clock.to_lower req.action in
      if beq action (utf8 "now") || is_empty action
      then returned (clock.format_in loc clock.now)
      else if beq action (utf8 "convert")
      then (if is_empty req.iso_input
          then other_error (utf8 "\"iso_input\" is required for action=\"convert\"")
          else converted loc (clock.parse req.iso_input))
      else if beq action (utf8 "add")
      then (if is_empty req.iso_input || is_empty req.delta
          then other_error (utf8 "\"iso_input\" and \"delta\" are required for action=\"add\"")
          else added loc req.delta (clock.parse req.iso_input))
      else other_error (utf8 "unknown action " ++ clock.quoted req.action)

  located : Request → Option clock.Location → CallOutcome
  unfolding answered
  located req none = other_error (utf8 "invalid timezone: ")
  located req (some loc) = answered loc req

  requested : Option Request → CallOutcome
  unfolding located
  requested none = other_error (utf8 "invalid args: ")
  requested (some req) =
      let zone = if is_empty req.timezone then utf8 "Asia/Shanghai" else req.timezone in
      located req (clock.load_location zone)

  -- Call
  pub call : Bytes → CallOutcome
  unfolding requested
  call [] = requested (some blank_request)
  call (c ∷ args) = requested (clock.decode (c ∷ args))
