-- ===== src/Tests/RenderRuns.antt =====
-- internal/render at concrete inputs: encoders that answer with the same bytes for every card, and an
-- updater that takes every body.
use ssh_bot.Base.{
  ℕ, ◌≤◌, ◌<◌, ◌≡◌, ◌≢◌, ◌⊎◌, refl, arith, true, false, Option, some, List, [], ◌∷◌, ◌++◌, map,
  Bytes, utf8, length, All,
}
use ssh_bot.Llm.Stream.{text_of}
use ssh_bot.Llm.Types.{StreamEvent, thinking_delta, text_delta, tool_call_start}
use ssh_bot.Render.Card.Trims.{
  trimmed, IsTooBig, Sends, build_card_json-diverges, build_card_json-Sends,
}
use ssh_bot.Render.Card.{StateSnapshot, Format, keep, out_of_fuel, build_card_json, snapshot}
use ssh_bot.Render.Feed.Final.{IsOpen, nil, tick_in, event_in, feed-closed}
use ssh_bot.Render.Feed.{Input, tick, event, closed, PatchResult, patched, feed, drained, new}
use ssh_bot.Render.Json.{Json}
use ssh_bot.Render.Split.{soft, chunk_size, concat, IsChunk, split_long_body, split_long_body_lem}
use ssh_bot.Render.State.Folds.{thinking_shown, apply_all-texts}
use ssh_bot.Tests.{repeat, length-repeat}
use ssh_bot.Render.State.{text, new_state, apply, apply_all}

abbrev events_in : List (ℕ × StreamEvent)
events_in =
    (1, thinking_delta (utf8 "hm"))
    ∷ (2, tool_call_start (utf8 "c1") (utf8 "clock") [])
    ∷ (3, text_delta (utf8 "noon"))
    ∷ []

apply_all-texts_example :
    ((apply_all events_in (new_state 0)).body ≡ text_of (map (λ e. e.1) events_in))
    × ((apply_all events_in (new_state 0)).thinking_text ≡ thinking_shown events_in)
apply_all-texts_example = apply_all-texts 0 events_in

split_long_body_lem_example :
    ((split_long_body (utf8 "noon")).0 ++ concat (split_long_body (utf8 "noon")).1 ≡ utf8 "noon")
    × (length (split_long_body (utf8 "noon")).0 ≤ soft)
    × All (IsChunk chunk_size) (split_long_body (utf8 "noon")).1
split_long_body_lem_example = split_long_body_lem (utf8 "noon")

abbrev id_bytes : Bytes
id_bytes = 99 ∷ []

abbrev two_events : List (ℕ × StreamEvent)
two_events = (1, tool_call_start id_bytes [] []) ∷ (2, text_delta (utf8 "noon")) ∷ []

late_thinking :
    (apply 3 (thinking_delta (utf8 "hm")) (apply_all two_events (new_state 0))).0 ≡ false
unfolding apply_all
late_thinking = refl

abbrev build_body : StateSnapshot → Option Bytes
build_body s = some s.body

abbrev takes_all : ℕ → Bytes → PatchResult
takes_all n body = patched

abbrev inputs : List Input
inputs = tick ∷ event 1 (text_delta (utf8 "noon")) ∷ tick ∷ []

abbrev fed : List (ℕ × StreamEvent)
fed = (1, text_delta (utf8 "noon")) ∷ []

inputs-IsOpen : IsOpen inputs fed
inputs-IsOpen = tick_in (event_in 1 (text_delta (utf8 "noon")) (tick_in nil))

built_body :
    build_body (snapshot (apply_all fed (new_state 0))) ≡ some (apply_all fed (new_state 0)).body
unfolding snapshot
built_body = refl

feed-closed_example :
    (sent : List Bytes) × ((feed build_body takes_all (inputs ++ closed ∷ []) (new (new_state 0))).0
      ≡ drained)
    × ((feed build_body takes_all (inputs ++ closed ∷ []) (new (new_state 0))).1.state
        ≡ apply_all fed (new_state 0))
    × ((feed build_body takes_all (inputs ++ closed ∷ []) (new (new_state 0))).1.patches
        ≡ sent ++ (apply_all fed (new_state 0)).body ∷ [])
    × (takes_all (length sent) (apply_all fed (new_state 0)).body ≢ patched
        ⊎ ((feed build_body takes_all (inputs ++ closed ∷ []) (new (new_state 0))).1.last_snap
            ≡ (apply_all fed (new_state 0)).body)
          × ((feed build_body takes_all (inputs ++ closed ∷ []) (new (new_state 0))).1.dirty
              ≡ false))
feed-closed_example =
    feed-closed build_body takes_all inputs fed (new (new_state 0))
      (apply_all fed (new_state 0)).body inputs-IsOpen built_body

abbrev answering : Bytes → Format
answering raw = record {
  encode = λ j. some raw;
  text_elements = λ s. [];
  markdown_div = λ s. Json.str s;
  preview = λ s. s;
  quote_lines = λ s. s;
  inline_code = λ s. s;
  bullet = utf8 "- ";
  emoji = λ s. s;
  seconds = λ a b. [];
}

-- Every card is encoded to more than the limit.
abbrev huge_format : Format
huge_format = answering (repeat 30000)

abbrev long_snapshot : StateSnapshot
long_snapshot = record {
  phase = text;
  thinking_text = [];
  thinking_done = true;
  body = repeat 21000;
  tools = [];
  error_text = [];
  trace_id = [];
  model = [];
}

huge_card : (s : StateSnapshot) → IsTooBig huge_format s
huge_card s = (repeat 30000, refl, omega (arith, length-repeat 30000))

long_enough : keep < length long_snapshot.body
long_enough = omega (arith, length-repeat 21000)

build_card_json-diverges_example : build_card_json huge_format 3 long_snapshot ≡ out_of_fuel
build_card_json-diverges_example =
    build_card_json-diverges huge_format long_snapshot long_enough (huge_card long_snapshot)
      (huge_card (trimmed long_snapshot)) 3

abbrev small_format : Format
small_format = answering (1 ∷ 2 ∷ [])

small_card : (s : StateSnapshot) → ¬ IsTooBig small_format s
small_card s (raw, e, big) = no (sized e)
  where
    sized : some (1 ∷ 2 ∷ []) ≡ some raw → length raw ≡ 2
    sized e = cc

    no : length raw ≡ 2 → ⊥
    no n = omega (arith, big)

build_card_json-Sends_example :
    Sends small_format long_snapshot (build_card_json small_format 2 long_snapshot)
    ⊎ Sends small_format (trimmed long_snapshot) (build_card_json small_format 2 long_snapshot)
build_card_json-Sends_example =
    build_card_json-Sends small_format long_snapshot (λ long. small_card (trimmed long_snapshot)) 0
