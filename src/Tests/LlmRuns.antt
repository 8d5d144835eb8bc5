-- ===== src/Tests/LlmRuns.antt =====
-- A stream of internal/llm/eino_adapter.go with text and one tool call.
use ssh_bot.Base.{◌≡◌, Option, none, some, List, [], ◌∷◌, ◌++◌, map, utf8}
use ssh_bot.Llm.Stream.{text_of, thinking_of}
use ssh_bot.Llm.Translate.Ends.{
  Terminated, contents, reasonings, translate_stream-Terminated, translate_stream-text,
}
use ssh_bot.Llm.Translate.Lost.{delta_chunk, arguments_chunk, args_events, early_arguments_lost}
use ssh_bot.Llm.Translate.Starts.{IsFresh, translate_stream-IsFresh}
use ssh_bot.Llm.Translate.{Chunk, eof, failed, PartialTc, translate_stream, end_of, start}
use ssh_bot.Llm.Types.{tool_call_start, message_end}

abbrev as_met : List PartialTc → List PartialTc
as_met ps = ps

abbrev text_then_call : List (Option Chunk)
text_then_call =
    some (record {
      reasoning_content = utf8 "hm";
      content = utf8 "noon";
      tool_calls = [];
      response_meta = none;
    })
    ∷ none
    ∷ some (delta_chunk (utf8 "c1") (utf8 "clock") (utf8 "{"))
    ∷ some (delta_chunk [] [] (utf8 "}"))
    ∷ []

translate_stream-Terminated_example :
    Terminated
      (translate_stream as_met text_then_call (failed (utf8 "reset")))
      (failed (utf8 "reset"))
translate_stream-Terminated_example =
    translate_stream-Terminated as_met text_then_call (failed (utf8 "reset"))

translate_stream-text_example :
    (text_of (translate_stream as_met text_then_call eof) ≡ contents text_then_call)
    × (thinking_of (translate_stream as_met text_then_call eof) ≡ reasonings text_then_call)
translate_stream-text_example = translate_stream-text as_met text_then_call eof

translate_stream-IsFresh_example : IsFresh [] (translate_stream as_met text_then_call eof)
translate_stream-IsFresh_example = translate_stream-IsFresh as_met text_then_call eof

early_arguments_lost_example :
    translate_stream as_met
      (map arguments_chunk ((1 ∷ []) ∷ [])
        ++ some (delta_chunk (2 ∷ []) (3 ∷ []) (4 ∷ [])) ∷ map arguments_chunk ((5 ∷ []) ∷ []))
      eof
    ≡ tool_call_start (2 ∷ []) (3 ∷ []) []
        ∷ args_events (2 ∷ []) (3 ∷ []) ((4 ∷ []) ∷ (5 ∷ []) ∷ [])
      ++ (map end_of
            (as_met (record { id = 2 ∷ []; name = 3 ∷ []; args_seen = 1 ∷ 4 ∷ 5 ∷ [] } ∷ []))
          ++ message_end [] start.final_usage ∷ [])
early_arguments_lost_example =
    early_arguments_lost as_met (1 ∷ []) [] [] [] 2 3 (4 ∷ []) ((5 ∷ []) ∷ [])
