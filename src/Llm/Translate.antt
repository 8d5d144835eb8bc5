-- ===== src/Llm/Translate.antt =====
-- `translateStream` of internal/llm/eino_adapter.go. A chunk of eino's schema.Message is read for
-- the fields named here; the reader delivers chunks, nil among them, and then io.EOF or an error.
-- What is sent on the channel is the list of events, in order.
pub mod Ends
pub mod Starts
pub mod Lost
use ssh_bot.Base.{
  ℕ, Bool, true, false, not, ◌&&◌, Option, none, some, List, [], ◌∷◌, ◌++◌, map, ◌==◌,
  if◌then◌else◌, Bytes, beq,
}
use ssh_bot.Llm.Types.{
  Usage, StreamEvent, thinking_delta, text_delta, tool_call_start, tool_call_args, tool_call_end,
  message_end, error,
}

-- schema.ToolCall of a chunk
pub record CallDelta : Type 0 where
  pub index : Option ℕ
  pub id : Bytes
  pub name : Bytes
  pub arguments : Bytes

pub record Meta : Type 0 where
  pub usage : Option Usage
  pub finish_reason : Bytes

pub record Chunk : Type 0 where
  pub reasoning_content : Bytes
  pub content : Bytes
  pub tool_calls : List CallDelta
  pub response_meta : Option Meta

-- How the reader ends.
pub data Ending : Type 0 where
  eof : Ending
  failed : Bytes → Ending

pub record PartialTc : Type 0 where
  pub id : Bytes
  pub name : Bytes
  pub args_seen : Bytes

-- The variables of the loop.
pub record Loop : Type 0 where
  pub seen_tool : List Bytes
  pub by_index : List (ℕ × PartialTc)
  pub final_usage : Usage
  pub final_reason : Bytes

abbrev pub is_empty : Bytes → Bool
is_empty [] = true
is_empty (c ∷ s) = false

pub contains : List Bytes → Bytes → Bool
contains [] id = false
contains (x ∷ xs) id = if beq x id then true else contains xs id

-- byIndex[idx], or a new partialTC
find_partial : ℕ → List (ℕ × PartialTc) → PartialTc
find_partial idx [] = record { id = []; name = []; args_seen = [] }
find_partial idx ((i, p) ∷ m) = if i == idx then p else find_partial idx m

put_partial : ℕ → PartialTc → List (ℕ × PartialTc) → List (ℕ × PartialTc)
put_partial idx p [] = (idx, p) ∷ []
put_partial idx p ((i, q) ∷ m) = if i == idx then (idx, p) ∷ m else (i, q) ∷ put_partial idx p m

abbrev index_of : Option ℕ → ℕ
index_of none = 0
index_of (some i) = i

-- cur after its ID and name have been filled in, once each
pub fill : CallDelta → PartialTc → PartialTc
fill tc cur = record {
  id = if not (is_empty tc.id) && is_empty cur.id then tc.id else cur.id;
  name = if not (is_empty tc.name) && is_empty cur.name then tc.name else cur.name;
  args_seen = cur.args_seen;
}

-- if cur.id != "" && cur.name != "" && !seenTool[cur.id]
starts : List Bytes → PartialTc → Bool
starts seen cur = not (is_empty cur.id) && not (is_empty cur.name) && not (contains seen cur.id)

-- The events of one tool-call delta at `cur`, which has been filled in.
call_events : List Bytes → PartialTc → CallDelta → List StreamEvent
unfolding starts contains
call_events seen cur tc =
    (if starts seen cur then tool_call_start cur.id cur.name [] ∷ [] else [])
    ++ (if not (is_empty tc.arguments) && not (is_empty cur.id)
        then tool_call_args cur.id cur.name tc.arguments ∷ []
        else [])

-- The body of `for _, tc := range chunk.ToolCalls`.
step_call : Loop → CallDelta → List StreamEvent × Loop
unfolding fill starts call_events find_partial put_partial
step_call s tc =
    let idx = index_of tc.index in
    let cur = fill tc (find_partial idx s.by_index) in
    (
      call_events s.seen_tool cur tc,
      record s {
        seen_tool = if starts s.seen_tool cur then cur.id ∷ s.seen_tool else s.seen_tool;
        by_index =
            put_partial idx (record cur { args_seen = cur.args_seen ++ tc.arguments }) s.by_index;
      },
    )

step_calls : Loop → List CallDelta → List StreamEvent × Loop
step_calls s [] = ([], s)
step_calls s (tc ∷ tcs) =
    let (evs, s') = step_call s tc in let (more, s'') = step_calls s' tcs in (evs ++ more, s'')

read_meta : Loop → Option Meta → Loop
read_meta s none = s
read_meta s (some meta) = record s {
  final_usage = elim meta.usage [ none ↦ s.final_usage | some u ↦ u ];
  final_reason = if is_empty meta.finish_reason then s.final_reason else meta.finish_reason;
}

-- The two deltas that a chunk sends before its tool calls.
pub deltas : Chunk → List StreamEvent
deltas chunk =
    (if is_empty chunk.reasoning_content then [] else thinking_delta chunk.reasoning_content ∷ [])
    ++ (if is_empty chunk.content then [] else text_delta chunk.content ∷ [])

-- One round of the loop; a nil chunk is passed over.
pub step_chunk : Loop → Option Chunk → List StreamEvent × Loop
unfolding step_calls deltas read_meta
step_chunk s none = ([], s)
step_chunk s (some chunk) =
    let (evs, s') = step_calls s chunk.tool_calls in
    (deltas chunk ++ evs, read_meta s' chunk.response_meta)

abbrev pub end_of : PartialTc → StreamEvent
end_of p = tool_call_end p.id p.name []

-- What is sent at the end: `arrange` is the order in which Go walks the map.
finish : (List PartialTc → List PartialTc) → Loop → Ending → List StreamEvent
finish arrange s eof =
    map end_of (arrange (map (λ e. e.1) s.by_index))
    ++ message_end s.final_reason s.final_usage ∷ []
finish arrange s (failed e) = error e ∷ []

pub translate_from :
    (List PartialTc → List PartialTc) → Loop → List (Option Chunk) → Ending → List StreamEvent
unfolding step_chunk finish
translate_from arrange s [] ending = finish arrange s ending
translate_from arrange s (c ∷ cs) ending =
    let (evs, s') = step_chunk s c in evs ++ translate_from arrange s' cs ending

abbrev pub start : Loop
start = record {
  seen_tool = [];
  by_index = [];
  final_usage = record { input_tokens = 0; output_tokens = 0 };
  final_reason = [];
}

pub translate_stream :
    (List PartialTc → List PartialTc) → List (Option Chunk) → Ending → List StreamEvent
unfolding translate_from
translate_stream arrange cs ending = translate_from arrange start cs ending
