-- ===== src/Llm/Translate/Ends.antt =====
-- The end of what `translateStream` of internal/llm/eino_adapter.go sends, and the text in it.
use ssh_bot.Base.{
  ◌≡◌, refl, sym, ap, ◌∙◌, Option, none, some, List, [], ◌∷◌, ◌++◌, map, append_assoc,
  if◌then◌else◌, Bool, true, false, not, ◌&&◌, Bytes, All, All-append,
}
use ssh_bot.Llm.Stream.{IsBody, text_of, thinking_of}
use ssh_bot.Llm.Translate.{
  CallDelta, Chunk, Ending, eof, failed, PartialTc, Loop, is_empty, call_events, starts, fill,
  find_partial, index_of, step_call, step_calls, deltas, step_chunk, end_of, finish, translate_from,
  translate_stream, start,
}
use ssh_bot.Llm.Types.{
  StreamEvent, thinking_delta, text_delta, tool_call_start, tool_call_args, tool_call_end,
  message_end, error, Usage,
}

abbrev IsCall : StreamEvent → Type 0
IsCall (tool_call_start i n t) = Unit
IsCall (tool_call_args i n d) = Unit
IsCall (tool_call_end i n t) = Unit
IsCall (thinking_delta t) = ⊥
IsCall (text_delta t) = ⊥
IsCall (message_end r u) = ⊥
IsCall (error e) = ⊥

IsCall-IsBody : (evs : List StreamEvent) → All IsCall evs → All IsBody evs
IsCall-IsBody [] h = tt
IsCall-IsBody (tool_call_start i n t ∷ evs) h = (tt, IsCall-IsBody evs h.1)
IsCall-IsBody (tool_call_args i n t ∷ evs) h = (tt, IsCall-IsBody evs h.1)
IsCall-IsBody (tool_call_end i n t ∷ evs) h = (tt, IsCall-IsBody evs h.1)
IsCall-IsBody (thinking_delta t ∷ evs) h = absurd h.0
IsCall-IsBody (text_delta t ∷ evs) h = absurd h.0
IsCall-IsBody (message_end r u ∷ evs) h = absurd h.0
IsCall-IsBody (error e ∷ evs) h = absurd h.0

text_of-IsCall :
    (evs rest : List StreamEvent)
    → All IsCall evs
    → (text_of (evs ++ rest) ≡ text_of rest) × (thinking_of (evs ++ rest) ≡ thinking_of rest)
text_of-IsCall [] rest h = (refl, refl)
text_of-IsCall (tool_call_start i n t ∷ evs) rest h = text_of-IsCall evs rest h.1
text_of-IsCall (tool_call_args i n t ∷ evs) rest h = text_of-IsCall evs rest h.1
text_of-IsCall (tool_call_end i n t ∷ evs) rest h = text_of-IsCall evs rest h.1
text_of-IsCall (thinking_delta t ∷ evs) rest h = absurd h.0
text_of-IsCall (text_delta t ∷ evs) rest h = absurd h.0
text_of-IsCall (message_end r u ∷ evs) rest h = absurd h.0
text_of-IsCall (error e ∷ evs) rest h = absurd h.0

optional_IsCall :
    (b c : Bool) (x y : StreamEvent)
    → IsCall x
    → IsCall y
    → All IsCall ((if b then x ∷ [] else []) ++ (if c then y ∷ [] else []))
optional_IsCall true true x y hx hy = (hx, (hy, tt))
optional_IsCall true false x y hx hy = (hx, tt)
optional_IsCall false true x y hx hy = (hy, tt)
optional_IsCall false false x y hx hy = tt

call_events-IsCall :
    (seen : List Bytes) (cur : PartialTc) (tc : CallDelta) → All IsCall (call_events seen cur tc)
unfolding call_events
call_events-IsCall seen cur tc =
    optional_IsCall (starts seen cur) (not (is_empty tc.arguments) && not (is_empty cur.id))
      (tool_call_start cur.id cur.name []) (tool_call_args cur.id cur.name tc.arguments) tt tt

step_call-IsCall : (s : Loop) (tc : CallDelta) → All IsCall (step_call s tc).0
unfolding step_call
step_call-IsCall s tc =
    call_events-IsCall s.seen_tool (fill tc (find_partial (index_of tc.index) s.by_index)) tc

step_calls-IsCall : (s : Loop) (tcs : List CallDelta) → All IsCall (step_calls s tcs).0
unfolding step_calls
step_calls-IsCall s [] = tt
step_calls-IsCall s (tc ∷ tcs) =
    All-append IsCall (step_call s tc).0 (step_calls (step_call s tc).1 tcs).0
      (step_call-IsCall s tc) (step_calls-IsCall (step_call s tc).1 tcs)

-- How a stream ends: with message_end at the end of the input, else with its error.
abbrev pub EndsAs : Ending → StreamEvent → Type 0
EndsAs eof last = (r : Bytes) × (u : Usage) × (last ≡ message_end r u)
EndsAs (failed e) last = last ≡ error e

pub record Terminated (evs : List StreamEvent) (ending : Ending) : Type 0 where
  pub body : List StreamEvent
  pub last : StreamEvent
  pub splits : evs ≡ body ++ last ∷ []
  pub body_IsBody : All IsBody body
  pub ends : EndsAs ending last

ends_IsCall : (ps : List PartialTc) → All IsCall (map end_of ps)
ends_IsCall [] = tt
ends_IsCall (p ∷ ps) = (tt, ends_IsCall ps)

finish-Terminated :
    (arrange : List PartialTc → List PartialTc) (s : Loop) (ending : Ending)
    → Terminated (finish arrange s ending) ending
unfolding finish
finish-Terminated arrange s eof = record {
  body = map end_of (arrange (map (λ e. e.1) s.by_index));
  last = message_end s.final_reason s.final_usage;
  splits = refl;
  body_IsBody = IsCall-IsBody _ (ends_IsCall (arrange (map (λ e. e.1) s.by_index)));
  ends = (s.final_reason, s.final_usage, refl);
}
finish-Terminated arrange s (failed e) = record {
  body = [];
  last = error e;
  splits = refl;
  body_IsBody = tt;
  ends = refl;
}

Terminated-append :
    (xs ys : List StreamEvent) (ending : Ending)
    → All IsBody xs
    → Terminated ys ending
    → Terminated (xs ++ ys) ending
Terminated-append xs ys ending h t = record {
  body = xs ++ t.body;
  last = t.last;
  splits = ap (λ (l : List StreamEvent). xs ++ l) t.splits ∙ sym (append_assoc xs t.body _);
  body_IsBody = All-append IsBody xs t.body h t.body_IsBody;
  ends = t.ends;
}

deltas-IsBody :
    (t c : Bytes) (c' : Chunk) → c'.reasoning_content ≡ t → c'.content ≡ c → All IsBody (deltas c')
unfolding deltas
deltas-IsBody [] [] c' h k = rw (h, k) tt
deltas-IsBody [] (x ∷ c) c' h k = rw (h, k) (tt, tt)
deltas-IsBody (y ∷ t) [] c' h k = rw (h, k) (tt, tt)
deltas-IsBody (y ∷ t) (x ∷ c) c' h k = rw (h, k) (tt, (tt, tt))

step_chunk-IsBody : (s : Loop) (c : Option Chunk) → All IsBody (step_chunk s c).0
unfolding step_chunk
step_chunk-IsBody s none = tt
step_chunk-IsBody s (some c) =
    All-append IsBody (deltas c) (step_calls s c.tool_calls).0
      (deltas-IsBody c.reasoning_content c.content c refl refl)
      (IsCall-IsBody (step_calls s c.tool_calls).0 (step_calls-IsCall s c.tool_calls))

translate_from-Terminated :
    (arrange : List PartialTc → List PartialTc) (s : Loop) (cs : List (Option Chunk))
    (ending : Ending)
    → Terminated (translate_from arrange s cs ending) ending
unfolding translate_from
translate_from-Terminated arrange s [] ending = finish-Terminated arrange s ending
translate_from-Terminated arrange s (c ∷ cs) ending =
    Terminated-append (step_chunk s c).0 _ ending (step_chunk-IsBody s c)
      (translate_from-Terminated arrange (step_chunk s c).1 cs ending)

-- Whatever the reader delivers and in whatever order the map of open calls is walked, exactly one
-- event is a terminator, and it is the last: message_end after io.EOF, else the reader's error.
pub translate_stream-Terminated :
    (arrange : List PartialTc → List PartialTc) (cs : List (Option Chunk)) (ending : Ending)
    → Terminated (translate_stream arrange cs ending) ending
unfolding translate_stream
translate_stream-Terminated arrange cs ending = translate_from-Terminated arrange start cs ending

-- The text and the reasoning of the chunks, joined.
abbrev pub contents : List (Option Chunk) → Bytes
contents [] = []
contents (none ∷ cs) = contents cs
contents (some c ∷ cs) = c.content ++ contents cs

abbrev pub reasonings : List (Option Chunk) → Bytes
reasonings [] = []
reasonings (none ∷ cs) = reasonings cs
reasonings (some c ∷ cs) = c.reasoning_content ++ reasonings cs

finish_silent :
    (arrange : List PartialTc → List PartialTc) (s : Loop) (ending : Ending)
    → (text_of (finish arrange s ending) ≡ []) × (thinking_of (finish arrange s ending) ≡ [])
unfolding finish
finish_silent arrange s eof =
    let ps = arrange (map (λ e. e.1) s.by_index) in
    text_of-IsCall (map end_of ps) (message_end s.final_reason s.final_usage ∷ []) (ends_IsCall ps)
finish_silent arrange s (failed e) = (refl, refl)

deltas_thinking :
    (t c : Bytes) (rest : List StreamEvent)
    → (text_of (
          ((if is_empty t then [] else thinking_delta t ∷ [])
            ++ (if is_empty c then [] else text_delta c ∷ []))
          ++ rest)
        ≡ c ++ text_of rest)
      × (thinking_of (
            ((if is_empty t then [] else thinking_delta t ∷ [])
              ++ (if is_empty c then [] else text_delta c ∷ []))
            ++ rest)
          ≡ t ++ thinking_of rest)
deltas_thinking [] [] rest = (refl, refl)
deltas_thinking [] (x ∷ c) rest = (refl, refl)
deltas_thinking (y ∷ t) [] rest = (refl, refl)
deltas_thinking (y ∷ t) (x ∷ c) rest = (refl, refl)

step_chunk-text :
    (s : Loop) (c : Chunk) (rest : List StreamEvent)
    → (text_of ((step_chunk s (some c)).0 ++ rest) ≡ c.content ++ text_of rest)
      × (thinking_of ((step_chunk s (some c)).0 ++ rest) ≡ c.reasoning_content ++ thinking_of rest)
unfolding step_chunk
step_chunk-text s c rest =
    let calls = (step_calls s c.tool_calls).0 in
    let quiet = text_of-IsCall calls rest (step_calls-IsCall s c.tool_calls) in
    let own = deltas_thinking c.reasoning_content c.content (calls ++ rest) in
    (
      ap text_of (append_assoc (deltas c) calls rest)
          ∙ own.0
          ∙ ap (λ (l : Bytes). c.content ++ l) quiet.0,
      ap thinking_of (append_assoc (deltas c) calls rest)
          ∙ own.1
          ∙ ap (λ (l : Bytes). c.reasoning_content ++ l) quiet.1,
    )

translate_from-text :
    (arrange : List PartialTc → List PartialTc) (s : Loop) (cs : List (Option Chunk))
    (ending : Ending)
    → (text_of (translate_from arrange s cs ending) ≡ contents cs)
      × (thinking_of (translate_from arrange s cs ending) ≡ reasonings cs)
unfolding translate_from
translate_from-text arrange s [] ending = finish_silent arrange s ending
translate_from-text arrange s (none ∷ cs) ending =
    unfold step_chunk in translate_from-text arrange s cs ending
translate_from-text arrange s (some c ∷ cs) ending =
    let s' = (step_chunk s (some c)).1 in
    let now = step_chunk-text s c (translate_from arrange s' cs ending) in
    let later = translate_from-text arrange s' cs ending in
    (
      now.0 ∙ ap (λ (l : Bytes). c.content ++ l) later.0,
      now.1 ∙ ap (λ (l : Bytes). c.reasoning_content ++ l) later.1,
    )

-- No text and no reasoning is lost, doubled or moved: the deltas join to what the chunks hold.
pub translate_stream-text :
    (arrange : List PartialTc → List PartialTc) (cs : List (Option Chunk)) (ending : Ending)
    → (text_of (translate_stream arrange cs ending) ≡ contents cs)
      × (thinking_of (translate_stream arrange cs ending) ≡ reasonings cs)
unfolding translate_stream
translate_stream-text arrange cs ending = translate_from-text arrange start cs ending
