-- ===== src/Llm/Translate/Starts.antt =====
-- Tool calls in `translateStream` of internal/llm/eino_adapter.go.
use ssh_bot.Base.{
  ◌≡◌, refl, sym, ap, ◌∙◌, Option, none, some, List, [], ◌∷◌, ◌++◌, map, if◌then◌else◌, Bool, true,
  false, not, ◌&&◌, Bytes, subst,
}
use ssh_bot.Llm.Translate.{
  CallDelta, Chunk, Meta, Ending, eof, failed, PartialTc, Loop, is_empty, contains, step_call, fill,
  find_partial, index_of, step_calls, deltas, step_chunk, read_meta, end_of, finish, translate_from,
  translate_stream, start,
}
use ssh_bot.Llm.Types.{
  StreamEvent, thinking_delta, text_delta, tool_call_start, tool_call_args, tool_call_end,
  message_end, error,
}

-- The ids that have had a Start after these events.
abbrev seen_after : List Bytes → List StreamEvent → List Bytes
seen_after seen [] = seen
seen_after seen (tool_call_start i n t ∷ evs) = seen_after (i ∷ seen) evs
seen_after seen (tool_call_args i n t ∷ evs) = seen_after seen evs
seen_after seen (tool_call_end i n t ∷ evs) = seen_after seen evs
seen_after seen (thinking_delta t ∷ evs) = seen_after seen evs
seen_after seen (text_delta t ∷ evs) = seen_after seen evs
seen_after seen (message_end r u ∷ evs) = seen_after seen evs
seen_after seen (error e ∷ evs) = seen_after seen evs

-- Every Start is for an id that has had none, and both its id and its name are not empty.
abbrev pub IsFresh : List Bytes → List StreamEvent → Type 0
IsFresh seen [] = Unit
IsFresh seen (tool_call_start i n t ∷ evs) =
    (contains seen i ≡ false) × (is_empty i ≡ false) × (is_empty n ≡ false) × IsFresh (i ∷ seen) evs
IsFresh seen (tool_call_args i n t ∷ evs) = (is_empty i ≡ false) × IsFresh seen evs
IsFresh seen (tool_call_end i n t ∷ evs) = IsFresh seen evs
IsFresh seen (thinking_delta t ∷ evs) = IsFresh seen evs
IsFresh seen (text_delta t ∷ evs) = IsFresh seen evs
IsFresh seen (message_end r u ∷ evs) = IsFresh seen evs
IsFresh seen (error e ∷ evs) = IsFresh seen evs

IsFresh-append :
    (seen : List Bytes) (xs ys : List StreamEvent)
    → IsFresh seen xs
    → IsFresh (seen_after seen xs) ys
    → IsFresh seen (xs ++ ys)
IsFresh-append seen [] ys h k = k
IsFresh-append seen (tool_call_start i n t ∷ xs) ys h k =
    (h.0, h.1, h.2, IsFresh-append (i ∷ seen) xs ys h.3 k)
IsFresh-append seen (tool_call_args i n t ∷ xs) ys h k = (h.0, IsFresh-append seen xs ys h.1 k)
IsFresh-append seen (tool_call_end i n t ∷ xs) ys h k = IsFresh-append seen xs ys h k
IsFresh-append seen (thinking_delta t ∷ xs) ys h k = IsFresh-append seen xs ys h k
IsFresh-append seen (text_delta t ∷ xs) ys h k = IsFresh-append seen xs ys h k
IsFresh-append seen (message_end r u ∷ xs) ys h k = IsFresh-append seen xs ys h k
IsFresh-append seen (error e ∷ xs) ys h k = IsFresh-append seen xs ys h k

seen_after-append :
    (seen : List Bytes) (xs ys : List StreamEvent)
    → seen_after seen (xs ++ ys) ≡ seen_after (seen_after seen xs) ys
seen_after-append seen [] ys = refl
seen_after-append seen (tool_call_start i n t ∷ xs) ys = seen_after-append (i ∷ seen) xs ys
seen_after-append seen (tool_call_args i n t ∷ xs) ys = seen_after-append seen xs ys
seen_after-append seen (tool_call_end i n t ∷ xs) ys = seen_after-append seen xs ys
seen_after-append seen (thinking_delta t ∷ xs) ys = seen_after-append seen xs ys
seen_after-append seen (text_delta t ∷ xs) ys = seen_after-append seen xs ys
seen_after-append seen (message_end r u ∷ xs) ys = seen_after-append seen xs ys
seen_after-append seen (error e ∷ xs) ys = seen_after-append seen xs ys

IsFresh-by_tests :
    (seen : List Bytes) (i n x : Bytes) (a b c d : Bool)
    → is_empty i ≡ a
    → is_empty n ≡ b
    → contains seen i ≡ c
    → IsFresh seen (
        (if not a && not b && not c then tool_call_start i n [] ∷ [] else [])
        ++ (if not d && not a then tool_call_args i n x ∷ [] else []))
      × ((if not a && not b && not c then i ∷ seen else seen)
          ≡ seen_after seen (
              (if not a && not b && not c then tool_call_start i n [] ∷ [] else [])
              ++ (if not d && not a then tool_call_args i n x ∷ [] else [])))
IsFresh-by_tests seen i n x true b c true h k l = (tt, refl)
IsFresh-by_tests seen i n x true b c false h k l = (tt, refl)
IsFresh-by_tests seen i n x false true c true h k l = (tt, refl)
IsFresh-by_tests seen i n x false true c false h k l = ((h, tt), refl)
IsFresh-by_tests seen i n x false false true true h k l = (tt, refl)
IsFresh-by_tests seen i n x false false true false h k l = ((h, tt), refl)
IsFresh-by_tests seen i n x false false false true h k l = ((l, h, k, tt), refl)
IsFresh-by_tests seen i n x false false false false h k l = ((l, h, k, (h, tt)), refl)

-- The events of some step are fresh, and leave the seen ids as the step does.
abbrev Tracks : List Bytes → List StreamEvent → List Bytes → Type 0
Tracks seen evs seen' = IsFresh seen evs × (seen' ≡ seen_after seen evs)

Tracks-append :
    (seen : List Bytes) (xs : List StreamEvent) (mid : List Bytes) (ys : List StreamEvent)
    (seen' : List Bytes)
    → Tracks seen xs mid
    → Tracks mid ys seen'
    → Tracks seen (xs ++ ys) seen'
Tracks-append seen xs mid ys seen' h k = (
  IsFresh-append seen xs ys h.0 (subst (λ s. IsFresh s ys) h.1 k.0),
  k.1 ∙ ap (λ s. seen_after s ys) h.1 ∙ sym (seen_after-append seen xs ys),
)

step_call-Tracks :
    (s : Loop) (tc : CallDelta) → Tracks s.seen_tool (step_call s tc).0 (step_call s tc).1.seen_tool
unfolding step_call
step_call-Tracks s tc =
    let cur = fill tc (find_partial (index_of tc.index) s.by_index) in
    IsFresh-by_tests s.seen_tool cur.id cur.name tc.arguments (is_empty cur.id) (is_empty cur.name)
      (contains s.seen_tool cur.id) (is_empty tc.arguments) refl refl refl

step_calls-Tracks :
    (s : Loop) (tcs : List CallDelta)
    → Tracks s.seen_tool (step_calls s tcs).0 (step_calls s tcs).1.seen_tool
unfolding step_calls
step_calls-Tracks s [] = (tt, refl)
step_calls-Tracks s (tc ∷ tcs) =
    let s' = (step_call s tc).1 in
    Tracks-append s.seen_tool (step_call s tc).0 s'.seen_tool (step_calls s' tcs).0
      (step_calls s' tcs).1.seen_tool (step_call-Tracks s tc) (step_calls-Tracks s' tcs)

deltas-Tracks :
    (seen : List Bytes) (t c : Bytes) (chunk : Chunk)
    → chunk.reasoning_content ≡ t
    → chunk.content ≡ c
    → Tracks seen (deltas chunk) seen
unfolding deltas
deltas-Tracks seen [] [] chunk h k = rw (h, k) (tt, refl)
deltas-Tracks seen [] (x ∷ c) chunk h k = rw (h, k) (tt, refl)
deltas-Tracks seen (y ∷ t) [] chunk h k = rw (h, k) (tt, refl)
deltas-Tracks seen (y ∷ t) (x ∷ c) chunk h k = rw (h, k) (tt, refl)

seen_tool-read_meta : (s : Loop) (m : Option Meta) → (read_meta s m).seen_tool ≡ s.seen_tool
unfolding read_meta
seen_tool-read_meta s none = refl
seen_tool-read_meta s (some m) = refl

step_chunk-Tracks :
    (s : Loop) (c : Option Chunk)
    → Tracks s.seen_tool (step_chunk s c).0 (step_chunk s c).1.seen_tool
unfolding step_chunk
step_chunk-Tracks s none = (tt, refl)
step_chunk-Tracks s (some c) =
    let r = step_calls s c.tool_calls in
    let t =
      Tracks-append s.seen_tool (deltas c) s.seen_tool r.0 r.1.seen_tool
        (deltas-Tracks s.seen_tool c.reasoning_content c.content c refl refl)
        (step_calls-Tracks s c.tool_calls) in
    (t.0, seen_tool-read_meta r.1 c.response_meta ∙ t.1)

ends-IsFresh :
    (seen : List Bytes) (ps : List PartialTc) (rest : List StreamEvent)
    → IsFresh seen rest
    → IsFresh seen (map end_of ps ++ rest)
ends-IsFresh seen [] rest h = h
ends-IsFresh seen (p ∷ ps) rest h = ends-IsFresh seen ps rest h

finish-IsFresh :
    (arrange : List PartialTc → List PartialTc) (s : Loop) (ending : Ending)
    → IsFresh s.seen_tool (finish arrange s ending)
unfolding finish
finish-IsFresh arrange s eof =
    ends-IsFresh s.seen_tool (arrange (map (λ e. e.1) s.by_index))
      (message_end s.final_reason s.final_usage ∷ []) tt
finish-IsFresh arrange s (failed e) = tt

translate_from-IsFresh :
    (arrange : List PartialTc → List PartialTc) (s : Loop) (cs : List (Option Chunk))
    (ending : Ending)
    → IsFresh s.seen_tool (translate_from arrange s cs ending)
unfolding translate_from
translate_from-IsFresh arrange s [] ending = finish-IsFresh arrange s ending
translate_from-IsFresh arrange s (c ∷ cs) ending =
    let t = step_chunk-Tracks s c in
    let s' = (step_chunk s c).1 in
    IsFresh-append s.seen_tool (step_chunk s c).0 (translate_from arrange s' cs ending) t.0 (
      subst (λ seen. IsFresh seen (translate_from arrange s' cs ending)) t.1
        (translate_from-IsFresh arrange s' cs ending))

-- Whatever the chunks hold, every Start that is sent has an id and a name, no id gets a second
-- Start, and arguments are sent only under an id.
pub translate_stream-IsFresh :
    (arrange : List PartialTc → List PartialTc) (cs : List (Option Chunk)) (ending : Ending)
    → IsFresh [] (translate_stream arrange cs ending)
unfolding translate_stream
translate_stream-IsFresh arrange cs ending = translate_from-IsFresh arrange start cs ending
