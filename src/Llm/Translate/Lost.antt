-- ===== src/Llm/Translate/Lost.antt =====
-- Arguments that arrive before their id, in `translateStream` of internal/llm/eino_adapter.go.
use ssh_bot.Base.{
  ℕ, ◌≡◌, refl, sym, ap, ◌∙◌, Option, none, some, List, [], ◌∷◌, ◌++◌, map, append-nil,
  append_assoc, Bytes, beq_iff,
}
use ssh_bot.Llm.Translate.{
  Chunk, eof, PartialTc, Loop, end_of, step_call, translate_from, translate_stream, start,
}
use ssh_bot.Llm.Types.{StreamEvent, tool_call_start, tool_call_args, message_end}

-- A delta with no index, so at index 0, in a chunk of its own.
abbrev pub delta_chunk : Bytes → Bytes → Bytes → Chunk
delta_chunk id name arguments = record {
  reasoning_content = [];
  content = [];
  tool_calls = record { index = none; id = id; name = name; arguments = arguments } ∷ [];
  response_meta = none;
}

abbrev pub arguments_chunk : Bytes → Option Chunk
arguments_chunk arguments = some (delta_chunk [] [] arguments)

abbrev pub joined : List Bytes → Bytes
joined [] = []
joined (x ∷ xs) = x ++ joined xs

-- The events for these arguments of a call, none for empty ones.
abbrev pub args_events : (id name : Bytes) → List Bytes → List StreamEvent
args_events id name [] = []
args_events id name ([] ∷ parts) = args_events id name parts
args_events id name ((c ∷ part) ∷ parts) =
    tool_call_args id name (c ∷ part) ∷ args_events id name parts

-- The loop with one call at index 0.
abbrev with_call : List Bytes → (id name seen : Bytes) → Loop
with_call seen_tool id name seen = record start {
  seen_tool = seen_tool;
  by_index = (0, record { id = id; name = name; args_seen = seen }) ∷ [];
}

module _ (arrange : List PartialTc → List PartialTc) where
  abbrev ends : (id name seen : Bytes) → List StreamEvent
  ends id name seen =
      map end_of (arrange (record { id = id; name = name; args_seen = seen } ∷ []))
      ++ message_end [] start.final_usage ∷ []

  early_steps :
      (early : List Bytes) (seen : Bytes) (rest : List (Option Chunk))
      → translate_from arrange (with_call [] [] [] seen) (map arguments_chunk early ++ rest) eof
        ≡ translate_from arrange (with_call [] [] [] (seen ++ joined early)) rest eof
  unfolding translate_from step_call
  early_steps [] seen rest =
      ap (λ x. translate_from arrange (with_call [] [] [] x) rest eof) (sym (append-nil seen))
  early_steps ([] ∷ early) seen rest =
      ap
        (λ x. translate_from arrange (with_call [] [] [] x) (map arguments_chunk early ++ rest) eof)
        (append-nil seen)
      ∙ early_steps early seen rest
  early_steps ((c ∷ x) ∷ early) seen rest =
      early_steps early (seen ++ c ∷ x) rest
      ∙ ap (λ y. translate_from arrange (with_call [] [] [] y) rest eof)
          (append_assoc seen (c ∷ x) (joined early))

  late_steps :
      (late : List Bytes) (id name seen : Bytes) (i n : ℕ)
      → translate_from arrange
          (with_call ((i ∷ id) ∷ []) (i ∷ id) (n ∷ name) seen)
          (map arguments_chunk late)
          eof
        ≡ args_events (i ∷ id) (n ∷ name) late ++ ends (i ∷ id) (n ∷ name) (seen ++ joined late)
  unfolding translate_from step_call
  late_steps [] id name seen i n = ap (ends (i ∷ id) (n ∷ name)) (sym (append-nil seen))
  late_steps ([] ∷ late) id name seen i n =
      rw ((beq_iff (i ∷ id) (i ∷ id)).1 refl, append-nil seen) (late_steps late id name seen i n)
  late_steps ((c ∷ x) ∷ late) id name seen i n = rw ((beq_iff (i ∷ id) (i ∷ id)).1 refl) (
      ap (λ evs. tool_call_args (i ∷ id) (n ∷ name) (c ∷ x) ∷ evs)
        (late_steps late id name (seen ++ c ∷ x) i n
          ∙ ap (λ y. args_events (i ∷ id) (n ∷ name) late ++ ends (i ∷ id) (n ∷ name) y)
              (append_assoc seen (c ∷ x) (joined late))))

  -- In a stream of one tool call whose deltas come one to a chunk and without an index, the arguments
  -- of the deltas before the one with the id and the name are never sent, however many there are: the
  -- events are the Start, the arguments from that delta on, the End and message_end. The end of the
  -- stream finds all the arguments in argsSeen, the early ones too.
  pub early_arguments_lost :
      (first : Bytes) (early : List Bytes) (id name : Bytes) (i n : ℕ) (own : Bytes)
      (late : List Bytes)
      → translate_stream arrange
          (map arguments_chunk (first ∷ early)
            ++ some (delta_chunk (i ∷ id) (n ∷ name) own) ∷ map arguments_chunk late)
          eof
        ≡ tool_call_start (i ∷ id) (n ∷ name) [] ∷ args_events (i ∷ id) (n ∷ name) (own ∷ late)
          ++ (map end_of (
                arrange (
                  record {
                    id = i ∷ id;
                    name = n ∷ name;
                    args_seen = joined (first ∷ early) ++ joined (own ∷ late);
                  }
                  ∷ []))
              ++ message_end [] start.final_usage ∷ [])
  unfolding translate_stream step_call
  early_arguments_lost first early id name i n own late =
      begun first ∙ early_steps early first _ ∙ named own
    where
      seen : Bytes
      seen = first ++ joined early

      begun :
          (x : Bytes)
          → translate_stream arrange
              (arguments_chunk x ∷ map arguments_chunk early
                ++ some (delta_chunk (i ∷ id) (n ∷ name) own) ∷ map arguments_chunk late)
              eof
            ≡ translate_from arrange
                (with_call [] [] [] x)
                (map arguments_chunk early
                  ++ some (delta_chunk (i ∷ id) (n ∷ name) own) ∷ map arguments_chunk late)
                eof
      begun [] = refl
      begun (c ∷ x) = refl

      named :
          (o : Bytes)
          → translate_from arrange
              (with_call [] [] [] seen)
              (some (delta_chunk (i ∷ id) (n ∷ name) o) ∷ map arguments_chunk late)
              eof
            ≡ tool_call_start (i ∷ id) (n ∷ name) [] ∷ args_events (i ∷ id) (n ∷ name) (o ∷ late)
              ++ ends (i ∷ id) (n ∷ name) (seen ++ joined (o ∷ late))
      named [] =
          ap (λ evs. tool_call_start (i ∷ id) (n ∷ name) [] ∷ evs)
            (ap
                (λ y.
                  translate_from arrange (with_call ((i ∷ id) ∷ []) (i ∷ id) (n ∷ name) y)
                    (map arguments_chunk late) eof)
                (append-nil seen)
              ∙ late_steps late id name seen i n)
      named (c ∷ o) =
          ap
            (λ evs.
              tool_call_start (i ∷ id) (n ∷ name) []
              ∷ tool_call_args (i ∷ id) (n ∷ name) (c ∷ o)
              ∷ evs)
            (late_steps late id name (seen ++ c ∷ o) i n
              ∙ ap (λ y. args_events (i ∷ id) (n ∷ name) late ++ ends (i ∷ id) (n ∷ name) y)
                  (append_assoc seen (c ∷ o) (joined late)))
