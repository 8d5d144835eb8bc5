-- ===== src/Render/State/Entries.antt =====
-- The tool entries of internal/render/state.go: the map by id and the list agree, and what Apply
-- reports.
use ssh_bot.Base.{
  ℕ, zero, suc, ◌≡◌, refl, sym, ◌∙◌, ◌⊎◌, inl, inr, true, false, Option, none, some, List, [], ◌∷◌,
  arith, ◌==◌, if◌then◌else◌, Bool-cases, Bytes, length, lookup, lookup-insert, beq, beq_iff,
  get_elem?, get_elem?-append, get_elem?-length,
}
use ssh_bot.Llm.Types.{
  StreamEvent, thinking_delta, text_delta, tool_call_start, tool_call_args, tool_call_end,
  message_end, error,
}
use ssh_bot.Render.State.{
  tool_executing, ToolEntry, State, new_state, apply, apply_all, on_thinking, on_start, on_end,
  is_idle, truncate, modify, end_entry,
}

-- The pointer stored for an id leads to the entry with that id, and text has ended the idle phase.
pub record IsSound (s : State) : Type 0 where
  pub pointed :
      (id : Bytes) (i : ℕ)
      → lookup id s.tool_by_id ≡ some i
      → (e : ToolEntry) × (get_elem? s.tools i ≡ some e) × (e.id ≡ id)
  pub settled : s.thinking_done ≡ true → is_idle s.phase ≡ false

-- A write through one pointer is seen there and nowhere else.
get_elem?-modify :
    (i : ℕ) (f : ToolEntry → ToolEntry) (es : List ToolEntry) (j : ℕ) (e : ToolEntry)
    → get_elem? es j ≡ some e
    → get_elem? (modify i f es) j ≡ some (if i == j then f e else e)
unfolding modify
get_elem?-modify i f [] j e h = cc
get_elem?-modify zero f (x ∷ es) zero e h = ground arith
get_elem?-modify zero f (x ∷ es) (suc j) e h = ground arith
get_elem?-modify (suc i) f (x ∷ es) zero e h = ground arith
get_elem?-modify (suc i) f (x ∷ es) (suc j) e h = ground (arith, get_elem?-modify i f es j e)

get_elem?-written :
    (i : ℕ) (f : ToolEntry → ToolEntry) (es : List ToolEntry) (j : ℕ) (e : ToolEntry)
    → get_elem? es i ≡ some e
    → get_elem? (modify i f es) j ≡ (if i == j then some (f e) else get_elem? es j)
unfolding modify
get_elem?-written i f [] j e h = ground arith
get_elem?-written zero f (x ∷ es) zero e h = ground arith
get_elem?-written zero f (x ∷ es) (suc j) e h = ground arith
get_elem?-written (suc i) f (x ∷ es) zero e h = ground arith
get_elem?-written (suc i) f (x ∷ es) (suc j) e h = ground (arith, get_elem?-written i f es j e h)

on_start-IsSound :
    (now : ℕ) (id name preview : Bytes) (o : Option ℕ) (s : State)
    → IsSound s
    → IsSound (on_start now id name preview o s).1
unfolding on_start
on_start-IsSound now id name preview (some i) s h = record {
  pointed = h.pointed;
  settled = λ d. refl;
}
on_start-IsSound now id name preview none s h =
    let new : ToolEntry = record {
      id = id;
      name = name;
      args_prev = truncate preview 60;
      started_at = now;
      ended_at = none;
      success = false;
      error_msg = [];
    } in
    record {
      pointed = λ j i k. elim (Bool-cases (beq id j)) [
        | inl b ↦
            let at : length s.tools ≡ i =
              ground (arith, lookup-insert id j (length s.tools) s.tool_by_id) in
            (new, rw (← at) (get_elem?-length s.tools new), (beq_iff id j).0 b)
        | inr b ↦
            let old : lookup j s.tool_by_id ≡ some i =
              ground (arith, lookup-insert id j (length s.tools) s.tool_by_id) in
            let (e, at, own) = h.pointed j i old in
            (e, get_elem?-append s.tools (new ∷ []) i e at, own)
      ];
      settled = λ d. refl;
    }

on_thinking-IsSound :
    (now : ℕ) (t : Bytes) (s : State) → IsSound s → IsSound (on_thinking now t s).1
unfolding on_thinking
on_thinking-IsSound now t s h =
    let same : ((on_thinking now t s).1.tools ≡ s.tools)
        × ((on_thinking now t s).1.tool_by_id ≡ s.tool_by_id)
        × ((on_thinking now t s).1.thinking_done ≡ s.thinking_done)
        × ((s.thinking_done ≡ true → is_idle (on_thinking now t s).1.phase ≡ false)) =
      (ground arith, ground arith, ground arith, λ d. ground (arith, h.settled d)) in
    record { pointed = rw (same.0, same.1) h.pointed; settled = λ d. same.3 (sym same.2 ∙ d) }

on_end-IsSound :
    (now : ℕ) (result : Bytes) (o : Option ℕ) (s : State)
    → IsSound s
    → IsSound (on_end now result o s).1
unfolding on_end
on_end-IsSound now result none s h = h
on_end-IsSound now result (some i) s h = record {
  pointed = λ id j k.
      let (e, at, own) = h.pointed id j k in
      (
        if i == j then end_entry now result e else e,
        get_elem?-modify i (end_entry now result) s.tools j e at,
        elim (Bool-cases (i == j)) [ inl b ↦ rw b (unfold end_entry in own) | inr b ↦ rw b own ],
      );
  settled = h.settled;
}

apply-IsSound : (now : ℕ) (ev : StreamEvent) (s : State) → IsSound s → IsSound (apply now ev s).1
unfolding apply
apply-IsSound now (thinking_delta t) s h = on_thinking-IsSound now t s h
apply-IsSound now (text_delta t) s h = record { pointed = h.pointed; settled = λ d. ground arith }
apply-IsSound now (tool_call_start i n t) s h =
    on_start-IsSound now i n t (lookup i s.tool_by_id) s h
apply-IsSound now (tool_call_args i n t) s h = h
apply-IsSound now (tool_call_end i n t) s h = on_end-IsSound now t (lookup i s.tool_by_id) s h
apply-IsSound now (message_end r u) s h = h
apply-IsSound now (error e) s h = record { pointed = h.pointed; settled = λ d. refl }

pub apply_all-IsSound :
    (evs : List (ℕ × StreamEvent)) (s : State) → IsSound s → IsSound (apply_all evs s)
unfolding apply_all
apply_all-IsSound [] s h = h
apply_all-IsSound ((now, ev) ∷ evs) s h =
    apply_all-IsSound evs (apply now ev s).1 (apply-IsSound now ev s h)

new_state-IsSound : (start : ℕ) → IsSound (new_state start)
unfolding lookup
new_state-IsSound start = record { pointed = λ id i k. absurd (nowhere k); settled = λ d. cc }
  where
    nowhere : {i : ℕ} → none ≡ some i → ⊥
    nowhere e = cc

-- After any events, the end of a call whose id has an entry marks that entry, which is the id's own,
-- as ended at that time, successful unless the result begins with "error:", and leaves every other
-- entry as it was.
end-entry :
    (start : ℕ) (evs : List (ℕ × StreamEvent)) (now : ℕ) (id name result : Bytes) (i : ℕ)
    → lookup id (apply_all evs (new_state start)).tool_by_id ≡ some i
    → (e : ToolEntry) × (e.id ≡ id)
      × (get_elem? (apply_all evs (new_state start)).tools i ≡ some e)
      × ((j : ℕ)
          → get_elem?
              (apply now (tool_call_end id name result) (apply_all evs (new_state start))).1.tools
              j
            ≡ (if i == j
                then some (end_entry now result e)
                else get_elem? (apply_all evs (new_state start)).tools j))
unfolding apply
end-entry start evs now id name result i h =
    let s = apply_all evs (new_state start) in
    let (e, at, own) =
      (apply_all-IsSound evs (new_state start) (new_state-IsSound start)).pointed id i h in
    (e, own, at, λ j. rw h (get_elem?-written i (end_entry now result) s.tools j e at))

abbrev pub Unchanged : State → State → Type 0
Unchanged s s' = (s' ≡ s) ⊎ (s' ≡ record s { phase = tool_executing })

on_thinking-Unchanged :
    (now : ℕ) (t : Bytes) (s : State)
    → IsSound s
    → (on_thinking now t s).0 ≡ false
    → Unchanged s (on_thinking now t s).1
unfolding on_thinking
on_thinking-Unchanged now t s h e = elim (Bool-cases s.thinking_done) [
  | inl d ↦ inl (rw (d, h.settled d))
  | inr d ↦ absurd (was_true (rw d at e))
]
  where
    was_true : true ≡ false → ⊥
    was_true e = ground arith

on_start-Unchanged :
    (now : ℕ) (id name preview : Bytes) (o : Option ℕ) (s : State)
    → (on_start now id name preview o s).0 ≡ false
    → Unchanged s (on_start now id name preview o s).1
unfolding on_start
on_start-Unchanged now id name preview none s e = absurd (ground arith)
on_start-Unchanged now id name preview (some i) s e = inr refl

on_end-Unchanged :
    (now : ℕ) (result : Bytes) (o : Option ℕ) (s : State)
    → (on_end now result o s).0 ≡ false
    → Unchanged s (on_end now result o s).1
unfolding on_end
on_end-Unchanged now result none s e = inl refl
on_end-Unchanged now result (some i) s e = absurd (ground arith)

sound-Unchanged :
    (now : ℕ) (ev : StreamEvent) (s : State)
    → IsSound s
    → (apply now ev s).0 ≡ false
    → Unchanged s (apply now ev s).1
unfolding apply
sound-Unchanged now (thinking_delta t) s h e = on_thinking-Unchanged now t s h e
sound-Unchanged now (text_delta t) s h e = absurd (ground arith)
sound-Unchanged now (tool_call_start i n t) s h e =
    on_start-Unchanged now i n t (lookup i s.tool_by_id) s e
sound-Unchanged now (tool_call_args i n t) s h e = inl refl
sound-Unchanged now (tool_call_end i n t) s h e = on_end-Unchanged now t (lookup i s.tool_by_id) s e
sound-Unchanged now (message_end r u) s h e = inl refl
sound-Unchanged now (error x) s h e = absurd (ground arith)

-- An event that Apply reports as no change leaves the whole state as it was after any events, but
-- for a repeated Start, which can move the phase to tool execution.
apply-Unchanged :
    (start : ℕ) (evs : List (ℕ × StreamEvent)) (now : ℕ) (ev : StreamEvent)
    → (apply now ev (apply_all evs (new_state start))).0 ≡ false
    → Unchanged (apply_all evs (new_state start)) (apply now ev (apply_all evs (new_state start))).1
apply-Unchanged start evs now ev =
    sound-Unchanged now ev (apply_all evs (new_state start))
      (apply_all-IsSound evs (new_state start) (new_state-IsSound start))
