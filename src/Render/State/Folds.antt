-- ===== src/Render/State/Folds.antt =====
-- What the state of internal/render/state.go has accumulated after any run of events.
use ssh_bot.Base.{
  ℕ, ◌≡◌, refl, sym, ap, ap₂, ◌∙◌, Bool, Option, none, some, List, [], ◌∷◌, ◌++◌, map, append_assoc,
  append-nil, arith, if◌then◌else◌, Bytes, lookup, inl, inr, Bool-cases,
}
use ssh_bot.Llm.Stream.{text_of}
use ssh_bot.Llm.Types.{
  StreamEvent, thinking_delta, text_delta, tool_call_start, tool_call_args, tool_call_end,
  message_end, error,
}
use ssh_bot.Render.State.{
  failed, State, new_state, apply_all, on_thinking, on_text, on_start, on_end,
}

-- The reasoning that comes before the first text.
abbrev pub thinking_shown : List (ℕ × StreamEvent) → Bytes
thinking_shown [] = []
thinking_shown ((now, text_delta t) ∷ evs) = []
thinking_shown ((now, thinking_delta t) ∷ evs) = t ++ thinking_shown evs
thinking_shown ((now, tool_call_start i n t) ∷ evs) = thinking_shown evs
thinking_shown ((now, tool_call_args i n t) ∷ evs) = thinking_shown evs
thinking_shown ((now, tool_call_end i n t) ∷ evs) = thinking_shown evs
thinking_shown ((now, message_end r u) ∷ evs) = thinking_shown evs
thinking_shown ((now, error e) ∷ evs) = thinking_shown evs

start-keeps :
    (now : ℕ) (id name preview : Bytes) (o : Option ℕ) (s : State)
    → ((on_start now id name preview o s).1.body ≡ s.body)
      × ((on_start now id name preview o s).1.thinking_text ≡ s.thinking_text)
      × ((on_start now id name preview o s).1.thinking_done ≡ s.thinking_done)
unfolding on_start
start-keeps now id name preview none s = (refl, refl, refl)
start-keeps now id name preview (some i) s = (refl, refl, refl)

end-keeps :
    (now : ℕ) (result : Bytes) (o : Option ℕ) (s : State)
    → ((on_end now result o s).1.body ≡ s.body)
      × ((on_end now result o s).1.thinking_text ≡ s.thinking_text)
      × ((on_end now result o s).1.thinking_done ≡ s.thinking_done)
unfolding on_end
end-keeps now result none s = (refl, refl, refl)
end-keeps now result (some i) s = (refl, refl, refl)

thinking-adds :
    (now : ℕ) (t : Bytes) (s : State)
    → ((on_thinking now t s).1.body ≡ s.body)
      × ((on_thinking now t s).1.thinking_text
          ≡ (if s.thinking_done then s.thinking_text else s.thinking_text ++ t))
      × ((on_thinking now t s).1.thinking_done ≡ s.thinking_done)
unfolding on_thinking
thinking-adds now t s = ground arith

-- Both texts of `s'` are those of `s` and what `evs` adds to them.
abbrev Adds : State → State → List (ℕ × StreamEvent) → Type 0
Adds s s' evs =
    (s'.body ≡ s.body ++ text_of (map (λ e. e.1) evs))
    × (s'.thinking_text ≡ s.thinking_text ++ (if s.thinking_done then [] else thinking_shown evs))

-- An event that leaves the texts and the flag adds nothing of its own.
Adds-carry :
    (s m s' : State) (evs : List (ℕ × StreamEvent))
    → (m.body ≡ s.body) × (m.thinking_text ≡ s.thinking_text) × (m.thinking_done ≡ s.thinking_done)
    → Adds m s' evs
    → Adds s s' evs
Adds-carry s m s' evs (b, t, d) (h, k) = (
  h ∙ ap (λ (l : Bytes). l ++ text_of (map (λ e. e.1) evs)) b,
  k ∙ ap₂ (λ (l : Bytes) (f : Bool). l ++ (if f then [] else thinking_shown evs)) t d,
)

Adds-thinking :
    (now : ℕ) (t : Bytes) (s s' : State) (evs : List (ℕ × StreamEvent))
    → Adds (on_thinking now t s).1 s' evs
    → Adds s s' ((now, thinking_delta t) ∷ evs)
Adds-thinking now t s s' evs (h, k) =
    let (b, shown, d) = thinking-adds now t s in
    (
      h ∙ ap (λ (l : Bytes). l ++ text_of (map (λ e. e.1) evs)) b,
      elim (Bool-cases s.thinking_done) [
        | inl e ↦ rw e (ground (arith, append-nil s.thinking_text))
        | inr e ↦ rw e (ground (arith, append_assoc s.thinking_text t (thinking_shown evs)))
      ],
    )

apply_all-Adds : (evs : List (ℕ × StreamEvent)) (s : State) → Adds s (apply_all evs s) evs
unfolding apply_all
apply_all-Adds [] s = (
  sym (append-nil s.body),
  elim (Bool-cases s.thinking_done) [
    | inl e ↦ rw e (sym (append-nil s.thinking_text))
    | inr e ↦ rw e (sym (append-nil s.thinking_text))
  ],
)
apply_all-Adds ((now, thinking_delta t) ∷ evs) s =
    let m = (on_thinking now t s).1 in
    Adds-thinking now t s (apply_all evs m) evs (apply_all-Adds evs m)
apply_all-Adds ((now, text_delta t) ∷ evs) s =
    let (h, k) = apply_all-Adds evs (on_text t s).1 in
    (
      h ∙ append_assoc s.body t (text_of (map (λ e. e.1) evs)),
      k ∙ elim (Bool-cases s.thinking_done) [ inl e ↦ rw e | inr e ↦ rw e ],
    )
apply_all-Adds ((now, tool_call_start i n t) ∷ evs) s =
    let m = (on_start now i n t (lookup i s.tool_by_id) s).1 in
    Adds-carry s m (apply_all evs m) evs (start-keeps now i n t (lookup i s.tool_by_id) s)
      (apply_all-Adds evs m)
apply_all-Adds ((now, tool_call_args i n t) ∷ evs) s = apply_all-Adds evs s
apply_all-Adds ((now, tool_call_end i n t) ∷ evs) s =
    let m = (on_end now t (lookup i s.tool_by_id) s).1 in
    Adds-carry s m (apply_all evs m) evs (end-keeps now t (lookup i s.tool_by_id) s)
      (apply_all-Adds evs m)
apply_all-Adds ((now, message_end r u) ∷ evs) s = apply_all-Adds evs s
apply_all-Adds ((now, error e) ∷ evs) s =
    let m = record s { phase = failed; error_text = e } in
    Adds-carry s m (apply_all evs m) evs (refl, refl, refl) (apply_all-Adds evs m)

-- After any events in any order a fresh state holds all the text that they carried, and of the
-- reasoning what came before the first text.
pub apply_all-texts :
    (start : ℕ) (evs : List (ℕ × StreamEvent))
    → ((apply_all evs (new_state start)).body ≡ text_of (map (λ e. e.1) evs))
      × ((apply_all evs (new_state start)).thinking_text ≡ thinking_shown evs)
apply_all-texts start evs = apply_all-Adds evs (new_state start)
