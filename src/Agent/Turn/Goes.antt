-- ===== src/Agent/Turn/Goes.antt =====
-- Streams that the loop over the events of internal/agent/loop.go reads without an error, where saves
-- succeed.
use ssh_bot.Base.{
  ℕ, ◌≡◌, ◌≢◌, refl, ap, sym, subst, ◌∙◌, Bool, true, false, ◌&&◌, ◌⊎◌, inl, inr, Option, none,
  some, List, [], ◌∷◌, ◌++◌, arith, Bytes, lookup, Assoc,
}
use ssh_bot.Llm.Stream.{text_of}
use ssh_bot.Llm.Types.{ToolCall, StreamEvent, message_end}
use ssh_bot.Session.Store.{Store}
use ssh_bot.Session.{Session}
use ssh_bot.Tool.Registry.{Registry}
use ssh_bot.Agent.Exec.{Env}
use ssh_bot.Agent.Turn.Keeps.{collect-IsKnown}
use ssh_bot.Agent.Turn.{
  PartialCall, Turn, Flow, continue, return, is_blank, emit, collect, cons_call, save_session,
  has_no_calls, after_tools, after_calls, after_assistant, answered, with_calls, on_event,
  on_events,
}
use ssh_bot.Agent.Turn.Ready.{
  IsReply, args_size, Ready, Ready-eq, deltas-Read, opened_after, opened_first,
}

collected_calls :
    (partials : Assoc PartialCall) (order : List Bytes) (calls : List ToolCall)
    → collect partials order ≡ some calls
    → order ≢ []
    → calls ≢ []
unfolding collect cons_call
collected_calls partials [] calls h ne = absurd (ne refl)
collected_calls partials (id ∷ order) calls h ne =
    by_entry (lookup id partials) (collect partials order) h
  where
    nothing : none ≡ some calls → ⊥
    nothing x = cc

    by_entry :
        (o : Option PartialCall) (rest : Option (List ToolCall))
        → cons_call id o rest ≡ some calls
        → calls ≢ []
    by_entry none rest e = absurd (nothing e)
    by_entry (some pc) none e = absurd (nothing e)
    by_entry (some pc) (some cs) e = λ empty. cc

module _ (store : Store) (env : Env) (step : ℕ) (reg : Registry)
    (saves : (key : Bytes) (x : Session) (s : store.State)
      → (store.save key x s).error ≡ none) where
  -- The loop goes on with tool calls in hand, or the turn is over without an error.
  abbrev pub Goes : Bool → Flow store.State → Type 0
  Goes true (continue t) = t.asst.tool_calls ≢ []
  Goes true (return e t) = ⊥
  Goes false (continue t) = ⊥
  Goes false (return e t) = e ≡ none

  abbrev some_calls : List ToolCall → Bool
  some_calls [] = false
  some_calls (c ∷ cs) = true

  after_tools-Goes :
      (o : Option Bytes) (t : Turn store.State)
      → o ≡ none
      → t.asst.tool_calls ≢ []
      → Goes true (after_tools store env step reg (o, t))
  unfolding on_event
  after_tools-Goes none t h ne = ne
  after_tools-Goes (some e) t h ne = absurd (failed h)
    where
      failed : some e ≡ none → ⊥
      failed x = cc

  after_calls-Goes :
      (calls : List ToolCall) (t : Turn store.State)
      → t.asst.tool_calls ≡ calls
      → Goes (some_calls calls) (after_calls store env step reg calls t)
  unfolding on_event save_session
  after_calls-Goes [] t h = refl
  after_calls-Goes (c ∷ cs) t h = after_tools-Goes _ _ (saves _ _ _) (λ e. clash (sym h ∙ e))
    where
      clash : c ∷ cs ≡ [] → ⊥
      clash x = cc

  after_assistant-Goes :
      (ev : StreamEvent) (o : Option Bytes) (t : Turn store.State)
      → o ≡ none
      → Goes (some_calls t.asst.tool_calls) (after_assistant store env step reg ev (o, t))
  unfolding on_event
  after_assistant-Goes ev none t h = after_calls-Goes t.asst.tool_calls (emit t (ev ∷ [])) refl
  after_assistant-Goes ev (some e) t h = absurd (failed h)
    where
      failed : some e ≡ none → ⊥
      failed x = cc

  answered-Goes :
      (ev : StreamEvent) (t : Turn store.State)
      → (has_no_calls store env step reg t.asst.tool_calls && is_blank t.asst.content) ≡ false
      → Goes (some_calls t.asst.tool_calls) (answered store env step reg ev t)
  unfolding on_event save_session
  answered-Goes ev t h = rw h (after_assistant-Goes ev _ _ (saves _ _ _))

  settled :
      (calls : Bool) (f : Flow store.State)
      → Goes calls f
      → Goes calls
          (elim f [ continue t ↦ on_events store env step reg t [] | return e t ↦ return e t ])
  unfolding on_events
  settled true (continue t) h = h
  settled true (return e t) h = h
  settled false (continue t) h = h
  settled false (return e t) h = h

  with_calls-Goes :
      (ev : StreamEvent) (t : Turn store.State) (calls : List ToolCall)
      → t.asst.tool_calls ≡ []
      → (calls ≢ []) ⊎ (is_blank t.text_buf ≡ false)
      → Goes (some_calls calls) (with_calls store env step reg ev t (some calls))
  unfolding on_event
  with_calls-Goes ev t [] e (inl ne) = absurd (ne refl)
  with_calls-Goes ev t [] e (inr full) =
      subst (λ b. Goes b (with_calls store env step reg ev t (some [])))
        (ap (λ (l : List ToolCall). some_calls (l ++ [])) e)
        (answered-Goes ev _ (
          ap
            (λ (l : List ToolCall).
              has_no_calls store env step reg (l ++ []) && is_blank t.text_buf)
            e
          ∙ full))
  with_calls-Goes ev t (c ∷ cs) e full =
      subst (λ b. Goes b (with_calls store env step reg ev t (some (c ∷ cs))))
        (ap (λ (l : List ToolCall). some_calls (l ++ c ∷ cs)) e)
        (answered-Goes ev _ (
          ap
            (λ (l : List ToolCall).
              has_no_calls store env step reg (l ++ c ∷ cs) && is_blank t.text_buf)
            e))

  some_calls_nonempty : (calls : List ToolCall) → calls ≢ [] → some_calls calls ≡ true
  some_calls_nonempty [] ne = absurd (ne refl)
  some_calls_nonempty (c ∷ cs) ne = refl

  -- The message_end behind the deltas.
  on_end-Goes :
      (ev : StreamEvent) (n : ℕ) (calls : Bool) (text : Bytes) (t : Turn store.State)
      → (calls ≡ true) ⊎ (is_blank text ≡ false)
      → Ready store env step reg n calls text t
      → Goes calls (with_calls store env step reg ev t (collect t.partials t.order))
  unfolding on_event
  on_end-Goes ev n true text t full r =
      let (calls, e, fit) = collect-IsKnown t.partials t.order r.known in
      let ne = collected_calls t.partials t.order calls e r.is_open in
      rw e (
        subst (λ b. Goes b (with_calls store env step reg ev t (some calls)))
          (some_calls_nonempty calls ne) (with_calls-Goes ev t calls r.none_yet (inl ne)))
  on_end-Goes ev n false text t (inl x) r = absurd (clash x)
    where
      clash : false ≡ true → ⊥
      clash x = cc
  on_end-Goes ev n false text t (inr full) r =
      subst (λ o. Goes false (with_calls store env step reg ev t o))
        (sym (ap (collect t.partials) r.is_open.0))
        (with_calls-Goes ev t [] r.none_yet (inr (ap is_blank r.text_is ∙ full)))

  -- A reply is read to its end: with tool calls the loop goes on, without them the turn is over.
  pub on_events-Goes :
      (calls : Bool) (evs : List StreamEvent) (t : Turn store.State)
      → IsReply calls evs
      → Ready store env step reg 0 false [] t
      → Goes calls (on_events store env step reg t evs)
  unfolding on_events
  on_events-Goes calls evs t w r =
      let end = message_end w.reason w.usage in
      let (t', e, r') =
        deltas-Read store env step reg w.body (end ∷ []) 0 false [] t w.deltas
          (omega (arith, w.fits)) r in
      let opened : opened_after store env step reg false w.body ≡ calls =
        opened_first store env step reg w.body ∙ w.calls_is in
      subst (λ xs. Goes calls (on_events store env step reg t xs)) (sym w.is)
        (subst (λ f. Goes calls f) (sym e)
          (settled calls _ (
            on_end-Goes end (args_size w.body) calls (text_of w.body) t' w.full (
              subst (λ b. Ready store env step reg (args_size w.body) b (text_of w.body) t') opened
                (Ready-eq store env step reg _ _ _ _ _ t' (omega arith) refl r')))))
