-- ===== src/Agent/Turn/Keeps.antt =====
-- The loop over the events of internal/agent/loop.go keeps the history in complete rounds.
use ssh_bot.Base.{
  ℕ, ◌≤◌, ◌≡◌, ◌≢◌, refl, ap, sym, subst, ◌∙◌, false, Option, none, some, List, [], ◌∷◌, ◌++◌, map,
  append_assoc, arith, Option-cases, inl, inr, Bytes, length, All, All-append, Assoc, lookup,
  insert, beq_iff, lookup-insert,
}
use ssh_bot.Llm.Types.{ToolCall, Message}
use ssh_bot.Session.Store.{Store}
use ssh_bot.Session.{Session}
use ssh_bot.Tool.Registry.{Registry}
use ssh_bot.Agent.Exec.{Env, exec_tools, result_message, start_event, Answers, exec_tools-Answers}
use ssh_bot.Agent.Turn.Rounds.{IsCapped, IsAssistant, Rounds, round, Ended, answer, stopped}
use ssh_bot.Agent.Turn.{
  max_arguments_len, RunError, PartialCall, Turn, Flow, continue, return, is_blank, emit, collect,
  cons_call, save_session, push_messages, after_tools, run_tools, after_calls, on_event, save_tools,
  nil_partial,
}

-- Every id of `order` has an entry, and the entries are within the cap.
pub record IsKnown (partials : Assoc PartialCall) (order : List Bytes) : Type 0 where
  pub entries : All (λ id. lookup id partials ≢ none) order
  pub within :
      (id : Bytes) (pc : PartialCall)
      → lookup id partials ≡ some pc
      → length pc.args ≤ max_arguments_len

-- An insertion keeps the entries that are there.
entries-insert :
    (id : Bytes) (pc : PartialCall) (m : Assoc PartialCall) (order : List Bytes)
    → All (λ i. lookup i m ≢ none) order
    → All (λ i. lookup i (insert id pc m) ≢ none) order
entries-insert id pc m [] h = tt
entries-insert id pc m (i ∷ order) h =
    (λ e. ground (arith, lookup-insert id i pc m, h.0), entries-insert id pc m order h.1)

pub IsKnown-insert :
    (id : Bytes) (pc : PartialCall) (m : Assoc PartialCall) (order : List Bytes)
    → length pc.args ≤ max_arguments_len
    → IsKnown m order
    → IsKnown (insert id pc m) order
IsKnown-insert id pc m order fits k = record {
  entries = entries-insert id pc m order k.entries;
  within = λ i p h. ground (arith, lookup-insert id i pc m, k.within i p);
}

pub IsKnown-add :
    (id : Bytes) (pc : PartialCall) (m : Assoc PartialCall) (order : List Bytes)
    → length pc.args ≤ max_arguments_len
    → IsKnown m order
    → IsKnown (insert id pc m) (order ++ id ∷ [])
IsKnown-add id pc m order fits k =
    let k' = IsKnown-insert id pc m order fits k in
    record {
      entries =
          All-append (λ i. lookup i (insert id pc m) ≢ none) order (id ∷ []) k'.entries
            (λ e. ground (arith, lookup-insert id id pc m, beq_iff id id), tt);
      within = k'.within;
    }

-- The calls collected from known entries: there is one for each id, within the cap.
pub collect-IsKnown :
    (m : Assoc PartialCall) (order : List Bytes)
    → IsKnown m order
    → (calls : List ToolCall) × (collect m order ≡ some calls) × All IsCapped calls
unfolding collect
collect-IsKnown m [] k = ([], refl, tt)
collect-IsKnown m (id ∷ order) k = elim (Option-cases (lookup id m)) [
  | inl e ↦ absurd (k.entries.0 e)
  | inr (pc, e) ↦
      let (calls, ce, fit) =
        collect-IsKnown m order (record { entries = k.entries.1; within = k.within }) in
      (
        record { id = id; name = pc.name; arguments = pc.args } ∷ calls,
        rw (e, ce, cons_call),
        (k.within id pc e, fit),
      )
]

module _ (store : Store) (env : Env) (step : ℕ) (reg : Registry) (base : List Message) where
  abbrev T : Type 0
  T = Turn store.State

  -- The turn so far has added complete rounds to `base`, and what it has collected is sound.
  pub record Inv (t : T) : Type 0 where
    pub added : List Message
    pub rounds : Rounds added
    pub messages : t.session.messages ≡ base ++ added
    pub known : IsKnown t.partials t.order
    pub asst_is : IsAssistant t.asst

  -- The turn is over and has added what a turn with that error adds.
  pub record Finished (e : Option RunError) (t : T) : Type 0 where
    pub added : List Message
    pub ended : Ended e added
    pub messages : t.session.messages ≡ base ++ added

  abbrev pub Holds : Flow store.State → Type 0
  Holds (continue t) = Inv t
  Holds (return e t) = Finished e t

  module _
      (keeps : (key : Bytes) (x : Session) (s : store.State)
        → (store.save key x s).session ≡ x) where
    pub stop_here :
        {t : T} (t' : T) (err : RunError)
        → err ≢ nil_partial
        → t'.session.messages ≡ t.session.messages
        → Inv t
        → Finished (some err) t'
    stop_here t' err ne same i = record {
      added = i.added;
      ended = stopped err refl ne i.rounds;
      messages = same ∙ i.messages;
    }

    -- A save leaves the invariant.
    pub messages-save_session :
        (t : T) → (save_session store env step reg t).1.session.messages ≡ t.session.messages
    unfolding save_session
    messages-save_session t =
        ap (λ (x : Session). x.messages) (keeps t.session.key t.session t.stored)

    after_tools-Holds :
        (o : Option Bytes) (t : T) → Inv t → Holds (after_tools store env step reg (o, t))
    unfolding on_event
    after_tools-Holds none t i = i
    after_tools-Holds (some e) t i = stop_here t (save_tools e) (λ x. cc) refl i

    run_tools-Holds :
        (calls : List ToolCall) (t : T) (prev : List Message)
        → Rounds prev
        → t.session.messages ≡ base ++ (prev ++ t.asst ∷ [])
        → t.asst.tool_calls ≡ calls
        → calls ≢ []
        → IsAssistant t.asst
        → IsKnown t.partials t.order
        → Holds (run_tools store env step reg calls t)
    unfolding on_event
    run_tools-Holds calls t prev r h same ne a k =
        let results = map result_message (exec_tools env step reg calls).0 in
        let ends = (exec_tools env step reg calls).1 in
        let t' =
          push_messages store env step reg (emit (emit t (map start_event calls)) ends) results in
        let saved = save_session store env step reg t' in
        after_tools-Holds saved.0 saved.1 (record {
          added = prev ++ t.asst ∷ results;
          rounds =
              round prev results t.asst r a (λ e. ne (sym same ∙ e))
                (subst (λ cs. Answers cs results) (sym same)
                  (exec_tools-Answers env step reg calls))
                refl;
          messages =
              messages-save_session t'
              ∙ ap (λ ms. ms ++ results) h
              ∙ append_assoc base (prev ++ t.asst ∷ []) results
              ∙ ap (λ ms. base ++ ms) (append_assoc prev (t.asst ∷ []) results);
          known = k;
          asst_is = a;
        })

    pub after_calls-Holds :
        (calls : List ToolCall) (t : T) (prev : List Message)
        → Rounds prev
        → t.session.messages ≡ base ++ (prev ++ t.asst ∷ [])
        → t.asst.tool_calls ≡ calls
        → (calls ≡ [] → is_blank t.asst.content ≡ false)
        → IsAssistant t.asst
        → IsKnown t.partials t.order
        → Holds (after_calls store env step reg calls t)
    unfolding on_event
    after_calls-Holds [] t prev r h same full a k = record {
      added = prev ++ t.asst ∷ [];
      ended = answer prev t.asst refl r a same (full refl) refl;
      messages = h;
    }
    after_calls-Holds (c ∷ cs) t prev r h same full a k =
        run_tools-Holds (c ∷ cs) t prev r h same (λ e. cc) a k
