-- ===== src/Agent/Loop/Transcript.antt =====
-- What `Run` of internal/agent/loop.go adds to the history, whatever the provider and the tools do.
use ssh_bot.Base.{
  ℕ, zero, suc, ◌+◌, ◌≡◌, refl, ap, sym, ◌∙◌, Option, none, some, List, [], ◌∷◌, ◌++◌, append_assoc,
  append-nil, Bool-cases, inl, inr, Bytes, lookup,
}
use ssh_bot.Llm.Types.{Message, message, assistant, user}
use ssh_bot.Session.Store.{Store}
use ssh_bot.Session.{Session}
use ssh_bot.Tool.Registry.{Registry}
use ssh_bot.Agent.Exec.{Env, Stream, refused, events}
use ssh_bot.Agent.Loop.{
  Config, steps_of, fresh, after_stream, read_stream, one_step, loop, begun, run, is_unset,
}
use ssh_bot.Agent.Turn.Events.{on_events-Holds}
use ssh_bot.Agent.Turn.Keeps.{Inv, Finished, Holds, stop_here}
use ssh_bot.Agent.Turn.Rounds.{start, Ended, stopped}
use ssh_bot.Agent.Turn.{
  PartialCall, Turn, Flow, continue, return, RunError, save_pre_turn, provider_stream,
  no_message_end, max_steps_reached, on_events,
}

no_entry : (id : Bytes) (pc : PartialCall) → lookup id [] ≡ some pc → ⊥
unfolding lookup
no_entry id pc h = cc

module _ (store : Store) (env : Env) (config : Config) (reg : Registry)
    (keeps : (key : Bytes) (x : Session) (s : store.State) → (store.save key x s).session ≡ x)
    (base : List Message) where
  fresh-Inv :
      (step : ℕ) (t : Turn store.State)
      → Inv store env step reg base t
      → Inv store env step reg base (fresh store env config reg t)
  unfolding one_step
  fresh-Inv step t i = record {
    added = i.added;
    rounds = i.rounds;
    messages = i.messages;
    known = record { entries = tt; within = λ id pc h. absurd (no_entry id pc h) };
    asst_is = record { role_is = refl; capped = tt };
  }

  after_stream-Holds :
      (step : ℕ) (f : Flow store.State)
      → Holds store env step reg base f
      → Holds store env step reg base (after_stream store env config reg f)
  unfolding one_step
  after_stream-Holds step (return e t) h = h
  after_stream-Holds step (continue t) h = elim (Bool-cases (is_unset t.asst)) [
    | inl e ↦ rw e (stop_here store env step reg base keeps t no_message_end (λ x. cc) refl h)
    | inr e ↦ rw e h
  ]

  read_stream-Holds :
      (step : ℕ) (t : Turn store.State) (s : Stream)
      → Inv store env step reg base t
      → Holds store env step reg base (read_stream store env config reg step t s)
  unfolding one_step
  read_stream-Holds step t (refused e) i =
      stop_here store env step reg base keeps t (provider_stream e) (λ x. cc) refl i
  read_stream-Holds step t (events evs) i =
      after_stream-Holds step (on_events store env step reg t evs)
        (on_events-Holds store env step reg base keeps evs t i)

  -- Another step of the loop takes over what the one before it established.
  next_step :
      (a b : ℕ) {t : Turn store.State} → Inv store env a reg base t → Inv store env b reg base t
  next_step a b i = record {
    added = i.added;
    rounds = i.rounds;
    messages = i.messages;
    known = i.known;
    asst_is = i.asst_is;
  }

  abbrev Over : Option RunError × Turn store.State → Type 0
  Over (e, t) = Finished store env 0 reg base e t

  flow-Over :
      (step left : ℕ) (f : Flow store.State)
      → ((t : Turn store.State)
          → Inv store env step reg base t
          → Over (loop store env config reg left (step + 1) t))
      → Holds store env step reg base f
      → Over (elim f [
        | continue t ↦ loop store env config reg left (step + 1) t
        | return e t ↦ (e, t)
      ])
  flow-Over step left (continue t) later h = later t h
  flow-Over step left (return e t) later h = record {
    added = h.added;
    ended = h.ended;
    messages = h.messages;
  }

  loop-Over :
      (left step : ℕ) (t : Turn store.State)
      → Inv store env step reg base t
      → Over (loop store env config reg left step t)
  unfolding loop
  loop-Over zero step t i =
      stop_here store env 0 reg base keeps t max_steps_reached (λ x. cc) refl (next_step step 0 i)
  loop-Over (suc left) step t i =
      flow-Over step left (one_step store env config reg step t)
        (λ t' j. loop-Over left (step + 1) t' (next_step step (step + 1) j))
        (unfold one_step in
          read_stream-Holds step (fresh store env config reg t) _ (fresh-Inv step t i))

  begun-Over :
      (steps : ℕ) (o : Option Bytes) (t : Turn store.State)
      → t.session.messages ≡ base
      → t.partials ≡ []
      → t.order ≡ []
      → t.asst ≡ message assistant []
      → Over (begun store env config reg steps (o, t))
  unfolding begun
  begun-Over steps (some e) t h p q a = record {
    added = [];
    ended = stopped (save_pre_turn e) refl (λ x. cc) (start refl);
    messages = h ∙ sym (append-nil base);
  }
  begun-Over steps none t h p q a = loop-Over steps 0 t (record {
    added = [];
    rounds = start refl;
    messages = h ∙ sym (append-nil base);
    known = rw (p, q) (record { entries = tt; within = λ id pc g. absurd (no_entry id pc g) });
    asst_is = rw a (record { role_is = refl; capped = tt });
  })

-- What a turn does to the history, for a store whose Save leaves the caller's session alone: the
-- user's message is appended and then what the error says, whatever the provider streams, the tools
-- do and the saves answer. With no error these are complete rounds of tool calls with their answers
-- and last an answer that is not blank. An error leaves complete rounds, and behind them the
-- assistant's message only if its save failed. No nil entry of the map of partial calls is met.
pub run-Ended :
    (store : Store) (env : Env) (config : Config) (reg : Registry)
    → ((key : Bytes) (x : Session) (s : store.State) → (store.save key x s).session ≡ x)
    → (sess : Session) (s : store.State) (input : Bytes)
    → (added : List Message) × Ended (run store env config reg sess s input).0 added
      × ((run store env config reg sess s input).1.session.messages
          ≡ sess.messages ++ message user input ∷ added)
unfolding run
run-Ended store env config reg keeps sess s input =
    let base = sess.messages ++ message user input ∷ [] in
    let sess' = record sess { messages = base } in
    let kept = ap (λ (x : Session). x.messages) (keeps sess'.key sess' s) in
    let over =
      begun-Over store env config reg keeps base (steps_of config)
        (store.save sess'.key sess' s).error _ kept refl refl refl in
    (
      over.added,
      over.ended,
      over.messages ∙ append_assoc sess.messages (message user input ∷ []) over.added,
    )
