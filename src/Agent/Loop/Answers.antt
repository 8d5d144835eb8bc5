-- ===== src/Agent/Loop/Answers.antt =====
-- When `Run` of internal/agent/loop.go ends with an answer.
use ssh_bot.Base.{
  ==_iff, ℕ, zero, suc, ◌+◌, ◌≤◌, ◌<◌, ◌≡◌, ◌≢◌, refl, ap, sym, ◌∙◌, arith, Bool, true, false, ◌&&◌,
  Option, none, some, List, [], ◌∷◌, ◌==◌, Bool-cases, inl, inr, Bytes,
}
use ssh_bot.Llm.Types.{ToolCall, ChatRequest}
use ssh_bot.Session.Store.{Store}
use ssh_bot.Session.{Session}
use ssh_bot.Tool.Registry.{Registry}
use ssh_bot.Agent.Exec.{Env, Stream, refused, events}
use ssh_bot.Agent.Loop.{
  Config, steps_of, fresh, after_stream, read_stream, one_step, loop, begun, run,
}
use ssh_bot.Agent.Turn.Goes.{Goes, on_events-Goes}
use ssh_bot.Agent.Turn.Ready.{IsReply, Ready, no_entry}
use ssh_bot.Agent.Turn.{Turn, Flow, continue, return, RunError, on_events}

-- A provider that streams a reply.
abbrev pub Replies : Bool → Stream → Type 0
Replies calls (refused e) = ⊥
Replies calls (events evs) = IsReply calls evs

-- A message with tool calls is not unset.
unset_false :
    (x y : Bool) (calls : List ToolCall)
    → calls ≢ []
    → (x && y && (elim calls [ [] ↦ true | c ∷ s ↦ false ])) ≡ false
unset_false x y [] ne = absurd (ne refl)
unset_false true true (c ∷ s) ne = refl
unset_false true false (c ∷ s) ne = refl
unset_false false y (c ∷ s) ne = refl

module _ (store : Store) (env : Env) (config : Config) (reg : Registry)
    (saves : (key : Bytes) (x : Session) (s : store.State)
      → (store.save key x s).error ≡ none) where
  fresh-Ready :
      (step : ℕ) (t : Turn store.State)
      → Ready store env step reg 0 false [] (fresh store env config reg t)
  unfolding one_step
  fresh-Ready step t = record {
    known = record { entries = tt; within = λ id pc h. absurd (no_entry id pc h) };
    sizes = λ id pc h. absurd (no_entry id pc h);
    is_open = (refl, refl);
    text_is = refl;
    none_yet = refl;
  }

  after_stream-Goes :
      (step : ℕ) (calls : Bool) (f : Flow store.State)
      → Goes store env step reg saves calls f
      → Goes store env step reg saves calls (after_stream store env config reg f)
  unfolding one_step
  after_stream-Goes step true (continue t) h = rw (unset_false _ _ t.asst.tool_calls h) h
  after_stream-Goes step true (return e t) h = h
  after_stream-Goes step false (continue t) h = absurd h
  after_stream-Goes step false (return e t) h = h

  read_stream-Goes :
      (step : ℕ) (calls : Bool) (t : Turn store.State) (r : Stream)
      → Replies calls r
      → Ready store env step reg 0 false [] t
      → Goes store env step reg saves calls (read_stream store env config reg step t r)
  unfolding one_step
  read_stream-Goes step calls t (refused e) w r = absurd w
  read_stream-Goes step calls t (events evs) w r =
      after_stream-Goes step calls (on_events store env step reg t evs)
        (on_events-Goes store env step reg saves calls evs t w r)

  -- What the loop makes of a step's outcome.
  abbrev onwards : ℕ → ℕ → Flow store.State → Option RunError × Turn store.State
  onwards left step f = elim f [
    | continue t ↦ loop store env config reg left (step + 1) t
    | return e t ↦ (e, t)
  ]

  flow_answers :
      (left step : ℕ) (calls : Bool) (f : Flow store.State)
      → Goes store env step reg saves calls f
      → (calls ≡ true
          → (t : Turn store.State) → (loop store env config reg left (step + 1) t).0 ≡ none)
      → (onwards left step f).0 ≡ none
  flow_answers left step true (continue t) h later = later refl t
  flow_answers left step true (return e t) h later = absurd h
  flow_answers left step false (continue t) h later = absurd h
  flow_answers left step false (return e t) h later = h

  module _ (calls : ℕ → Bool)
      (replies : (k : ℕ) (req : ChatRequest) → Replies (calls k) (env.stream k req)) where
    one_step-Goes :
        (step : ℕ) (t : Turn store.State)
        → Goes store env step reg saves (calls step) (one_step store env config reg step t)
    unfolding one_step
    one_step-Goes step t =
        read_stream-Goes step (calls step) (fresh store env config reg t) _ (replies step _)
          (fresh-Ready step t)

    loop_answers :
        (left step last : ℕ) (t : Turn store.State)
        → step ≤ last
        → last < step + left
        → calls last ≡ false
        → (loop store env config reg left step t).0 ≡ none
    unfolding loop
    loop_answers zero step last t a b e = absurd (omega (arith, a, b))
    loop_answers (suc left) step last t a b e =
        flow_answers left step (calls step) (one_step store env config reg step t)
          (one_step-Goes step t)
          (λ more t'. loop_answers left (step + 1) last t' (later more) (omega (arith, b)) e)
      where
        clash : true ≡ false → ⊥
        clash x = cc

        later : calls step ≡ true → step + 1 ≤ last
        later more = elim (Bool-cases (step == last)) [
          | inl same ↦ absurd (clash (sym more ∙ ap calls ((==_iff step last).0 same) ∙ e))
          | inr other ↦ ground (arith, a, other)
        ]

  begun_answers :
      (steps : ℕ) (o : Option Bytes) (t : Turn store.State)
      → o ≡ none
      → (loop store env config reg steps 0 t).0 ≡ none
      → (begun store env config reg steps (o, t)).0 ≡ none
  unfolding begun
  begun_answers steps none t h l = l
  begun_answers steps (some e) t h l = absurd (failed h)
    where
      failed : some e ≡ none → ⊥
      failed x = cc

-- A turn ends without an error where the saves succeed, the provider answers every request of step
-- `k` with a stream of deltas that ends properly, holds at most 100 KiB of arguments and has tool
-- calls or, as `calls k` says, a text that is not blank instead, and one of the steps that the
-- configuration allows is such an answer. What the tools do does not matter.
pub run_answers :
    (store : Store) (env : Env) (config : Config) (reg : Registry)
    → ((key : Bytes) (x : Session) (s : store.State) → (store.save key x s).error ≡ none)
    → (calls : ℕ → Bool) → ((k : ℕ) (req : ChatRequest) → Replies (calls k) (env.stream k req))
    → (last : ℕ) → last < steps_of config
    → calls last ≡ false
    → (sess : Session) (s : store.State) (input : Bytes)
    → (run store env config reg sess s input).0 ≡ none
unfolding run
run_answers store env config reg saves calls replies last enough e sess s input =
    begun_answers store env config reg saves (steps_of config) _ _ (saves _ _ _) (
      loop_answers store env config reg saves calls replies (steps_of config) 0 last _ (omega arith)
        (omega (arith, enough)) e)
