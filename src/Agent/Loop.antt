-- ===== src/Agent/Loop.antt =====
-- `Run` of internal/agent/loop.go. The rounds left are counted down, so the recursion is
-- structural; a MaxSteps that is not positive is the default.
pub mod Transcript
pub mod Answers
use ssh_bot.Base.{
  ℕ, zero, suc, ◌+◌, Bool, true, false, ◌&&◌, Option, none, some, List, [], ◌∷◌, ◌++◌, ◌==◌,
  if◌then◌else◌, Bytes,
}
use ssh_bot.Llm.Types.{Message, message, assistant, user, StreamEvent, ChatRequest}
use ssh_bot.Session.Store.{Store}
use ssh_bot.Session.{Session}
use ssh_bot.Tool.Registry.{Registry}
use ssh_bot.Agent.Context.{build_request}
use ssh_bot.Agent.Exec.{Env, Stream, refused, events}
use ssh_bot.Agent.Turn.{
  Turn, Flow, continue, return, RunError, save_pre_turn, provider_stream, no_message_end,
  max_steps_reached, on_events, save_session,
}

abbrev pub default_max_steps : ℕ
default_max_steps = 12

pub record Config : Type 0 where
  pub max_steps : ℕ
  pub preamble : Bytes
  pub thinking : Bool

-- if a.MaxSteps <= 0 { a.MaxSteps = DefaultMaxSteps }
unfoldable pub steps_of : Config → ℕ
steps_of c = if c.max_steps == 0 then default_max_steps else c.max_steps

abbrev is_unset : Message → Bool
is_unset m =
    (elim m.content [ [] ↦ true | c ∷ s ↦ false ])
    && (elim m.thinking [ [] ↦ true | c ∷ s ↦ false ])
    && (elim m.tool_calls [ [] ↦ true | c ∷ s ↦ false ])

module _ (store : Store) (env : Env) (config : Config) (reg : Registry) where
  abbrev T : Type 0
  T = Turn store.State

  -- The variables that a step declares.
  fresh : T → T
  fresh t = record t {
    asst = message assistant [];
    thinking_buf = [];
    text_buf = [];
    partials = [];
    order = [];
  }

  -- The check behind the loop over the events.
  after_stream : Flow store.State → Flow store.State
  after_stream (return e t) = return e t
  after_stream (continue t) = if is_unset t.asst then return (some no_message_end) t else continue t

  read_stream : ℕ → T → Stream → Flow store.State
  unfolding after_stream
  read_stream step t (refused e) = return (some (provider_stream e)) t
  read_stream step t (events evs) = after_stream (on_events store env step reg t evs)

  -- The body of the loop over the steps.
  pub one_step : ℕ → T → Flow store.State
  unfolding fresh read_stream
  one_step step t =
      let t' = fresh t in
      read_stream step t' (
        env.stream step
          (build_request (env.up step) t'.session reg config.preamble config.thinking))

  -- for step := 0; step < a.MaxSteps; step++
  pub loop : (left step : ℕ) → T → Option RunError × T
  unfolding one_step
  loop zero step t = (some max_steps_reached, t)
  loop (suc left) step t = elim (one_step step t) [
    | continue t' ↦ loop left (step + 1) t'
    | return e t' ↦ (e, t')
  ]

  begun : ℕ → Option Bytes × T → Option RunError × T
  unfolding loop
  begun steps (some e, t) = (some (save_pre_turn e), t)
  begun steps (none, t) = loop steps 0 t

  -- Run
  pub run : Session → store.State → Bytes → Option RunError × T
  unfolding begun steps_of save_session
  run sess s input = begun (steps_of config) (
      save_session store env 0 reg (record {
        session = record sess { messages = sess.messages ++ message user input ∷ [] };
        stored = s;
        emitted = [];
        asst = message assistant [];
        thinking_buf = [];
        text_buf = [];
        partials = [];
        order = [];
      }))
