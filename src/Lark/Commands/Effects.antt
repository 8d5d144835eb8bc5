-- ===== src/Lark/Commands/Effects.antt =====
-- What a command of internal/lark/commands.go can do to the sessions.
use mathlib.Core.Logic.{◌↔◌}
use ssh_bot.Base.{
  sym, ap, ◌∙◌, beq_iff, arith, ◌≡◌, ◌≢◌, ◌⊎◌, refl, true, false, Bool-cases, inl, inr, Option,
  none, some, [], ◌∷◌, Bytes, utf8, beq, has_prefix, trim_prefix, trim_space,
}
use ssh_bot.Lark.Commands.{
  Desk, new_session, session_or, cleared, switch_in, switch_model, command, dispatch_command,
}
use ssh_bot.Lark.Parser.{MessageEvent, session_key, is_command}
use ssh_bot.Session.Store.{Store, GetResult, found, failed}
use ssh_bot.Session.{Session}

module _ (store : Store) (desk : Desk) (ev : MessageEvent) where
  -- The state after a command, and what it needed: the same, the session of the sender deleted by
  -- /clear, or saved with a known model by /model, all else as it was stored or new.
  pub data Effect (s s' : store.State) : Type 0 where
    same : s' ≡ s → Effect s s'
    deleted :
        trim_space ev.text ≡ utf8 "/clear" → s' ≡ (store.delete (session_key ev) s).1 → Effect s s'
    saved :
        (o : Option Session) (arg : Bytes)
        → arg ≡ trim_space (trim_prefix (trim_space ev.text) (utf8 "/model"))
        → has_prefix (trim_space ev.text) (utf8 "/model") ≡ true
        → desk.has_model arg ≡ true
        → store.get (session_key ev) s ≡ found o
        → s'
          ≡ (store.save
              (session_or (new_session desk ev) o).key
              (record (session_or (new_session desk ev) o) { provider = arg })
              s).state
        → Effect s s'

  state-cleared : (r : Option Bytes × store.State) → (cleared store desk ev r).1 ≡ r.1
  unfolding command
  state-cleared (none, s) = refl
  state-cleared (some e, s) = refl

  Effect-switch_in :
      (arg : Bytes) (g : GetResult) (s : store.State)
      → arg ≡ trim_space (trim_prefix (trim_space ev.text) (utf8 "/model"))
      → has_prefix (trim_space ev.text) (utf8 "/model") ≡ true
      → desk.has_model arg ≡ true
      → store.get (session_key ev) s ≡ g
      → Effect s (switch_in store desk ev arg g s).1
  unfolding command
  Effect-switch_in arg (failed e) s is p known g = same refl
  Effect-switch_in arg (found o) s is p known g = saved o arg is p known g refl

  Effect-switch_model :
      (arg : Bytes) (s : store.State)
      → arg ≡ trim_space (trim_prefix (trim_space ev.text) (utf8 "/model"))
      → has_prefix (trim_space ev.text) (utf8 "/model") ≡ true
      → Effect s (switch_model store desk ev arg s).1
  unfolding command
  Effect-switch_model [] s is p = same refl
  Effect-switch_model (c ∷ arg) s is p = elim (Bool-cases (desk.has_model (c ∷ arg))) [
    | inr e ↦ same (rw e)
    | inl e ↦ rw e (Effect-switch_in (c ∷ arg) (store.get (session_key ev) s) s is p e refl)
  ]

  Effect-command :
      (cmd : Bytes) (s : store.State)
      → cmd ≡ trim_space ev.text
      → Effect s (command store desk ev cmd s).1
  unfolding command
  Effect-command cmd s at = elim (Bool-cases (beq cmd (utf8 "/clear"))) [
    | inl a ↦
        deleted (sym at ∙ (beq_iff cmd (utf8 "/clear")).0 a)
          (rw a (state-cleared (store.delete (session_key ev) s)))
    | inr a ↦ elim (Bool-cases (beq cmd (utf8 "/help"))) [
      | inl b ↦ same (rw (a, b))
      | inr b ↦ elim (Bool-cases (has_prefix cmd (utf8 "/model"))) [
        | inl d ↦
            rw (a, b, d)
              (Effect-switch_model (trim_space (trim_prefix cmd (utf8 "/model"))) s
                (ap (λ t. trim_space (trim_prefix t (utf8 "/model"))) at)
                (ap (λ t. has_prefix t (utf8 "/model")) (sym at) ∙ d))
        | inr d ↦ elim (Bool-cases (beq cmd (utf8 "/tools"))) [
          | inl e ↦ same (rw (a, b, d, e))
          | inr e ↦ elim (Bool-cases (beq cmd (utf8 "/whoami"))) [
            | inl f ↦ same (rw (a, b, d, e, f))
            | inr f ↦ same (rw (a, b, d, e, f))
          ]
        ]
      ]
    ]
  ]

-- A slash command is answered; anything else is passed on with the store as it was.
pub dispatch_command-cases :
    (store : Store) (desk : Desk) (ev : MessageEvent) (s : store.State)
    → (is_command (trim_space ev.text) ≡ true) × ((dispatch_command store desk ev s).0 ≢ none)
      ⊎ (is_command (trim_space ev.text) ≡ false) × (dispatch_command store desk ev s ≡ (none, s))
unfolding dispatch_command
dispatch_command-cases store desk ev s = elim (Bool-cases (is_command (trim_space ev.text))) [
  | inl a ↦ inl (a, rw a (λ e. answered e))
  | inr a ↦ inr (a, rw a)
]
  where
    answered : {text : Bytes} → some text ≡ none → ⊥
    answered e = cc

-- A message changes the store only in two ways: /clear deletes the sender's session, and /model with a
-- registered alias behind it saves the sender's session, as it was stored or new, with that alias
-- under the key that it carries. Every other message, and a failed read, leaves the store as it was.
-- There is a reply exactly for a text that begins with a slash.
pub dispatch_command-Effect :
    (store : Store) (desk : Desk) (ev : MessageEvent) (s : store.State)
    → Effect store desk ev s (dispatch_command store desk ev s).1
      × (((dispatch_command store desk ev s).0 ≡ none) ↔ (is_command (trim_space ev.text) ≡ false))
unfolding dispatch_command
dispatch_command-Effect store desk ev s = elim (Bool-cases (is_command (trim_space ev.text))) [
  | inl a ↦ rw a (Effect-command store desk ev (trim_space ev.text) s refl, ground arith)
  | inr a ↦ rw a (same refl, ground arith)
]
