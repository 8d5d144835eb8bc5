-- ===== src/Lark/Handler/Locked.antt =====
-- What `Handle` of internal/lark/handler.go does under its lock, and what it does without.
use ssh_bot.Agent.Turn.{RunError}
use ssh_bot.Base.{
  ℕ, ◌+◌, ◌≡◌, ◌≢◌, refl, sym, subst, ◌⊎◌, true, false, not, ◌&&◌, Bool-cases, inl, inr, Option,
  none, some, List, [], ◌∷◌, ◌++◌, Bytes, utf8, beq, trim_space, All, arith,
}
use ssh_bot.Lark.Commands.Effects.{Effect, dispatch_command-Effect, dispatch_command-cases}
use ssh_bot.Lark.Commands.{dispatch_command}
use ssh_bot.Lark.Handler.{
  Action, replied, messaged, locked, released, carded, ran, marked, stopped, threaded, Answers,
  Done, thread_replies, finished, with_card, session_of, with_session, at_lock, send_reply,
  at_command, handle, is_blank,
}
use ssh_bot.Lark.Parser.{MessageEvent, session_key, is_command}
use ssh_bot.Session.Lock.{Acquired, acquired, busy, failed}
use ssh_bot.Session.Store
use ssh_bot.Session.Store.{Store, GetResult, found}
use ssh_bot.Session.{Session}

-- A message to the chat.
abbrev pub IsTalk : Action → Type 0
IsTalk (replied t) = Unit
IsTalk (messaged t) = Unit
IsTalk (locked k t) = ⊥
IsTalk (released k t) = ⊥
IsTalk carded = ⊥
IsTalk (ran s t) = ⊥
IsTalk (marked t) = ⊥
IsTalk stopped = ⊥
IsTalk (threaded t) = ⊥

-- Anything but the lock.
abbrev pub IsWork : Action → Type 0
IsWork (locked k t) = ⊥
IsWork (released k t) = ⊥
IsWork (replied t) = Unit
IsWork (messaged t) = Unit
IsWork carded = Unit
IsWork (ran s t) = Unit
IsWork (marked t) = Unit
IsWork stopped = Unit
IsWork (threaded t) = Unit

-- How many turns the agent was given.
abbrev pub runs : List Action → ℕ
runs [] = 0
runs (ran s t ∷ acts) = 1 + runs acts
runs (_ ∷ acts) = runs acts

module _ (store : Store) (a : Answers store) (ev : MessageEvent) where
  thread_replies-IsWork :
      (ps : List Bytes)
      → All IsWork (thread_replies store a ev ps) × (runs (thread_replies store a ev ps) ≡ 0)
  unfolding handle
  thread_replies-IsWork [] = (tt, refl)
  thread_replies-IsWork (p ∷ ps) = elim (Bool-cases (a.reply_fails p)) [
    | inl e ↦ rw e ((tt, tt), refl)
    | inr e ↦ let (h, n) = thread_replies-IsWork ps in rw e ((tt, h), n)
  ]

  finished-IsWork :
      (o : Option RunError × store.State)
      → All IsWork (finished store a ev o).acts
        × (runs (finished store a ev o).acts ≡ 0)
        × ((finished store a ev o).state ≡ o.1)
  unfolding handle
  finished-IsWork (some e, s) = ((tt, (tt, tt)), refl, refl)
  finished-IsWork (none, s) = let (h, n) = thread_replies-IsWork a.long_parts in ((tt, h), n, refl)

  -- The work under the lock: no turn, and the store as it was, or one turn, and what it leaves.
  pub data Working (s : store.State) (acts : List Action) (s' : store.State) : Type 0 where
    no_turn : All IsWork acts → runs acts ≡ 0 → s' ≡ s → Working s acts s'
    one_turn :
        (sess : Session)
        → All IsWork acts
        → runs acts ≡ 1
        → s' ≡ (a.run sess ev.text s).1
        → Working s acts s'

  with_card-Working :
      (sess : Session) (o : Option Bytes) (s : store.State)
      → Working s (with_card store a ev sess o s).acts (with_card store a ev sess o s).state
  unfolding handle
  with_card-Working sess (some e) s = no_turn (tt, tt) refl refl
  with_card-Working sess none s =
      let (h, n, same) = finished-IsWork (a.run sess ev.text s) in
      one_turn sess (tt, (tt, h)) (omega (arith, n)) same

  with_session-Working :
      (g : GetResult) (s : store.State)
      → Working s (with_session store a ev g s).acts (with_session store a ev g s).state
  unfolding handle
  with_session-Working (Store.failed e) s = no_turn (tt, tt) refl refl
  with_session-Working (found o) s =
      elim (Bool-cases (a.resolves (session_of store a ev o).provider)) [
        | inl e ↦ rw e (with_card-Working (session_of store a ev o) a.initial_card s)
        | inr e ↦ rw e (no_turn (tt, tt) refl refl)
      ]

  -- What a call does and leaves of the store in state `s`. Without the lock it talks, and leaves the
  -- store or does to it what the command does; with the lock, it works between taking the lock and one
  -- Release of the same key and token, which is the last thing done.
  pub data Balanced (s : store.State) (d : Done store) : Type 0 where
    talk : All IsTalk d.acts → d.state ≡ s → Balanced s d
    commanded :
        is_command (trim_space ev.text) ≡ true
        → All IsTalk d.acts
        → Effect store a.desk ev s d.state
        → Balanced s d
    work :
        (token : Bytes) (mid : List Action)
        → is_command (trim_space ev.text) ≡ false
        → a.lock ≡ acquired token
        → Working s mid d.state
        → d.acts ≡ locked (session_key ev) token ∷ mid ++ released (session_key ev) token ∷ []
        → Balanced s d

  at_lock-Balanced :
      (l : Acquired) (s : store.State)
      → is_command (trim_space ev.text) ≡ false
      → a.lock ≡ l
      → Balanced s (at_lock store a ev l s)
  unfolding handle
  at_lock-Balanced (failed e) s c h = talk (tt, tt) refl
  at_lock-Balanced busy s c h = talk (tt, tt) refl
  at_lock-Balanced (acquired token) s c h =
      let g = store.get (session_key ev) s in
      work token (with_session store a ev g s).acts c h (with_session-Working g s) refl

  send_reply-IsTalk :
      (text : Bytes) (s : store.State)
      → All IsTalk (send_reply store a ev text s).acts × ((send_reply store a ev text s).state ≡ s)
  unfolding handle
  send_reply-IsTalk [] s = (tt, refl)
  send_reply-IsTalk (c ∷ text) s = ((tt, tt), refl)

  at_command-Balanced :
      (r : Option Bytes × store.State) (s : store.State)
      → Effect store a.desk ev s r.1
      → (is_command (trim_space ev.text) ≡ true) × (r.0 ≢ none)
        ⊎ (is_command (trim_space ev.text) ≡ false) × (r ≡ (none, s))
      → Balanced s (at_command store a ev r)
  unfolding handle
  at_command-Balanced (some text, s') s e (inl (c, n)) =
      let (t, same) = send_reply-IsTalk text s' in
      commanded c t (subst (λ x. Effect store a.desk ev s x) (sym same) e)
  at_command-Balanced (none, s') s e (inl (c, n)) = absurd (n refl)
  at_command-Balanced r s e (inr (c, none_is)) =
      subst (λ x. Balanced s (at_command store a ev x)) (sym none_is)
        (at_lock-Balanced a.lock s c refl)

  -- Whatever is answered, Handle does one of three things. It only sends messages to the chat, if any,
  -- and leaves the store. Or the message is a slash command: without the lock it leaves the store,
  -- deletes the sender's session (/clear) or saves it under a known model (/model), and only sends
  -- messages. Or it takes the lock of the sender's session first and ends with the release of that lock
  -- with the same token: no path returns with the lock held, none releases it twice, and the agent gets
  -- at most one turn, under the lock, the only thing there that changes the store.
  pub handle-Balanced : (s : store.State) → Balanced s (handle store a ev s)
  unfolding handle
  handle-Balanced s =
      elim (Bool-cases (not (beq ev.chat_type (utf8 "p2p")) && not ev.mentioned_bot)) [
        | inl e ↦ rw e (talk tt refl)
        | inr e ↦ elim (Bool-cases (is_blank store a ev)) [
          | inl b ↦ rw (e, b) (talk tt refl)
          | inr b ↦
              rw (e, b)
                (at_command-Balanced (dispatch_command store a.desk ev s) s
                  (dispatch_command-Effect store a.desk ev s).0
                  (dispatch_command-cases store a.desk ev s))
        ]
      ]
