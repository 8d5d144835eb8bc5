-- ===== src/Render/Feed/Final.antt =====
-- What has been sent when `Feed` of internal/render/renderer.go returns.
use ssh_bot.Base.{
  ℕ, ◌≡◌, ◌≢◌, ◌⊎◌, refl, ap, ◌∙◌, inl, inr, Bool, true, false, not, ◌&&◌, Option, none, some, List,
  [], ◌∷◌, ◌++◌, if◌then◌else◌, Bool-cases, Bytes, beq, length,
}
use ssh_bot.Llm.Types.{StreamEvent}
use ssh_bot.Render.Card.{StateSnapshot, snapshot}
use ssh_bot.Render.Feed.{
  Input, tick, event, closed, PatchResult, patched, rate_limited, refused, Renderer, drained,
  is_critical, answered, flush_body, flush, on_event, feed,
}
use ssh_bot.Render.State.{apply, apply_all}

-- Ticks and events alone: the channel is open and the context is live.
pub data IsOpen : List Input → List (ℕ × StreamEvent) → Type 0 where
  nil : IsOpen [] []
  tick_in :
      {ins : List Input} {evs : List (ℕ × StreamEvent)} → IsOpen ins evs → IsOpen (tick ∷ ins) evs
  event_in :
      {ins : List Input} {evs : List (ℕ × StreamEvent)} (now : ℕ) (ev : StreamEvent)
      → IsOpen ins evs
      → IsOpen (event now ev ∷ ins) ((now, ev) ∷ evs)

module _ (build : StateSnapshot → Option Bytes) (patch : ℕ → Bytes → PatchResult) where
  state-answered :
      (body : Bytes) (p : PatchResult) (r : Renderer)
      → (answered build patch body p r).state ≡ r.state
  unfolding flush
  state-answered body patched r = refl
  state-answered body rate_limited r = refl
  state-answered body refused r = refl

  state-flush_body :
      (force : Bool) (o : Option Bytes) (r : Renderer)
      → (flush_body build patch force o r).state ≡ r.state
  unfolding flush
  state-flush_body force none r = refl
  state-flush_body force (some body) r = elim (Bool-cases (not force && beq body r.last_snap)) [
    | inl e ↦ rw e
    | inr e ↦ rw e (
        state-answered body (patch (length r.patches) body)
          (record r { patches = r.patches ++ body ∷ [] }))
  ]

  state-flush : (force : Bool) (r : Renderer) → (flush build patch force r).state ≡ r.state
  unfolding flush
  state-flush force r = elim (Bool-cases (not r.dirty && not force)) [
    | inl e ↦ rw e
    | inr e ↦ rw e (state-flush_body force (build (snapshot r.state)) r)
  ]

  state-flush_if :
      (b : Bool) (r : Renderer) → (if b then flush build patch true r else r).state ≡ r.state
  state-flush_if true r = state-flush true r
  state-flush_if false r = refl

  state-on_event :
      (now : ℕ) (ev : StreamEvent) (r : Renderer)
      → (on_event build patch now ev r).state ≡ (apply now ev r.state).1
  unfolding on_event
  state-on_event now ev r = state-flush_if (is_critical ev) _ ∙ state-flush_if _ _

  and_false : (b : Bool) → (b && false) ≡ false
  and_false true = refl
  and_false false = refl

  patches-answered :
      (body : Bytes) (p : PatchResult) (r : Renderer)
      → ((answered build patch body p r).patches ≡ r.patches)
        × (p ≢ patched
            ⊎ ((answered build patch body p r).last_snap ≡ body)
              × ((answered build patch body p r).dirty ≡ false))
  unfolding flush
  patches-answered body patched r = (refl, inr (refl, refl))
  patches-answered body rate_limited r = (refl, inl (λ e. cc))
  patches-answered body refused r = (refl, inl (λ e. cc))

  -- A forced flush hands the card of the state to Patch, as the last body so far.
  flush_forced :
      (r : Renderer) (body : Bytes)
      → build (snapshot r.state) ≡ some body
      → ((flush build patch true r).patches ≡ r.patches ++ body ∷ [])
        × (patch (length r.patches) body ≢ patched
            ⊎ ((flush build patch true r).last_snap ≡ body)
              × ((flush build patch true r).dirty ≡ false))
  unfolding flush
  flush_forced r body h =
      rw (and_false, h)
        (patches-answered body (patch (length r.patches) body)
          (record r { patches = r.patches ++ body ∷ [] }))

  -- However ticks and events are interleaved, when the channel closes Feed returns nil, the state
  -- is that of all the events, and the last body handed to Patch is the card of that state; either
  -- Patch did not take it, or nothing is left to send.
  pub feed-closed :
      (ins : List Input) (evs : List (ℕ × StreamEvent)) (r : Renderer) (body : Bytes)
      → IsOpen ins evs
      → build (snapshot (apply_all evs r.state)) ≡ some body
      → (sent : List Bytes) × ((feed build patch (ins ++ closed ∷ []) r).0 ≡ drained)
        × ((feed build patch (ins ++ closed ∷ []) r).1.state ≡ apply_all evs r.state)
        × ((feed build patch (ins ++ closed ∷ []) r).1.patches ≡ sent ++ body ∷ [])
        × (patch (length sent) body ≢ patched
            ⊎ ((feed build patch (ins ++ closed ∷ []) r).1.last_snap ≡ body)
              × ((feed build patch (ins ++ closed ∷ []) r).1.dirty ≡ false))
  unfolding feed apply_all
  feed-closed ins evs r body nil h =
      let last = flush_forced r body h in (r.patches, refl, state-flush true r, last.0, last.1)
  feed-closed ins evs r body (tick_in {ins = rest} o) h =
      let r' = flush build patch false r in
      let same = ap (apply_all evs) (state-flush false r) in
      let (sent, over, state, sends, last) =
        feed-closed rest evs r' body o (ap (λ s. build (snapshot s)) same ∙ h) in
      (sent, over, state ∙ same, sends, last)
  feed-closed ins evs r body (event_in {ins = rest} {evs = more} now ev o) h =
      let r' = on_event build patch now ev r in
      let same = ap (apply_all more) (state-on_event now ev r) in
      let (sent, over, state, sends, last) =
        feed-closed rest more r' body o (ap (λ s. build (snapshot s)) same ∙ h) in
      (sent, over, state ∙ same, sends, last)
