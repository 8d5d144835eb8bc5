-- ===== src/Oauth/Limiter/Exact.antt =====
-- The limiter of internal/oauth/server.go beside one that keeps every admission for ever.
use ssh_bot.Base.{ℕ, ◌≤◌, ◌≡◌, arith, Bool, not, leb, Bool-cases, inl, inr, List, Bytes, length}
use ssh_bot.Oauth.Limiter.Window.{Ran, scanned-Tracks, Ran-Tracks}
use ssh_bot.Oauth.Limiter.{Limits, CallbackLimiter, recent, scanned, decided, allow}

module _ (l : Limits) where
  -- The sliding window over all admissions of the address.
  abbrev pub admits : ℕ → List ℕ → Bool
  admits now admitted = not (leb l.burst (length (recent l now admitted)))

  decision-decided :
      (now : ℕ) (ip : Bytes) (ts : List ℕ) (c : CallbackLimiter)
      → (decided l now ip ts c).0 ≡ not (leb l.burst (length ts))
  unfolding allow
  decision-decided now ip ts c = elim (Bool-cases (leb l.burst (length ts))) [
    | inl e ↦ rw e
    | inr e ↦ rw e
  ]

  -- After any calls in order of time, the limiter, which drops old times and whole addresses as it
  -- goes, lets a call through exactly where fewer than `burst` of all the admissions of its address
  -- so far are younger than the window.
  pub decision-allow :
      (ip : Bytes) (before now : ℕ) (admitted : List ℕ) (c : CallbackLimiter)
      → Ran l ip before admitted c
      → before ≤ now
      → (allow l now ip c).0 ≡ admits now admitted
  unfolding allow
  decision-allow ip before now admitted c r h =
      let t = scanned-Tracks l ip before now admitted c h (Ran-Tracks l r) in
      rw (t.stored now (omega arith))
        (decision-decided now ip (recent l now admitted) (scanned l now c))
