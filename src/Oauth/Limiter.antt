-- ===== src/Oauth/Limiter.antt =====
-- callbackLimiter of internal/oauth/server.go. Times are numbers of ticks, and
-- `t.After(now.Add(-window))` is a test on sums.
pub mod Window
pub mod Exact
use ssh_bot.Base.{
  ℕ, zero, suc, ◌+◌, ◌*◌, ◌≤◌, ◌<◌, ◌≡◌, refl, sym, ap, ◌∙◌, arith, Bool, true, false, ltb, leb,
  Bool-cases, inl, inr, Option, none, some, List, [], ◌∷◌, ◌++◌, if◌then◌else◌, Bytes, beq, length,
  select, Assoc, lookup, insert, remove, lookup-insert, length-append,
}

-- The burst and the window, which stay as they are.
pub record Limits : Type 0 where
  pub burst : ℕ
  pub window : ℕ
  -- five minutes
  pub scan_interval : ℕ

pub record CallbackLimiter : Type 0 where
  pub by_ip : Assoc (List ℕ)
  pub last_scan : ℕ

abbrev pub times_of : Option (List ℕ) → List ℕ
times_of none = []
times_of (some ts) = ts

module _ (l : Limits) where
  -- The times after the cutoff.
  pub recent : ℕ → List ℕ → List ℕ
  recent now [] = []
  recent now (t ∷ ts) =
      let rest = recent now ts in if ltb now (t + l.window) then t ∷ rest else rest

  -- delete(l.byIP, k), or l.byIP[k] = nts
  kept : Bytes → List ℕ → Assoc (List ℕ) → Assoc (List ℕ)
  kept ip [] m = remove ip m
  kept ip (t ∷ ts) m = (ip, t ∷ ts) ∷ m

  -- The loop that drops the old times and the addresses that have none left.
  scan : ℕ → Assoc (List ℕ) → Assoc (List ℕ)
  unfolding kept recent
  scan now [] = []
  scan now ((ip, ts) ∷ m) = kept ip (recent now ts) (scan now m)

  pub scanned : ℕ → CallbackLimiter → CallbackLimiter
  unfolding scan
  scanned now c =
      if ltb (c.last_scan + l.scan_interval) now
      then record { by_ip = scan now c.by_ip; last_scan = now }
      else c

  pub decided : ℕ → Bytes → List ℕ → CallbackLimiter → Bool × CallbackLimiter
  decided now ip ts c =
      if leb l.burst (length ts)
      then (false, record c { by_ip = insert ip ts c.by_ip })
      else (true, record c { by_ip = insert ip (ts ++ now ∷ []) c.by_ip })

  -- allow
  unfoldable pub allow : ℕ → Bytes → CallbackLimiter → Bool × CallbackLimiter
  unfolding scanned decided recent
  allow now ip c =
      let c' = scanned now c in decided now ip (recent now (times_of (lookup ip c'.by_ip))) c'
