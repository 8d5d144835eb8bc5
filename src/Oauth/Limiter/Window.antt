-- ===== src/Oauth/Limiter/Window.antt =====
-- What the limiter of internal/oauth/server.go admits in a window.
use ssh_bot.Base.{
  ℕ, ◌+◌, ◌≤◌, ◌≡◌, refl, sym, ap, ◌∙◌, arith, false, ◌&&◌, ltb, leb, ltb_false→le, le→ltb_false,
  leb_false→lt, Bool-cases, inl, inr, List, [], ◌∷◌, ◌++◌, if◌then◌else◌, Bytes, beq, beq_iff,
  length, Assoc, lookup, insert, lookup-insert, lookup-remove, length-append, subst,
}
use ssh_bot.Oauth.Limiter.{
  Limits, CallbackLimiter, times_of, recent, kept, scan, scanned, decided, allow,
}

module _ (l : Limits) where
  recent-append :
      (now : ℕ) (xs ys : List ℕ) → recent l now (xs ++ ys) ≡ recent l now xs ++ recent l now ys
  unfolding recent
  recent-append now [] ys = refl
  recent-append now (x ∷ xs) ys = elim (Bool-cases (ltb now (x + l.window))) [
    | inl e ↦ rw e (ap (λ zs. x ∷ zs) (recent-append now xs ys))
    | inr e ↦ rw e (recent-append now xs ys)
  ]

  recent_twice : (a b : ℕ) (xs : List ℕ) → a ≤ b → recent l b (recent l a xs) ≡ recent l b xs
  unfolding recent
  recent_twice a b [] h = refl
  recent_twice a b (x ∷ xs) h = elim (Bool-cases (ltb a (x + l.window))) [
    | inl e ↦ elim (Bool-cases (ltb b (x + l.window))) [
      | inl f ↦ rw (e, f) (ap (λ zs. x ∷ zs) (recent_twice a b xs h))
      | inr f ↦ rw (e, f) (recent_twice a b xs h)
    ]
    | inr e ↦
        let late : ltb b (x + l.window) ≡ false =
          le→ltb_false _ _ (omega (arith, ltb_false→le _ _ e)) in
        rw (e, late) (recent_twice a b xs h)
  ]

  length-recent : (a b : ℕ) (xs : List ℕ) → a ≤ b → length (recent l b xs) ≤ length (recent l a xs)
  unfolding recent
  length-recent a b [] h = omega arith
  length-recent a b (x ∷ xs) h =
      let rest = length-recent a b xs h in
      elim (Bool-cases (ltb a (x + l.window))) [
        | inl e ↦ elim (Bool-cases (ltb b (x + l.window))) [
          | inl f ↦ rw (e, f) (omega (arith, rest))
          | inr f ↦ rw (e, f) (omega (arith, rest))
        ]
        | inr e ↦
            let late : ltb b (x + l.window) ≡ false =
              le→ltb_false _ _ (omega (arith, ltb_false→le _ _ e)) in
            rw (e, late) rest
      ]

  lookup-kept :
      (ip j : Bytes) (ts : List ℕ) (m : Assoc (List ℕ))
      → times_of (lookup j (kept l ip ts m)) ≡ (if beq ip j then ts else times_of (lookup j m))
  unfolding scan lookup
  lookup-kept ip j [] m = elim (Bool-cases (beq ip j)) [
    | inl e ↦ rw (lookup-remove ip j m, e)
    | inr e ↦ rw (lookup-remove ip j m, e)
  ]
  lookup-kept ip j (t ∷ ts) m = elim (Bool-cases (beq ip j)) [ inl e ↦ rw e | inr e ↦ rw e ]

  -- The scan forgets nothing but old times.
  lookup-scan :
      (now : ℕ) (j : Bytes) (m : Assoc (List ℕ))
      → times_of (lookup j (scan l now m)) ≡ recent l now (times_of (lookup j m))
  unfolding scan lookup
  lookup-scan now j [] = refl
  lookup-scan now j ((ip, ts) ∷ m) =
      lookup-kept ip j (recent l now ts) (scan l now m)
      ∙ elim (Bool-cases (beq ip j)) [ inl e ↦ rw e | inr e ↦ rw e (lookup-scan now j m) ]

  recent-scanned :
      (now later : ℕ) (j : Bytes) (c : CallbackLimiter)
      → now ≤ later
      → recent l later (times_of (lookup j (scanned l now c).by_ip))
        ≡ recent l later (times_of (lookup j c.by_ip))
  unfolding allow
  recent-scanned now later j c h = elim (Bool-cases (ltb (c.last_scan + l.scan_interval) now)) [
    | inl e ↦ rw e (
        ap (recent l later) (lookup-scan now j c.by_ip)
        ∙ recent_twice now later (times_of (lookup j c.by_ip)) h)
    | inr e ↦ rw e
  ]

  -- Calls for any addresses at times that do not go back; `admitted` lists the times at which one
  -- address was let through.
  pub data Ran (ip : Bytes) : (now : ℕ) (admitted : List ℕ) → CallbackLimiter → Type 0 where
    none_yet : Ran ip 0 [] (record { by_ip = []; last_scan = 0 })
    called :
        {before : ℕ} {admitted : List ℕ} {c : CallbackLimiter} (now : ℕ) (caller : Bytes)
        → before ≤ now
        → Ran ip before admitted c
        → Ran ip now
            (if beq caller ip && (allow l now caller c).0 then admitted ++ now ∷ [] else admitted)
            (allow l now caller c).1

  -- The stored times of the address are its admitted ones, as far as a window can still see.
  pub record Tracks (ip : Bytes) (now : ℕ) (admitted : List ℕ) (c : CallbackLimiter) : Type 0 where
    pub stored :
        (later : ℕ)
        → now ≤ later
        → recent l later (times_of (lookup ip c.by_ip)) ≡ recent l later admitted
    pub few : length (recent l now admitted) ≤ l.burst

  times-insert :
      (k j : Bytes) (ts : List ℕ) (m : Assoc (List ℕ))
      → times_of (lookup j (insert k ts m)) ≡ (if beq k j then ts else times_of (lookup j m))
  times-insert k j ts m = elim (Bool-cases (beq k j)) [
    | inl e ↦ rw (lookup-insert k j ts m, e)
    | inr e ↦ rw (lookup-insert k j ts m, e)
  ]

  recent_one : (now : ℕ) → length (recent l now (now ∷ [])) ≤ 1
  unfolding recent
  recent_one now = elim (Bool-cases (ltb now (now + l.window))) [
    | inl e ↦ rw e (omega arith)
    | inr e ↦ rw e (omega arith)
  ]

  own-Tracks :
      (ip : Bytes) (now : ℕ) (admitted : List ℕ) (c : CallbackLimiter)
      → length (recent l now admitted) ≤ l.burst
      → Tracks ip now
          (if (decided l now ip (recent l now admitted) c).0
            then admitted ++ now ∷ []
            else admitted)
          (decided l now ip (recent l now admitted) c).1
  unfolding allow
  own-Tracks ip now admitted c few =
      let ts = recent l now admitted in
      let self = (beq_iff ip ip).1 refl in
      elim (Bool-cases (leb l.burst (length ts))) [
        | inl full ↦ rw full (record {
          stored = λ later h.
              ap (recent l later) (rw (times-insert ip ip ts c.by_ip, self))
              ∙ recent_twice now later admitted h;
          few = few;
        })
        | inr room ↦ rw room (record {
          stored = λ later h.
              ap (recent l later) (rw (times-insert ip ip (ts ++ now ∷ []) c.by_ip, self))
              ∙ recent-append later ts (now ∷ [])
              ∙ ap (λ xs. xs ++ recent l later (now ∷ [])) (recent_twice now later admitted h)
              ∙ sym (recent-append later admitted (now ∷ []));
          few =
              subst (λ xs. length xs ≤ l.burst) (sym (recent-append now admitted (now ∷ [])))
                (omega (
                  arith,
                  length-append ts (recent l now (now ∷ [])),
                  recent_one now,
                  leb_false→lt l.burst (length ts) room,
                ));
        })
      ]

  other-Tracks :
      (ip caller : Bytes) (now : ℕ) (admitted ts : List ℕ) (c : CallbackLimiter)
      → beq caller ip ≡ false
      → Tracks ip now admitted c
      → Tracks ip now admitted (decided l now caller ts c).1
  unfolding allow
  other-Tracks ip caller now admitted ts c other t = elim (Bool-cases (leb l.burst (length ts))) [
    | inl full ↦ rw full (record {
      stored = λ later h.
          ap (recent l later) (rw (times-insert caller ip ts c.by_ip, other)) ∙ t.stored later h;
      few = t.few;
    })
    | inr room ↦ rw room (record {
      stored = λ later h.
          ap (recent l later) (rw (times-insert caller ip (ts ++ now ∷ []) c.by_ip, other))
          ∙ t.stored later h;
      few = t.few;
    })
  ]

  -- The scan at the start of a call, and the time going on.
  pub scanned-Tracks :
      (ip : Bytes) (before now : ℕ) (admitted : List ℕ) (c : CallbackLimiter)
      → before ≤ now
      → Tracks ip before admitted c
      → Tracks ip now admitted (scanned l now c)
  scanned-Tracks ip before now admitted c h t = record {
    stored = λ later k. recent-scanned now later ip c k ∙ t.stored later (omega (arith, h, k));
    few = omega (arith, length-recent before now admitted h, t.few);
  }

  called-Tracks :
      (ip : Bytes) (before now : ℕ) (admitted : List ℕ) (c : CallbackLimiter) (caller : Bytes)
      → before ≤ now
      → Tracks ip before admitted c
      → Tracks ip now
          (if beq caller ip && (allow l now caller c).0 then admitted ++ now ∷ [] else admitted)
          (allow l now caller c).1
  unfolding allow
  called-Tracks ip before now admitted c caller h t =
      let s = scanned-Tracks ip before now admitted c h t in
      elim (Bool-cases (beq caller ip)) [
        | inr other ↦ rw other (other-Tracks ip caller now admitted _ (scanned l now c) other s)
        | inl own ↦
            let same = (beq_iff caller ip).0 own in
            rw (own, same, s.stored now (omega arith))
              (own-Tracks ip now admitted (scanned l now c) s.few)
      ]

  pub Ran-Tracks :
      {ip : Bytes} {now : ℕ} {admitted : List ℕ} {c : CallbackLimiter}
      → Ran ip now admitted c
      → Tracks ip now admitted c
  unfolding recent lookup
  Ran-Tracks none_yet = record { stored = λ later h. refl; few = omega arith }
  Ran-Tracks {ip} (called {before} {admitted} {c} now caller h r) =
      called-Tracks ip before now admitted c caller h (Ran-Tracks r)
