-- ===== src/Session/Lock/Exclusion.antt =====
-- Mutual exclusion by the lock of internal/session/lock.go, over any client with the documented
-- behaviour of SET NX, GET and DEL.
use ssh_bot.Base.{
  beq, ℕ, ◌≡◌, ◌≢◌, ◌⊎◌, refl, sym, ap, ◌∙◌, Option, none, some, [], arith, ◌==◌, if◌then◌else◌,
  Bytes, beq_iff, Bool-cases, Option-cases, inl, inr,
}
use ssh_bot.Session.Lock.{
  LockRedis, Answer, was_set, was_held, no_answer, Acquired, acquired, busy, failed, lock_redis_key,
  try_acquire, release, script_on, answered,
}

-- SET NX sets a key that is absent and leaves one that is present; after an error it may or may not
-- have set a key that was absent. DEL removes a key.
pub record IsLockRedis (redis : LockRedis) : Type 0 where
  pub nx_set :
      (k t : Bytes) (ttl : ℕ) (s : redis.State)
      → (redis.set_nx k t ttl s).0 ≡ was_set
      → (redis.value k s ≡ none) × (redis.value k (redis.set_nx k t ttl s).1 ≡ some t)
  pub nx_held :
      (k t : Bytes) (ttl : ℕ) (s : redis.State)
      → (redis.set_nx k t ttl s).0 ≡ was_held
      → redis.value k (redis.set_nx k t ttl s).1 ≡ redis.value k s
  pub nx_error :
      (k t : Bytes) (ttl : ℕ) (s : redis.State) (e : Bytes)
      → (redis.set_nx k t ttl s).0 ≡ no_answer e
      → (redis.value k (redis.set_nx k t ttl s).1 ≡ redis.value k s)
        ⊎ (redis.value k s ≡ none) × (redis.value k (redis.set_nx k t ttl s).1 ≡ some t)
  pub del_value : (k : Bytes) (s : redis.State) → redis.value k (redis.del k s) ≡ none

module _ (redis : LockRedis) (laws : IsLockRedis redis) (key : Bytes) (ttl : ℕ) where
  -- The token that each worker holds, as it believes, and the server's state.
  pub record World : Type 0 where
    pub holds : ℕ → Option Bytes
    pub server : redis.State

  abbrev held : World → Option Bytes
  held w = redis.value (lock_redis_key key) w.server

  script_stale :
      (v : Option Bytes) (token : Bytes) (s : redis.State)
      → v ≢ some token
      → script_on redis v (lock_redis_key key) token s ≡ s
  unfolding release
  script_stale none token s ne = refl
  script_stale (some u) token s ne = ground (arith, beq_iff u token)

  -- A release with another token than the stored one leaves the server as it is, whatever the script's
  -- run answers.
  release_stale :
      (token : Bytes) (s : redis.State)
      → redis.value (lock_redis_key key) s ≢ some token
      → (release redis key token s).1 ≡ s
  unfolding release
  release_stale token s ne =
      let stale = script_stale (redis.value (lock_redis_key key) s) token s ne in
      elim (Bool-cases (beq token [])) [
        | inl e ↦ rw e
        | inr e ↦ elim (Bool-cases (redis.eval (lock_redis_key key) token s).1) [
          | inl x ↦ rw (e, x) stale
          | inr x ↦ rw (e, x)
        ]
      ]

  abbrev update : (ℕ → Option Bytes) → ℕ → Option Bytes → ℕ → Option Bytes
  update f p v q = if q == p then v else f q

  -- What worker `p` makes of the answer to TryAcquire.
  unfoldable pub entered : World → ℕ → Acquired × redis.State → World
  entered w p (acquired t, s) = record { holds = update w.holds p (some t); server = s }
  entered w p (busy, s) = record { holds = w.holds; server = s }
  entered w p (failed e, s) = record { holds = w.holds; server = s }

  unfoldable pub left : World → ℕ → Bytes → World
  left w p t = record { holds = update w.holds p none; server = (release redis key t w.server).1 }

  -- Workers acquire and release in any order, and no key expires.
  pub data Step : World → World → Type 0 where
    enter :
        (w : World) (p : ℕ) (t : Bytes)
        → w.holds p ≡ none
        → Step w (entered w p (try_acquire redis key ttl (some t) w.server))
    leave : (w : World) (p : ℕ) (t : Bytes) → w.holds p ≡ some t → Step w (left w p t)

  pub data Reach (w : World) : World → Type 0 where
    here : Reach w w
    next : {u v : World} → Reach w u → Step u v → Reach w v

  record IsExclusive (w : World) : Type 0 where
    stored : (p : ℕ) (t : Bytes) → w.holds p ≡ some t → held w ≡ some t
    alone : (p q : ℕ) (t u : Bytes) → w.holds p ≡ some t → w.holds q ≡ some u → p ≡ q

  -- What the laws say of the key after each answer.
  abbrev After : World → Bytes → Answer → redis.State → Type 0
  After w t was_set s' = (held w ≡ none) × (redis.value (lock_redis_key key) s' ≡ some t)
  After w t was_held s' = redis.value (lock_redis_key key) s' ≡ held w
  After w t (no_answer e) s' =
      (redis.value (lock_redis_key key) s' ≡ held w)
      ⊎ (held w ≡ none) × (redis.value (lock_redis_key key) s' ≡ some t)

  answered-IsExclusive :
      (w : World) (p : ℕ) (t : Bytes) (a : Answer) (s' : redis.State)
      → IsExclusive w
      → After w t a s'
      → IsExclusive (entered w p (answered redis t a, s'))
  unfolding entered try_acquire
  answered-IsExclusive w p t was_set s' inv fresh = record {
    stored = λ q u h. ground (arith, fresh, inv.stored q u);
    alone = λ q r u v h k. ground (arith, fresh, inv.stored q u, inv.stored r v);
  }
  answered-IsExclusive w p t was_held s' inv same = record {
    stored = λ q u h. same ∙ inv.stored q u h;
    alone = inv.alone;
  }
  answered-IsExclusive w p t (no_answer e) s' inv (inl same) = record {
    stored = λ q u h. same ∙ inv.stored q u h;
    alone = inv.alone;
  }
  answered-IsExclusive w p t (no_answer e) s' inv (inr fresh) = record {
    stored = λ q u h. ground (arith, fresh, inv.stored q u);
    alone = inv.alone;
  }

  set_nx-After :
      (w : World) (t : Bytes) (life : ℕ) (a : Answer)
      → (redis.set_nx (lock_redis_key key) t life w.server).0 ≡ a
      → After w t a (redis.set_nx (lock_redis_key key) t life w.server).1
  set_nx-After w t life was_set e = laws.nx_set (lock_redis_key key) t life w.server e
  set_nx-After w t life was_held e = laws.nx_held (lock_redis_key key) t life w.server e
  set_nx-After w t life (no_answer m) e = laws.nx_error (lock_redis_key key) t life w.server m e

  entered-IsExclusive :
      (w : World) (p : ℕ) (t : Bytes)
      → IsExclusive w
      → IsExclusive (entered w p (try_acquire redis key ttl (some t) w.server))
  unfolding try_acquire
  entered-IsExclusive w p t inv =
      let life = if ttl == 0 then 60 else ttl in
      answered-IsExclusive w p t _ _ inv (set_nx-After w t life _ refl)

  left-IsExclusive :
      (w : World) (p : ℕ) (t : Bytes)
      → w.holds p ≡ some t
      → IsExclusive w
      → IsExclusive (left w p t)
  unfolding left
  left-IsExclusive w p t h inv = record {
    stored = λ q u k. ground (arith, inv.alone p q t u h);
    alone = λ q r u v k l. ground (arith, inv.alone q r u v);
  }

  Reach-IsExclusive : {w v : World} → IsExclusive w → Reach w v → IsExclusive v
  Reach-IsExclusive inv here = inv
  Reach-IsExclusive inv (next r (enter w p t h)) =
      entered-IsExclusive w p t (Reach-IsExclusive inv r)
  Reach-IsExclusive inv (next r (leave w p t h)) =
      left-IsExclusive w p t h (Reach-IsExclusive inv r)

  -- As long as no key expires, while one worker believes to hold the lock no other worker does, from
  -- any world in which nobody holds it, whatever acquires and releases happened, among them those that
  -- failed and of which the client cannot know whether the server has carried them out.
  pub Reach-alone :
      {w v : World}
      → ((p : ℕ) → w.holds p ≡ none)
      → Reach w v
      → (p q : ℕ) (t : Bytes) → v.holds p ≡ some t
      → p ≢ q
      → v.holds q ≡ none
  Reach-alone {v = v} idle r p q t h ne =
      let inv =
        Reach-IsExclusive
          (record {
            stored = λ p t h. ground (arith, idle p);
            alone = λ p q t u h k. ground (arith, idle p);
          })
          r in
      elim (Option-cases (v.holds q)) [
        | inl e ↦ e
        | inr (u, e) ↦ absurd (ne (inv.alone p q t u h e))
      ]

  -- When the key has expired, a second worker can enter while the first still believes to hold the
  -- lock. The first one's release then leaves the second's lock alone.
  pub expired_overlap :
      (w : World) (p q : ℕ) (t u : Bytes) (s : redis.State)
      → w.holds p ≡ some t
      → p ≢ q
      → t ≢ u
      → (redis.set_nx (lock_redis_key key) u (if ttl == 0 then 60 else ttl) s).0 ≡ was_set
      → ((entered (record w { server = s }) q (try_acquire redis key ttl (some u) s)).holds p
          ≡ some t)
        × ((entered (record w { server = s }) q (try_acquire redis key ttl (some u) s)).holds q
            ≡ some u)
        × (held (
              left (entered (record w { server = s }) q (try_acquire redis key ttl (some u) s)) p t)
            ≡ some u)
  unfolding entered left try_acquire
  expired_overlap w p q t u s h ne fresh set =
      let s' = (redis.set_nx (lock_redis_key key) u (if ttl == 0 then 60 else ttl) s).1 in
      let stored = (laws.nx_set (lock_redis_key key) u _ s set).1 in
      let stale : (release redis key t s').1 ≡ s' =
        release_stale t s' (λ e. fresh (cc (sym e ∙ stored))) in
      (
        rw set (ground arith),
        rw set (ground arith),
        rw set (ap (redis.value (lock_redis_key key)) stale ∙ stored),
      )
