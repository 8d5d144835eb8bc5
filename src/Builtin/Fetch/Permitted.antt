-- ===== src/Builtin/Fetch/Permitted.antt =====
-- When the robots.txt of a host allows a URL, in disallowedByRobots of internal/tool/builtin/web_fetch.go.
use ssh_bot.Base.{
  ◌≤◌, ◌≡◌, refl, arith, ◌⊎◌, true, false, Bool-cases, inl, inr, none, some, List, [], ◌∷◌, ◌++◌,
  if◌then◌else◌, Bytes, utf8, beq, has_prefix, trim_space, length, take, drop, ltb, split_lines,
  All,
}
use ssh_bot.Builtin.Fetch.{
  Target, Answer, no_response, response, Web, is_empty, Robots, allowed, blocked, robots_failed,
  robots_read, forbids, any_forbids, call,
}

module _ (web : Web) where
  abbrev pub robots_of : Target → Bytes
  robots_of t = t.scheme ++ utf8 "://" ++ t.host ++ utf8 "/robots.txt"

  -- What a line of robots.txt disallows, "" for a line that disallows nothing.
  abbrev pub disallowed : Bytes → Bytes
  disallowed text =
      if has_prefix (web.to_lower (trim_space text)) (utf8 "disallow:")
      then trim_space (drop (length (utf8 "disallow:")) (trim_space text))
      else []

  abbrev pub path_of : Target → Bytes
  path_of t = if beq t.escaped_path [] then utf8 "/" else t.escaped_path

  -- No line disallows a prefix of the path.
  abbrev pub IsFree : Target → List Bytes → Type 0
  IsFree t lines =
      All (λ l. (disallowed l ≡ []) ⊎ (has_prefix (path_of t) (disallowed l) ≡ false)) lines

  -- The answer for robots.txt allows the URL: there is none, its status is 400 or more, or its first
  -- 262144 bytes were read and have no line against the path.
  abbrev pub Permits : Target → Answer → Type 0
  Permits t (no_response e) = Unit
  Permits t (response status body (some e)) = 400 ≤ status
  Permits t (response status body none) = (400 ≤ status) ⊎ IsFree t (split_lines (take 262144 body))

  forbids-free :
      (t : Target) (l : Bytes)
      → forbids web (path_of t) l ≡ false
      → (disallowed l ≡ []) ⊎ (has_prefix (path_of t) (disallowed l) ≡ false)
  unfolding call
  forbids-free t l h =
      elim (Bool-cases (has_prefix (web.to_lower (trim_space l)) (utf8 "disallow:"))) [
        | inr e ↦ inl (rw e)
        | inl e ↦ by_rule e (trim_space (drop (length (utf8 "disallow:")) (trim_space l))) refl
      ]
    where
      by_rule :
          has_prefix (web.to_lower (trim_space l)) (utf8 "disallow:") ≡ true
          → (rule : Bytes) → trim_space (drop (length (utf8 "disallow:")) (trim_space l)) ≡ rule
          → (disallowed l ≡ []) ⊎ (has_prefix (path_of t) (disallowed l) ≡ false)
      by_rule e [] r = inl (rw e r)
      by_rule e (c ∷ rule) r = inr (rw (e, r) (rw (e, r) at h))

  any_forbids-IsFree :
      (t : Target) (lines : List Bytes) → any_forbids web (path_of t) lines ≡ false → IsFree t lines
  unfolding call
  any_forbids-IsFree t [] h = tt
  any_forbids-IsFree t (l ∷ lines) h = elim (Bool-cases (forbids web (path_of t) l)) [
    | inl e ↦ absurd (clash (rw e at h))
    | inr e ↦ (forbids-free t l e, any_forbids-IsFree t lines (rw e at h))
  ]
    where
      clash : true ≡ false → ⊥
      clash x = cc

  path_lem :
      (t : Target) → (if is_empty t.escaped_path then utf8 "/" else t.escaped_path) ≡ path_of t
  unfolding beq
  path_lem t = by_path t.escaped_path
    where
      by_path :
          (p : Bytes) → (if is_empty p then utf8 "/" else p) ≡ (if beq p [] then utf8 "/" else p)
      by_path [] = refl
      by_path (c ∷ p) = refl

  pub robots_read-Permits : (t : Target) (a : Answer) → robots_read web t a ≡ allowed → Permits t a
  unfolding call
  robots_read-Permits t (no_response e) h = tt
  robots_read-Permits t (response status body (some e)) h = elim (Bool-cases (ltb status 400)) [
    | inl l ↦ absurd (failed (rw l at h))
    | inr l ↦ ground (arith, l)
  ]
    where
      failed : ◌≡◌ {A = Robots web} (robots_failed e) allowed → ⊥
      failed x = cc
  robots_read-Permits t (response status body none) h = elim (Bool-cases (ltb status 400)) [
    | inr l ↦ inl (ground (arith, l))
    | inl l ↦ elim (Bool-cases (any_forbids web (path_of t) (split_lines (take 262144 body)))) [
      | inl f ↦ absurd (shut (rw (l, path_lem t, f) at h))
      | inr f ↦ inr (any_forbids-IsFree t (split_lines (take 262144 body)) f)
    ]
  ]
    where
      shut : ◌≡◌ {A = Robots web} blocked allowed → ⊥
      shut x = cc
