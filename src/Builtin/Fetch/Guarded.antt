-- ===== src/Builtin/Fetch/Guarded.antt =====
-- Which requests a call of internal/tool/builtin/web_fetch.go hands to its client.
-- Which requests a call of internal/tool/builtin/web_fetch.go sends.
use ssh_bot.Base.{
  ℕ, ◌≡◌, ◌≢◌, refl, arith, ◌⊎◌, true, false, Bool-cases, inl, inr, Option, none, some, List, [],
  ◌∷◌, Bytes, utf8, beq, beq_iff, All,
}
use ssh_bot.Builtin.Fetch.Permitted.{robots_of, Permits, robots_read-Permits}
use ssh_bot.Builtin.Fetch.{
  Target, Args, Found, addresses, not_found, Web, is_empty, is_private_ip, any_private,
  reject_resolved, reject_addr, reject_private_target, robots_url, Robots, allowed, blocked,
  robots_failed, asked_robots, robots_read, fetched, after_robots, after_guard, is_web, with_target,
  max_or, with_args, call,
}

module _ (web : Web) where
  -- No loopback, private or link-local address.
  pub record IsOutside (a : web.Addr) : Type 0 where
    pub not_loopback : web.is_loopback a ≡ false
    pub not_private : web.is_private a ≡ false
    pub not_link_local : web.is_link_local_unicast a ≡ false
    pub not_local_multicast : web.is_link_local_multicast a ≡ false

  is_private_ip-IsOutside : (a : web.Addr) → is_private_ip web a ≡ false → IsOutside a
  unfolding any_private
  is_private_ip-IsOutside a h = record {
    not_loopback = ground (arith, h);
    not_private = ground (arith, h);
    not_link_local = ground (arith, h);
    not_local_multicast = ground (arith, h);
  }

  -- The addresses that the guard has seen of a host are outside.
  pub data IsPublic (host : Bytes) : Type 0 where
    address : (a : web.Addr) → web.parse_addr host ≡ some a → IsOutside a → IsPublic host
    resolved :
        (addrs : List web.Addr)
        → web.parse_addr host ≡ none
        → web.lookup_ip host ≡ addresses addrs
        → All IsOutside addrs
        → IsPublic host

  none_private : (addrs : List web.Addr) → any_private web addrs ≡ false → All IsOutside addrs
  unfolding any_private
  none_private [] h = tt
  none_private (a ∷ addrs) h = elim (Bool-cases (is_private_ip web a)) [
    | inl e ↦ absurd (clash (rw e at h))
    | inr e ↦ (is_private_ip-IsOutside a e, none_private addrs (rw e at h))
  ]
    where
      clash : true ≡ false → ⊥
      clash x = cc

  some_error : {e : Bytes} → some e ≡ none → ⊥
  some_error x = cc

  resolved-IsPublic :
      (host : Bytes) (f : Found web.Addr)
      → web.parse_addr host ≡ none
      → web.lookup_ip host ≡ f
      → reject_resolved web f ≡ none
      → IsPublic host
  unfolding reject_private_target
  resolved-IsPublic host (not_found e) p l h = absurd (some_error h)
  resolved-IsPublic host (addresses addrs) p l h = elim (Bool-cases (any_private web addrs)) [
    | inl e ↦ absurd (some_error (rw e at h))
    | inr e ↦ resolved addrs p l (none_private addrs e)
  ]

  addr-IsPublic :
      (host : Bytes) (o : Option web.Addr)
      → web.parse_addr host ≡ o
      → reject_addr web host o ≡ none
      → IsPublic host
  unfolding reject_private_target
  addr-IsPublic host none p h = resolved-IsPublic host (web.lookup_ip host) p refl h
  addr-IsPublic host (some a) p h = elim (Bool-cases (is_private_ip web a)) [
    | inl e ↦ absurd (some_error (rw e at h))
    | inr e ↦ address a p (is_private_ip-IsOutside a e)
  ]

  reject_private_target-IsPublic :
      (host : Bytes) → reject_private_target web host ≡ none → IsPublic host
  unfolding reject_private_target
  reject_private_target-IsPublic host h = addr-IsPublic host (web.parse_addr host) refl h

  -- A URL of http or https with a host that is outside.
  pub record IsAllowedTarget (t : Target) : Type 0 where
    pub scheme_is : (t.scheme ≡ utf8 "http") ⊎ (t.scheme ≡ utf8 "https")
    pub has_host : t.hostname ≢ []
    pub public : IsPublic t.hostname

  -- What a call has handed to the client: nothing, the request for robots.txt only, or the one for the
  -- page as well.
  pub data Guarded (args : Bytes) (sent : List Bytes) : Type 0 where
    silent : sent ≡ [] → Guarded args sent
    asked :
        (a : Args) (t : Target)
        → web.decode args ≡ some a
        → web.parse_url a.url ≡ some t
        → IsAllowedTarget t
        → sent ≡ robots_of web t ∷ []
        → Guarded args sent
    requested :
        (a : Args) (t : Target)
        → web.decode args ≡ some a
        → web.parse_url a.url ≡ some t
        → IsAllowedTarget t
        → Permits web t (web.get (robots_of web t))
        → sent ≡ robots_of web t ∷ a.url ∷ []
        → Guarded args sent

  robots-Guarded :
      (args : Bytes) (a : Args) (n : ℕ) (t : Target) (r : Robots web)
      → web.decode args ≡ some a
      → web.parse_url a.url ≡ some t
      → IsAllowedTarget t
      → robots_read web t (web.get (robots_of web t)) ≡ r
      → Guarded args (after_robots web a.url n t (r, robots_of web t ∷ [])).1
  unfolding call
  robots-Guarded args a n t (robots_failed e) d p ok r = asked a t d p ok refl
  robots-Guarded args a n t blocked d p ok r = asked a t d p ok refl
  robots-Guarded args a n t allowed d p ok r = by_request (web.bad_request a.url)
    where
      by_request :
          (o : Option Bytes) → Guarded args (fetched web a.url n t o (robots_of web t ∷ [])).1
      by_request (some e) = asked a t d p ok refl
      by_request none =
          requested a t d p ok (robots_read-Permits web t (web.get (robots_of web t)) r) refl

  asked-Guarded :
      (args : Bytes) (a : Args) (n : ℕ) (t : Target) (o : Option Bytes)
      → web.decode args ≡ some a
      → web.parse_url a.url ≡ some t
      → IsAllowedTarget t
      → Guarded args (after_robots web a.url n t (asked_robots web t o)).1
  unfolding call robots_url
  asked-Guarded args a n t (some e) d p ok = silent refl
  asked-Guarded args a n t none d p ok =
      robots-Guarded args a n t (robots_read web t (web.get (robots_of web t))) d p ok refl

  guard-Guarded :
      (args : Bytes) (a : Args) (n : ℕ) (t : Target) (o : Option Bytes)
      → web.decode args ≡ some a
      → web.parse_url a.url ≡ some t
      → (reject_private_target web t.hostname ≡ none → IsAllowedTarget t)
      → reject_private_target web t.hostname ≡ o
      → Guarded args (after_guard web a.url n t o).1
  unfolding call
  guard-Guarded args a n t (some e) d p ok o = silent refl
  guard-Guarded args a n t none d p ok o =
      asked-Guarded args a n t (web.bad_request (robots_url web t)) d p (ok o)

  is_web-scheme :
      (t : Target) → is_web web t ≡ true → (t.scheme ≡ utf8 "http") ⊎ (t.scheme ≡ utf8 "https")
  unfolding call
  is_web-scheme t h = elim (Bool-cases (beq t.scheme (utf8 "http"))) [
    | inl e ↦ inl ((beq_iff t.scheme (utf8 "http")).0 e)
    | inr e ↦ inr ((beq_iff t.scheme (utf8 "https")).0 (rw e at h))
  ]

  has_name : (s : Bytes) → is_empty s ≡ false → s ≢ []
  has_name [] h e = cc
  has_name (c ∷ s) h e = cc

  target-Guarded :
      (args : Bytes) (a : Args) (n : ℕ) (o : Option Target)
      → web.decode args ≡ some a
      → web.parse_url a.url ≡ o
      → Guarded args (with_target web a.url n o).1
  unfolding call
  target-Guarded args a n none d p = silent refl
  target-Guarded args a n (some t) d p = elim (Bool-cases (is_web web t)) [
    | inr e ↦ silent (rw e)
    | inl e ↦ elim (Bool-cases (is_empty t.hostname)) [
      | inl f ↦ silent (rw (e, f))
      | inr f ↦
          rw (e, f)
            (guard-Guarded args a n t (reject_private_target web t.hostname) d p
              (λ seen. record {
                scheme_is = is_web-scheme t e;
                has_host = has_name t.hostname f;
                public = reject_private_target-IsPublic t.hostname seen;
              })
              refl)
    ]
  ]

  args-Guarded :
      (args : Bytes) (n : ℕ) (o : Option Args)
      → web.decode args ≡ o
      → Guarded args (with_args web n o).1
  unfolding call
  args-Guarded args n none d = silent refl
  args-Guarded args n (some a) d = elim (Bool-cases (is_empty a.url)) [
    | inl e ↦ silent (rw e)
    | inr e ↦ rw e (target-Guarded args a (max_or web n a.max_chars) (web.parse_url a.url) d refl)
  ]

  -- The only requests that a call of web_fetch hands to its client are one for the robots.txt of the
  -- URL's host and then one for the URL itself. Both are made only where the URL is one of http or
  -- https with a host, which is an address or was resolved to addresses that are no loopback, private
  -- or link-local ones, and the second only where robots.txt cannot be had, answers with 400 or more,
  -- or was read and has no Disallow line with a prefix of the path. Nothing is said of the redirects
  -- that the client follows by itself from these two, to any host.
  pub call-Guarded : (configured : ℕ) (args : Bytes) → Guarded args (call web configured args).1
  unfolding call
  call-Guarded configured args = args-Guarded args configured (web.decode args) refl
