-- ===== src/Builtin/Fetch.antt =====
-- internal/tool/builtin/web_fetch.go. The URL parser, the resolver, netip, the HTTP client, the
-- extraction of an article and encoding/json are a parameter. A call gives its outcome and the URLs
-- it has requested, in order; redirects that the client follows do not show among them.
pub mod Guarded
pub mod Permitted
use ssh_bot.Agent.Exec.{CallOutcome, returned, user_error, other_error}
use ssh_bot.Base.{
  split_lines, ℕ, zero, suc, ◌-◌, Bool, true, false, not, ◌&&◌, ◌||◌, Option, none, some, List, [],
  ◌∷◌, ◌++◌, ◌==◌, ltb, if◌then◌else◌, Bytes, utf8, beq, has_prefix, trim_space, length, take, drop,
}
use ssh_bot.Session.{itoa}

-- url.URL, with EscapedPath
pub record Target : Type 0 where
  pub scheme : Bytes
  pub hostname : Bytes
  pub host : Bytes
  pub escaped_path : Bytes

pub data Answer : Type 0 where
  no_response : Bytes → Answer
  response : (status : ℕ) (body : Bytes) (read_error : Option Bytes) → Answer

-- A length that is not positive is 0.
pub record Args : Type 0 where
  pub url : Bytes
  pub max_chars : ℕ

pub data Found (Addr : Type 0) : Type 0 where
  addresses : List Addr → Found Addr
  not_found : Bytes → Found Addr

pub data Article : Type 0 where
  article : (title text : Bytes) → Article
  unreadable : Bytes → Article

pub record Web : Type 1 where
  pub Addr : Type 0
  pub decode : Bytes → Option Args
  pub parse_url : Bytes → Option Target
  pub parse_addr : Bytes → Option Addr
  pub lookup_ip : Bytes → Found Addr
  pub is_loopback : Addr → Bool
  pub is_private : Addr → Bool
  pub is_link_local_unicast : Addr → Bool
  pub is_link_local_multicast : Addr → Bool
  -- the error of http.NewRequest, and the answer of the client to a request that it does send
  pub bad_request : Bytes → Option Bytes
  pub get : Bytes → Answer
  pub extract : Bytes → Target → Article
  pub to_lower : Bytes → Bytes

abbrev pub is_empty : Bytes → Bool
is_empty [] = true
is_empty (c ∷ s) = false

module _ (web : Web) where
  -- isPrivateIP
  pub is_private_ip : web.Addr → Bool
  is_private_ip a =
      web.is_loopback a
      || web.is_private a
      || web.is_link_local_unicast a
      || web.is_link_local_multicast a

  pub any_private : List web.Addr → Bool
  unfolding is_private_ip
  any_private [] = false
  any_private (a ∷ addrs) = is_private_ip a || any_private addrs

  abbrev pub refusal : Bytes
  refusal = utf8 "refusing private or loopback target"

  reject_resolved : Found web.Addr → Option Bytes
  unfolding any_private
  reject_resolved (not_found e) = some e
  reject_resolved (addresses addrs) = if any_private addrs then some refusal else none

  reject_addr : Bytes → Option web.Addr → Option Bytes
  unfolding is_private_ip reject_resolved
  reject_addr host (some a) = if is_private_ip a then some refusal else none
  reject_addr host none = reject_resolved (web.lookup_ip host)

  -- rejectPrivateTarget; `none` is no error.
  pub reject_private_target : Bytes → Option Bytes
  unfolding reject_addr
  reject_private_target host = reject_addr host (web.parse_addr host)

  pub robots_url : Target → Bytes
  robots_url t = t.scheme ++ utf8 "://" ++ t.host ++ utf8 "/robots.txt"

  -- Whether a line of robots.txt forbids a path.
  forbids : Bytes → Bytes → Bool
  forbids path text =
      let line = trim_space text in
      let rule = trim_space (drop (length (utf8 "disallow:")) line) in
      has_prefix (web.to_lower line) (utf8 "disallow:")
      && not (is_empty rule)
      && has_prefix path rule

  any_forbids : Bytes → List Bytes → Bool
  unfolding forbids
  any_forbids path [] = false
  any_forbids path (l ∷ ls) = forbids path l || any_forbids path ls

  pub data Robots : Type 0 where
    allowed : Robots
    blocked : Robots
    robots_failed : Bytes → Robots

  pub robots_read : Target → Answer → Robots
  unfolding any_forbids
  robots_read t (no_response e) = allowed
  robots_read t (response status body (some e)) =
      if ltb status 400 then robots_failed e else allowed
  robots_read t (response status body none) =
      if ltb status 400
      then (if any_forbids (if is_empty t.escaped_path then utf8 "/" else t.escaped_path)
            (split_lines (take 262144 body))
          then blocked
          else allowed)
      else allowed

  asked_robots : Target → Option Bytes → Robots × List Bytes
  unfolding robots_read
  asked_robots t (some e) = (robots_failed e, [])
  asked_robots t none = (robots_read t (web.get (robots_url t)), robots_url t ∷ [])

  -- disallowedByRobots, with the requests that it sends
  pub disallowed_by_robots : Target → Robots × List Bytes
  unfolding asked_robots
  disallowed_by_robots t = asked_robots t (web.bad_request (robots_url t))

  pub cut_content : ℕ → Bytes → Bytes
  cut_content max_chars content =
      if ltb max_chars (length content)
      then take max_chars content
        ++ utf8 "\n[truncated "
        ++ itoa (length content - max_chars)
        ++ utf8 " chars]"
      else content

  extracted : ℕ → Article → CallOutcome
  unfolding cut_content
  extracted max_chars (unreadable e) = other_error e
  extracted max_chars (article title text) =
      returned (utf8 "Title: " ++ title ++ utf8 "\n\n" ++ cut_content max_chars (trim_space text))

  answered : ℕ → Target → Answer → CallOutcome
  unfolding extracted
  answered max_chars t (no_response e) = other_error e
  answered max_chars t (response status body (some e)) =
      if ltb status 400 then other_error e else other_error (utf8 "fetch status " ++ itoa status)
  answered max_chars t (response status body none) =
      if ltb status 400
      then extracted max_chars (web.extract (take 5242880 body) t)
      else other_error (utf8 "fetch status " ++ itoa status)

  fetched : Bytes → ℕ → Target → Option Bytes → List Bytes → CallOutcome × List Bytes
  unfolding answered
  fetched url max_chars t (some e) sent = (other_error e, sent)
  fetched url max_chars t none sent = (answered max_chars t (web.get url), sent ++ url ∷ [])

  after_robots : Bytes → ℕ → Target → Robots × List Bytes → CallOutcome × List Bytes
  unfolding fetched
  after_robots url max_chars t (robots_failed e, sent) = (other_error e, sent)
  after_robots url max_chars t (blocked, sent) = (user_error (utf8 "blocked by robots.txt"), sent)
  after_robots url max_chars t (allowed, sent) = fetched url max_chars t (web.bad_request url) sent

  after_guard : Bytes → ℕ → Target → Option Bytes → CallOutcome × List Bytes
  unfolding after_robots disallowed_by_robots
  after_guard url max_chars t (some e) = (user_error e, [])
  after_guard url max_chars t none = after_robots url max_chars t (disallowed_by_robots t)

  pub is_web : Target → Bool
  is_web t = beq t.scheme (utf8 "http") || beq t.scheme (utf8 "https")

  with_target : Bytes → ℕ → Option Target → CallOutcome × List Bytes
  unfolding after_guard reject_private_target is_web
  with_target url max_chars none = (user_error (utf8 "invalid url"), [])
  with_target url max_chars (some t) =
      if not (is_web t)
      then (user_error (utf8 "unsupported URL scheme"), [])
      else if is_empty t.hostname
      then (user_error (utf8 "invalid url"), [])
      else after_guard url max_chars t (reject_private_target t.hostname)

  max_or : ℕ → ℕ → ℕ
  max_or configured zero = configured
  max_or configured (suc n) = suc n

  with_args : ℕ → Option Args → CallOutcome × List Bytes
  unfolding with_target max_or
  with_args configured none = (user_error (utf8 "invalid arguments"), [])
  with_args configured (some a) =
      if is_empty a.url
      then (user_error (utf8 "\"url\" is required"), [])
      else with_target a.url (max_or configured a.max_chars) (web.parse_url a.url)

  -- Call, of a tool whose configured length is `configured`
  pub call : ℕ → Bytes → CallOutcome × List Bytes
  unfolding with_args
  call configured args = with_args configured (web.decode args)
