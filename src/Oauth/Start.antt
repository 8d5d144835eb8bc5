-- ===== src/Oauth/Start.antt =====
-- StartURL, the health and the start handler of internal/oauth/server.go, and what the handlers share.
use ssh_bot.Base.{
  ℕ, ◌+◌, ◌/◌, ◌%◌, Bool, true, false, ◌&&◌, ◌||◌, Option, none, some, List, [], ◌∷◌, ◌++◌, ltb,
  leb, ◌==◌, if◌then◌else◌, Bytes, utf8, join,
}
use mathlib.Core.List.{reverse}
use ssh_bot.Oauth.State.{Crypto, sign, verify}

pub record Config : Type 0 where
  pub public_base_url : Bytes
  pub app_id : Bytes
  pub app_secret : Bytes
  pub scopes : List Bytes
  pub has_notifier : Bool

abbrev pub is_empty : Bytes → Bool
is_empty [] = true
is_empty (c ∷ s) = false

drop_slashes : Bytes → Bytes
drop_slashes [] = []
drop_slashes (c ∷ s) = let rest = drop_slashes s in if c == b'/' then rest else c ∷ s

-- strings.TrimRight(s, "/")
trim_slashes : Bytes → Bytes
unfolding drop_slashes
trim_slashes s = reverse (drop_slashes (reverse s))

hex_digit : ℕ → ℕ
hex_digit n = if ltb n 10 then b'0' + n else 55 + n

is_unreserved : ℕ → Bool
is_unreserved c =
    leb b'a' c && leb c b'z'
    || leb b'A' c && leb c b'Z'
    || leb b'0' c && leb c b'9'
    || c == b'-'
    || c == b'_'
    || c == b'.'
    || c == b'~'

-- url.QueryEscape
query_escape : Bytes → Bytes
unfolding hex_digit is_unreserved
query_escape [] = []
query_escape (c ∷ s) =
    let rest = query_escape s in
    if is_unreserved c
    then c ∷ rest
    else if c == b' '
    then b'+' ∷ rest
    else b'%' ∷ hex_digit (c / 16) ∷ hex_digit (c % 16) ∷ rest

pair : Bytes → Bytes → Bytes
unfolding query_escape
pair key v = key ++ b'=' ∷ query_escape v

pub record Response : Type 0 where
  pub status : ℕ
  pub body : Bytes
  pub location : Bytes

abbrev pub plain : ℕ → Bytes → Response
plain status body = record { status = status; body = body; location = [] }

-- handleHealth
pub handle_health : Response
handle_health = plain 200 (utf8 "ok")

pub redirect_uri : Config → Bytes
unfolding trim_slashes
redirect_uri cfg = trim_slashes cfg.public_base_url ++ utf8 "/oauth/callback"

-- The address of Feishu's authorize page; url.Values encodes its keys in order.
pub authorize_url : Config → Bytes → Bytes
unfolding pair redirect_uri
authorize_url cfg state =
    utf8 "https://accounts.feishu.cn/open-apis/authen/v1/authorize?"
    ++ join
        (pair (utf8 "app_id") cfg.app_id
          ∷ pair (utf8 "redirect_uri") (redirect_uri cfg)
          ∷ pair (utf8 "response_type") (utf8 "code")
          ∷ pair (utf8 "scope") (join cfg.scopes (utf8 " "))
          ∷ pair (utf8 "state") state
          ∷ [])
        (utf8 "&")

-- StartURL, where Sign does not fail
pub start_url : Crypto → Config → Bytes → Option Bytes → Option Bytes
unfolding trim_slashes
start_url crypto cfg open_id nonce = elim (sign crypto open_id nonce) [
  | none ↦ none
  | some state ↦ some (trim_slashes cfg.public_base_url ++ utf8 "/oauth/start?state=" ++ state)
]

-- The link that http.Redirect writes into the body is left out.
started : Config → Bytes → Option Bytes → Response
unfolding authorize_url
started cfg state none = plain 400 (utf8 "invalid state\n")
started cfg state (some open_id) = record {
  status = 302;
  body = [];
  location = authorize_url cfg state;
}

-- handleStart
pub handle_start : Crypto → Config → Bytes → Response
unfolding started
handle_start crypto cfg state =
    if is_empty state
    then plain 400 (utf8 "invalid state\n")
    else started cfg state (verify crypto state)
