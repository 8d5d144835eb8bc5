-- ===== src/Oauth/Callback.antt =====
-- The callback handler of internal/oauth/server.go. Query parameters are read as decoded texts; the answer of
-- the token endpoint, the nonces and the clock are arguments. What is logged is left out.
pub mod Exchange
pub mod Gates
pub mod Lost
use ssh_bot.Base.{
  ℕ, zero, suc, ◌+◌, ◌*◌, ◌/◌, ◌%◌, Bool, true, false, not, ◌&&◌, ◌||◌, Option, none, some, List,
  [], ◌∷◌, ◌++◌, ltb, leb, ◌==◌, if◌then◌else◌, Bytes, utf8, fields, index_byte, take, trim_space,
  join,
}
use mathlib.Core.List.{reverse}
use ssh_bot.Oauth.Encryptor.{Aead}
use ssh_bot.Oauth.Endpoint.{TokenResponse, HttpAnswer, timed_out, unreachable, response, Decoder}
use ssh_bot.Oauth.Limiter.{Limits, CallbackLimiter, allow}
use ssh_bot.Oauth.State.{Crypto, sign, verify}
use ssh_bot.Oauth.Store.{Credential, CredRedis, CredCodec, StoreError, save}
use ssh_bot.Oauth.Start.{Config, is_empty, Response, plain, redirect_uri}

-- What the callback reads of a request: the header, net.SplitHostPort of the address, the parameters.
pub record Request : Type 0 where
  pub forwarded_for : Bytes
  pub split_host : Option Bytes
  pub remote_addr : Bytes
  pub code : Bytes
  pub state : Bytes

first_forwarded : Bytes → Option ℕ → Bytes
first_forwarded xff none = trim_space xff
first_forwarded xff (some zero) = trim_space xff
first_forwarded xff (some (suc i)) = trim_space (take (suc i) xff)

remote_host : Bytes → Option Bytes → Bytes
remote_host addr none = addr
remote_host addr (some host) = if is_empty host then addr else host

-- clientIP
pub client_ip : Request → Bytes
unfolding first_forwarded remote_host
client_ip r =
    if not (is_empty r.forwarded_for)
    then first_forwarded r.forwarded_for (index_byte b',' r.forwarded_for)
    else remote_host r.remote_addr r.split_host

-- What is posted to the token endpoint, as a JSON object.
pub record TokenRequest : Type 0 where
  pub grant_type : Bytes
  pub client_id : Bytes
  pub client_secret : Bytes
  pub code : Bytes
  pub redirect_uri : Bytes

pub data Exchanged : Type 0 where
  granted : Credential → Exchanged
  upstream_timeout : Exchanged
  exchange_failed : Exchanged

-- The credential that exchange makes of a response.
pub new_credential : ℕ → Bytes → TokenResponse → Credential
new_credential now open_id tok = record {
  open_id = open_id;
  access_token = tok.access_token;
  refresh_token = tok.refresh_token;
  access_expires_at = some (now + tok.expires_in);
  refresh_expires_at = some (now + tok.refresh_token_expires_in);
  scopes = fields tok.scope;
  granted_at = some now;
  last_used_at = none;
}

exchanged_tok : ℕ → Bytes → Bool × TokenResponse → Exchanged
unfolding new_credential
exchanged_tok now open_id (false, tok) = exchange_failed
exchanged_tok now open_id (true, tok) =
    if not (tok.code == 0) && is_empty tok.access_token
    then exchange_failed
    else if not (is_empty tok.error)
    then exchange_failed
    else if is_empty tok.access_token
    then exchange_failed
    else granted (new_credential now open_id tok)

exchanged : Decoder → ℕ → Bytes → HttpAnswer → Exchanged
unfolding exchanged_tok
exchanged decode now open_id timed_out = upstream_timeout
exchanged decode now open_id (unreachable e) = exchange_failed
exchanged decode now open_id (response status body) =
    if leb 400 status then exchange_failed else exchanged_tok now open_id (decode body)

unfoldable pub token_request : Config → Bytes → TokenRequest
token_request cfg code = record {
  grant_type = utf8 "authorization_code";
  client_id = cfg.app_id;
  client_secret = cfg.app_secret;
  code = code;
  redirect_uri = redirect_uri cfg;
}

-- exchange, where `post` is the token endpoint
unfoldable pub exchange :
    Config
    → (TokenRequest → HttpAnswer)
    → Decoder
    → ℕ
    → (code : Bytes) (open_id : Bytes) → Exchanged
unfolding exchanged
exchange cfg post decode now code open_id =
    exchanged decode now open_id (post (token_request cfg code))

module _ (redis : CredRedis) (codec : CredCodec) (aead : Aead) (crypto : Crypto) (limits : Limits)
    (cfg : Config) where
  -- The limiter, the credentials in Redis and the messages sent to users.
  pub record World : Type 0 where
    pub limiter : CallbackLimiter
    pub stored : redis.State
    pub notified : List (Bytes × Bytes)

  abbrev Handled : Type 0
  Handled = Response × World

  notify : Bytes → World → World
  notify open_id w =
      if cfg.has_notifier
      then record w { notified = w.notified ++ (open_id, utf8 "✅ 授权成功，请回到飞书继续提问。") ∷ [] }
      else w

  pub done_page : Bytes
  done_page =
      utf8
        "<!doctype html><meta charset=utf-8><title>授权成功</title><body style=\"font-family:sans-serif;padding:2em\"><h1>✅ 授权成功</h1><p>请回到飞书继续提问。可以关闭此页面。</p>"

  after_save : Bytes → World → Option StoreError × redis.State → Handled
  unfolding notify done_page
  after_save open_id w (some e, s) = (plain 500 (utf8 "授权存储失败，请稍后重试\n"), record w { stored = s })
  after_save open_id w (none, s) = (plain 200 done_page, notify open_id (record w { stored = s }))

  after_exchange : Option Bytes → Bytes → World → Exchanged → Handled
  unfolding after_save
  after_exchange drawn open_id w upstream_timeout = (plain 504 (utf8 "授权服务暂时不可用\n"), w)
  after_exchange drawn open_id w exchange_failed = (plain 400 (utf8 "授权失败，请稍后重试\n"), w)
  after_exchange drawn open_id w (granted cred) =
      after_save open_id w (save redis codec aead drawn cred w.stored)

  after_verify :
      (TokenRequest → HttpAnswer)
      → Decoder
      → ℕ
      → Option Bytes
      → Request
      → World
      → Option Bytes
      → Handled
  unfolding after_exchange
  after_verify post decode now drawn r w none = (plain 400 (utf8 "invalid state\n"), w)
  after_verify post decode now drawn r w (some open_id) =
      after_exchange drawn open_id w (exchange cfg post decode now r.code open_id)

  admitted :
      (TokenRequest → HttpAnswer)
      → Decoder
      → ℕ
      → Option Bytes
      → Request
      → Bool × CallbackLimiter
      → World
      → Handled
  unfolding after_verify
  admitted post decode now drawn r (false, l) w =
      (plain 429 (utf8 "too many requests\n"), record w { limiter = l })
  admitted post decode now drawn r (true, l) w =
      let w' = record w { limiter = l } in
      if is_empty r.code || is_empty r.state
      then (plain 400 (utf8 "invalid request\n"), w')
      else after_verify post decode now drawn r w' (verify crypto r.state)

  -- handleCallback
  unfoldable pub handle_callback :
      (TokenRequest → HttpAnswer) → Decoder → ℕ → Option Bytes → Request → World → Handled
  unfolding admitted client_ip
  handle_callback post decode now drawn r w =
      admitted post decode now drawn r (allow limits now (client_ip r) w.limiter) w
