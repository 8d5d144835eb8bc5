-- ===== src/Builtin/Docs/Calls.antt =====
-- requireCredential and the two calls of internal/tool/builtin/feishu_doc.go.
pub mod Gate
use ssh_bot.Base.{
  ℕ, Bool, true, false, Option, none, some, List, [], ◌∷◌, ◌++◌, if◌then◌else◌, Bytes, utf8,
  trim_space,
}
use ssh_bot.Builtin.Docs.{
  DocError, told, store_failed, refresh_failed, url_failed, no_pointer, Outcome, refused, Lark,
  is_empty, parse_doc_token, fetch_feishu_doc_content, search_feishu_docs,
}
use ssh_bot.Oauth.Encryptor.{Aead}
use ssh_bot.Oauth.Endpoint.{HttpAnswer, Decoder}
use ssh_bot.Oauth.Refresh.{
  StartUrl, url, unsigned, RefreshError, reauthorize_at, start_url_failed, request_failed,
  endpoint_status, empty_access_token, save_failed, Refresher, Refreshed, refresh_if_needed,
}
use ssh_bot.Oauth.Store.{
  Credential, CredRedis, CredCodec, Found, credential, no_credential, failed, get, save,
}

-- What json.Unmarshal makes of the arguments of the two tools, and the path of a URL that parses.
pub record Parsers : Type 0 where
  pub read_args : Bytes → Option (Bytes × Bytes)
  pub search_args : Bytes → Option Bytes
  pub url_path : Bytes → Option Bytes

prompt : Bytes
prompt = utf8 "请先完成飞书授权："

start_error : Option StartUrl → DocError
unfolding prompt
start_error none = told (utf8 "请先完成飞书授权。")
start_error (some (url u)) = told (prompt ++ u)
start_error (some (unsigned e)) = url_failed e

refresh_error : RefreshError → DocError
unfolding prompt
refresh_error (reauthorize_at u) = told (prompt ++ u)
refresh_error (start_url_failed e) = refresh_failed (start_url_failed e)
refresh_error request_failed = refresh_failed request_failed
refresh_error (endpoint_status s c) = refresh_failed (endpoint_status s c)
refresh_error empty_access_token = refresh_failed empty_access_token
refresh_error (save_failed e) = refresh_failed (save_failed e)

module _ (redis : CredRedis) (codec : CredCodec) (aead : Aead) where
  -- FeishuDocConfig with a store
  pub record Config : Type 0 where
    pub refresher : Option (Refresher redis codec aead)
    pub start_url : Option (Bytes → StartUrl)
    pub client : Option Lark

  -- What a call meets: the time, the nonces of the refresh and of the last save, and the endpoint.
  pub record Moment : Type 0 where
    pub now : ℕ
    pub refresh_drawn : Option Bytes
    pub save_drawn : Option Bytes
    pub decode : Decoder
    pub answer : HttpAnswer

  pub data Access : Type 0 where
    granted : Credential → Access
    denied : DocError → Access

  started : Option (Bytes → StartUrl) → Bytes → Option StartUrl
  started none open_id = none
  started (some start) open_id = some (start open_id)

  pub used_now : ℕ → Credential → Credential
  used_now now cred = record cred { last_used_at = some now }

  -- The save at the end, whose error does not count.
  noted : Moment → Credential → redis.State → Access × redis.State
  unfolding used_now
  noted m cred s =
      let cred' = used_now m.now cred in
      (granted cred', (save redis codec aead m.save_drawn cred' s).1)

  after_refresh : Moment → Refreshed redis codec aead → Access × redis.State
  unfolding noted refresh_error
  after_refresh m (some e, cred, s) = (denied (refresh_error e), s)
  after_refresh m (none, none, s) = (denied no_pointer, s)
  after_refresh m (none, some cred, s) = noted m cred s

  refreshed :
      Option (Refresher redis codec aead) → Moment → Credential → redis.State → Access × redis.State
  unfolding after_refresh
  refreshed none m cred s = noted m cred s
  refreshed (some r) m cred s =
      after_refresh m
        (refresh_if_needed redis codec aead r m.decode m.now m.refresh_drawn cred m.answer s)

  after_get : Config → Moment → Bytes → Found → redis.State → Access × redis.State
  unfolding refreshed start_error started
  after_get cfg m open_id (failed e) s = (denied (store_failed e), s)
  after_get cfg m open_id no_credential s =
      (denied (start_error (started cfg.start_url open_id)), s)
  after_get cfg m open_id (credential cred) s = refreshed cfg.refresher m cred s

  -- requireCredential
  pub require_credential : Config → Moment → Bytes → redis.State → Access × redis.State
  unfolding after_get
  require_credential cfg m open_id s =
      if is_empty open_id
      then (denied (told (utf8 "missing caller identity")), s)
      else after_get cfg m open_id (get redis codec aead open_id s) s

  -- The outcome, the access tokens under which the SDK was asked, and the store.
  abbrev pub Called : Type 0
  Called = Outcome × List Bytes × redis.State

  with_token : Config → Credential → (token raw_url : Bytes) → Outcome × List Bytes
  with_token cfg cred token raw_url =
      if is_empty token
      then (refused (told (utf8 "missing doc_token or unreadable Feishu doc URL")), [])
      else fetch_feishu_doc_content cfg.client cred.access_token token raw_url

  read_doc : Parsers → Config → (raw_url doc_token : Bytes) → Access × redis.State → Called
  unfolding with_token
  read_doc parsers cfg raw_url doc_token (denied e, s) = (refused e, [], s)
  read_doc parsers cfg raw_url doc_token (granted cred, s) =
      let token =
        if is_empty doc_token
        then (if is_empty raw_url then [] else parse_doc_token (parsers.url_path raw_url))
        else doc_token in
      let r = with_token cfg cred token raw_url in (r.0, r.1, s)

  read_parsed : Parsers → Config → Moment → Bytes → Option (Bytes × Bytes) → redis.State → Called
  unfolding read_doc
  read_parsed parsers cfg m caller none s = (refused (told (utf8 "invalid arguments")), [], s)
  read_parsed parsers cfg m caller (some (raw_url, doc_token)) s =
      read_doc parsers cfg raw_url doc_token (require_credential cfg m caller s)

  -- Call of feishu_doc_read, where `caller` is tool.CallerOpenID
  pub read : Parsers → Config → Moment → (caller args : Bytes) → redis.State → Called
  unfolding read_parsed
  read parsers cfg m caller args s = read_parsed parsers cfg m caller (parsers.read_args args) s

  search_doc : Config → Bytes → Access × redis.State → Called
  search_doc cfg query (denied e, s) = (refused e, [], s)
  search_doc cfg query (granted cred, s) =
      let r = search_feishu_docs cfg.client cred.access_token query in (r.0, r.1, s)

  search_parsed : Config → Moment → Bytes → Option Bytes → redis.State → Called
  unfolding search_doc
  search_parsed cfg m caller none s = (refused (told (utf8 "invalid arguments")), [], s)
  search_parsed cfg m caller (some query) s =
      if is_empty (trim_space query)
      then (refused (told (utf8 "\"query\" is required")), [], s)
      else search_doc cfg query (require_credential cfg m caller s)

  -- Call of feishu_doc_search
  pub search : Parsers → Config → Moment → (caller args : Bytes) → redis.State → Called
  unfolding search_parsed
  search parsers cfg m caller args s = search_parsed cfg m caller (parsers.search_args args) s
