-- ===== src/Oauth/Refresh.antt =====
-- TokenRefresher of internal/oauth/tokens.go. The endpoint's answer is an argument, and so is the nonce
-- that a Save would draw.
pub mod Effects
pub mod Judged
pub mod Outcomes
use ssh_bot.Base.{
  ℕ, ◌+◌, Bool, true, false, not, ◌&&◌, ◌||◌, Option, none, some, List, [], ◌∷◌, ltb, leb, ◌==◌,
  if◌then◌else◌, Bytes, fields,
}
use ssh_bot.Oauth.Encryptor.{Aead}
use ssh_bot.Oauth.Endpoint.{TokenResponse, HttpAnswer, timed_out, unreachable, response, Decoder}
use ssh_bot.Oauth.Store.{Credential, CredRedis, CredCodec, StoreError, save, delete}

-- What StartURL returns.
pub data StartUrl : Type 0 where
  url : Bytes → StartUrl
  unsigned : Bytes → StartUrl

pub data RefreshError : Type 0 where
  -- ReauthorizeError, whose URL may be empty
  reauthorize_at : Bytes → RefreshError
  start_url_failed : Bytes → RefreshError
  request_failed : RefreshError
  endpoint_status : (status : ℕ) (code : ℕ) → RefreshError
  empty_access_token : RefreshError
  save_failed : StoreError → RefreshError

abbrev pub is_empty : Bytes → Bool
is_empty [] = true
is_empty (c ∷ s) = false

-- cred.AccessExpiresAt.After(now + 60 s); the zero time is after nothing.
pub is_fresh : ℕ → Option ℕ → Bool
is_fresh now none = false
is_fresh now (some at) = ltb (now + 60) at

-- resp.StatusCode >= 400 || tok.Code != 0 || tok.Error != ""
pub is_refused : ℕ → TokenResponse → Bool
is_refused status tok = leb 400 status || not (tok.code == 0) || not (is_empty tok.error)

-- The same less the statuses from 500 on.
pub is_rejected : ℕ → TokenResponse → Bool
is_rejected status tok =
    leb 400 status && ltb status 500 || not (tok.code == 0) || not (is_empty tok.error)

-- The copy of the credential with what the response brings.
pub updated : ℕ → TokenResponse → Credential → Credential
updated now tok cred = record cred {
  access_token = tok.access_token;
  refresh_token = if is_empty tok.refresh_token then cred.refresh_token else tok.refresh_token;
  access_expires_at = some (now + tok.expires_in);
  refresh_expires_at =
      if ltb 0 tok.refresh_token_expires_in
      then some (now + tok.refresh_token_expires_in)
      else cred.refresh_expires_at;
  scopes = if is_empty tok.scope then cred.scopes else fields tok.scope;
}

module _ (redis : CredRedis) (codec : CredCodec) (aead : Aead) where
  -- r.Store != nil, and r.StartURL, which may be nil.
  pub record Refresher : Type 0 where
    pub has_store : Bool
    pub start_url : Option (Bytes → StartUrl)

  abbrev pub Refreshed : Type 0
  Refreshed = Option RefreshError × Option Credential × redis.State

  -- if r.Store != nil && openID != "" { _ = r.Store.Delete(ctx, openID) }
  pub forgotten : Refresher → Bytes → redis.State → redis.State
  forgotten r open_id s =
      if r.has_store && not (is_empty open_id) then delete redis codec aead open_id s else s

  pub started : Bytes → Option (Bytes → StartUrl) → RefreshError
  started open_id none = reauthorize_at []
  started open_id (some start) = elim (start open_id) [
    | url u ↦ reauthorize_at u
    | unsigned e ↦ start_url_failed e
  ]

  -- reauthorize
  reauthorize : Refresher → Bytes → redis.State → Refreshed
  unfolding forgotten started
  reauthorize r open_id s = (some (started open_id r.start_url), none, forgotten r open_id s)

  saved : Credential → Option StoreError × redis.State → Refreshed
  saved cred (none, s) = (none, some cred, s)
  saved cred (some e, s) = (some (save_failed e), none, s)

  pub renew : Refresher → Option Bytes → Credential → redis.State → Refreshed
  unfolding saved
  renew r drawn cred s =
      if r.has_store then saved cred (save redis codec aead drawn cred s) else (none, some cred, s)

  after_response :
      Refresher → ℕ → Option Bytes → Credential → ℕ → TokenResponse → redis.State → Refreshed
  unfolding reauthorize renew updated is_refused is_rejected
  after_response r now drawn cred status tok s =
      if is_refused status tok
      then (if is_rejected status tok
          then reauthorize r cred.open_id (forgotten r cred.open_id s)
          else (some (endpoint_status status tok.code), none, s))
      else if is_empty tok.access_token
      then (some empty_access_token, none, s)
      else renew r drawn (updated now tok cred) s

  after_request :
      Refresher → Decoder → ℕ → Option Bytes → Credential → HttpAnswer → redis.State → Refreshed
  unfolding after_response
  after_request r decode now drawn cred timed_out s = (some request_failed, none, s)
  after_request r decode now drawn cred (unreachable e) s = (some request_failed, none, s)
  after_request r decode now drawn cred (response status body) s =
      after_response r now drawn cred status (decode body).1 s

  -- RefreshIfNeeded, at a credential that is not nil
  pub refresh_if_needed :
      Refresher → Decoder → ℕ → Option Bytes → Credential → HttpAnswer → redis.State → Refreshed
  unfolding after_request is_fresh
  refresh_if_needed r decode now drawn cred answer s =
      if is_fresh now cred.access_expires_at
      then (none, some cred, s)
      else if is_empty cred.refresh_token
      then reauthorize r cred.open_id s
      else after_request r decode now drawn cred answer s
