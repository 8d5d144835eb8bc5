-- ===== src/Oauth/Store.antt =====
-- Credential of internal/oauth/tokens.go and Store of internal/oauth/store.go. The Redis client,
-- encoding/json and the AEAD are parameters. Times are seconds, and `none` is the zero time.
pub mod Kept
use ssh_bot.Base.{
  ℕ, Bool, true, false, Option, none, some, List, [], ◌∷◌, ◌++◌, if◌then◌else◌, Bytes, utf8,
}
use ssh_bot.Oauth.Encryptor.{Aead, seal, open_envelope}
use ssh_bot.Session.Redis.{Reply, missing, broken, value}

pub record Credential : Type 0 where
  pub open_id : Bytes
  pub access_token : Bytes
  pub refresh_token : Bytes
  pub access_expires_at : Option ℕ
  pub refresh_expires_at : Option ℕ
  pub scopes : List Bytes
  pub granted_at : Option ℕ
  pub last_used_at : Option ℕ

-- The commands that the store sends; SET has no lifetime of its own.
pub record CredRedis : Type 1 where
  pub State : Type 0
  pub get : Bytes → State → Reply
  pub set : (key raw : Bytes) → State → Option Bytes × State
  pub expire_at : (key : Bytes) (at : ℕ) → State → Option Bytes × State
  pub del : Bytes → State → State

-- json.Marshal and json.Unmarshal at a Credential.
pub record CredCodec : Type 0 where
  pub marshal : Credential → Option Bytes
  pub unmarshal : Bytes → Option Credential

pub data StoreError : Type 0 where
  redis_get : Bytes → StoreError
  auth_failed : StoreError
  decode_failed : StoreError
  no_open_id : StoreError
  encode_failed : StoreError
  seal_failed : StoreError
  redis_set : Bytes → StoreError
  redis_expireat : Bytes → StoreError

-- (cred, nil), (nil, nil) and (nil, err)
pub data Found : Type 0 where
  credential : Credential → Found
  no_credential : Found
  failed : StoreError → Found

pub cred_key : Bytes → Bytes
cred_key open_id = utf8 "bot:oauth:" ++ open_id

module _ (redis : CredRedis) (codec : CredCodec) (aead : Aead) where
  decoded : Option Credential → Found
  decoded none = failed decode_failed
  decoded (some c) = credential c

  opened_reply : Option Bytes → Found
  unfolding decoded
  opened_reply none = failed auth_failed
  opened_reply (some pt) = decoded (codec.unmarshal pt)

  reply_credential : Reply → Found
  unfolding opened_reply
  reply_credential missing = no_credential
  reply_credential (broken e) = failed (redis_get e)
  reply_credential (value raw) = opened_reply (open_envelope aead raw)

  -- Get
  pub get : Bytes → redis.State → Found
  unfolding reply_credential
  get open_id s = reply_credential (redis.get (cred_key open_id) s)

  expired : Option Bytes × redis.State → Option StoreError × redis.State
  expired (none, s) = (none, s)
  expired (some e, s) = (some (redis_expireat e), s)

  -- EXPIREAT at the end of the refresh token, unless that is the zero time.
  pub with_expiry : Credential → Option ℕ → redis.State → Option StoreError × redis.State
  unfolding expired
  with_expiry c none s = (none, s)
  with_expiry c (some at) s = expired (redis.expire_at (cred_key c.open_id) at s)

  written : Credential → Option Bytes × redis.State → Option StoreError × redis.State
  unfolding with_expiry
  written c (some e, s) = (some (redis_set e), s)
  written c (none, s) = with_expiry c c.refresh_expires_at s

  write : Credential → Option Bytes → redis.State → Option StoreError × redis.State
  unfolding written
  write c none s = (some seal_failed, s)
  write c (some envelope) s = written c (redis.set (cred_key c.open_id) envelope s)

  encode_then :
      Option Bytes → Credential → Option Bytes → redis.State → Option StoreError × redis.State
  unfolding write
  encode_then drawn c none s = (some encode_failed, s)
  encode_then drawn c (some pt) s = write c (seal aead drawn pt) s

  save_named : Bytes → Option Bytes → Credential → redis.State → Option StoreError × redis.State
  unfolding encode_then
  save_named [] drawn c s = (some no_open_id, s)
  save_named (b ∷ id) drawn c s = encode_then drawn c (codec.marshal c) s

  -- Save, at a credential that is not nil
  unfoldable pub save : Option Bytes → Credential → redis.State → Option StoreError × redis.State
  unfolding save_named
  save drawn c s = save_named c.open_id drawn c s

  -- Delete
  pub delete : Bytes → redis.State → redis.State
  delete open_id s = redis.del (cred_key open_id) s
