-- ===== src/Session/Redis.antt =====
-- internal/session/redis.go: sessions as JSON under "bot:sess:" keys, with a sliding lifetime.
-- The Redis client and encoding/json are parameters.
use ssh_bot.Base.{ℕ, ◌*◌, Option, none, some, ◌++◌, ◌==◌, if◌then◌else◌, Bytes, utf8}
use ssh_bot.Session.Store.{Store, GetResult, found, failed, SaveResult}
use ssh_bot.Session.{Session, trim_messages}

-- The reply to GET: redis.Nil, another error, or the bytes.
pub data Reply : Type 0 where
  missing : Reply
  broken : Bytes → Reply
  value : Bytes → Reply

-- The commands that the store sends.
pub record Redis : Type 1 where
  pub State : Type 0
  pub get : Bytes → State → Reply
  pub set : (key raw : Bytes) (ttl : ℕ) → State → Option Bytes × State
  pub del : Bytes → State → Option Bytes × State

-- json.Marshal and json.Unmarshal at a Session.
pub record Codec : Type 0 where
  pub marshal : Session → Option Bytes
  pub unmarshal : Bytes → Option Session

-- NewRedisStore: a lifetime that is not positive becomes a day (in seconds).
pub store_ttl : ℕ → ℕ
store_ttl ttl = if ttl == 0 then 24 * 3600 else ttl

pub session_redis_key : Bytes → Bytes
session_redis_key key = utf8 "bot:sess:" ++ key

-- What Save writes: the history trimmed and the times set.
abbrev pub stamp : (now : ℕ) → Session → Session
stamp now sess = record sess {
  messages = trim_messages sess.messages;
  updated_at = some now;
  created_at = elim sess.created_at [ none ↦ some now | some t ↦ some t ];
}

module _ (redis : Redis) (codec : Codec) (ttl now : ℕ) where
  decoded : Option Session → GetResult
  decoded none = failed (utf8 "decode session")
  decoded (some sess) = found (some sess)

  reply_session : Reply → GetResult
  reply_session missing = found none
  reply_session (broken e) = failed (utf8 "redis get session: " ++ e)
  reply_session (value raw) = decoded (codec.unmarshal raw)

  pub get : Bytes → redis.State → GetResult
  unfolding decoded reply_session
  get key s = reply_session (redis.get (session_redis_key key) s)

  written : Session → Option Bytes × redis.State → SaveResult redis.State
  written sess (none, s) = record { error = none; session = sess; state = s }
  written sess (some e, s) = record {
    error = some (utf8 "redis set session: " ++ e);
    session = sess;
    state = s;
  }

  write : Bytes → Session → Option Bytes → redis.State → SaveResult redis.State
  write key sess none s = record { error = some (utf8 "encode session"); session = sess; state = s }
  write key sess (some raw) s = written sess (redis.set (session_redis_key key) raw ttl s)

  -- Save at a session that is not nil; its fields are changed before the write is tried.
  unfoldable pub save : Bytes → Session → redis.State → SaveResult redis.State
  unfolding write written
  save key sess s = let sess' = stamp now sess in write key sess' (codec.marshal sess') s

  pub delete : Bytes → redis.State → Option Bytes × redis.State
  delete key s = redis.del (session_redis_key key) s

  pub redis_store : Store
  redis_store = record { State = redis.State; get = get; save = save; delete = delete }
