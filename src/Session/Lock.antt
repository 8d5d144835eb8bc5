-- ===== src/Session/Lock.antt =====
-- internal/session/lock.go: RedisLocker over SET NX EX and a script that deletes a matching token.
-- The client is a parameter; the script's text is in the source.
pub mod Exclusion
use ssh_bot.Base.{
  ℕ, ◌*◌, ◌≡◌, Bool, true, false, Option, none, some, [], ◌++◌, ◌==◌, if◌then◌else◌, Bytes, utf8,
  beq,
}

-- What SET NX answers: set, not set, or an error.
pub data Answer : Type 0 where
  was_set : Answer
  was_held : Answer
  no_answer : Bytes → Answer

-- What running the script answers: a value, redis.Nil, or an error.
pub data EvalReply : Type 0 where
  answered_value : EvalReply
  nil_reply : EvalReply
  eval_failed : Bytes → EvalReply

-- The commands that the locker and its script send. Running the script also tells whether the server
-- has executed it, which after an error the client cannot know.
pub record LockRedis : Type 1 where
  pub State : Type 0
  pub value : Bytes → State → Option Bytes
  pub set_nx : (key token : Bytes) (ttl : ℕ) → State → Answer × State
  pub del : Bytes → State → State
  pub eval : (key token : Bytes) → State → EvalReply × Bool

-- (token, true, nil), ("", false, nil) and ("", false, err)
pub data Acquired : Type 0 where
  acquired : Bytes → Acquired
  busy : Acquired
  failed : Bytes → Acquired

pub lock_redis_key : Bytes → Bytes
lock_redis_key key = utf8 "bot:lock:" ++ key

module _ (redis : LockRedis) where
  answered : Bytes → Answer → Acquired
  answered token was_set = acquired token
  answered token was_held = busy
  answered token (no_answer e) = failed (utf8 "redis setnx: " ++ e)

  -- TryAcquire, given the token that randomToken drew; `none` is its error. A lifetime that is not
  -- positive becomes 60 seconds.
  unfoldable pub try_acquire :
      (key : Bytes) (ttl : ℕ) → Option Bytes → redis.State → Acquired × redis.State
  unfolding answered
  try_acquire key ttl none s = (failed (utf8 "random token"), s)
  try_acquire key ttl (some token) s =
      let (a, s') = redis.set_nx (lock_redis_key key) token (if ttl == 0 then 60 else ttl) s in
      (answered token a, s')

  -- if redis.call("GET", KEYS[1]) == ARGV[1] then return redis.call("DEL", KEYS[1]) ...
  script_on : Option Bytes → (key token : Bytes) → redis.State → redis.State
  script_on none key token s = s
  script_on (some held) key token s = if beq held token then redis.del key s else s

  pub release_script : (key token : Bytes) → redis.State → redis.State
  unfolding script_on
  release_script key token s = script_on (redis.value key s) key token s

  release_error : EvalReply → Option Bytes
  release_error answered_value = none
  release_error nil_reply = none
  release_error (eval_failed e) = some (utf8 "redis release: " ++ e)

  -- Release; an empty token releases nothing.
  pub release : (key token : Bytes) → redis.State → Option Bytes × redis.State
  unfolding release_script release_error
  release key token s =
      if beq token []
      then (none, s)
      else (let (reply, executed) = redis.eval (lock_redis_key key) token s in
          (
            release_error reply,
            if executed then release_script (lock_redis_key key) token s else s,
          ))
