-- ===== src/Tests/SessionRuns.antt =====
-- internal/session at concrete inputs: a server of one key space without expiry, for the store and
-- for the locker.
use ssh_bot.Base.{
  ℕ, ◌-◌, ◌≤◌, ◌≡◌, ◌≢◌, refl, ap, true, arith, Option, none, some, List, [], ◌∷◌, ◌++◌, Bytes,
  utf8, length, take, All, Assoc, lookup, insert, remove, lookup-insert, lookup-remove, beq_iff,
}
use ssh_bot.Llm.Types.{Message, message, user}
use ssh_bot.Session.Lock.Exclusion.{
  IsLockRedis, World, Reach, here, next, enter, entered, left, Reach-alone, expired_overlap,
}
use ssh_bot.Session.Lock.{
  LockRedis, Answer, was_set, was_held, no_answer, answered_value, lock_redis_key, try_acquire,
}
use ssh_bot.Tests.{repeat, length-repeat}
use ssh_bot.Session.Trim.{IsStorable, IsCapped, trim_content_thrice, trim_messages-IsCapped}
use ssh_bot.Session.{marker, max_messages, max_message_content, trim_content, trim_messages}

abbrev long_content : Bytes
long_content = repeat 30000

trim_content_thrice_example :
    (trim_content long_content
      ≡ take max_message_content long_content ++ marker (length long_content - max_message_content))
    × (trim_content (trim_content (trim_content long_content))
        ≡ take max_message_content long_content ++ marker 25)
trim_content_thrice_example =
    trim_content_thrice long_content (omega (arith, length-repeat 30000))
      (omega (arith, length-repeat 30000))

abbrev greetings : List Message
greetings = message user (utf8 "hi") ∷ message user long_content ∷ []

greetings-IsStorable : All IsStorable greetings
unfolding utf8
greetings-IsStorable = (omega arith, (omega (arith, length-repeat 30000), tt))

trim_messages-IsCapped_example :
    (length (trim_messages greetings) ≤ max_messages) × All IsCapped (trim_messages greetings)
trim_messages-IsCapped_example = trim_messages-IsCapped greetings greetings-IsStorable

stored : (k raw : Bytes) (s : Assoc Bytes) → lookup k (insert k raw s) ≡ some raw
stored k raw s = rw (lookup-insert k k raw s, (beq_iff k k).1 refl)

abbrev nx : Bytes → Bytes → Assoc Bytes → Option Bytes → Answer × Assoc Bytes
nx k t s none = (was_set, insert k t s)
nx k t s (some held) = (was_held, s)

-- A server on which no key expires by itself.
abbrev plain_server : LockRedis
plain_server = record {
  State = Assoc Bytes;
  value = λ k s. lookup k s;
  set_nx = λ k t ttl s. nx k t s (lookup k s);
  del = λ k s. remove k s;
  eval = λ k t s. (answered_value, true);
}

nx_sets :
    (k t : Bytes) (s : Assoc Bytes) (o : Option Bytes)
    → lookup k s ≡ o
    → (nx k t s o).0 ≡ was_set
    → (lookup k s ≡ none) × (lookup k (nx k t s o).1 ≡ some t)
nx_sets k t s none e h = (e, stored k t s)
nx_sets k t s (some held) e h = cc

nx_leaves :
    (k t : Bytes) (s : Assoc Bytes) (o : Option Bytes)
    → (nx k t s o).0 ≡ was_held
    → lookup k (nx k t s o).1 ≡ lookup k s
nx_leaves k t s none h = cc
nx_leaves k t s (some held) h = refl

nx_answers :
    (k t : Bytes) (s : Assoc Bytes) (o : Option Bytes) (e : Bytes) → (nx k t s o).0 ≢ no_answer e
nx_answers k t s none e h = cc
nx_answers k t s (some held) e h = cc

plain_server-IsLockRedis : IsLockRedis plain_server
plain_server-IsLockRedis = record {
  nx_set = λ k t ttl s. nx_sets k t s (lookup k s) refl;
  nx_held = λ k t ttl s. nx_leaves k t s (lookup k s);
  nx_error = λ k t ttl s e h. absurd (nx_answers k t s (lookup k s) e h);
  del_value = λ k s. rw (lookup-remove k k s, (beq_iff k k).1 refl);
}

abbrev idle_world : World plain_server plain_server-IsLockRedis (utf8 "k") 60
idle_world = record { holds = λ p. none; server = [] }

abbrev entered_world : World plain_server plain_server-IsLockRedis (utf8 "k") 60
entered_world =
    entered plain_server plain_server-IsLockRedis (utf8 "k") 60 idle_world 1
      (try_acquire plain_server (utf8 "k") 60 (some (utf8 "t")) [])

entered_holds : entered_world.holds 1 ≡ some (utf8 "t")
unfolding entered try_acquire lookup
entered_holds = refl

entered-Reach : Reach plain_server plain_server-IsLockRedis (utf8 "k") 60 idle_world entered_world
entered-Reach = next here (enter idle_world 1 (utf8 "t") refl)

one-ne-two : ◌≢◌ {A = ℕ} 1 2
one-ne-two x = omega arith

Reach-alone_example : entered_world.holds 2 ≡ none
Reach-alone_example =
    Reach-alone plain_server plain_server-IsLockRedis (utf8 "k") 60 (λ p. refl) entered-Reach 1 2
      (utf8 "t") entered_holds one-ne-two

tokens_differ : utf8 "t" ≢ utf8 "uu"
unfolding utf8
tokens_differ x = let sizes = ap length x in omega arith

expired_server_sets :
    (plain_server.set_nx (lock_redis_key (utf8 "k")) (utf8 "uu") 60 []).0 ≡ was_set
unfolding lookup
expired_server_sets = refl

abbrev overlapped : World plain_server plain_server-IsLockRedis (utf8 "k") 60
overlapped =
    entered plain_server plain_server-IsLockRedis (utf8 "k") 60
      (record entered_world { server = [] }) 2
      (try_acquire plain_server (utf8 "k") 60 (some (utf8 "uu")) [])

expired_overlap_example :
    (overlapped.holds 1 ≡ some (utf8 "t"))
    × (overlapped.holds 2 ≡ some (utf8 "uu"))
    × (lookup
          (lock_redis_key (utf8 "k"))
          (left plain_server plain_server-IsLockRedis (utf8 "k") 60 overlapped 1 (utf8 "t")).server
        ≡ some (utf8 "uu"))
expired_overlap_example =
    expired_overlap plain_server plain_server-IsLockRedis (utf8 "k") 60 entered_world 1 2 (utf8 "t")
      (utf8 "uu") [] entered_holds one-ne-two tokens_differ expired_server_sets
