-- ===== src/Session/Memory.antt =====
-- internal/session/memory.go: the store for tests. cloneSession copies a session and its list of
-- messages on the way in and on the way out; the tool calls inside a message stay shared with the
-- caller. A session is a value here, so that neither the copies nor what they share can show.
use ssh_bot.Base.{
  ◌≡◌, Option, none, some, arith, if◌then◌else◌, Bytes, beq, Assoc, lookup, insert, remove,
  lookup-insert, lookup-remove,
}
use ssh_bot.Session.Store.{Store, GetResult, found}
use ssh_bot.Session.{Session}

pub record MemoryStore : Type 0 where
  pub sessions : Assoc Session

-- (nil, nil) where there is no session
pub get : Bytes → MemoryStore → GetResult
get key m = found (lookup key m.sessions)

-- Save of a nil session does nothing.
pub save : Bytes → Option Session → MemoryStore → MemoryStore
save key none m = m
save key (some sess) m = record { sessions = insert key sess m.sessions }

pub delete : Bytes → MemoryStore → MemoryStore
delete key m = record { sessions = remove key m.sessions }

-- MemoryStore as a Store: no operation fails, and Save leaves the caller's session as it was.
abbrev pub memory_store : Store
memory_store = record {
  State = MemoryStore;
  get = get;
  save = λ key sess m. record { error = none; session = sess; state = save key (some sess) m };
  delete = λ key m. (none, delete key m);
}

-- A save or a delete of one key shows in Get of that key and of no other.
get-save-delete :
    (k j : Bytes) (sess : Session) (m : MemoryStore)
    → (get j (save k (some sess) m) ≡ (if beq k j then found (some sess) else get j m))
      × (get j (delete k m) ≡ (if beq k j then found none else get j m))
unfolding get save delete
get-save-delete k j sess m = (
  ground (arith, lookup-insert k j sess m.sessions),
  ground (arith, lookup-remove k j m.sessions),
)
