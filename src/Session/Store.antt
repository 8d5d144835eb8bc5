-- ===== src/Session/Store.antt =====
-- The interface Store of internal/session/store.go. A result carries the session back, since Save
-- may change the caller's record, and an error as its text.
use ssh_bot.Base.{Option, Bytes}
use ssh_bot.Session.{Session}

pub data GetResult : Type 0 where
  found : Option Session → GetResult
  failed : Bytes → GetResult

pub record SaveResult (State : Type 0) : Type 0 where
  pub error : Option Bytes
  pub session : Session
  pub state : State

pub record Store : Type 1 where
  pub State : Type 0
  pub get : Bytes → State → GetResult
  pub save : Bytes → Session → State → SaveResult State
  pub delete : Bytes → State → Option Bytes × State
