-- ===== src/Agent.antt =====
-- internal/agent: the loop that drives a provider and its tools for one user turn.
pub mod Context
pub mod Exec
pub mod Turn
pub mod Loop
