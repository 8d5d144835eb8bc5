-- ===== src/Builtin.antt =====
-- internal/tool/builtin: the tools that are part of the program.
pub mod Datetime
pub mod Docs
pub mod Fetch
pub mod Search
