-- ===== src/Lark.antt =====
-- internal/lark: inbound messages, commands and the handling of a message.
pub mod Parser
pub mod Commands
pub mod Handler
