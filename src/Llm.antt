-- ===== src/Llm.antt =====
-- internal/llm: the messages, the stream events and what turns provider chunks into them.
pub mod Types
pub mod Stream
pub mod Providers
pub mod Translate
pub mod Adapter
