-- ===== src/Render.antt =====
-- internal/render: from stream events to the card that is patched in the chat.
pub mod Json
pub mod State
pub mod Card
pub mod Split
pub mod Markdown
pub mod Feed
