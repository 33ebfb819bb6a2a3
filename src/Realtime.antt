-- ===== src/Realtime.antt =====
-- internal/realtime: the chat pipeline.
pub mod Batch
pub mod Badges
pub mod Hub
