-- ===== src/Stream.antt =====
-- base/stream: the words that mark a message, and the bounded backlog.
pub mod Meta
pub mod Buffer
pub mod Consumer
