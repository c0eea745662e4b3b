-- ===== src/Stream.antt =====
-- internal/app/gemini.go and internal/app/messages.go: what a streaming client is sent.
pub mod Delta
pub mod Feed
pub mod Fence
pub mod Hold
pub mod Partial
pub mod Chunks
pub mod Resume
