-- ===== src/Stream.antt =====
-- The streaming of text to a client: toolFenceGate of internal/app/messages.go, deltaTracker of
-- internal/app/gemini.go and remainingOf of internal/app/server.go. Texts are bytes.
pub mod Gate
pub mod Delta
mod Examples
