-- ===== src/Gateway.antt =====
-- core/gateway/handler.go: parts of the HTTP request handler.
pub mod Retry
pub mod Auth
pub mod Media
pub mod Recorder
pub mod Forms
pub mod Compose
pub mod Admit
pub mod Writing
pub mod Serve
