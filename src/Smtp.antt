-- ===== src/Smtp.antt =====
-- core/smtp: the inbound SMTP listener.
pub mod Config
pub mod Envelope
pub mod Mime
pub mod Session
pub mod Commands
pub mod Delivery
pub mod Run
pub mod Ends
pub mod Relay
