-- ===== src/Spam.antt =====
-- core/spam/spam.go: the honeypot, the origin check and the size of a limit.
pub mod Checks
pub mod Size
