-- ===== src/Tests.antt =====
-- Concrete inputs for the theorems: each is applied to a small run of the code.
mod Smtp
mod Limits
mod Web
mod Serve
mod Config
mod Sorting
mod Metrics
mod SmtpOut
