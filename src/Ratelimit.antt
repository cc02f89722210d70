-- ===== src/Ratelimit.antt =====
-- core/ratelimit: the token-bucket limiter and the client's address behind proxies.
pub mod Bucket
pub mod Limiter
pub mod ClientIp
