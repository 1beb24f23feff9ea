-- ===== src/RateLimit.antt =====
-- src/server/rate_limit.rs: the per-IP token-bucket limiter and the choice of the client's address.
pub mod Newtypes
pub mod Bucket
pub mod ClientIp
pub mod Limiter
mod Tests
