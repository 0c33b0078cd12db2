-- ===== src/Limits.antt =====
-- src/limits: the token bucket and the rate limiter of `actor.call`.
pub mod TokenBucket
pub mod RateLimiter
pub mod Examples
