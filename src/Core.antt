-- ===== src/Core.antt =====
-- nl2sql_service/core: rate limiting, caches, provider names.
pub mod RateLimiter
pub mod CacheKeys
pub mod Cache
