-- ===== src/Cache.antt =====
-- The package nexus/cache.
pub mod Keys
pub mod Counters
pub mod Redis
pub mod Connections
pub mod RedisCache
pub mod SessionStore
pub mod RedisMemory
pub mod Memory
pub mod TextStore
pub mod SemanticCache
pub mod RateLimiter
pub mod Shared
