-- ===== src/Core/Cache.antt =====
-- nl2sql_service/core/cache.py: what its four caches share. A store is a dict from digests to
-- payloads with the time of their writing; it holds `max_size` entries at most, evicts the oldest
-- and forgets on reading what is older than a time to live. MD5 is an argument, as is each reading
-- of the clock.
pub mod Store
pub mod Embed
pub mod Sql
pub mod Vectors
pub mod Semantic
pub mod Ask
pub mod Laws
pub mod Search
pub mod Purge
pub mod Methods
