-- ===== src/Archive/Cache.antt =====
-- go/internal/alfa/inventory_archive/cache_v1.go: the cache of the indices of all archives, as
-- `WriteCacheV1` lays it out and `CacheReaderV1` reads it.
pub mod Writer
pub mod Reader
pub mod Order
pub mod Written
mod Decode
pub mod RoundTrip
pub mod EndToEnd
mod Samples
