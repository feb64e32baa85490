-- ===== src/Multi.antt =====
-- go/internal/foxtrot/blob_stores/multi.go: several stores behind one.
pub mod Store
pub mod Missing
pub mod Reads
pub mod Merge
pub mod Ids
pub mod Listings
pub mod Least
pub mod Heads
pub mod Merged
pub mod Pooled
pub mod Lossless
pub mod Tee
pub mod Writers
mod Samples
