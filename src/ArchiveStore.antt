-- ===== src/ArchiveStore.antt =====
-- go/internal/foxtrot/blob_stores: store_inventory_archive_v1.go, pack_v1.go, pack_parallel.go and
-- splitBlobChunks of pack_v0.go, a blob store that packs loose blobs into archive files.
pub mod Types
pub mod Configured
pub mod Deltas
pub mod Assignments
pub mod Packer
pub mod Planned
pub mod Called
pub mod DeltaCalls
pub mod FileCalls
pub mod ChunkCalls
pub mod Validator
pub mod Unchained
pub mod Split
pub mod Collect
pub mod Pack
pub mod Deletes
pub mod Behind
pub mod Skipped
pub mod Reads
pub mod IndexCache
pub mod Lookups
pub mod Stored
pub mod PackedFile
pub mod ReadPacked
pub mod FullEntries
pub mod ValidatePacked
pub mod Samples
mod Runs
