-- ===== src/Packing.antt =====
-- go/internal/alfa/inventory_archive: how the packer finds similar blobs (gear_hash.go, minhash.go,
-- base_selector_lsh.go).
pub mod Chunks
pub mod ChunkLaws
pub mod Selector
pub mod Assigned
pub mod Acyclic
pub mod BySize
pub mod Signature
pub mod Unchained
mod Samples
