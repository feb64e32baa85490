-- ===== src/Archive.antt =====
-- go/internal/alfa/inventory_archive: the packed archive and its index, format v1.
pub mod Types
pub mod Exec
pub mod Stream
pub mod TestDigest
pub mod TestCodec
pub mod Sealed
pub mod Headed
pub mod Index
pub mod Cache
pub mod Data
