-- ===== src/Archive/Data.antt =====
-- go/internal/alfa/inventory_archive/data_writer_v1.go and data_reader_v1.go: the archive file that
-- holds the blobs, whole or as deltas.
pub mod Codec
pub mod Writer
pub mod Cursor
pub mod Reader
pub mod Steps
pub mod Entry
pub mod ReadBack
pub mod Wrote
pub mod Chain
pub mod Session
pub mod Calls
pub mod Runs
pub mod Opening
pub mod WholeFile
pub mod Validated
pub mod ReadArchive
mod Samples
