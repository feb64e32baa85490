-- ===== src/Archive/Index.antt =====
-- go/internal/alfa/inventory_archive/index_v1.go: the sorted index of an archive, with its fan-out
-- table, as `WriteIndexV1` lays it out and `IndexReaderV1` reads it.
pub mod Writer
pub mod Order
pub mod FanOut
pub mod Image
pub mod Written
pub mod Reader
pub mod Decode
pub mod RoundTrip
pub mod Find
pub mod Lookup
pub mod Check
pub mod EndToEnd
pub mod Rounds
mod Samples
pub mod Opened
