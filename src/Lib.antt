-- ===== src/Lib.antt =====
-- madder, a content-addressable blob store: the packed inventory archive of format v1, the choice of
-- deltas that goes into it, the store that packs, validates, deletes, reads and keeps its index, the scoped ids that
-- name stores, and several stores behind one.
--
-- The program is the Go module under go/. Its archive packs many blobs into one file, whole or as
-- deltas, and puts beside it an index that is sorted by digest.
--
-- Common: numbers, lists, byte strings ordered as `bytes.Compare` does, big-endian words.
-- Archive/Types: go/internal/alfa/inventory_archive/types.go.
-- Archive/Exec, Archive/Stream: the state monad, and io.MultiWriter over a sink of bounded room. A
--   write that does not fit fails, and what it left in the sink is not modelled.
-- Archive/Index: index_v1.go. `write_index_v1` is `WriteIndexV1` with its helpers, `IndexReaderV1`
--   the record of that name; an io.ReaderAt is the bytes of the file. Offsets are int64 by their bit
--   pattern. The binary search has 65 rounds of fuel, and no range of uint64 bounds needs more.
-- Archive/Cache: cache_v1.go, in the same way.
-- Archive/Headed, Archive/Sealed: the header that index and cache share, and the checksum at their end.
-- Archive/Data: data_writer_v1.go and data_reader_v1.go. A method takes the writer's record and gives
--   the new one; the reader's file is a cursor. The loop over entries has as many rounds as the file
--   has bytes, and one more, since an entry takes a byte at least.
-- Packing/Chunks: gear_hash.go of the same directory. Packing/Selector: base_selector_lsh.go, and
--   MinHashJaccard of minhash.go. The buckets of the selector are the tests whether two blobs share
--   one; a similarity is a quotient of two counts; the order in which Go goes through a map is the
--   parameter `arrange`, which keeps what holds of every element. Packing/BySize: base_selector_size.go,
--   with the comparison of float64 sizes as a test of the selector. Packing/Signature: the rest of
--   minhash.go, and signature_gear_cdc_minhash.go.
-- ScopedId: go/internal/alfa/scoped_id/main.go and effective.go, with
--   go/internal/0/xdg_location_type/main.go. `set` is `Id.Set`, without what a failure leaves in the
--   receiver. Digests are of another repository and a parameter, `Markl`.
-- ArchiveStore: the store that packs loose blobs, store_inventory_archive_v1.go, pack_v1.go,
--   pack_parallel.go and splitBlobChunks of pack_v0.go, in go/internal/foxtrot/blob_stores, with the
--   registry of go/internal/alfa/inventory_archive/delta_algorithm.go. `InventoryArchiveV1` is the
--   index and the files of the archives directory; a Go map from strings is a `Table`, keyed by the
--   bytes that the text stands for. `Deltas` and `Packer` are packChunkArchiveV1 before and after the
--   deltas are known, `Validator` is validateArchiveV1, `Collect` and `Pack` the rest of Pack, `Reads`
--   the readers, `IndexCache` loadIndex, rebuildIndex and writeCacheV1. The selector and the signature computer are fields of `StoreConfig`, being
--   interfaces; `Configured` is their choice by the configured names. The answers of the
--   file system and of the context are the records `Disk`, `Files`
--   and `Loose`. Parallel workers are their results in the order of the assignments. The calls that
--   report progress are left out.
-- Multi: multi.go of the same directory. A child store is what it answers during one call, and to
--   `Store`, the reads, the tee into the write store is a function on readers. `Merge` is AllBlobs: a
--   sequence is the list of what it gives, each id with what its object holds once the sequence has
--   been asked for more, since many stores fill one id object again and again (localAllBlobs of
--   util_local.go), and minId of the loop is such an object. The loop has as many rounds as there are
--   items, and one more. `Writers` is MakeBlobWriter and the writer of a mirror, over io.MultiWriter and io.Copy.
--   `Tee` is multi_tee.go: a source is the list of its answers to Read, which the loops go through, a
--   sink what it takes, and a caller the list of its calls.
--
-- The local and remote stores are not modelled, nor are the formats of v0, the configs and the
-- commands. A file that a failed write leaves behind is not modelled.
--
-- The digests (crypto/sha256 and the others), the compression plugins and the encryption wrapper are
-- parameters. What they are trusted with are hypotheses: a digest has the length of its format, and a
-- codec decodes what it encoded; a delta library gives back what a delta was made of. Error texts are
-- constructors. Allocation failures on absurd sizes in a damaged file are not modelled.
pub mod Common
pub mod Archive
pub mod ArchiveStore
pub mod ScopedId
pub mod Packing
pub mod Multi
