-- ===== src/ArchiveStore/IndexCache.antt =====
-- loadIndex, tryReadCache and rebuildIndex of store_inventory_archive_v1.go, and writeCacheV1 of
-- pack_v1.go: how a store comes by its index, and how it keeps it.
use madder.Common.{ℕ, List, [], ◌∷◌, ◌++◌, length, Bool, Option, none, some}
use madder.Common.Bytes.{Bytes, compare_bytes, below}
use madder.Common.Tables.{Table, insert_all}
use madder.Archive.Types.{Result, ok, err, ◌>>=◌, ◌>>◌, guard, IndexEntryV1, CacheEntryV1}
use madder.Archive.Types.{file_failed}
use madder.Archive.Stream.{Sink}
use madder.Archive.Index.Reader as Index
use madder.Archive.Cache.Writer.{write_cache_v1}
use madder.Archive.Cache.Reader.{new_cache_reader_v1, read_all_entries}
use madder.ArchiveStore.Types.{StoreConfig, ArchiveEntryV1}
use mathlib.Core.List.{map}
pub mod Sorting
pub mod Reloaded
pub mod Duplicates
pub mod Kept
mod Samples

-- One match of the glob over the index files: the bytes that its name stands for, if it is in
-- hexadecimal, and its contents, if it opens and can be measured.
pub record IndexFile : Type 0 where
  pub stem : Option Bytes
  pub contents : Result Bytes

-- The answers of the operating system to the writing of a cache file.
pub record CacheDisk : Type 0 where
  pub makes_directory : Bool
  pub creates_file : Bool
  pub room : ℕ
  pub closes_file : Bool

abbrev pub cache_entry : Bytes → IndexEntryV1 → CacheEntryV1
cache_entry checksum ie = record {
  hash = ie.hash;
  archive_checksum = checksum;
  offset = ie.pack_offset;
  stored_size = ie.stored_size;
  entry_type = ie.entry_type;
  base_offset = ie.base_offset;
}

abbrev pub archive_entry_of : CacheEntryV1 → ArchiveEntryV1
archive_entry_of e = record {
  archive_checksum = e.archive_checksum;
  offset = e.offset;
  stored_size = e.stored_size;
  entry_type = e.entry_type;
  base_offset = e.base_offset;
}

-- The stores into store.index, keyed by the hash of each entry.
unfoldable pub fill_index : List CacheEntryV1 → Table ArchiveEntryV1
unfolding insert_all
fill_index entries = insert_all (λ e. e.hash) archive_entry_of entries []

unfoldable pub sort_cache_in : CacheEntryV1 → List CacheEntryV1 → List CacheEntryV1
sort_cache_in entry [] = entry ∷ []
sort_cache_in entry (other ∷ rest) =
    let later = sort_cache_in entry rest in
    elim (compare_bytes other.hash entry.hash) [ below ↦ other ∷ later | _ ↦ entry ∷ other ∷ rest ]

-- sort.Slice by hash
unfoldable pub sort_cache : List CacheEntryV1 → List CacheEntryV1
sort_cache [] = []
sort_cache (entry ∷ rest) = sort_cache_in entry (sort_cache rest)

-- The entries of the index in the order of the map, which the sorting undoes.
unfoldable pub index_cache_entries : Table ArchiveEntryV1 → List CacheEntryV1
index_cache_entries [] = []
index_cache_entries ((id, entry) ∷ rest) =
    record {
      hash = id;
      archive_checksum = entry.archive_checksum;
      offset = entry.offset;
      stored_size = entry.stored_size;
      entry_type = entry.entry_type;
      base_offset = entry.base_offset;
    }
    ∷ index_cache_entries rest

-- if err != nil { return nil, false }
abbrev pub unless_failed : Result (List CacheEntryV1) → Option (List CacheEntryV1)
unless_failed (ok entries) = some entries
unless_failed (err e) = none

module _ (config : StoreConfig) where
  -- The cache file, if it opens and can be measured; it is not validated.
  unfoldable pub try_read_cache : Option Bytes → Option (List CacheEntryV1)
  try_read_cache none = none
  try_read_cache (some file) =
      unless_failed (new_cache_reader_v1 file (length file) config.hash_format >>= read_all_entries)

  unfoldable pub read_index_file : Bytes → Result (List IndexEntryV1)
  read_index_file file =
      Index.new_index_reader_v1 file (length file) config.hash_format >>= Index.read_all_entries

  -- The loop over the matches; a file whose name is not in hexadecimal is passed over.
  unfoldable pub collect_entries : List IndexFile → Result (List CacheEntryV1)
  collect_entries [] = ok []
  collect_entries (match ∷ matches) =
      let rest = collect_entries matches in
      elim match.stem [
        | none ↦ rest
        | some checksum ↦ do
          file ← match.contents
          index_entries ← read_index_file file
          entries ← rest
          ok (map (cache_entry checksum) index_entries ++ entries)
      ]

  -- Sorted, and written to a new file; what a failure leaves of the file is not modelled.
  unfoldable pub write_cache_file : CacheDisk → List CacheEntryV1 → Result Bytes
  write_cache_file disk entries = do
    guard disk.makes_directory file_failed
    guard disk.creates_file file_failed
    out ←
        write_cache_v1 config.digest config.hash_format (sort_cache entries)
          (record { written = []; hashed = []; room = disk.room })
    guard disk.closes_file file_failed
    ok out.1.written

  -- The index, and the cache file, which is not written for a store without archived blobs.
  unfoldable pub finish_rebuild :
      CacheDisk → List CacheEntryV1 → Result (Table ArchiveEntryV1 × Option Bytes)
  finish_rebuild disk [] = ok ([], none)
  finish_rebuild disk (e ∷ es) =
      write_cache_file disk (e ∷ es) >>= λ file. ok (fill_index (e ∷ es), some file)

  -- An error of the glob itself comes before.
  unfoldable pub rebuild_index :
      CacheDisk → Result (List IndexFile) → Result (Table ArchiveEntryV1 × Option Bytes)
  rebuild_index disk matches = matches >>= collect_entries >>= finish_rebuild disk

  abbrev pub or_rebuild :
      Result (Table ArchiveEntryV1 × Option Bytes)
      → Option Bytes
      → Option (List CacheEntryV1)
      → Result (Table ArchiveEntryV1 × Option Bytes)
  or_rebuild rebuilt cache none = rebuilt
  or_rebuild rebuilt cache (some entries) = ok (fill_index entries, cache)

  -- The index and the cache file of a store that was opened, or the error that refuses it.
  unfoldable pub load_index :
      CacheDisk
      → Option Bytes
      → Result (List IndexFile)
      → Result (Table ArchiveEntryV1 × Option Bytes)
  load_index disk cache matches =
      or_rebuild (rebuild_index disk matches) cache (try_read_cache cache)

  unfoldable pub write_index_cache : CacheDisk → Table ArchiveEntryV1 → Result Bytes
  write_index_cache disk index = write_cache_file disk (index_cache_entries index)
