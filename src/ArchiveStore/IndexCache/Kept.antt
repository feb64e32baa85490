-- ===== src/ArchiveStore/IndexCache/Kept.antt =====
-- The cache that a Pack leaves, read by the next store.
use madder.Common.{ℕ, ◌+◌, ◌*◌, ◌^◌, ◌≤◌, ◌<◌, ◌≡◌, refl, ap, ◌∙◌, arith, List, [], ◌∷◌}
use madder.Common.{suc, length, true, false, All, Option, none, le→leb, if◌then◌else◌}
use madder.Common.Bytes.{Bytes, equal_bytes}
use madder.Common.Tables.{Table}
use madder.Common.Tables.Last.{Unique, last_of, last_of-Unique}
use madder.Archive.Types.{ok, CacheEntryV1, IsU64, IsSized, hash_size_for_format}
use madder.Archive.Cache.Order.{HasSize}
use madder.Archive.Cache.Written.{Fits, IsCache, cache_file, write_cache_v1-cache_file}
use madder.Archive.Cache.RoundTrip.{length-cache_file}
use madder.ArchiveStore.Types.{StoreConfig, ArchiveEntryV1}
use madder.ArchiveStore.IndexCache.{
  CacheDisk, fill_index, sort_cache, write_cache_file, index_cache_entries, write_index_cache,
}
use madder.ArchiveStore.IndexCache.Sorting.{
  AllApart, All-sort_cache, sort_cache-IsSorted_iff, length-sort_cache, found_in,
}
use madder.ArchiveStore.IndexCache.Reloaded.{
  Reopens, SameLookups, Reopens-filled, lookup-fill_index,
}

-- A key and its entry as the store keeps them for digests of `n` bytes.
abbrev pub IsKept : ℕ → Bytes × ArchiveEntryV1 → Type 0
IsKept n (id, e) =
    (length id ≡ n)
    × (length e.archive_checksum ≡ n)
    × IsU64 e.offset
    × IsU64 e.stored_size
    × IsU64 e.base_offset

entries-HasSize :
    (n : ℕ) (t : Table ArchiveEntryV1) → All (IsKept n) t → All (HasSize n) (index_cache_entries t)
unfolding index_cache_entries
entries-HasSize n [] h = tt
entries-HasSize n ((id, e) ∷ t) (h, hs) = ((h.0, h.1), entries-HasSize n t hs)

entries-Fits :
    (n : ℕ) (t : Table ArchiveEntryV1) → All (IsKept n) t → All Fits (index_cache_entries t)
unfolding index_cache_entries
entries-Fits n [] h = tt
entries-Fits n ((id, e) ∷ t) (h, hs) =
    (record { offset = h.2; stored_size = h.3; base_offset = h.4 }, entries-Fits n t hs)

length-index_cache_entries : (t : Table ArchiveEntryV1) → length (index_cache_entries t) ≡ length t
unfolding index_cache_entries
length-index_cache_entries [] = refl
length-index_cache_entries ((id, e) ∷ t) = ap suc (length-index_cache_entries t)

entries-Apart :
    (key : Bytes) (t : Table ArchiveEntryV1)
    → All (λ (p : Bytes × ArchiveEntryV1). equal_bytes key p.0 ≡ false) t
    → All (λ (c : CacheEntryV1). equal_bytes key c.hash ≡ false) (index_cache_entries t)
unfolding index_cache_entries
entries-Apart key [] h = tt
entries-Apart key ((id, e) ∷ t) (h, hs) = (h, entries-Apart key t hs)

entries-AllApart : (t : Table ArchiveEntryV1) → Unique t → AllApart (index_cache_entries t)
unfolding index_cache_entries
entries-AllApart [] u = tt
entries-AllApart ((id, e) ∷ t) (apart, u) = (entries-Apart id t apart, entries-AllApart t u)

found_in-entries :
    (k : Bytes) (t : Table ArchiveEntryV1) (before : Option ArchiveEntryV1)
    → found_in k (index_cache_entries t) before
      ≡ last_of (λ (p : Bytes × ArchiveEntryV1). p.0) (λ p. p.1) k t before
unfolding index_cache_entries
found_in-entries k [] before = refl
found_in-entries k ((id, e) ∷ t) before = found_in-entries k t _

-- The file system lets the cache file be made.
pub record Works (disk : CacheDisk) : Type 0 where
  pub makes_directory : disk.makes_directory ≡ true
  pub creates_file : disk.creates_file ≡ true
  pub closes_file : disk.closes_file ≡ true

module _ (config : StoreConfig) (honest : IsSized config.digest) (disk : CacheDisk)
    (works : Works disk) (n : ℕ) (sized : hash_size_for_format config.hash_format ≡ ok n)
    (index : Table ArchiveEntryV1) (unique : Unique index) (kept : All (IsKept n) index) where
  abbrev entries : List CacheEntryV1
  entries = index_cache_entries index

  abbrev sorted : List CacheEntryV1
  sorted = sort_cache entries

  abbrev file_size : ℕ
  file_size = 15 + length config.hash_format + length index * (n + n + 25) + n

  count : length sorted ≡ length index
  count = length-sort_cache entries ∙ length-index_cache_entries index

  sizes : All (HasSize n) sorted
  sizes = (All-sort_cache (HasSize n) entries).1 (entries-HasSize n index kept)

  size : length (cache_file config.digest config.hash_format sorted) ≡ file_size
  size =
      length-cache_file config.digest config.hash_format n sorted honest sized sizes
      ∙ ap (λ c. 15 + length config.hash_format + c * (n + n + 25) + n) count

  module _ (room : file_size ≤ disk.room) (small : file_size < 2 ^ 63) where
    few : IsU64 (length sorted)
    few = rw count (grind arith)

    valid : IsCache n sorted
    valid = record {
      sorted = (sort_cache-IsSorted_iff entries).1 (entries-AllApart index unique);
      sizes = sizes;
      fits = (All-sort_cache Fits entries).1 (entries-Fits n index kept);
      few = few;
    }

    fitting : length (cache_file config.digest config.hash_format sorted) ≤ disk.room
    fitting = rw size room

    wrote :
        write_index_cache config disk index
        ≡ ok (cache_file config.digest config.hash_format sorted)
    unfolding write_index_cache write_cache_file
    wrote = rw (
      works.makes_directory,
      works.creates_file,
      write_cache_v1-cache_file config.digest config.hash_format n sorted
          (record { written = []; hashed = []; room = disk.room }) sized valid,
      le→leb (length (cache_file config.digest config.hash_format sorted)) disk.room fitting,
      if◌then◌else◌,
      works.closes_file,
    )

    -- A store's cache can be written if there is room for it, and a store that is opened with that cache
    -- file, whatever the index files are, has the index of the first: each key has the same entry or
    -- none. The index has each key once, as a map does, keys and checksums of the format's length and
    -- numbers within the ranges of Go's types; the file is shorter than 2^63 bytes, and digests are as
    -- long as their format says.
    pub load_index-write_index_cache :
        (file : Bytes) × (write_index_cache config disk index ≡ ok file) × Reopens config file index
    load_index-write_index_cache = (
      cache_file config.digest config.hash_format sorted,
      wrote,
      record {
        loaded = filled.loaded;
        loads = filled.loads;
        alike = λ k. filled.alike k ∙ refilled k;
      },
    )
      where
        filled :
            Reopens config (cache_file config.digest config.hash_format sorted) (fill_index entries)
        filled =
            Reopens-filled config disk n sized entries (entries-Fits n index kept)
              (rw (length-sort_cache entries) at few) (unfold write_index_cache in wrote)
              (rw size small)

        refilled : SameLookups (fill_index entries) index
        refilled k =
            lookup-fill_index k entries
            ∙ found_in-entries k index none
            ∙ last_of-Unique k index unique
