-- ===== src/ArchiveStore/IndexCache/Samples.antt =====
-- A store whose index is rebuilt from two index files, cached and loaded again, and the index files
-- of two archives that share a blob.
use madder.Common.{ℕ, ◌^◌, ◌<◌, ◌≡◌, refl, ap, ◌∙◌, arith, List, [], ◌∷◌}
use madder.Common.{true, replicate, length, All, some, none}
use madder.Common.Bytes.{Bytes, codes, compare_bytes, equal_bytes}
use madder.Common.Tables.Last.{Unique}
use madder.Archive.Types.{Result, ok, err, Error, ◌>>=◌, IndexEntryV1, CacheEntryV1, not_found}
use madder.Archive.Types.{hash_size_for_format}
use madder.Archive.TestDigest.{sum_digest, sum_digest-IsSized, replicate-IsByte, digest_of, total}
use madder.Archive.TestCodec.{sha_size}
use madder.Archive.Index.Written as Index
use madder.Archive.Index.Written.{IsIndex, index_file}
use madder.Archive.Index.RoundTrip.{
  new_index_reader_v1-opened, read_all_entries-opened, length-index_file,
}
use madder.Archive.Cache.Written.{Fits}
use madder.Common.BigEndian.{word_bytes}
use madder.Archive.Stream.{write, write_unhashed}
use madder.Archive.Index.Writer.{sum, reject_long}
use madder.Archive.Cache.Writer.{
  write_cache_v1, write_cache_v1_body, write_cache_v1_header, write_cache_v1_entries,
  verify_cache_v1_sorted, check_cache_order, check_cache_lengths,
}
use madder.ArchiveStore.IndexCache.{sort_cache, sort_cache_in}
use madder.ArchiveStore.IndexCache.Reloaded.{rebuilt}
use madder.ArchiveStore.Samples.{config, three_places}
use madder.ArchiveStore.IndexCache.{
  IndexFile, CacheDisk, cache_entry, fill_index, read_index_file, collect_entries, rebuild_index,
  finish_rebuild, write_cache_file, load_index, write_index_cache, try_read_cache,
}
use madder.ArchiveStore.IndexCache.Reloaded.{Reopens, load_index-rebuild_index}
use madder.ArchiveStore.IndexCache.Duplicates.{load_index-duplicate}
use madder.ArchiveStore.IndexCache.Kept.{IsKept, Works, load_index-write_index_cache}

abbrev ie : ℕ → IndexEntryV1
ie b = record {
  hash = replicate 32 b;
  pack_offset = 17;
  stored_size = 7;
  entry_type = 0;
  base_offset = 0;
}

ie-Fits : (b : ℕ) → b < 256 → Index.Fits (ie b)
ie-Fits b h = record {
  hash = replicate-IsByte 32 b h;
  pack_offset = omega arith;
  stored_size = omega arith;
  base_offset = omega arith;
}

-- The index file of an archive with one blob.
abbrev one_index : ℕ → Bytes
one_index b = index_file sum_digest (codes "sha256") (ie b ∷ [])

module _ (b : ℕ) (h : b < 256) where
  one-IsIndex : IsIndex 32 (ie b ∷ [])
  one-IsIndex = record {
    sorted = (tt, tt);
    sizes = (refl, tt);
    fits = (ie-Fits b h, tt);
    few = omega arith;
  }

  one_small : length (one_index b) < 2 ^ 63
  one_small = omega (
    arith,
    length-index_file sum_digest (codes "sha256") 32 (ie b ∷ []) sum_digest-IsSized sha_size
        (refl, tt),
  )

  one_read : read_index_file config (one_index b) ≡ ok (ie b ∷ [])
  unfolding read_index_file
  one_read =
      rw
        (new_index_reader_v1-opened sum_digest (codes "sha256") 32 (ie b ∷ []) sha_size one-IsIndex)
        (read_all_entries-opened sum_digest (codes "sha256") 32 (ie b ∷ []) sha_size one-IsIndex
          one_small)

abbrev index_named : ℕ → ℕ → IndexFile
index_named stem b = record { stem = some (replicate 32 stem); contents = ok (one_index b) }

-- Two archives and a file whose name is no checksum.
abbrev matches : ℕ → Result (List IndexFile)
matches b =
    ok (index_named 1 9 ∷ record { stem = none; contents = err not_found } ∷ index_named 2 b ∷ [])

abbrev collected : ℕ → List CacheEntryV1
collected b = cache_entry (replicate 32 1) (ie 9) ∷ cache_entry (replicate 32 2) (ie b) ∷ []

two_collected : (b : ℕ) → b < 256 → matches b >>= collect_entries config ≡ ok (collected b)
unfolding collect_entries
two_collected b h = rw (one_read 9 (omega arith), one_read b h)

abbrev disk : CacheDisk
disk = record { makes_directory = true; creates_file = true; room = 1000; closes_file = true }

abbrev bytes_of : Result Bytes → Bytes
bytes_of (ok file) = file
bytes_of (err e) = []

abbrev cached : Bytes
cached = bytes_of (write_cache_file config disk (collected 7))

cached_written : write_cache_file config disk (collected 7) ≡ ok cached
unfolding write_cache_file sort_cache sort_cache_in write_cache_v1 write_cache_v1_body
    write_cache_v1_header write_cache_v1_entries verify_cache_v1_sorted check_cache_order
    check_cache_lengths write write_unhashed sum sum_digest digest_of total hash_size_for_format
    word_bytes reject_long compare_bytes
cached_written = refl

length-cached : length cached ≡ 231
unfolding write_cache_file sort_cache sort_cache_in write_cache_v1 write_cache_v1_body
    write_cache_v1_header write_cache_v1_entries verify_cache_v1_sorted check_cache_order
    check_cache_lengths write write_unhashed sum sum_digest digest_of total hash_size_for_format
    word_bytes reject_long compare_bytes
length-cached = refl

two_rebuilt : rebuild_index config disk (matches 7) ≡ ok (fill_index (collected 7), some cached)
two_rebuilt =
    rebuilt config disk 32 sha_size (matches 7) (collected 7) (two_collected 7 (omega arith))
    ∙ unfold finish_rebuild in
      ap (λ r. r >>= λ file. ok (fill_index (collected 7), some file)) cached_written

collected_fit : All Fits (collected 7)
collected_fit = (
  record { offset = omega arith; stored_size = omega arith; base_offset = omega arith },
  (record { offset = omega arith; stored_size = omega arith; base_offset = omega arith }, tt),
)

load_index-rebuild_index_example : Reopens config cached (fill_index (collected 7))
load_index-rebuild_index_example =
    load_index-rebuild_index config disk 32 sha_size (matches 7) (collected 7)
      (two_collected 7 (omega arith)) collected_fit (omega arith) two_rebuilt
      (omega (arith, length-cached))

-- Two archives with the blob 9.
load_index-duplicate_example : (e : Error) × (load_index config disk none (matches 9) ≡ err e)
load_index-duplicate_example =
    load_index-duplicate config disk 32 sha_size none (matches 9) (collected 9) 0 1
      (cache_entry (replicate 32 1) (ie 9)) (cache_entry (replicate 32 2) (ie 9)) unread
      (two_collected 9 (omega arith)) (omega arith) refl refl refl
  where
    unread : try_read_cache config none ≡ none
    unread = unfold try_read_cache in refl

-- The store of three blobs in one archive, its index out of order.
places-AreKept : All (IsKept 32) three_places
places-AreKept = (
  (refl, refl, omega arith, omega arith, omega arith),
  (
    (refl, refl, omega arith, omega arith, omega arith),
    ((refl, refl, omega arith, omega arith, omega arith), tt),
  ),
)

places-Unique : Unique three_places
unfolding equal_bytes compare_bytes
places-Unique = ((refl, (refl, tt)), ((refl, tt), (tt, tt)))

works : Works disk
works = record { makes_directory = refl; creates_file = refl; closes_file = refl }

load_index-write_index_cache_example :
    (file : Bytes) × (write_index_cache config disk three_places ≡ ok file)
    × Reopens config file three_places
load_index-write_index_cache_example =
    load_index-write_index_cache config sum_digest-IsSized disk works 32 sha_size three_places
      places-Unique places-AreKept (omega arith) (omega arith)
