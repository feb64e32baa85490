-- ===== src/Archive/Cache/Writer.antt =====
-- The writing half of cache_v1.go.
use madder.Common.{ℕ, ◌+◌, ◌%◌, ◌^◌, List, [], ◌∷◌, length, ◌==◌, if◌then◌else◌, not}
use madder.Common.Bytes.{Bytes, compare_bytes}
use madder.Common.BigEndian.{word_bytes}
use madder.Archive.Types.{Result, ok, err, unsorted, hash_length, archive_checksum_length}
use madder.Archive.Types.{CacheEntryV1, Digest, hash_size_for_format}
use madder.Archive.Types.{cache_file_magic, cache_file_version_v1}
use madder.Archive.Stream.{Write, ◌>>=◌, ◌>>◌, pure, lift, write, write_unhashed}
use madder.Archive.Index.Writer.{at_least, reject_long, sum, fresh_hasher}

-- The loop over neighbours; `i` is the index of the first of the two.
unfoldable pub check_cache_order : ℕ → List CacheEntryV1 → Result (Unit {0})
check_cache_order i [] = ok tt
check_cache_order i (x ∷ []) = ok tt
check_cache_order i (x ∷ y ∷ rest) =
    let later = check_cache_order (i + 1) (y ∷ rest) in
    if at_least (compare_bytes x.hash y.hash) then err (unsorted i) else later

unfoldable pub check_cache_lengths : ℕ → ℕ → List CacheEntryV1 → Result (Unit {0})
check_cache_lengths i size [] = ok tt
check_cache_lengths i size (x ∷ rest) =
    let later = check_cache_lengths (i + 1) size rest in
    if not (length x.hash == size)
    then err (hash_length i)
    else if not (length x.archive_checksum == size)
    then err (archive_checksum_length i)
    else later

unfoldable pub verify_cache_v1_sorted : List CacheEntryV1 → ℕ → Result (Unit {0})
verify_cache_v1_sorted entries size = elim (check_cache_order 0 entries) [
  | ok _ ↦ check_cache_lengths 0 size entries
  | err e ↦ err e
]

unfoldable pub write_cache_v1_header : Bytes → ℕ → Write (Unit {0})
write_cache_v1_header format entry_count = do
  write cache_file_magic
  write (word_bytes 2 cache_file_version_v1)
  reject_long format
  write ((length format % 256) ∷ [])
  write format
  write (word_bytes 8 entry_count)

unfoldable pub write_cache_v1_entries : List CacheEntryV1 → Write (Unit {0})
write_cache_v1_entries [] = pure tt
write_cache_v1_entries (e ∷ es) = do
  write e.hash
  write e.archive_checksum
  write (word_bytes 8 e.offset)
  write (word_bytes 8 e.stored_size)
  write (e.entry_type ∷ [])
  write (word_bytes 8 e.base_offset)
  write_cache_v1_entries es

unfoldable pub write_cache_v1_body : Digest → Bytes → List CacheEntryV1 → Write Bytes
write_cache_v1_body digest format entries = do
  size ← lift (hash_size_for_format format)
  lift (verify_cache_v1_sorted entries size)
  write_cache_v1_header format (length entries % 2 ^ 64)
  write_cache_v1_entries entries
  checksum ← sum digest format
  write_unhashed checksum
  pure checksum

-- The hasher starts empty.
unfoldable pub write_cache_v1 : Digest → Bytes → List CacheEntryV1 → Write Bytes
unfolding write_cache_v1_body
write_cache_v1 digest format entries s = write_cache_v1_body digest format entries (fresh_hasher s)
