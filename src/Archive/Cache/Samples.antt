-- ===== src/Archive/Cache/Samples.antt =====
-- A cache of two entries, written, listed and mapped.
use madder.Common.{ℕ, ◌≡◌, refl, List, [], ◌∷◌, replicate, length}
use madder.Common.Bytes.{Bytes, codes, compare_bytes, equal_bytes}
use madder.Archive.Types.{Result, ok, err, ◌>>=◌, unsorted, archive_checksum_length}
use madder.Archive.Types.{CacheEntryV1, hash_size_for_format}
use madder.Archive.Stream.{Sink, write, write_unhashed}
use madder.Archive.TestDigest.{sum_digest, digest_of, total}
use madder.Common.BigEndian.{word_bytes, bytes_word}
use madder.Archive.Index.Writer.{sum, reject_long}
use madder.Archive.Cache.Writer.{
  write_cache_v1, write_cache_v1_body, write_cache_v1_header, write_cache_v1_entries,
  verify_cache_v1_sorted, check_cache_order, check_cache_lengths,
}
use madder.Archive.Cache.Reader.{
  new_cache_reader_v1, read_all_entries, to_map_v1, read_header, read_entry_at, read_cache_entries,
  cache_entry_size, decode_cache_entry,
}
use madder.Archive.Index.Reader.{read_at}
use madder.Common.Tables.{lookup, insert, insert_all}
use madder.Common.{some}

abbrev sha : Bytes
sha = codes "sha256"

abbrev entry : ℕ → ℕ → CacheEntryV1
entry b off = record {
  hash = replicate 32 b;
  archive_checksum = replicate 32 200;
  offset = off;
  stored_size = 7;
  entry_type = 1;
  base_offset = 300;
}

abbrev two_entries : List CacheEntryV1
two_entries = entry 5 17 ∷ entry 9 90 ∷ []

abbrev empty_sink : Sink
empty_sink = record { written = []; hashed = []; room = 1000 }

abbrev outcome : Result (Bytes × Sink)
outcome = write_cache_v1 sum_digest sha two_entries empty_sink

abbrev file_of : Result (Bytes × Sink) → Sink
file_of (ok (c, s)) = s
file_of (err e) = empty_sink

abbrev checksum_of : Result (Bytes × Sink) → Bytes
checksum_of (ok (c, s)) = c
checksum_of (err e) = []

written : outcome ≡ ok (checksum_of outcome, file_of outcome)
unfolding write_cache_v1 write_cache_v1_body write_cache_v1_header write_cache_v1_entries
    verify_cache_v1_sorted check_cache_order check_cache_lengths write write_unhashed sum sum_digest
    digest_of total hash_size_for_format word_bytes reject_long compare_bytes
written = refl

abbrev reopened : Result (List CacheEntryV1)
reopened = do
  cr ← new_cache_reader_v1 (file_of outcome).written (length (file_of outcome).written) sha
  read_all_entries cr

-- What is written is read again.
read_again : reopened ≡ ok two_entries
unfolding write_cache_v1 write_cache_v1_body write_cache_v1_header write_cache_v1_entries
    verify_cache_v1_sorted check_cache_order check_cache_lengths write write_unhashed sum sum_digest
    digest_of total hash_size_for_format word_bytes reject_long compare_bytes new_cache_reader_v1
    read_all_entries read_header read_at read_entry_at read_cache_entries cache_entry_size
    decode_cache_entry bytes_word equal_bytes
read_again = refl

by_hash : lookup (replicate 32 9) (to_map_v1 two_entries) ≡ some (entry 9 90)
unfolding to_map_v1 insert_all insert lookup equal_bytes compare_bytes
by_hash = refl

-- Entries of one hash, and a checksum of another length.
repeated_refused : verify_cache_v1_sorted (entry 9 17 ∷ entry 9 90 ∷ []) 32 ≡ err (unsorted 0)
unfolding verify_cache_v1_sorted check_cache_order compare_bytes
repeated_refused = refl

short_refused :
    verify_cache_v1_sorted (record (entry 9 17) { archive_checksum = [] } ∷ []) 32
    ≡ err (archive_checksum_length 0)
unfolding verify_cache_v1_sorted check_cache_order check_cache_lengths
short_refused = refl
