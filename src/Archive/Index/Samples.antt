-- ===== src/Archive/Index/Samples.antt =====
-- Runs of the index code on small inputs, and each theorem of the index at such an input.
use madder.Common.{ℕ, ◌+◌, ◌-◌, ◌^◌, ◌<◌, ◌≡◌, refl, ◌∙◌, arith, List, [], ◌∷◌}
use madder.Common.{length, replicate, All, leb, le→leb, if◌then◌else◌, some}
use madder.Common.Bytes.{Bytes, codes, equal_bytes, compare_bytes}
use madder.Archive.Types.{ok, err, IndexEntryV1, hash_size_for_format}
use madder.Archive.Types.{◌>>=◌}
use madder.Archive.Stream.{Sink}
use madder.Archive.Index.Writer.{write_index_v1}
use madder.Archive.Index.Reader.{
  new_index_reader_v1, lookup_hash, read_all_entries, validate, place_of,
}
use madder.Archive.Index.Order.{IsSorted, HasSize}
use madder.Archive.Index.Written.{Fits, IsIndex, index_image, index_file, write_index_v1-index_file}
use madder.Archive.Index.RoundTrip.{length-index_file, opened}
use madder.Archive.Index.Find.{find_entry}
use madder.Archive.Index.EndToEnd.{read_all_entries-write_index_v1, lookup_hash-write_index_v1}
use madder.Archive.Index.EndToEnd.{validate-write_index_v1}
use madder.Archive.Index.Rounds.{search_range_rounds}
use madder.Archive.Index.Order.{verify_sorted_v1_iff}
use madder.Archive.Index.Writer.{verify_sorted_v1, check_order, check_lengths}
use madder.Archive.Index.Reader.{search_range}
use madder.Archive.Types.{unsorted, write_failed, out_of_rounds}
use madder.Common.{◌↔◌, ◌≢◌}
use madder.Archive.TestDigest.{sum_digest, sum_digest-IsSized, replicate-IsByte}

abbrev sha : Bytes
sha = codes "sha256"

sha_size : hash_size_for_format sha ≡ ok 32
unfolding hash_size_for_format
sha_size = refl

abbrev entry : ℕ → ℕ → IndexEntryV1
entry b off = record {
  hash = replicate 32 b;
  pack_offset = off;
  stored_size = 7;
  entry_type = 0;
  base_offset = 0;
}

abbrev two_entries : List IndexEntryV1
two_entries = entry 5 17 ∷ entry 9 90 ∷ []

entries-IsSorted : IsSorted two_entries
unfolding compare_bytes
entries-IsSorted = ((refl, tt), (tt, tt))

entries_sizes : All (HasSize 32) two_entries
entries_sizes = (refl, (refl, tt))

entry-Fits : (b off : ℕ) → b < 256 → off < 2 ^ 64 → Fits (entry b off)
entry-Fits b off h k = record {
  hash = replicate-IsByte 32 b h;
  pack_offset = k;
  stored_size = omega arith;
  base_offset = omega arith;
}

entries_fit : All Fits two_entries
entries_fit =
    (entry-Fits 5 17 (omega arith) (omega arith), (entry-Fits 9 90 (omega arith) (omega arith), tt))

entries-IsIndex : IsIndex 32 two_entries
entries-IsIndex = record {
  sorted = entries-IsSorted;
  sizes = entries_sizes;
  fits = entries_fit;
  few = omega arith;
}

file_length : length (index_file sum_digest sha two_entries) ≡ 2215
file_length =
    length-index_file sum_digest sha 32 two_entries sum_digest-IsSized sha_size entries_sizes

abbrev empty_sink : Sink
empty_sink = record { written = []; hashed = []; room = 10000 }

abbrev full_sink : Sink
full_sink = record {
  written = index_file sum_digest sha two_entries;
  hashed = index_image sha two_entries;
  room = 10000 - length (index_file sum_digest sha two_entries);
}

index_written :
    write_index_v1 sum_digest sha two_entries empty_sink
    ≡ ok (sum_digest sha (index_image sha two_entries), full_sink)
index_written =
    write_index_v1-index_file sum_digest sha 32 two_entries empty_sink sha_size entries-IsIndex
    ∙ rw (
      le→leb (length (index_file sum_digest sha two_entries)) 10000 (omega (arith, file_length)),
      if◌then◌else◌,
    )

read_all_entries-write_index_v1_example :
    (do
      ir ← new_index_reader_v1 full_sink.written (length full_sink.written) sha
      read_all_entries ir)
    ≡ ok two_entries
read_all_entries-write_index_v1_example =
    read_all_entries-write_index_v1 sum_digest sha 32 two_entries empty_sink full_sink
      (sum_digest sha (index_image sha two_entries)) sha_size entries_fit (omega arith) refl
      index_written (omega (arith, file_length))

lookup_hash-write_index_v1_example :
    (do
      ir ← new_index_reader_v1 full_sink.written (length full_sink.written) sha
      lookup_hash ir (replicate 32 9))
    ≡ ok (some (place_of (entry 9 90)))
unfolding find_entry equal_bytes
lookup_hash-write_index_v1_example =
    lookup_hash-write_index_v1 sum_digest sha 32 two_entries empty_sink full_sink
      (sum_digest sha (index_image sha two_entries)) sha_size entries_fit (omega arith) refl
      index_written (omega (arith, file_length)) (replicate 32 9) (omega arith) (omega arith)

validate-write_index_v1_example :
    (do
      ir ← new_index_reader_v1 full_sink.written (length full_sink.written) sha
      validate sum_digest ir)
    ≡ ok tt
validate-write_index_v1_example =
    validate-write_index_v1 sum_digest sha 32 two_entries empty_sink full_sink
      (sum_digest sha (index_image sha two_entries)) sha_size entries_fit (omega arith) refl
      index_written (omega (arith, file_length)) sum_digest-IsSized

write_index_v1-index_file_example : write_index_v1 sum_digest sha two_entries empty_sink ≡ (
    if leb (length (index_file sum_digest sha two_entries)) 10000
    then ok (sum_digest sha (index_image sha two_entries), full_sink)
    else err write_failed)
write_index_v1-index_file_example =
    write_index_v1-index_file sum_digest sha 32 two_entries empty_sink sha_size entries-IsIndex

verify_sorted_v1_iff_example :
    (verify_sorted_v1 two_entries 32 ≡ ok tt)
    ↔ (IsSorted two_entries × All (HasSize 32) two_entries)
verify_sorted_v1_iff_example = verify_sorted_v1_iff two_entries 32

search_range_rounds_example :
    (search_range (opened sum_digest sha 32 two_entries) (replicate 32 9) 65 0 2
      ≢ err out_of_rounds)
    × (search_range (opened sum_digest sha 32 two_entries) (replicate 32 9) (7 + 65) 0 2
        ≡ search_range (opened sum_digest sha 32 two_entries) (replicate 32 9) 65 0 2)
search_range_rounds_example =
    search_range_rounds (opened sum_digest sha 32 two_entries) (replicate 32 9) 65 7 0 2
      (omega arith)

-- An entry out of order is refused at its place.
unsorted_refused : verify_sorted_v1 (entry 9 90 ∷ entry 5 17 ∷ []) 32 ≡ err (unsorted 0)
unfolding verify_sorted_v1 check_order check_lengths compare_bytes
unsorted_refused = refl
