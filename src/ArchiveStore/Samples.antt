-- ===== src/ArchiveStore/Samples.antt =====
-- Three blobs packed into one archive, and each theorem of the archive store at them.
use madder.Common.{ℕ, zero, suc, ◌^◌, ◌<◌, ◌≡◌, refl, sym, ap, ◌∙◌, arith, List, [], ◌∷◌}
use madder.Common.{replicate, get_or, get_elem?, length, drop, All, Option, none, some, some_inj}
use madder.Common.{Bool, true, false, if◌then◌else◌, ◌==◌}
use madder.Common.Bytes.{Bytes, codes, equal_bytes, equal_bytes→eq}
use madder.Common.BigEndian.{word_bytes}
use madder.Common.Tables.{Table, lookup, insert, insert_all}
use madder.Archive.Types.{Result, ok, err, codec_failed, not_found, chained_delta}
use madder.Archive.Types.{hash_size_for_format, compression_ref_to_byte}
use madder.Archive.TestDigest.{sum_digest, sum_digest-IsSized, digest_of, total}
use madder.Archive.TestCodec.{plugins, encryption, plugins-AllLossless, gzip, sha_size}
use madder.Archive.Stream.{write, write_unhashed}
use madder.Archive.Index.Writer.{sum, reject_long}
use madder.Archive.Index.Writer.{
  write_index_v1, write_index_v1_body, write_index_v1_header, write_index_v1_fan_out,
  write_index_v1_entries, verify_sorted_v1, check_order, check_lengths, count_fan_out, write_words,
  first_byte, bump,
}
use madder.Archive.Data.Codec.{store}
use madder.Archive.Data.Writer.{new_data_writer_v1, new_data_writer_v1_body, write_header, close}
use madder.Archive.Data.Writer.{write_full_entry, write_delta_entry}
use madder.Packing.Selector.{LshBandingSelector, select_bases, pool_from, assign_from}
use madder.Packing.Selector.{
  assign_best, assign_base, best_of, candidates_from, share_bucket, hash_band,
}
use madder.Packing.Selector.{fnv_byte, min_hash_jaccard, count_matches}
use madder.ArchiveStore.Types.{DeltaAlgorithm, IsExact, PackedBlob, StoreConfig, ArchiveEntryV1}
use madder.ArchiveStore.Types.{InventoryArchiveV1, delta_algorithm_byte_for_name}
use madder.ArchiveStore.Types.{delta_algorithm_for_byte}
use madder.ArchiveStore.Deltas.{
  DeltaPlan, plan_deltas, assign_all, assign, base_of, is_delta, blob_set, try_delta, compute_delta,
  compute_deltas,
}
use madder.ArchiveStore.Packer.{
  Disk, Packed, write_full_blobs, write_result, write_results, data_file_flags, write_data_file,
  write_renamed, data_offsets, base_offset_of, index_entries, sort_in, sort_by_hash, update_index,
  count_deltas, count_fulls, write_index_file, update_store, pack_chunk_archive_v1,
}
use madder.ArchiveStore.Assignments.{get-base_of}
use madder.ArchiveStore.Reads.{LooseBlobStore, make_blob_reader}
use madder.ArchiveStore.Stored.{IsDistinct, IsBlob}
use madder.ArchiveStore.ReadPacked.{
  restored, make_blob_reader-restored, make_blob_reader-chained_delta,
  make_blob_reader-pack_chunk_archive_v1,
}
use madder.ArchiveStore.Validator.{validate_archive_v1}
use madder.ArchiveStore.ValidatePacked.{validate_archive_v1-pack_chunk_archive_v1}
use madder.Common.{join}
use madder.ArchiveStore.Types.{PackedBlobMeta}
use madder.ArchiveStore.Split.{split_blob_chunks, split_from, total_size, Fits}
use madder.ArchiveStore.Split.{join-split_blob_chunks, split_blob_chunks-Fits}
use mathlib.Core.Path.{subst}

-- A delta for a blob that is its base without the first byte.
abbrev pub tail_delta : DeltaAlgorithm
tail_delta = record {
  compute =
      λ base target. if equal_bytes (drop 1 base) target then ok (1 ∷ []) else err codec_failed;
  apply = λ base patch. ok (drop 1 base);
}

tail_delta-IsExact : IsExact tail_delta
tail_delta-IsExact base target patch h = go (equal_bytes (drop 1 base) target) refl h
  where
    go :
        (q : Bool)
        → equal_bytes (drop 1 base) target ≡ q
        → (if q then ok (1 ∷ []) else err codec_failed) ≡ ok patch
        → ok (drop 1 base) ≡ ok target
    go true e k = ap ok (equal_bytes→eq (drop 1 base) target e)
    go false e k = absurd (cc)

abbrev blob_of : ℕ → Bytes → PackedBlob
blob_of d contents = record { digest = replicate 32 d; contents = contents }

abbrev pub three_blobs : List PackedBlob
three_blobs =
    blob_of 10 (5 ∷ 5 ∷ []) ∷ blob_of 14 (4 ∷ 5 ∷ 5 ∷ []) ∷ blob_of 17 (3 ∷ 4 ∷ 5 ∷ 5 ∷ []) ∷ []

-- Each blob is most like the next.
abbrev signature_of : Bytes → Result (List ℕ)
signature_of contents = ok (1 ∷ 2 ∷ (if equal_bytes contents (5 ∷ 5 ∷ []) then 8 else 3) ∷ [])

abbrev selector : LshBandingSelector
selector = record { bands = 3; rows_per_band = 1; min_blob_size = 1; max_blob_size = 1000 }

abbrev pub config : StoreConfig
config = record {
  hash_format = codes "sha256";
  digest = sum_digest;
  is_null = λ id. equal_bytes id [];
  plugins = plugins;
  encryption = encryption;
  compression_ref = gzip;
  delta_enabled = true;
  delta_algorithm = codes "bsdiff";
  bsdiff = tail_delta;
  selector = ok (λ blobs. (0, 1) ∷ []);
  signature_computer = ok none;
}

-- The selector that the repository has for signatures.
abbrev lsh_config : StoreConfig
lsh_config = record config {
  selector = ok (select_bases selector (λ l. l));
  signature_computer = ok (some signature_of);
}

abbrev pub disk : Disk
disk = record {
  makes_directory = true;
  makes_temp = true;
  room = 10000;
  closes_temp = true;
  renames = true;
  memory = 10000;
  writes_index = true;
  is_cancelled = λ k. false;
}

abbrev pub loose : LooseBlobStore
loose = record {
  has_blob_of = λ id. false;
  make_blob_reader_of = λ id. err not_found;
  all_blobs_of = [];
}

abbrev pub empty_store : InventoryArchiveV1
empty_store = record { index = []; archive_files = []; index_files = [] }

-- The store after the chunk.
abbrev pub packed_store : StoreConfig → InventoryArchiveV1
packed_store c = (pack_chunk_archive_v1 c disk empty_store three_blobs).0

abbrev one_delta : DeltaPlan
one_delta = record { alg_byte = 0; alg = tail_delta; assignments = (0, 1) ∷ [] }

abbrev chained : DeltaPlan
chained = record { alg_byte = 0; alg = tail_delta; assignments = (0, 1) ∷ (1, 2) ∷ [] }

one_delta_planned : plan_deltas config three_blobs ≡ ok one_delta
unfolding plan_deltas delta_algorithm_byte_for_name delta_algorithm_for_byte blob_set assign_all
    assign equal_bytes
one_delta_planned = refl

-- The chain that the selector itself makes.
chained_planned : plan_deltas lsh_config three_blobs ≡ ok chained
unfolding plan_deltas delta_algorithm_byte_for_name delta_algorithm_for_byte blob_set assign_all
    assign equal_bytes select_bases pool_from assign_from assign_best assign_base best_of
    candidates_from share_bucket hash_band fnv_byte min_hash_jaccard count_matches
chained_planned = refl

abbrev one_packed : Packed
one_packed = record { checksum = replicate 32 93; full_count = 2; delta_count = 1 }

abbrev chain_packed : Packed
chain_packed = record { checksum = replicate 32 111; full_count = 1; delta_count = 2 }

abbrev file_length : Option Bytes → ℕ
file_length none = 0
file_length (some file) = length file

abbrev placed : ℕ → ℕ → ℕ → ℕ → ArchiveEntryV1
placed offset stored_size entry_type base_offset = record {
  archive_checksum = replicate 32 93;
  offset = offset;
  stored_size = stored_size;
  entry_type = entry_type;
  base_offset = base_offset;
}

-- The index after the chunk: two blobs whole, and a delta.
abbrev pub three_places : Table ArchiveEntryV1
three_places =
    (replicate 32 14, placed 16 5 0 0)
    ∷ (replicate 32 17, placed 71 6 0 0)
    ∷ (replicate 32 10, placed 127 3 1 16)
    ∷ []

one_run :
    (pack_chunk_archive_v1 config disk empty_store three_blobs
      ≡ (packed_store config, ok one_packed))
    × (file_length (lookup (replicate 32 93) (packed_store config).archive_files) ≡ 253)
    × ((packed_store config).index ≡ three_places)
unfolding pack_chunk_archive_v1 write_renamed plan_deltas delta_algorithm_byte_for_name
    delta_algorithm_for_byte blob_set assign_all assign equal_bytes write_data_file data_file_flags
    write_full_blobs is_delta base_of compute_deltas compute_delta try_delta write_results
    write_result new_data_writer_v1 new_data_writer_v1_body write_header write_full_entry
    write_delta_entry close write write_unhashed sum sum_digest digest_of total hash_size_for_format
    compression_ref_to_byte store word_bytes reject_long data_offsets base_offset_of index_entries
    sort_in sort_by_hash update_index count_deltas count_fulls write_index_file update_store insert
    insert_all lookup write_index_v1 write_index_v1_body write_index_v1_header
    write_index_v1_fan_out write_index_v1_entries verify_sorted_v1 check_order check_lengths
    count_fan_out write_words first_byte bump
one_run = (refl, refl, refl)

pub packed_store-index : (packed_store config).index ≡ three_places
packed_store-index = one_run.2

chain_run :
    (pack_chunk_archive_v1 lsh_config disk empty_store three_blobs
      ≡ (packed_store lsh_config, ok chain_packed))
    × (file_length (lookup (replicate 32 111) (packed_store lsh_config).archive_files) ≡ 284)
unfolding pack_chunk_archive_v1 write_renamed plan_deltas delta_algorithm_byte_for_name
    delta_algorithm_for_byte blob_set assign_all assign equal_bytes write_data_file data_file_flags
    write_full_blobs is_delta base_of compute_deltas compute_delta try_delta write_results
    write_result new_data_writer_v1 new_data_writer_v1_body write_header write_full_entry
    write_delta_entry close write write_unhashed sum sum_digest digest_of total hash_size_for_format
    compression_ref_to_byte store word_bytes reject_long data_offsets base_offset_of index_entries
    sort_in sort_by_hash update_index count_deltas count_fulls write_index_file update_store insert
    insert_all lookup write_index_v1 write_index_v1_body write_index_v1_header
    write_index_v1_fan_out write_index_v1_entries verify_sorted_v1 check_order check_lengths
    count_fan_out write_words first_byte bump select_bases pool_from assign_from assign_best
    assign_base best_of candidates_from share_bucket hash_band fnv_byte min_hash_jaccard
    count_matches
chain_run = (refl, refl)

one_small :
    (file : Bytes)
    → lookup (replicate 32 93) (packed_store config).archive_files ≡ some file
    → length file < 2 ^ 63
one_small file h = omega (arith, ap file_length h, one_run.1)

chain_small :
    (file : Bytes)
    → lookup (replicate 32 111) (packed_store lsh_config).archive_files ≡ some file
    → length file < 2 ^ 63
chain_small file h = omega (arith, ap file_length h, chain_run.1)

three_ranges : All (IsBlob 32) three_blobs
three_ranges = ((refl, omega arith), ((refl, omega arith), ((refl, omega arith), tt)))

-- The digests differ in their first bytes, 10, 14 and 17.
abbrev place : PackedBlob → ℕ
place b = if get_or b.digest 0 0 == 10 then 0 else if get_or b.digest 0 0 == 14 then 1 else 2

place-get : (i : ℕ) {a : PackedBlob} → get_elem? three_blobs i ≡ some a → place a ≡ i
place-get zero h = sym (ap place (some_inj h))
place-get (suc zero) h = sym (ap place (some_inj h))
place-get (suc (suc zero)) h = sym (ap place (some_inj h))
place-get (suc (suc (suc i))) h = absurd (cc)

three-IsDistinct : IsDistinct three_blobs
three-IsDistinct i j a b at_i at_j same =
    sym (place-get i at_i) ∙ (λ k. place (blob_with (same k))) ∙ place-get j at_j
  where
    blob_with : Bytes → PackedBlob
    blob_with d = record { digest = d; contents = [] }

chain_bases : (base_of chained.assignments 0 ≡ some 1) × (base_of chained.assignments 1 ≡ some 2)
unfolding base_of
chain_bases = (refl, refl)

chain_deltas :
    (try_delta tail_delta (4 ∷ 5 ∷ 5 ∷ []) (5 ∷ 5 ∷ []) ≡ some (1 ∷ []))
    × (try_delta tail_delta (3 ∷ 4 ∷ 5 ∷ 5 ∷ []) (4 ∷ 5 ∷ 5 ∷ []) ≡ some (1 ∷ []))
unfolding try_delta equal_bytes
chain_deltas = (refl, refl)

not_null : (equal_bytes (replicate 32 10) [] ≡ false) × (equal_bytes (replicate 32 17) [] ≡ false)
unfolding equal_bytes
not_null = (refl, refl)

-- No blob is a base but the second, which is no delta.
one_unchained :
    (i j : ℕ) → base_of one_delta.assignments i ≡ some j → base_of one_delta.assignments j ≡ none
unfolding base_of
one_unchained i j h = let (k, found) = get-base_of one_delta.assignments i h in rw (base_is k found)
  where
    base_is : (k : ℕ) → get_elem? one_delta.assignments k ≡ some (i, j) → j ≡ 1
    base_is zero q = sym (ap (λ p. p.1) (some_inj q))
    base_is (suc k) q = absurd (cc)

make_blob_reader-restored_example :
    make_blob_reader lsh_config loose (packed_store lsh_config) (replicate 32 17)
    ≡ restored chained three_blobs 2 (blob_of 17 (3 ∷ 4 ∷ 5 ∷ 5 ∷ []))
make_blob_reader-restored_example =
    make_blob_reader-restored lsh_config disk loose empty_store (packed_store lsh_config)
      three_blobs chained chain_packed 32 chained_planned chain_run.0 sha_size sum_digest-IsSized
      plugins-AllLossless three_ranges three-IsDistinct chain_small 2
      (blob_of 17 (3 ∷ 4 ∷ 5 ∷ 5 ∷ [])) refl not_null.1

make_blob_reader-chained_delta_example :
    make_blob_reader lsh_config loose (packed_store lsh_config) (replicate 32 10)
    ≡ err chained_delta
make_blob_reader-chained_delta_example =
    make_blob_reader-chained_delta lsh_config disk loose empty_store (packed_store lsh_config)
      three_blobs chained chain_packed 32 chained_planned chain_run.0 sha_size sum_digest-IsSized
      plugins-AllLossless three_ranges three-IsDistinct chain_small 0 1 2 (blob_of 10 (5 ∷ 5 ∷ []))
      (blob_of 14 (4 ∷ 5 ∷ 5 ∷ [])) (blob_of 17 (3 ∷ 4 ∷ 5 ∷ 5 ∷ [])) (1 ∷ []) (1 ∷ [])
      chain_bases.0 chain_bases.1 refl refl refl chain_deltas.0 chain_deltas.1 not_null.0

make_blob_reader-pack_chunk_archive_v1_example :
    make_blob_reader config loose (packed_store config) (replicate 32 10) ≡ ok (5 ∷ 5 ∷ [])
make_blob_reader-pack_chunk_archive_v1_example =
    make_blob_reader-pack_chunk_archive_v1 config disk loose empty_store (packed_store config)
      three_blobs one_delta one_packed 32 one_delta_planned one_run.0 sha_size sum_digest-IsSized
      plugins-AllLossless three_ranges three-IsDistinct one_small tail_delta-IsExact one_unchained 0
      (blob_of 10 (5 ∷ 5 ∷ [])) refl (λ null. absurd (differ (sym null ∙ not_null.0)))
  where
    differ : true ≡ false → ⊥
    differ e = cc

abbrev Digested : PackedBlob → Type 0
Digested b = sum_digest (codes "sha256") b.contents ≡ b.digest

three_digested :
    (i : ℕ) (b : PackedBlob)
    → get_elem? three_blobs i ≡ some b
    → sum_digest (codes "sha256") b.contents ≡ b.digest
unfolding sum_digest digest_of total hash_size_for_format equal_bytes
three_digested zero b h = subst Digested (some_inj h) refl
three_digested (suc zero) b h = subst Digested (some_inj h) refl
three_digested (suc (suc zero)) b h = subst Digested (some_inj h) refl
three_digested (suc (suc (suc i))) b h = absurd (cc)

validate_archive_v1-pack_chunk_archive_v1_example :
    validate_archive_v1 config (packed_store config) (replicate 32 93) 3 ≡ ok tt
validate_archive_v1-pack_chunk_archive_v1_example =
    validate_archive_v1-pack_chunk_archive_v1 config disk empty_store (packed_store config)
      three_blobs one_delta one_packed 32 one_delta_planned one_run.0 sha_size sum_digest-IsSized
      plugins-AllLossless three_ranges three-IsDistinct one_small tail_delta-IsExact one_unchained
      three_digested

abbrev meta_of : ℕ → PackedBlobMeta
meta_of size = record { digest = []; size = size }

abbrev three_metas : List PackedBlobMeta
three_metas = meta_of 4 ∷ meta_of 5 ∷ meta_of 20 ∷ []

-- The first two fit together, the third is alone and too large.
three_metas_split :
    split_blob_chunks three_metas 10 ≡ (meta_of 4 ∷ meta_of 5 ∷ []) ∷ (meta_of 20 ∷ []) ∷ []
unfolding split_blob_chunks split_from
three_metas_split = refl

total_three : total_size three_metas ≡ 29
unfolding total_size
total_three = refl

join-split_blob_chunks_example : join (split_blob_chunks three_metas 10) ≡ three_metas
join-split_blob_chunks_example = join-split_blob_chunks three_metas 10

split_blob_chunks-Fits_example : All (Fits 10) (split_blob_chunks three_metas 10)
split_blob_chunks-Fits_example =
    split_blob_chunks-Fits three_metas 10 (omega arith) (omega (arith, total_three))
