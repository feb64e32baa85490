-- ===== src/ArchiveStore/Runs.antt =====
-- A Pack of three loose blobs that deletes them, and one that can read none of two.
use madder.Common.{◌≡◌, refl, sym, List, [], ◌∷◌, replicate, none, some}
use madder.Common.{true, false, if◌then◌else◌}
use madder.Common.Bytes.{Bytes, equal_bytes}
use madder.Archive.Types.{Result, ok, err, file_failed}
use madder.ArchiveStore.Types.{PackedBlobMeta}
use madder.ArchiveStore.Samples.{config, disk, empty_store}
use madder.ArchiveStore.Collect.{
  PackOptions, Loose, collect_blob_metas_parallel, collect_candidates, measure, measure_all,
  sort_metas, sort_meta_in, member,
}
use madder.ArchiveStore.Pack.{
  Files, pack, pack_chunks, load_blobs, validate_results, delete_each, delete_loose_blobs_v1,
  finish_pack, PackState,
}
use madder.ArchiveStore.Deletes.{digests}
use madder.ArchiveStore.Behind.{Backed, pack-Backed}
use mathlib.Core.List.{Memᴰ}
use mathlib.Core.Path.{subst}
use madder.ArchiveStore.Skipped.{pack-unreadable}
use madder.Common.BigEndian.{word_bytes}
use madder.Common.Tables.{lookup, insert, insert_all}
use madder.Archive.Types.{hash_size_for_format, compression_ref_to_byte}
use madder.Archive.TestDigest.{sum_digest, digest_of, total}
use madder.Archive.Stream.{write, write_unhashed}
use madder.Archive.Index.Writer.{sum, reject_long}
use madder.Archive.Index.Writer.{
  write_index_v1, write_index_v1_body, write_index_v1_header, write_index_v1_fan_out,
  write_index_v1_entries, verify_sorted_v1, check_order, check_lengths, count_fan_out, write_words,
  first_byte, bump,
}
use madder.Archive.Data.Codec.{store}
use madder.Archive.Data.Writer.{new_data_writer_v1, new_data_writer_v1_body, write_header, close}
use madder.Archive.Data.Writer.{write_full_entry, write_delta_entry}
use madder.ArchiveStore.Types.{delta_algorithm_byte_for_name}
use madder.ArchiveStore.Types.{delta_algorithm_for_byte}
use madder.ArchiveStore.Deltas.{
  plan_deltas, assign_all, assign, base_of, is_delta, blob_set, try_delta, compute_delta,
  compute_deltas,
}
use madder.ArchiveStore.Packer.{
  write_full_blobs, write_result, write_results, data_file_flags, write_data_file, write_renamed,
  data_offsets, base_offset_of, index_entries, sort_in, sort_by_hash, update_index, count_deltas,
  count_fulls, write_index_file, update_store, pack_chunk_archive_v1,
}
use madder.ArchiveStore.Types.{PackedBlobMeta}
use madder.ArchiveStore.Split.{split_blob_chunks, split_from}
use madder.ArchiveStore.Validator.{
  full_entries, full_contents, original_contents, validate_entry, validate_entries,
  validate_archive_v1,
}
use madder.Common.Bytes.{compare_bytes}
use madder.Archive.Data.Codec.{restore}
use madder.Archive.Data.Cursor.{seek, read_full, reading, read_word}
use madder.Archive.Types.{byte_to_compression_ref}
use madder.Common.BigEndian.{bytes_word}
use madder.Archive.Data.Reader.{
  new_data_reader_v1, read_header, read_full_entry_body, read_delta_entry_body, read_entry_body,
  read_entry, read_loop, read_all_entries,
}
use madder.Common.{◌*◌, leb}
use madder.Packing.BySize.{
  SizeBasedSelector, select_bases_by_size, sort_by_size, insert_by_size, sized_from, assign_groups,
  assign_group,
}
use madder.ArchiveStore.Unchained.{plan_deltas-unchained}
use madder.ArchiveStore.Configured.{configured_selector, base_selector_for_name}
use madder.ArchiveStore.Samples.{three_blobs, tail_delta}
use madder.Archive.Types.{unknown_selector}
use madder.Common.Bytes.{codes}
use madder.ArchiveStore.Types.{StoreConfig}
use madder.ArchiveStore.Deltas.{DeltaPlan}

abbrev files : Files
files = record { disks = λ k. disk; writes_cache = true; config_max_pack_size = 0 }

abbrev options : PackOptions
options = record {
  delete_loose = true;
  skip_missing_blobs = true;
  max_pack_size = 0;
  blob_filter = none;
  deletion_precondition = none;
}

-- The blobs 10, 14 and 17, listed out of order.
abbrev contents_of : Bytes → Result Bytes
contents_of id =
    if equal_bytes id (replicate 32 10)
    then ok (5 ∷ 5 ∷ [])
    else if equal_bytes id (replicate 32 14)
    then ok (4 ∷ 5 ∷ 5 ∷ [])
    else ok (3 ∷ 4 ∷ 5 ∷ 5 ∷ [])

abbrev loose : Loose
loose = record {
  all_blobs_of = ok (replicate 32 17) ∷ ok (replicate 32 10) ∷ ok (replicate 32 14) ∷ [];
  get_blob_size = λ id. ok 3;
  read_blob = contents_of;
  deletes = some (λ id. ok tt);
  is_cancelled = λ p. false;
}

abbrev unreadable : Loose
unreadable = record loose { read_blob = λ id. err file_failed }

abbrev packed : PackState × Result (Unit {0})
packed = pack config files options loose empty_store

-- All three are packed, validated and deleted.
packed_deletes : packed.0.deleted ≡ replicate 32 10 ∷ replicate 32 14 ∷ replicate 32 17 ∷ []
unfolding pack_chunk_archive_v1 write_renamed plan_deltas delta_algorithm_byte_for_name
    delta_algorithm_for_byte blob_set assign_all assign equal_bytes write_data_file data_file_flags
    write_full_blobs is_delta base_of compute_deltas compute_delta try_delta write_results
    write_result new_data_writer_v1 new_data_writer_v1_body write_header write_full_entry
    write_delta_entry close write write_unhashed sum sum_digest digest_of total hash_size_for_format
    compression_ref_to_byte store word_bytes reject_long data_offsets base_offset_of index_entries
    sort_in sort_by_hash update_index count_deltas count_fulls write_index_file update_store insert
    insert_all lookup write_index_v1 write_index_v1_body write_index_v1_header
    write_index_v1_fan_out write_index_v1_entries verify_sorted_v1 check_order check_lengths
    count_fan_out write_words first_byte bump pack collect_blob_metas_parallel collect_candidates
    measure measure_all sort_metas sort_meta_in member pack_chunks load_blobs validate_results
    delete_each delete_loose_blobs_v1 finish_pack split_blob_chunks split_from validate_archive_v1
    validate_entries validate_entry original_contents full_contents full_entries compare_bytes
    restore seek read_full reading read_word byte_to_compression_ref bytes_word new_data_reader_v1
    read_header read_full_entry_body read_delta_entry_body read_entry_body read_entry read_loop
    read_all_entries
packed_deletes = refl

pack-Backed_example : Backed config files options loose empty_store packed.0 (replicate 32 14)
pack-Backed_example =
    pack-Backed config files options loose empty_store packed.0 packed.1 (replicate 32 14) refl
      (subst (Memᴰ (replicate 32 14)) (sym packed_deletes) (Memᴰ.tail (Memᴰ.head refl)))

abbrev meta_10 : PackedBlobMeta
meta_10 = record { digest = replicate 32 10; size = 3 }

abbrev metas_later : List PackedBlobMeta
metas_later =
    record { digest = replicate 32 14; size = 3 }
    ∷ record { digest = replicate 32 17; size = 3 }
    ∷ []

three_collected :
    collect_blob_metas_parallel config empty_store options unreadable ≡ ok (meta_10 ∷ metas_later)
unfolding collect_blob_metas_parallel collect_candidates measure measure_all sort_metas sort_meta_in
    equal_bytes compare_bytes lookup
three_collected = refl

pack-unreadable_example :
    pack config files options unreadable empty_store
    ≡ (record { store = empty_store; deleted = digests (meta_10 ∷ metas_later) }, ok tt)
pack-unreadable_example =
    pack-unreadable config files options unreadable empty_store (λ id. (file_failed, refl))
      (λ p. refl) refl meta_10 metas_later (λ id. ok tt) three_collected refl refl refl refl
      (λ id. refl)

-- The ratio 2.
abbrev by_size : SizeBasedSelector
by_size = record { min_blob_size = 1; max_blob_size = 100; within_ratio = λ a b. leb a (2 * b) }

abbrev size_config : StoreConfig
size_config = record config { selector = configured_selector (λ l. l) none by_size }

abbrev size_plan : DeltaPlan
size_plan = record { alg_byte = 0; alg = tail_delta; assignments = (0, 2) ∷ (1, 2) ∷ [] }

by_size_configured : size_config.selector ≡ ok (select_bases_by_size by_size)
unfolding configured_selector
by_size_configured = refl

-- The blobs of 2 and 3 bytes become deltas of that of 4.
size_planned : plan_deltas size_config three_blobs ≡ ok size_plan
unfolding plan_deltas delta_algorithm_byte_for_name delta_algorithm_for_byte blob_set assign_all
    assign equal_bytes configured_selector select_bases_by_size sort_by_size insert_by_size
    sized_from assign_groups assign_group
size_planned = refl

size_based : base_of size_plan.assignments 0 ≡ some 2
unfolding base_of
size_based = refl

plan_deltas-unchained_example : base_of size_plan.assignments 2 ≡ none
plan_deltas-unchained_example =
    plan_deltas-unchained size_config by_size three_blobs size_plan by_size_configured size_planned
      0 2 size_based

-- A name that is not registered.
unknown_name :
    configured_selector
      (λ l. l)
      (some (
        codes "lsh",
        record { bands = 1; rows_per_band = 1; min_blob_size = 0; max_blob_size = 9 },
      ))
      by_size
    ≡ err unknown_selector
unfolding configured_selector base_selector_for_name equal_bytes compare_bytes
unknown_name = refl
