-- ===== src/ArchiveStore/Packer.antt =====
-- The second half of packChunkArchiveV1: the archive file, its index, and the store's own index.
use madder.Common.{ℕ, suc, ◌%◌, ◌^◌, List, [], ◌∷◌, length}
use madder.Common.{Bool, not, ltb, ◌==◌, if◌then◌else◌, Option, none, some}
use madder.Common.Bytes.{Bytes, compare_bytes, below}
use madder.Common.Tables.{Table, insert, insert_all, lookup}
use madder.Archive.Types.{Result, ok, err, guard, DataEntryV1, IndexEntryV1, entry_type_delta}
use madder.Archive.Types.{flag_has_deltas, cancelled, file_failed}
use madder.Archive.Types as Types
use madder.Archive.Stream.{Sink, Write, ◌>>=◌, ◌>>◌, pure, lift}
use madder.Archive.Data.Writer.{DataWriterV1, new_data_writer_v1, write_full_entry}
use madder.Archive.Data.Writer.{write_delta_entry, close}
use madder.Archive.Index.Writer.{write_index_v1}
use madder.ArchiveStore.Types.{PackedBlob, DeltaResult, StoreConfig, ArchiveEntryV1}
use madder.ArchiveStore.Types.{InventoryArchiveV1}
use madder.ArchiveStore.Deltas.{DeltaPlan, plan_deltas, is_delta, at, compute_deltas}

-- What the operating system answers while a chunk is packed: whether each step works, how many bytes
-- the temporary file takes and how many the index buffer, and what each poll of the context finds.
pub record Disk : Type 0 where
  pub makes_directory : Bool
  pub makes_temp : Bool
  pub room : ℕ
  pub closes_temp : Bool
  pub renames : Bool
  pub memory : ℕ
  pub writes_index : Bool
  pub is_cancelled : ℕ → Bool

abbrev pub poll : Disk → ℕ → Result (Unit {0})
poll disk k = guard (not (disk.is_cancelled k)) cancelled

module _ (config : StoreConfig) (plan : DeltaPlan) where
  -- First pass: the blobs from the i-th on that are not assigned as deltas.
  unfoldable pub write_full_blobs : DataWriterV1 → ℕ → List PackedBlob → Write DataWriterV1
  write_full_blobs dw i [] = pure dw
  write_full_blobs dw i (blob ∷ blobs) =
      let rest = λ (d : DataWriterV1). write_full_blobs d (suc i) blobs in
      if is_delta plan.assignments i
      then rest dw
      else (write_full_entry config.plugins dw blob.digest blob.contents >>= rest)

  unfoldable pub write_result : List PackedBlob → DataWriterV1 → DeltaResult → Write DataWriterV1
  write_result blobs dw result = do
    target_blob ← lift (at blobs result.blob_idx)
    base_blob ← lift (at blobs result.base_idx)
    elim result.delta_contents [
      | none ↦ write_full_entry config.plugins dw target_blob.digest target_blob.contents
      | some delta_contents ↦
          write_delta_entry config.plugins dw target_blob.digest plan.alg_byte base_blob.digest
            (length target_blob.contents % 2 ^ 64) delta_contents
    ]

  -- Second pass; `k` counts the polls of the context.
  unfoldable pub write_results :
      Disk → List PackedBlob → ℕ → DataWriterV1 → List DeltaResult → Write DataWriterV1
  write_results disk blobs k dw [] = pure dw
  write_results disk blobs k dw (result ∷ results) = do
    lift (poll disk k)
    dw' ← write_result blobs dw result
    write_results disk blobs (suc k) dw' results

  unfoldable pub data_file_flags : ℕ
  data_file_flags = if ltb 0 (length plan.assignments) then flag_has_deltas else 0

  unfoldable pub write_data_file : Disk → List PackedBlob → Write (Bytes × List DataEntryV1)
  write_data_file disk blobs = do
    dw ←
        new_data_writer_v1 config.hash_format config.compression_ref data_file_flags
          config.encryption
    dw' ← write_full_blobs dw 0 blobs
    results ← lift (compute_deltas plan.alg blobs plan.assignments)
    lift (poll disk 0)
    dw'' ← write_results disk blobs 1 dw' results
    close config.digest dw''

abbrev pub temp_file : Disk → Sink
temp_file disk = record { written = []; hashed = []; room = disk.room }

-- An archive file that stands under its final name.
pub record Renamed : Type 0 where
  pub checksum : Bytes
  pub entries : List DataEntryV1
  pub file : Bytes

-- Up to the rename: an error removes the temporary file and leaves the store as it was.
unfoldable pub write_renamed : StoreConfig → Disk → List PackedBlob → Result Renamed
write_renamed config disk blobs = Types.◌>>=◌ (plan_deltas config blobs) λ plan.
    Types.◌>>=◌ (guard disk.makes_directory file_failed) λ _.
      Types.◌>>=◌ (guard disk.makes_temp file_failed) λ _.
        Types.◌>>=◌ (write_data_file config plan disk blobs (temp_file disk)) λ out.
          Types.◌>>=◌ (guard disk.closes_temp file_failed) λ _.
            Types.◌>>=◌ (guard disk.renames file_failed)
              λ _. ok (record { checksum = out.0.0; entries = out.0.1; file = out.1.written })

-- hashHexToDataOffset
unfoldable pub data_offsets : List DataEntryV1 → Table ℕ
unfolding insert_all
data_offsets entries = insert_all (λ de. de.hash) (λ de. de.offset) entries []

-- A missing key gives 0.
abbrev pub or_zero : Option ℕ → ℕ
or_zero none = 0
or_zero (some n) = n

unfoldable pub base_offset_of : Table ℕ → DataEntryV1 → ℕ
base_offset_of offsets de =
    if de.entry_type == entry_type_delta then or_zero (lookup de.base_hash offsets) else 0

unfoldable pub index_entries : Table ℕ → List DataEntryV1 → List IndexEntryV1
index_entries offsets [] = []
index_entries offsets (de ∷ rest) =
    record {
      hash = de.hash;
      pack_offset = de.offset;
      stored_size = de.stored_size;
      entry_type = de.entry_type;
      base_offset = base_offset_of offsets de;
    }
    ∷ index_entries offsets rest

unfoldable pub sort_in : IndexEntryV1 → List IndexEntryV1 → List IndexEntryV1
sort_in entry [] = entry ∷ []
sort_in entry (other ∷ rest) =
    let later = sort_in entry rest in
    elim (compare_bytes other.hash entry.hash) [ below ↦ other ∷ later | _ ↦ entry ∷ other ∷ rest ]

-- sort.Slice by hash
unfoldable pub sort_by_hash : List IndexEntryV1 → List IndexEntryV1
sort_by_hash [] = []
sort_by_hash (entry ∷ rest) = sort_in entry (sort_by_hash rest)

abbrev pub archive_entry : Bytes → Table ℕ → DataEntryV1 → ArchiveEntryV1
archive_entry checksum offsets de = record {
  archive_checksum = checksum;
  offset = de.offset;
  stored_size = de.stored_size;
  entry_type = de.entry_type;
  base_offset = base_offset_of offsets de;
}

-- hashHexToDataOffset has an offset for each entry; a later entry of a digest replaces an earlier one.
unfoldable pub update_index :
    Bytes → Table ℕ → List DataEntryV1 → Table ArchiveEntryV1 → Table ArchiveEntryV1
unfolding insert_all
update_index checksum offsets entries index =
    insert_all (λ de. de.hash) (archive_entry checksum offsets) entries index

unfoldable pub count_deltas : List DataEntryV1 → ℕ
count_deltas [] = 0
count_deltas (de ∷ rest) =
    let counted = count_deltas rest in
    if de.entry_type == entry_type_delta then suc counted else counted

unfoldable pub count_fulls : List DataEntryV1 → ℕ
count_fulls [] = 0
count_fulls (de ∷ rest) =
    let counted = count_fulls rest in
    if de.entry_type == entry_type_delta then counted else suc counted

-- The data path is given by the checksum in it.
pub record Packed : Type 0 where
  pub checksum : Bytes
  pub full_count : ℕ
  pub delta_count : ℕ

abbrev pub index_file : StoreConfig → Disk → List DataEntryV1 → Result (Bytes × Sink)
index_file config disk entries =
    write_index_v1 config.digest config.hash_format
      (sort_by_hash (index_entries (data_offsets entries) entries))
      (record { written = []; hashed = []; room = disk.memory })

unfoldable pub write_index_file : StoreConfig → Disk → List DataEntryV1 → Result Bytes
write_index_file config disk entries =
    Types.◌>>=◌ (index_file config disk entries)
      λ out. Types.◌>>=◌ (guard disk.writes_index file_failed) λ _. ok out.1.written

-- The store once the data file has its name, by what became of the index file.
unfoldable pub update_store :
    InventoryArchiveV1 → Renamed → Result Bytes → InventoryArchiveV1 × Result Packed
update_store store r (err e) =
    (record store { archive_files = insert r.checksum r.file store.archive_files }, err e)
update_store store r (ok written) = (
  record {
    archive_files = insert r.checksum r.file store.archive_files;
    index_files = insert r.checksum written store.index_files;
    index = update_index r.checksum (data_offsets r.entries) r.entries store.index;
  },
  ok (record {
    checksum = r.checksum;
    full_count = count_fulls r.entries;
    delta_count = count_deltas r.entries;
  }),
)

unfoldable pub pack_chunk_archive_v1 :
    StoreConfig → Disk → InventoryArchiveV1 → List PackedBlob → InventoryArchiveV1 × Result Packed
pack_chunk_archive_v1 config disk store blobs = elim (write_renamed config disk blobs) [
  | err e ↦ (store, err e)
  | ok renamed ↦ update_store store renamed (write_index_file config disk renamed.entries)
]
