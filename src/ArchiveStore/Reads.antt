-- ===== src/ArchiveStore/Reads.antt =====
-- store_inventory_archive_v1.go: HasBlob, MakeBlobReader and AllBlobs. A reader is the bytes it gives.
use madder.Common.{List, [], ◌∷◌, ◌++◌, Bool, true, false, ◌==◌, if◌then◌else◌}
use madder.Common.{none, some}
use madder.Common.Bytes.{Bytes}
use madder.Common.Tables.{Table, lookup}
use madder.Archive.Types.{Result, ok, err, ◌>>=◌, ◌>>◌, guard, DataEntryV1, entry_type_full}
use madder.Archive.Types.{not_found, missing_base, chained_delta}
use madder.Archive.Data.Cursor.{Cursor}
use madder.Archive.Data.Reader.{DataReaderV1, new_data_reader_v1, read_entry_at}
use madder.ArchiveStore.Types.{StoreConfig, InventoryArchiveV1, ArchiveEntryV1}
use madder.ArchiveStore.Types.{delta_algorithm_for_byte}
use mathlib.Core.List.{map}

-- The store behind the archive: an interface of the repository, by its answers.
pub record LooseBlobStore : Type 0 where
  pub has_blob_of : Bytes → Bool
  pub make_blob_reader_of : Bytes → Result Bytes
  pub all_blobs_of : List Bytes

-- os.Open
abbrev pub open_file : Table Bytes → Bytes → Result Bytes
open_file files checksum = elim (lookup checksum files) [
  | none ↦ err not_found
  | some file ↦ ok file
]

module _ (config : StoreConfig) where
  -- The delta's base must stand whole in the same file.
  unfoldable pub read_base :
      Table ArchiveEntryV1 → DataReaderV1 → Cursor → DataEntryV1 → Result Bytes
  read_base index dr c entry = elim (lookup entry.base_hash index) [
    | none ↦ err missing_base
    | some base_entry ↦ do
      base ← read_entry_at config.plugins dr base_entry.offset c
      guard (base.0.entry_type == entry_type_full) chained_delta
      alg ← delta_algorithm_for_byte config.bsdiff entry.delta_algorithm
      alg.apply base.0.contents entry.contents
  ]

  unfoldable pub read_blob_entry :
      Table ArchiveEntryV1 → DataReaderV1 → DataEntryV1 × Cursor → Result Bytes
  read_blob_entry index dr (entry, c) =
      if entry.entry_type == entry_type_full then ok entry.contents else read_base index dr c entry

  unfoldable pub read_archived : InventoryArchiveV1 → ArchiveEntryV1 → Result Bytes
  read_archived store entry = do
    file ← open_file store.archive_files entry.archive_checksum
    opened ← new_data_reader_v1 file config.encryption
    found ← read_entry_at config.plugins opened.0 entry.offset opened.1
    read_blob_entry store.index opened.0 found

  module _ (loose : LooseBlobStore) (store : InventoryArchiveV1) where
    unfoldable pub make_blob_reader : Bytes → Result Bytes
    make_blob_reader id = if config.is_null id then ok [] else elim (lookup id store.index) [
      | none ↦ loose.make_blob_reader_of id
      | some entry ↦ read_archived store entry
    ]

    abbrev pub in_archive : Bytes → Bool
    in_archive id = elim (lookup id store.index) [ none ↦ false | some _ ↦ true ]

    unfoldable pub has_blob : Bytes → Bool
    has_blob id =
        if config.is_null id then true else if in_archive id then true else loose.has_blob_of id

    unfoldable pub loose_only : List Bytes → List Bytes
    loose_only [] = []
    loose_only (id ∷ ids) =
        let later = loose_only ids in if in_archive id then later else id ∷ later

    -- The archived blobs, then the loose ones that are not archived. A key that does not parse as an id,
    -- which the store never makes, is not modelled, nor are errors of the loose listing.
    unfoldable pub all_blobs : List Bytes
    all_blobs =
        map (λ (p : Bytes × ArchiveEntryV1). p.0) store.index ++ loose_only loose.all_blobs_of
