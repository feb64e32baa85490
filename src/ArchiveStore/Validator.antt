-- ===== src/ArchiveStore/Validator.antt =====
-- validateArchiveV1: the archive is read again, and each blob of it digested.
use madder.Common.{ℕ, List, [], ◌∷◌, length, ◌==◌, if◌then◌else◌, none, some}
use madder.Common.Bytes.{Bytes, equal_bytes}
use madder.Common.Tables.{Table, lookup, insert_all}
use madder.Archive.Types.{Result, ok, err, ◌>>=◌, ◌>>◌, guard, DataEntryV1, entry_type_full}
use madder.Archive.Types.{unknown_base, count_mismatch, hash_mismatch}
use madder.Archive.Data.Reader.{new_data_reader_v1, read_all_entries}
use madder.ArchiveStore.Types.{StoreConfig, InventoryArchiveV1, delta_algorithm_for_byte}
use madder.ArchiveStore.Reads.{open_file}

unfoldable pub full_entries : List DataEntryV1 → List DataEntryV1
full_entries [] = []
full_entries (e ∷ es) =
    let rest = full_entries es in if e.entry_type == entry_type_full then e ∷ rest else rest

-- baseDataByHash
unfoldable pub full_contents : List DataEntryV1 → Table Bytes
unfolding insert_all
full_contents entries = insert_all (λ e. e.hash) (λ e. e.contents) (full_entries entries) []

module _ (config : StoreConfig) (bases : Table Bytes) where
  unfoldable pub original_contents : DataEntryV1 → Result Bytes
  original_contents e =
      let from_base : Result Bytes = elim (lookup e.base_hash bases) [
        | none ↦ err unknown_base
        | some base ↦ delta_algorithm_for_byte config.bsdiff e.delta_algorithm >>= λ alg.
            alg.apply base e.contents
      ] in
      if e.entry_type == entry_type_full then ok e.contents else from_base

  unfoldable pub validate_entry : DataEntryV1 → Result (Unit {0})
  validate_entry e = do
    original ← original_contents e
    guard (equal_bytes (config.digest config.hash_format original) e.hash) hash_mismatch

  unfoldable pub validate_entries : List DataEntryV1 → Result (Unit {0})
  validate_entries [] = ok tt
  validate_entries (e ∷ es) = validate_entry e >> validate_entries es

unfoldable pub validate_archive_v1 :
    StoreConfig → InventoryArchiveV1 → Bytes → ℕ → Result (Unit {0})
validate_archive_v1 config store checksum expected_count = do
  file ← open_file store.archive_files checksum
  opened ← new_data_reader_v1 file config.encryption
  entries ← read_all_entries config.plugins opened.0 opened.1
  guard (length entries == expected_count) count_mismatch
  validate_entries config (full_contents entries) entries
