-- ===== src/ArchiveStore/Pack.antt =====
-- Pack and deleteLooseBlobsV1 of pack_v1.go.
use madder.Common.{ℕ, suc, List, [], ◌∷◌, length, Bool, true, false, ◌==◌}
use madder.Common.{if◌then◌else◌, none, some}
use madder.Common.Bytes.{Bytes}
use madder.Archive.Types.{Result, ok, err, ◌>>=◌, ◌>>◌, file_failed, deletion_unsupported}
use madder.ArchiveStore.Types.{StoreConfig, InventoryArchiveV1, PackedBlob, PackedBlobMeta}
use madder.ArchiveStore.Packer.{Disk, Packed, pack_chunk_archive_v1}
use madder.ArchiveStore.Split.{split_blob_chunks}
use madder.ArchiveStore.Validator.{validate_archive_v1}
use madder.ArchiveStore.Collect.{
  packing, validating, deleting, PackOptions, Loose, poll_context, collect_blob_metas_parallel,
}
use mathlib.Core.List.{map}

-- The answers of the file system: for each chunk, and for the cache file.
pub record Files : Type 0 where
  pub disks : ℕ → Disk
  pub writes_cache : Bool
  pub config_max_pack_size : ℕ

pub record ChunkResult : Type 0 where
  -- stands for the data path
  pub checksum : Bytes
  pub metas : List PackedBlobMeta

-- The store, and the loose blobs that were deleted, the last one last.
pub record PackState : Type 0 where
  pub store : InventoryArchiveV1
  pub deleted : List Bytes

-- A loose blob that cannot be read is skipped, or ends the Pack.
unfoldable pub load_blobs : Bool → Loose → List PackedBlobMeta → Result (List PackedBlob)
load_blobs skip loose [] = ok []
load_blobs skip loose (m ∷ metas) =
    let rest = load_blobs skip loose metas in
    elim (loose.read_blob m.digest) [
      | ok contents ↦
          rest >>= λ blobs. ok (record { digest = m.digest; contents = contents } ∷ blobs)
      | err e ↦ if skip then rest else err e
    ]

module _ (config : StoreConfig) (files : Files) (options : PackOptions) (loose : Loose) where
  abbrev pub add_result :
      ChunkResult
      → InventoryArchiveV1 × Result (List ChunkResult)
      → InventoryArchiveV1 × Result (List ChunkResult)
  add_result r (store, ok results) = (store, ok (r ∷ results))
  add_result r (store, err e) = (store, err e)

  -- What one chunk's outcome means for the loop.
  abbrev pub after_chunk :
      List PackedBlobMeta
      → (InventoryArchiveV1 → InventoryArchiveV1 × Result (List ChunkResult))
      → InventoryArchiveV1 × Result Packed
      → InventoryArchiveV1 × Result (List ChunkResult)
  after_chunk metas rest (store, ok packed) =
      add_result (record { checksum = packed.checksum; metas = metas }) (rest store)
  after_chunk metas rest (store, err e) = (store, err e)

  -- A chunk of which nothing could be read is passed over.
  abbrev pub pack_loaded :
      ℕ
      → List PackedBlobMeta
      → (InventoryArchiveV1 → InventoryArchiveV1 × Result (List ChunkResult))
      → InventoryArchiveV1
      → Result (List PackedBlob)
      → InventoryArchiveV1 × Result (List ChunkResult)
  pack_loaded k metas rest store (err e) = (store, err e)
  pack_loaded k metas rest store (ok []) = rest store
  pack_loaded k metas rest store (ok (b ∷ blobs)) =
      after_chunk metas rest (pack_chunk_archive_v1 config (files.disks k) store (b ∷ blobs))

  -- The loop over the chunks.
  unfoldable pub pack_chunks :
      ℕ
      → List (List PackedBlobMeta)
      → InventoryArchiveV1
      → InventoryArchiveV1 × Result (List ChunkResult)
  pack_chunks k [] store = (store, ok [])
  pack_chunks k (metas ∷ chunks) store =
      pack_loaded k metas (pack_chunks (suc k) chunks) store
        (poll_context loose (packing k) >> load_blobs options.skip_missing_blobs loose metas)

  -- Validation of every archive of this Pack.
  unfoldable pub validate_results : ℕ → InventoryArchiveV1 → List ChunkResult → Result (Unit {0})
  validate_results k store [] = ok tt
  validate_results k store (r ∷ results) = do
    poll_context loose (validating k)
    validate_archive_v1 config store r.checksum (length r.metas)
    validate_results (suc k) store results

  abbrev pub check_precondition : List PackedBlobMeta → Result (Unit {0})
  check_precondition metas = elim options.deletion_precondition [
    | none ↦ ok tt
    | some safe_to_delete ↦ safe_to_delete (map (λ (m : PackedBlobMeta). m.digest) metas)
  ]

  abbrev pub after_delete :
      Bytes → List Bytes × Result (Unit {0}) → Result (Unit {0}) → List Bytes × Result (Unit {0})
  after_delete id later (err e) = ([], err e)
  after_delete id later (ok _) = (id ∷ later.0, later.1)

  -- The loop of deleteLooseBlobsV1, with what it has deleted when it stops.
  unfoldable pub delete_each :
      (Bytes → Result (Unit {0})) → ℕ → List PackedBlobMeta → List Bytes × Result (Unit {0})
  delete_each delete_blob k [] = ([], ok tt)
  delete_each delete_blob k (m ∷ metas) =
      after_delete m.digest (delete_each delete_blob (suc k) metas)
        (poll_context loose (deleting k) >> delete_blob m.digest)

  unfoldable pub delete_loose_blobs_v1 : List PackedBlobMeta → List Bytes × Result (Unit {0})
  delete_loose_blobs_v1 metas = elim loose.deletes [
    | none ↦ ([], err deletion_unsupported)
    | some delete_blob ↦ delete_each delete_blob 0 metas
  ]

  abbrev pub after_validation :
      List PackedBlobMeta → InventoryArchiveV1 → Result (Unit {0}) → PackState × Result (Unit {0})
  after_validation metas store (err e) = (record { store = store; deleted = [] }, err e)
  after_validation metas store (ok _) =
      let outcome = delete_loose_blobs_v1 metas in
      (record { store = store; deleted = outcome.0 }, outcome.1)

  abbrev pub after_cache :
      List PackedBlobMeta
      → InventoryArchiveV1
      → List ChunkResult
      → Bool
      → Bool
      → PackState × Result (Unit {0})
  after_cache metas store results false delete_loose =
      (record { store = store; deleted = [] }, err file_failed)
  after_cache metas store results true false = (record { store = store; deleted = [] }, ok tt)
  after_cache metas store results true true =
      after_validation metas store (validate_results 0 store results >> check_precondition metas)

  -- From the packed chunks on.
  unfoldable pub finish_pack :
      List PackedBlobMeta → InventoryArchiveV1 → List ChunkResult → PackState × Result (Unit {0})
  finish_pack metas store results =
      after_cache metas store results files.writes_cache options.delete_loose

  abbrev pub max_size : ℕ
  max_size =
      if options.max_pack_size == 0 then files.config_max_pack_size else options.max_pack_size

  abbrev pub after_chunks :
      List PackedBlobMeta
      → InventoryArchiveV1 × Result (List ChunkResult)
      → PackState × Result (Unit {0})
  after_chunks metas (store, err e) = (record { store = store; deleted = [] }, err e)
  after_chunks metas (store, ok results) = finish_pack metas store results

  abbrev pub pack_metas : InventoryArchiveV1 → List PackedBlobMeta → PackState × Result (Unit {0})
  pack_metas store [] = (record { store = store; deleted = [] }, ok tt)
  pack_metas store (m ∷ metas) =
      after_chunks (m ∷ metas) (pack_chunks 0 (split_blob_chunks (m ∷ metas) max_size) store)

  unfoldable pub pack : InventoryArchiveV1 → PackState × Result (Unit {0})
  pack store = elim (collect_blob_metas_parallel config store options loose) [
    | err e ↦ (record { store = store; deleted = [] }, err e)
    | ok metas ↦ pack_metas store metas
  ]
