-- ===== src/ArchiveStore/Skipped.antt =====
-- A Pack with SkipMissingBlobs of which no blob can be read.
use madder.Common.{ℕ, suc, ◌≡◌, refl, ap, ◌∙◌, List, [], ◌∷◌}
use madder.Common.{true, false, if◌then◌else◌, none, some}
use madder.Common.Bytes.{Bytes}
use madder.Archive.Types.{Result, ok, err, ◌>>◌, Error}
use madder.ArchiveStore.Types.{StoreConfig, InventoryArchiveV1, PackedBlobMeta}
use madder.ArchiveStore.Split.{split_blob_chunks}
use madder.ArchiveStore.Collect.{
  Poll, packing, deleting, PackOptions, Loose, poll_context, collect_blob_metas_parallel,
}
use madder.ArchiveStore.Pack.{
  Files, load_blobs, pack_chunks, validate_results, check_precondition, delete_each,
  delete_loose_blobs_v1, finish_pack, max_size, after_chunks, pack, pack_loaded, after_delete,
  after_validation, after_cache,
}
use madder.ArchiveStore.Deletes.{digests}

-- A Pack that skips every blob of its chunks.
module _ (config : StoreConfig) (files : Files) (options : PackOptions) (loose : Loose)
    (store : InventoryArchiveV1)
    (unreadable : (id : Bytes) → (e : Error) × (loose.read_blob id ≡ err e))
    (running : (p : Poll) → loose.is_cancelled p ≡ false)
    (skipping : options.skip_missing_blobs ≡ true) where
  load_blobs-unreadable : (metas : List PackedBlobMeta) → load_blobs true loose metas ≡ ok []
  unfolding load_blobs
  load_blobs-unreadable [] = refl
  load_blobs-unreadable (m ∷ metas) =
      let (e, fails) = unreadable m.digest in
      rw (load_blobs, fails, if◌then◌else◌) (load_blobs-unreadable metas)

  not_cancelled : (p : Poll) → poll_context loose p ≡ ok tt
  not_cancelled p = rw (running p)

  pack_chunks-unreadable :
      (k : ℕ) (chunks : List (List PackedBlobMeta))
      → pack_chunks config files options loose k chunks store ≡ (store, ok [])
  unfolding pack_chunks
  pack_chunks-unreadable k [] = refl
  pack_chunks-unreadable k (metas ∷ chunks) =
      ap
        (λ r.
          pack_loaded config files options loose k metas
            (pack_chunks config files options loose (suc k) chunks) store
            (r >> load_blobs options.skip_missing_blobs loose metas))
        (not_cancelled (packing k))
      ∙ ap
          (pack_loaded config files options loose k metas
            (pack_chunks config files options loose (suc k) chunks) store)
          (ap (λ b. load_blobs b loose metas) skipping ∙ load_blobs-unreadable metas)
      ∙ pack_chunks-unreadable (suc k) chunks

  delete_each-all :
      (f : Bytes → Result (Unit {0})) (k : ℕ) (metas : List PackedBlobMeta)
      → ((id : Bytes) → f id ≡ ok tt)
      → delete_each config files options loose f k metas ≡ (digests metas, ok tt)
  unfolding delete_each
  delete_each-all f k [] each = refl
  delete_each-all f k (m ∷ metas) each = (λ i.
      after_delete config files options loose m.digest (delete_each-all f (suc k) metas each i)
        (not_cancelled (deleting k) i >> each m.digest i))

  -- A Pack that skips missing blobs and deletes loose ones deletes blobs that are in no archive: when
  -- none of the blobs that it collected can be read, while nothing else fails or is cancelled and no
  -- precondition is set, it ends without an error and with the store as it was, and all of the
  -- collected blobs are deleted.
  pub pack-unreadable :
      (m : PackedBlobMeta) (metas : List PackedBlobMeta) (f : Bytes → Result (Unit {0}))
      → collect_blob_metas_parallel config store options loose ≡ ok (m ∷ metas)
      → options.delete_loose ≡ true
      → options.deletion_precondition ≡ none
      → files.writes_cache ≡ true
      → loose.deletes ≡ some f
      → ((id : Bytes) → f id ≡ ok tt)
      → pack config files options loose store
        ≡ (record { store = store; deleted = digests (m ∷ metas) }, ok tt)
  unfolding pack finish_pack validate_results delete_loose_blobs_v1
  pack-unreadable m metas f collected deleting_loose no_condition cached deleter each =
      let safe : check_precondition config files options loose (m ∷ metas) ≡ ok tt =
        rw (no_condition) in
      let gone : delete_loose_blobs_v1 config files options loose (m ∷ metas)
          ≡ (digests (m ∷ metas), ok tt) =
        rw (delete_loose_blobs_v1, deleter) (delete_each-all f 0 (m ∷ metas) each) in
      rw (pack, collected)
        (ap (after_chunks config files options loose (m ∷ metas)) (
            pack_chunks-unreadable 0
              (split_blob_chunks (m ∷ metas) (max_size config files options loose)))
          ∙ (λ i.
              after_cache config files options loose (m ∷ metas) store [] (cached i)
                (deleting_loose i))
          ∙ ap (after_validation config files options loose (m ∷ metas) store) safe
          ∙ (λ i. (record { store = store; deleted = (gone i).0 }, (gone i).1)))
