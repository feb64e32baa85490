-- ===== src/ArchiveStore/Deletes.antt =====
-- What stands behind the blobs that Pack deletes.
use madder.Common.{ℕ, suc, ◌≡◌, ◌≢◌, refl, sym, ap, ◌∙◌, List, [], ◌∷◌, ◌++◌}
use madder.Common.{Bool, true, false, Option, none, some}
use madder.Common.Bytes.{Bytes}
use madder.Archive.Types.{Result, ok, err, ◌>>◌, bind-ok, deletion_unsupported}
use madder.ArchiveStore.Types.{StoreConfig, InventoryArchiveV1, PackedBlobMeta}
use madder.ArchiveStore.Split.{split_blob_chunks}
use madder.ArchiveStore.Collect.{
  deleting, PackOptions, Loose, poll_context, collect_blob_metas_parallel,
}
use madder.ArchiveStore.Pack.{
  Files, ChunkResult, PackState, pack_chunks, validate_results, check_precondition, delete_each,
  delete_loose_blobs_v1, finish_pack, max_size, after_chunks, pack_metas, pack, after_delete,
  after_validation, after_cache,
}
use mathlib.Core.List.{map}

abbrev pub digests : List PackedBlobMeta → List Bytes
digests metas = map (λ (m : PackedBlobMeta). m.digest) metas

module _ (config : StoreConfig) (files : Files) (options : PackOptions) (loose : Loose)
    (store : InventoryArchiveV1) where
  -- What stands behind a deletion.
  pub record Validated (state : PackState) : Type 0 where
    pub metas : List PackedBlobMeta
    pub results : List ChunkResult
    pub left : List Bytes
    pub collected : collect_blob_metas_parallel config store options loose ≡ ok metas
    pub packed :
        pack_chunks config files options loose 0
          (split_blob_chunks metas (max_size config files options loose))
          store
        ≡ (state.store, ok results)
    pub validated : validate_results config files options loose 0 state.store results ≡ ok tt
    pub begins : state.deleted ++ left ≡ digests metas

  delete_each-begins :
      (f : Bytes → Result (Unit {0})) (k : ℕ) (metas : List PackedBlobMeta)
      → (left : List Bytes) × ((delete_each config files options loose f k metas).0 ++ left
          ≡ digests metas)
  unfolding delete_each
  delete_each-begins f k [] = ([], refl)
  delete_each-begins f k (m ∷ metas) =
      go (poll_context loose (deleting k) >> f m.digest) (delete_each-begins f (suc k) metas)
    where
      go :
          (r : Result (Unit {0}))
          → (left : List Bytes) × ((delete_each config files options loose f (suc k) metas).0
                ++ left
              ≡ digests metas)
          → (left : List Bytes) × ((after_delete config files options loose m.digest
                  (delete_each config files options loose f (suc k) metas)
                  r).0
                ++ left
              ≡ m.digest ∷ digests metas)
      go (err e) later = (m.digest ∷ digests metas, refl)
      go (ok u) (left, begins) = (left, ap (λ l. m.digest ∷ l) begins)

  delete_loose_blobs_v1-begins :
      (metas : List PackedBlobMeta)
      → (left : List Bytes) × ((delete_loose_blobs_v1 config files options loose metas).0 ++ left
          ≡ digests metas)
  unfolding delete_loose_blobs_v1
  delete_loose_blobs_v1-begins metas = go loose.deletes
    where
      go :
          (o : Option (Bytes → Result (Unit {0})))
          → (left : List Bytes) × ((elim o as (λ x. List Bytes × Result (Unit {0})) [
            | none ↦ ([], err deletion_unsupported)
            | some f ↦ delete_each config files options loose f 0 metas
          ]).0
                ++ left
              ≡ digests metas)
      go none = (digests metas, refl)
      go (some f) = delete_each-begins f 0 metas

  kept_nothing :
      {store' : InventoryArchiveV1} {r r' : Result (Unit {0})} {state : PackState}
      → ◌≡◌ {A = PackState × Result (Unit {0})}
          (record { store = store'; deleted = [] }, r)
          (state, r')
      → state.deleted ≢ []
      → Validated state
  kept_nothing h some_deleted =
      absurd (some_deleted (sym (ap (λ (x : PackState × Result (Unit {0})). x.0.deleted) h)))

  module _ (metas : List PackedBlobMeta)
      (collected : collect_blob_metas_parallel config store options loose ≡ ok metas) where
    validation :
        (store' : InventoryArchiveV1) (results : List ChunkResult) (v : Result (Unit {0}))
        {state : PackState} {r : Result (Unit {0})}
        → pack_chunks config files options loose 0
            (split_blob_chunks metas (max_size config files options loose))
            store
          ≡ (store', ok results)
        → validate_results config files options loose 0 store' results
            >> check_precondition config files options loose metas
          ≡ v
        → after_validation config files options loose metas store' v ≡ (state, r)
        → state.deleted ≢ []
        → Validated state
    validation store' results (err e) packed q h some_deleted = kept_nothing h some_deleted
    validation store' results (ok u) packed q h some_deleted =
        let (left, begins) = delete_loose_blobs_v1-begins metas in
        let (_, validated, _) =
          bind-ok (validate_results config files options loose 0 store' results) _ q in
        let same_store = ap (λ (x : PackState × Result (Unit {0})). x.0.store) h in
        record {
          metas = metas;
          results = results;
          left = left;
          collected = collected;
          packed = packed ∙ (λ i. (same_store i, ok results));
          validated =
              ap (λ s. validate_results config files options loose 0 s results) (sym same_store)
              ∙ validated;
          begins = ap (λ (x : PackState × Result (Unit {0})). x.0.deleted ++ left) (sym h) ∙ begins;
        }

    finished :
        (o : InventoryArchiveV1 × Result (List ChunkResult)) {state : PackState}
        {r : Result (Unit {0})}
        → pack_chunks config files options loose 0
            (split_blob_chunks metas (max_size config files options loose))
            store
          ≡ o
        → after_chunks config files options loose metas o ≡ (state, r)
        → state.deleted ≢ []
        → Validated state
    unfolding finish_pack
    finished (store', err e) packed h some_deleted = kept_nothing h some_deleted
    finished (store', ok results) {state} {r} packed h some_deleted =
        go files.writes_cache options.delete_loose h
      where
        go :
            (p q : Bool)
            → after_cache config files options loose metas store' results p q ≡ (state, r)
            → Validated state
        go false q k = kept_nothing k some_deleted
        go true false k = kept_nothing k some_deleted
        go true true k = validation store' results _ packed refl k some_deleted

  -- Whenever a Pack deletes a loose blob, even one that ends in an error, its loop over the chunks has
  -- ended well, the archives that this made, if any, have passed the validation that reads them again,
  -- and the deleted blobs are the first of those that the Pack had collected.
  pub pack-Validated :
      (state : PackState) (r : Result (Unit {0}))
      → pack config files options loose store ≡ (state, r)
      → state.deleted ≢ []
      → Validated state
  unfolding pack
  pack-Validated state r h some_deleted =
      go (collect_blob_metas_parallel config store options loose) refl h
    where
      go :
          (o : Result (List PackedBlobMeta))
          → collect_blob_metas_parallel config store options loose ≡ o
          → ◌≡◌ {A = PackState × Result (Unit {0})}
              (elim o [
                | err e ↦ (record { store = store; deleted = [] }, err e)
                | ok metas ↦ pack_metas config files options loose store metas
              ])
              (state, r)
          → Validated state
      go (err e) q k = kept_nothing k some_deleted
      go (ok []) q k = kept_nothing k some_deleted
      go (ok (m ∷ metas)) q k = finished (m ∷ metas) q _ refl k some_deleted
