-- ===== src/ArchiveStore/Collect.antt =====
-- collectBlobMetasParallel of pack_parallel.go: the loose blobs that a Pack takes, with their sizes.
use madder.Common.{ℕ, suc, List, [], ◌∷◌, Bool, true, false, not, ◌||◌, if◌then◌else◌, Option}
use madder.Common.{none, some}
use madder.Common.Bytes.{Bytes, below, compare_bytes, equal_bytes}
use madder.Common.Tables.{lookup}
use madder.Archive.Types.{Result, ok, err, ◌>>=◌, ◌>>◌, guard, cancelled}
use madder.ArchiveStore.Types.{StoreConfig, InventoryArchiveV1, PackedBlobMeta}

-- The places where a Pack looks whether its context is cancelled.
pub data Poll : Type 0 where
  collecting measuring packing validating deleting : ℕ → Poll

-- The options that the model reads; the others only report.
pub record PackOptions : Type 0 where
  pub delete_loose : Bool
  pub skip_missing_blobs : Bool
  pub max_pack_size : ℕ
  pub blob_filter : Option (List Bytes)
  -- CheckBlobsSafeToDelete
  pub deletion_precondition : Option (List Bytes → Result (Unit {0}))

-- What the loose store and the context answer while a Pack runs.
pub record Loose : Type 0 where
  pub all_blobs_of : List (Result Bytes)
  pub get_blob_size : Bytes → Result ℕ
  pub read_blob : Bytes → Result Bytes
  -- the store is a BlobDeleter, and its answer for a blob
  pub deletes : Option (Bytes → Result (Unit {0}))
  pub is_cancelled : Poll → Bool

abbrev pub poll_context : Loose → Poll → Result (Unit {0})
poll_context loose p = guard (not (loose.is_cancelled p)) cancelled

unfoldable pub member : Bytes → List Bytes → Bool
member id [] = false
member id (x ∷ xs) = equal_bytes id x || member id xs

module _ (config : StoreConfig) (store : InventoryArchiveV1) (options : PackOptions)
    (loose : Loose) where
  abbrev in_index : Bytes → Bool
  in_index id = elim (lookup id store.index) [ none ↦ false | some _ ↦ true ]

  abbrev outside_filter : Option (List Bytes) → Bytes → Bool
  outside_filter none id = false
  outside_filter (some ids) id = not (member id ids)

  -- The serial pass over the listing.
  unfoldable pub collect_candidates : ℕ → List (Result Bytes) → Result (List Bytes)
  collect_candidates k [] = ok []
  collect_candidates k (item ∷ rest) = do
    poll_context loose (collecting k)
    id ← item
    ids ← collect_candidates (suc k) rest
    ok (
        if config.is_null id || in_index id || outside_filter options.blob_filter id
        then ids
        else id ∷ ids)

  -- One worker's result, if it is kept: a cancelled worker leaves an entry without a digest, and so
  -- does a size that cannot be had when missing blobs are skipped.
  unfoldable pub measure : ℕ → Bytes → Result (Option PackedBlobMeta)
  measure k id = elim (loose.is_cancelled (measuring k)) [
    | true ↦ ok none
    | false ↦ elim (loose.get_blob_size id) [
      | ok size ↦ ok (some (record { digest = id; size = size }))
      | err e ↦ if options.skip_missing_blobs then ok none else err e
    ]
  ]

  abbrev keep : Option PackedBlobMeta → List PackedBlobMeta → List PackedBlobMeta
  keep none metas = metas
  keep (some m) metas = m ∷ metas

  -- Of several errors the first of the list is taken.
  unfoldable pub measure_all : ℕ → List Bytes → Result (List PackedBlobMeta)
  measure_all k [] = ok []
  measure_all k (id ∷ ids) = do
    measured ← measure k id
    metas ← measure_all (suc k) ids
    ok (keep measured metas)

  unfoldable pub sort_meta_in : PackedBlobMeta → List PackedBlobMeta → List PackedBlobMeta
  sort_meta_in m [] = m ∷ []
  sort_meta_in m (other ∷ rest) =
      let later = sort_meta_in m rest in
      elim (compare_bytes other.digest m.digest) [ below ↦ other ∷ later | _ ↦ m ∷ other ∷ rest ]

  -- sort.Slice by digest
  unfoldable pub sort_metas : List PackedBlobMeta → List PackedBlobMeta
  sort_metas [] = []
  sort_metas (m ∷ rest) = sort_meta_in m (sort_metas rest)

  unfoldable pub collect_blob_metas_parallel : Result (List PackedBlobMeta)
  collect_blob_metas_parallel = do
    candidates ← collect_candidates 0 loose.all_blobs_of
    metas ← measure_all 0 candidates
    ok (sort_metas metas)
