-- ===== src/Packing/Samples.antt =====
-- Runs of the packer's code.
use madder.Common.{join, ℕ, ◌≡◌, refl, arith, List, [], ◌∷◌, All}
use madder.Common.Bytes.{Bytes}
use madder.Packing.Chunks.{gear_cdc_chunks}
use madder.Packing.ChunkLaws.{WithinBounds, join-gear_cdc_chunks, gear_cdc_chunks-WithinBounds}
use madder.Packing.Signature.{
  min_hash_signature, add_features, lower_places, minhash_coefficients, coefficients_from,
  minhash_universal_hash, compute_signature, features_of,
}
use madder.Packing.Selector.{BlobMetadata, LshBandingSelector, select_bases, pool_from, assign_from}
use madder.Packing.Selector.{
  assign_best, assign_base, best_of, candidates_from, share_bucket, hash_band,
}
use madder.Packing.Selector.{fnv_byte, min_hash_jaccard, count_matches}
use madder.Packing.Assigned.{IsGrowing}
use madder.Packing.Acyclic.{Rests, select_bases-IsGrowing, select_bases-acyclic}

abbrev blob : Bytes
blob = 3 ∷ 1 ∷ 4 ∷ 1 ∷ 5 ∷ 9 ∷ 2 ∷ 6 ∷ 5 ∷ []

join-gear_cdc_chunks_example : join (gear_cdc_chunks blob 2 4 2) ≡ blob
join-gear_cdc_chunks_example = join-gear_cdc_chunks blob 2 4 2

gear_cdc_chunks-WithinBounds_example : WithinBounds 2 4 (gear_cdc_chunks blob 2 4 2)
gear_cdc_chunks-WithinBounds_example =
    gear_cdc_chunks-WithinBounds blob 2 4 2 (omega arith) (omega arith)

abbrev selector : LshBandingSelector
selector = record { bands = 2; rows_per_band = 1; min_blob_size = 10; max_blob_size = 1000 }

abbrev metadata : ℕ → List ℕ → BlobMetadata
metadata size signature = record { id = []; size = size; signature = signature }

-- The second blob is too small; the others are alike.
abbrev blobs : List BlobMetadata
blobs =
    metadata 100 (7 ∷ 8 ∷ [])
    ∷ metadata 5 (7 ∷ 8 ∷ [])
    ∷ metadata 300 (7 ∷ 9 ∷ [])
    ∷ metadata 100 (7 ∷ 8 ∷ [])
    ∷ []

abbrev unmoved : List ℕ → List ℕ
unmoved l = l

select_bases_run : select_bases selector unmoved blobs ≡ (0, 3) ∷ []
unfolding select_bases pool_from assign_from assign_best assign_base best_of candidates_from
    share_bucket hash_band fnv_byte min_hash_jaccard count_matches
select_bases_run = refl

select_bases-IsGrowing_example :
    All (IsGrowing selector blobs) (select_bases selector unmoved blobs)
select_bases-IsGrowing_example = select_bases-IsGrowing selector blobs unmoved (λ P l h. h)

select_bases-acyclic_example : ¬ Rests (select_bases selector unmoved blobs) 0 0
select_bases-acyclic_example = select_bases-acyclic selector blobs unmoved (λ P l h. h) 0

-- Each place of a signature has the least hash of the features, and without features the largest uint32.
signature_runs :
    (min_hash_signature [] 2 ≡ 4294967295 ∷ 4294967295 ∷ [])
    × (min_hash_signature (7 ∷ 9 ∷ []) 2 ≡ min_hash_signature (9 ∷ 7 ∷ 7 ∷ []) 2)
unfolding min_hash_signature add_features lower_places minhash_coefficients coefficients_from
    minhash_universal_hash
signature_runs = (refl, refl)

computed_signature :
    compute_signature
      (record { avg_chunk_size = 4; min_chunk_size = 2; max_chunk_size = 8; k = 1 })
      []
    ≡ 4294967295 ∷ []
unfolding compute_signature features_of min_hash_signature add_features lower_places
    minhash_coefficients coefficients_from gear_cdc_chunks
computed_signature = refl
