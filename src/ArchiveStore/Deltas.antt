-- ===== src/ArchiveStore/Deltas.antt =====
-- The first half of packChunkArchiveV1: which blobs of a chunk become deltas, and the deltas.
use madder.Common.{ℕ, ◌%◌, ◌^◌, List, [], ◌∷◌, length, get_elem?}
use madder.Common.{Bool, true, false, ltb, leb, ◌==◌, if◌then◌else◌, Option, none, some}
use madder.Common.Bytes.{Bytes}
use madder.Archive.Types.{Result, ok, err, panic, ◌>>=◌}
use madder.Packing.Selector.{BlobMetadata}
use madder.ArchiveStore.Types.{DeltaAlgorithm, PackedBlob, DeltaResult, StoreConfig}
use madder.ArchiveStore.Types.{delta_algorithm_byte_for_name, delta_algorithm_for_byte}

-- The map of mapDeltaAssignments, in the order of its keys.
unfoldable pub assign : ℕ → ℕ → List (ℕ × ℕ) → List (ℕ × ℕ)
assign i j [] = (i, j) ∷ []
assign i j ((k, base) ∷ rest) =
    let later = assign i j rest in
    if i == k
    then (i, j) ∷ rest
    else if ltb i k
    then (i, j) ∷ (k, base) ∷ rest
    else (k, base) ∷ later

-- The calls of Assign, one after the other.
unfoldable pub assign_all : List (ℕ × ℕ) → List (ℕ × ℕ) → List (ℕ × ℕ)
assign_all [] assignments = assignments
assign_all ((i, j) ∷ calls) assignments = assign_all calls (assign i j assignments)

unfoldable pub base_of : List (ℕ × ℕ) → ℕ → Option ℕ
base_of [] i = none
base_of ((k, base) ∷ rest) i = let later = base_of rest i in if i == k then some base else later

unfoldable pub is_delta : List (ℕ × ℕ) → ℕ → Bool
is_delta assignments i = elim (base_of assignments i) [ none ↦ false | some _ ↦ true ]

abbrev metadata : PackedBlob → List ℕ → BlobMetadata
metadata blob signature = record {
  id = blob.digest;
  size = length blob.contents % 2 ^ 64;
  signature = signature;
}

unfoldable pub blob_set :
    Option (Bytes → Result (List ℕ)) → List PackedBlob → Result (List BlobMetadata)
blob_set computer [] = ok []
blob_set none (blob ∷ blobs) = do rest ← blob_set none blobs; ok (metadata blob [] ∷ rest)
blob_set (some compute_signature) (blob ∷ blobs) = do
  signature ← compute_signature blob.contents
  rest ← blob_set (some compute_signature) blobs
  ok (metadata blob signature ∷ rest)

pub record DeltaPlan : Type 0 where
  pub alg_byte : ℕ
  pub alg : DeltaAlgorithm
  pub assignments : List (ℕ × ℕ)

-- The nil interface value.
abbrev pub nil_algorithm : DeltaAlgorithm
nil_algorithm = record { compute = λ base target. err panic; apply = λ base patch. err panic }

unfoldable pub plan_deltas : StoreConfig → List PackedBlob → Result DeltaPlan
plan_deltas config blobs = elim config.delta_enabled [
  | false ↦ ok (record { alg_byte = 0; alg = nil_algorithm; assignments = [] })
  | true ↦ do
    alg_byte ← delta_algorithm_byte_for_name config.delta_algorithm
    alg ← delta_algorithm_for_byte config.bsdiff alg_byte
    select_bases ← config.selector
    computer ← config.signature_computer
    blobs' ← blob_set computer blobs
    ok (record {
      alg_byte = alg_byte;
      alg = alg;
      assignments = assign_all (select_bases blobs') [];
    })
]

-- blobs[i]
abbrev pub at : List PackedBlob → ℕ → Result PackedBlob
at blobs i = elim (get_elem? blobs i) [ none ↦ err panic | some blob ↦ ok blob ]

-- Buffer.Bytes is nil when nothing was written.
abbrev pub bytes_of : Bytes → Option Bytes
bytes_of [] = none
bytes_of (b ∷ bs) = some (b ∷ bs)

-- Trial and discard: a delta that fails or is not smaller than its blob is dropped.
unfoldable pub try_delta : DeltaAlgorithm → Bytes → Bytes → Option Bytes
try_delta alg base target = elim (alg.compute base target) [
  | err e ↦ none
  | ok raw_delta ↦ if leb (length target) (length raw_delta) then none else bytes_of raw_delta
]

unfoldable pub compute_delta : DeltaAlgorithm → List PackedBlob → ℕ → ℕ → Result DeltaResult
compute_delta alg blobs i j = do
  target_blob ← at blobs i
  base_blob ← at blobs j
  ok (record {
    blob_idx = i;
    base_idx = j;
    delta_contents = try_delta alg base_blob.contents target_blob.contents;
  })

-- The workers' results, each at the place of its assignment.
unfoldable pub compute_deltas :
    DeltaAlgorithm → List PackedBlob → List (ℕ × ℕ) → Result (List DeltaResult)
compute_deltas alg blobs [] = ok []
compute_deltas alg blobs ((i, j) ∷ rest) = do
  result ← compute_delta alg blobs i j
  results ← compute_deltas alg blobs rest
  ok (result ∷ results)
