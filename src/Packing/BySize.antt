-- ===== src/Packing/BySize.antt =====
-- base_selector_size.go: blobs of like size become deltas of the largest of them.
use madder.Common.{ℕ, suc, List, [], ◌∷◌, ◌++◌, length, Bool, ltb, leb, ◌||◌, if◌then◌else◌}
use madder.Packing.Selector.{BlobMetadata}

pub record SizeBasedSelector : Type 0 where
  pub min_blob_size : ℕ
  pub max_blob_size : ℕ
  -- float64(a) <= float64(b)*SizeRatio, for the sizes a and b
  pub within_ratio : ℕ → ℕ → Bool

pub record IndexedBlob : Type 0 where
  pub original_index : ℕ
  pub size : ℕ

-- sort.Slice by size. Go leaves the order of equal sizes open; here the earlier stays first.
unfoldable pub insert_by_size : IndexedBlob → List IndexedBlob → List IndexedBlob
insert_by_size blob [] = blob ∷ []
insert_by_size blob (other ∷ rest) =
    let later = insert_by_size blob rest in
    if leb blob.size other.size then blob ∷ other ∷ rest else other ∷ later

unfoldable pub sort_by_size : List IndexedBlob → List IndexedBlob
sort_by_size [] = []
sort_by_size (blob ∷ rest) = insert_by_size blob (sort_by_size rest)

-- The largest of a group, the last in its order.
abbrev pub last_index : IndexedBlob → List IndexedBlob → ℕ
last_index blob [] = blob.original_index
last_index blob (next ∷ rest) = last_index next rest

-- All of a group but the last are assigned to the last.
unfoldable pub assign_group : List IndexedBlob → List (ℕ × ℕ)
assign_group [] = []
assign_group (blob ∷ []) = []
assign_group (blob ∷ next ∷ rest) =
    (blob.original_index, last_index next rest) ∷ assign_group (next ∷ rest)

module _ (s : SizeBasedSelector) where
  unfoldable pub sized_from : ℕ → List BlobMetadata → List IndexedBlob
  sized_from i [] = []
  sized_from i (meta ∷ metas) =
      let rest = sized_from (suc i) metas in
      if ltb meta.size s.min_blob_size || ltb s.max_blob_size meta.size
      then rest
      else (record { original_index = i; size = meta.size }) ∷ rest

  -- The loop over the sorted blobs: `start` is the size of the group's first.
  unfoldable pub assign_groups : ℕ → List IndexedBlob → List IndexedBlob → List (ℕ × ℕ)
  assign_groups start group [] = assign_group group
  assign_groups start group (blob ∷ rest) =
      let grown = assign_groups start (group ++ (blob ∷ [])) rest in
      let new_group = assign_groups blob.size (blob ∷ []) rest in
      if s.within_ratio blob.size start then grown else assign_group group ++ new_group

  abbrev pub assign_sorted : List IndexedBlob → List (ℕ × ℕ)
  assign_sorted [] = []
  assign_sorted (blob ∷ rest) = assign_groups blob.size (blob ∷ []) rest

  -- The calls of Assign, in their order.
  unfoldable pub select_bases_by_size : List BlobMetadata → List (ℕ × ℕ)
  select_bases_by_size blobs =
      if ltb (length blobs) 2 then [] else assign_sorted (sort_by_size (sized_from 0 blobs))
