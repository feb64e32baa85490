-- ===== src/Packing/Selector.antt =====
-- base_selector_lsh.go and the similarity of minhash.go: which blob becomes a delta of which.
use madder.Common.{ℕ, zero, suc, ◌+◌, ◌*◌, ◌/◌, ◌%◌, ◌^◌, List, [], ◌∷◌, ◌++◌, length, get_elem?}
use madder.Common.{Bool, false, not, ltb, ◌==◌, if◌then◌else◌, ◌||◌, ◌&&◌, take, drop, Option}
use madder.Common.{none, some}
use madder.Common.Bytes.{Bytes}
use Prim.Native.Nat.{bit_xor}

pub record BlobMetadata : Type 0 where
  pub id : Bytes
  pub size : ℕ
  pub signature : List ℕ

pub record LshBandingSelector : Type 0 where
  pub bands : ℕ
  pub rows_per_band : ℕ
  pub min_blob_size : ℕ
  pub max_blob_size : ℕ

pub record Eligible : Type 0 where
  pub original_index : ℕ
  pub signature : List ℕ
  pub size : ℕ

-- A similarity is a quotient of two counts. Quotients of counts below 2^26 that differ also differ as
-- float64, and in the same direction.
pub record Ratio : Type 0 where
  pub num : ℕ
  pub den : ℕ

abbrev pub more_than : Ratio → Ratio → Bool
more_than a b = ltb (b.num * a.den) (a.num * b.den)

-- The largest uint32 is the place of a signature that no feature filled.
abbrev pub empty_slot : ℕ
empty_slot = 4294967295

-- matches and nonEmpty
unfoldable pub count_matches : List ℕ → List ℕ → Ratio
count_matches (x ∷ xs) (y ∷ ys) =
    let rest = count_matches xs ys in
    if (x == empty_slot) && (y == empty_slot)
    then rest
    else if x == y
    then record { num = rest.num + 1; den = rest.den + 1 }
    else record { num = rest.num; den = rest.den + 1 }
count_matches _ _ = record { num = 0; den = 0 }

unfoldable pub min_hash_jaccard : List ℕ → List ℕ → Ratio
min_hash_jaccard xs ys =
    let counts = count_matches xs ys in
    if not (length xs == length ys)
    then record { num = 0; den = 1 }
    else if counts.den == 0
    then record { num = 0; den = 1 }
    else counts

-- One byte of hash/fnv's 64-bit FNV-1a.
unfoldable pub fnv_byte : ℕ → ℕ → ℕ
fnv_byte h b = (bit_xor h b * 1099511628211) % 2 ^ 64

fnv_rows : ℕ → List ℕ → ℕ
fnv_rows h [] = h
fnv_rows h (r ∷ rs) =
    fnv_rows
      (fnv_byte (fnv_byte (fnv_byte (fnv_byte h (r % 256)) (r / 2 ^ 8 % 256)) (r / 2 ^ 16 % 256))
        (r / 2 ^ 24 % 256))
      rs

unfoldable pub hash_band : List ℕ → ℕ
unfolding fnv_rows
hash_band rows = fnv_rows 14695981039346656037 rows

module _ (s : LshBandingSelector) where
  abbrev pub is_eligible : BlobMetadata → Bool
  is_eligible blob =
      not (ltb blob.size s.min_blob_size || ltb s.max_blob_size blob.size)
      && (length blob.signature == s.bands * s.rows_per_band)

  -- The pool: the blobs from the i-th on that are eligible.
  unfoldable pub pool_from : ℕ → List BlobMetadata → List Eligible
  pool_from i [] = []
  pool_from i (blob ∷ blobs) =
      let rest = pool_from (i + 1) blobs in
      if is_eligible blob
      then (record { original_index = i; signature = blob.signature; size = blob.size }) ∷ rest
      else rest

  abbrev band_hash : ℕ → Eligible → ℕ
  band_hash b e = hash_band (take s.rows_per_band (drop (b * s.rows_per_band) e.signature))

  -- Whether two blobs are in one bucket of the first `n` bands.
  unfoldable pub share_bucket : ℕ → Eligible → Eligible → Bool
  share_bucket zero e other = false
  share_bucket (suc b) e other = (band_hash b e == band_hash b other) || share_bucket b e other

  -- The other members of the blob's buckets, each once.
  unfoldable pub candidates_from : ℕ → Eligible → ℕ → List Eligible → List ℕ
  candidates_from i e j [] = []
  candidates_from i e j (other ∷ rest) =
      let later = candidates_from i e (j + 1) rest in
      if not (j == i) && share_bucket s.bands e other then j ∷ later else later

  abbrev pub similarity : List Eligible → Eligible → ℕ → Option Ratio
  similarity pool e j = elim (get_elem? pool j) [
    | none ↦ none
    | some other ↦ some (min_hash_jaccard e.signature other.signature)
  ]

  abbrev pub better : Option Ratio → Option (ℕ × Ratio) → ℕ → Option (ℕ × Ratio)
  better none best j = best
  better (some sim) none j = some (j, sim)
  better (some sim) (some (k, top)) j = if more_than sim top then some (j, sim) else some (k, top)

  -- bestIdx and bestSim, over the candidates in the order of the loop.
  unfoldable pub best_of :
      List Eligible → Eligible → Option (ℕ × Ratio) → List ℕ → Option (ℕ × Ratio)
  best_of pool e best [] = best
  best_of pool e best (j ∷ js) = best_of pool e (better (similarity pool e j) best j) js

  -- A larger blob is no delta of a smaller one, and of two equal ones the first is.
  unfoldable pub assign_base : ℕ → Eligible → ℕ → Option Eligible → List (ℕ × ℕ)
  assign_base i e j none = []
  assign_base i e j (some base) =
      if ltb base.size e.size || ((e.size == base.size) && ltb j i)
      then []
      else (e.original_index, base.original_index) ∷ []

  unfoldable pub assign_best : List Eligible → ℕ → Eligible → Option (ℕ × Ratio) → List (ℕ × ℕ)
  assign_best pool i e none = []
  assign_best pool i e (some (j, sim)) =
      if ltb 0 sim.num then assign_base i e j (get_elem? pool j) else []

  -- A range over a map is in no order that the language gives: `arrange` is the one it takes.
  module _ (arrange : List ℕ → List ℕ) where
    unfoldable pub assign_from : List Eligible → ℕ → List Eligible → List (ℕ × ℕ)
    assign_from pool i [] = []
    assign_from pool i (e ∷ rest) =
        assign_best pool i e (best_of pool e none (arrange (candidates_from i e 0 pool)))
        ++ assign_from pool (i + 1) rest

    abbrev assign_pool : List Eligible → List (ℕ × ℕ)
    assign_pool pool = if ltb (length pool) 2 then [] else assign_from pool 0 pool

    -- The calls of Assign, in their order.
    unfoldable pub select_bases : List BlobMetadata → List (ℕ × ℕ)
    select_bases blobs =
        if (s.bands == 0) || (s.rows_per_band == 0)
        then []
        else if ltb (length blobs) 2
        then []
        else assign_pool (pool_from 0 blobs)
