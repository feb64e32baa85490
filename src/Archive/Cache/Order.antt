-- ===== src/Archive/Cache/Order.antt =====
-- The order and the lengths that `verify_cache_v1_sorted` checks.
use madder.Common.{ℕ, ◌+◌, ◌≡◌, refl, arith, List, [], ◌∷◌, length, All, ◌↔◌}
use madder.Common.Bytes.{below, compare_bytes, compare_bytes_trans}
use madder.Archive.Types.{ok, CacheEntryV1}
use madder.Archive.Cache.Writer.{check_cache_order, check_cache_lengths, verify_cache_v1_sorted}

abbrev pub Precedes : CacheEntryV1 → CacheEntryV1 → Type 0
Precedes x y = compare_bytes x.hash y.hash ≡ below

abbrev pub IsSorted : List CacheEntryV1 → Type 0
IsSorted [] = Unit
IsSorted (x ∷ xs) = All (Precedes x) xs × IsSorted xs

-- The hash and the checksum of the archive have the format's size.
abbrev pub HasSize : ℕ → CacheEntryV1 → Type 0
HasSize n e = (length e.hash ≡ n) × (length e.archive_checksum ≡ n)

pub All-Precedes-trans :
    (x y : CacheEntryV1) (es : List CacheEntryV1)
    → Precedes x y
    → All (Precedes y) es
    → All (Precedes x) es
All-Precedes-trans x y [] h k = tt
All-Precedes-trans x y (e ∷ es) h (k, ks) =
    (compare_bytes_trans x.hash y.hash e.hash h k, All-Precedes-trans x y es h ks)

neighbours_below :
    (i : ℕ) (x y : CacheEntryV1) (rest : List CacheEntryV1)
    → check_cache_order i (x ∷ y ∷ rest) ≡ ok tt
    → Precedes x y × (check_cache_order (i + 1) (y ∷ rest) ≡ ok tt)
unfolding check_cache_order
neighbours_below i x y rest h = ground arith

check_cache_order-IsSorted :
    (i : ℕ) (es : List CacheEntryV1) → check_cache_order i es ≡ ok tt → IsSorted es
check_cache_order-IsSorted i [] h = tt
check_cache_order-IsSorted i (x ∷ []) h = (tt, tt)
check_cache_order-IsSorted i (x ∷ y ∷ rest) h =
    let (p, q) = neighbours_below i x y rest h in
    let (r, s) = check_cache_order-IsSorted (i + 1) (y ∷ rest) q in
    ((p, All-Precedes-trans x y rest p r), (r, s))

check_cache_order_of_IsSorted :
    (i : ℕ) (es : List CacheEntryV1) → IsSorted es → check_cache_order i es ≡ ok tt
unfolding check_cache_order
check_cache_order_of_IsSorted i [] h = refl
check_cache_order_of_IsSorted i (x ∷ []) h = refl
check_cache_order_of_IsSorted i (x ∷ y ∷ rest) ((p, ps), q) =
    ground (arith, check_cache_order_of_IsSorted (i + 1) (y ∷ rest) q)

check_cache_lengths-HasSize :
    (i n : ℕ) (es : List CacheEntryV1) → check_cache_lengths i n es ≡ ok tt → All (HasSize n) es
unfolding check_cache_lengths
check_cache_lengths-HasSize i n [] h = tt
check_cache_lengths-HasSize i n (x ∷ rest) h =
    ((ground arith, ground arith), check_cache_lengths-HasSize (i + 1) n rest (ground arith))

check_cache_lengths_of_HasSize :
    (i n : ℕ) (es : List CacheEntryV1) → All (HasSize n) es → check_cache_lengths i n es ≡ ok tt
unfolding check_cache_lengths
check_cache_lengths_of_HasSize i n [] h = refl
check_cache_lengths_of_HasSize i n (x ∷ rest) ((h, c), hs) =
    ground (arith, check_cache_lengths_of_HasSize (i + 1) n rest hs)

-- `verifyCacheV1Sorted` accepts exactly the lists with strictly ascending hashes in which hashes and
-- archive checksums have the given length.
pub verify_cache_v1_sorted_iff :
    (es : List CacheEntryV1) (n : ℕ)
    → (verify_cache_v1_sorted es n ≡ ok tt) ↔ (IsSorted es × All (HasSize n) es)
unfolding verify_cache_v1_sorted
verify_cache_v1_sorted_iff es n = (sound, complete)
  where
    sound : verify_cache_v1_sorted es n ≡ ok tt → IsSorted es × All (HasSize n) es
    sound h = (
      check_cache_order-IsSorted 0 es (ground arith),
      check_cache_lengths-HasSize 0 n es (ground arith),
    )

    complete : IsSorted es × All (HasSize n) es → verify_cache_v1_sorted es n ≡ ok tt
    complete (s, l) =
        ground
          (arith, check_cache_order_of_IsSorted 0 es s, check_cache_lengths_of_HasSize 0 n es l)
