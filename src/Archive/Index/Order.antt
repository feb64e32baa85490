-- ===== src/Archive/Index/Order.antt =====
-- The order and the lengths that `verify_sorted_v1` checks.
use madder.Common.{ℕ, ◌+◌, ◌≡◌, refl, arith, List, [], ◌∷◌, length, All}
use madder.Common.{◌↔◌}
use madder.Common.Bytes.{below, compare_bytes, compare_bytes_trans}
use madder.Archive.Types.{ok, IndexEntryV1}
use madder.Archive.Index.Writer.{check_order, check_lengths, verify_sorted_v1}

abbrev pub Precedes : IndexEntryV1 → IndexEntryV1 → Type 0
Precedes x y = compare_bytes x.hash y.hash ≡ below

abbrev pub IsSorted : List IndexEntryV1 → Type 0
IsSorted [] = Unit
IsSorted (x ∷ xs) = All (Precedes x) xs × IsSorted xs

abbrev pub HasSize : ℕ → IndexEntryV1 → Type 0
HasSize n e = length e.hash ≡ n

pub All-Precedes-trans :
    (x y : IndexEntryV1) (es : List IndexEntryV1)
    → Precedes x y
    → All (Precedes y) es
    → All (Precedes x) es
All-Precedes-trans x y [] h k = tt
All-Precedes-trans x y (e ∷ es) h (k, ks) =
    (compare_bytes_trans x.hash y.hash e.hash h k, All-Precedes-trans x y es h ks)

neighbours_below :
    (i : ℕ) (x y : IndexEntryV1) (rest : List IndexEntryV1)
    → check_order i (x ∷ y ∷ rest) ≡ ok tt
    → Precedes x y × (check_order (i + 1) (y ∷ rest) ≡ ok tt)
unfolding check_order
neighbours_below i x y rest h = ground arith

check_order-IsSorted : (i : ℕ) (es : List IndexEntryV1) → check_order i es ≡ ok tt → IsSorted es
check_order-IsSorted i [] h = tt
check_order-IsSorted i (x ∷ []) h = (tt, tt)
check_order-IsSorted i (x ∷ y ∷ rest) h =
    let (p, q) = neighbours_below i x y rest h in
    let (r, s) = check_order-IsSorted (i + 1) (y ∷ rest) q in
    ((p, All-Precedes-trans x y rest p r), (r, s))

check_order_of_IsSorted : (i : ℕ) (es : List IndexEntryV1) → IsSorted es → check_order i es ≡ ok tt
unfolding check_order
check_order_of_IsSorted i [] h = refl
check_order_of_IsSorted i (x ∷ []) h = refl
check_order_of_IsSorted i (x ∷ y ∷ rest) ((p, ps), q) =
    ground (arith, check_order_of_IsSorted (i + 1) (y ∷ rest) q)

check_lengths-HasSize :
    (i n : ℕ) (es : List IndexEntryV1) → check_lengths i n es ≡ ok tt → All (HasSize n) es
unfolding check_lengths
check_lengths-HasSize i n [] h = tt
check_lengths-HasSize i n (x ∷ rest) h =
    (ground arith, check_lengths-HasSize (i + 1) n rest (ground arith))

check_lengths_of_HasSize :
    (i n : ℕ) (es : List IndexEntryV1) → All (HasSize n) es → check_lengths i n es ≡ ok tt
unfolding check_lengths
check_lengths_of_HasSize i n [] h = refl
check_lengths_of_HasSize i n (x ∷ rest) (h, hs) =
    ground (arith, check_lengths_of_HasSize (i + 1) n rest hs)

-- `verifySortedV1` accepts exactly the lists with strictly ascending hashes of the given length.
pub verify_sorted_v1_iff :
    (es : List IndexEntryV1) (n : ℕ)
    → (verify_sorted_v1 es n ≡ ok tt) ↔ (IsSorted es × All (HasSize n) es)
unfolding verify_sorted_v1
verify_sorted_v1_iff es n = (sound, complete)
  where
    sound : verify_sorted_v1 es n ≡ ok tt → IsSorted es × All (HasSize n) es
    sound h =
        (check_order-IsSorted 0 es (ground arith), check_lengths-HasSize 0 n es (ground arith))

    complete : IsSorted es × All (HasSize n) es → verify_sorted_v1 es n ≡ ok tt
    complete (s, l) =
        ground (arith, check_order_of_IsSorted 0 es s, check_lengths_of_HasSize 0 n es l)
