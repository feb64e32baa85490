-- ===== src/Common/Bytes.antt =====
-- Byte strings as lists of numbers, compared as Go's `bytes.Compare` and `bytes.Equal` do.
use Prim.Native.Nat.{ℕ, ◌<◌, compare, Ordering}
use Prim.Native.Char.{code}
use Prim.Native.String.{String}
use mathlib.Core.Path.{◌≡◌, refl}
use mathlib.Core.Logic.{◌⊎◌, inl, inr}
use mathlib.Core.Bool.{Bool, true, false}
use mathlib.Core.List.{List, [], ◌∷◌}
use native.Mathlib.Omega.{arith}

abbrev pub Bytes : Type 0
Bytes = List ℕ

abbrev pub IsByte : ℕ → Type 0
IsByte b = b < 256

-- The bytes of an ASCII text.
abbrev pub codes : String → Bytes
codes String.[] = []
codes (String.◌∷◌ c s) = code c ∷ codes s

pub data Order : Type 0 where
  below same above : Order

unfoldable pub compare_bytes : Bytes → Bytes → Order
compare_bytes [] [] = same
compare_bytes [] (y ∷ ys) = below
compare_bytes (x ∷ xs) [] = above
compare_bytes (x ∷ xs) (y ∷ ys) =
    let rest = compare_bytes xs ys in
    elim (compare x y) [ Ordering.lt ↦ below | Ordering.gt ↦ above | Ordering.eq ↦ rest ]

abbrev is_same : Order → Bool
is_same same = true
is_same _ = false

unfoldable pub equal_bytes : Bytes → Bytes → Bool
unfolding compare_bytes
equal_bytes xs ys = is_same (compare_bytes xs ys)

pub compare_bytes_refl : (xs : Bytes) → compare_bytes xs xs ≡ same
unfolding compare_bytes
compare_bytes_refl [] = refl
compare_bytes_refl (x ∷ xs) = ground (arith, compare_bytes_refl xs)

pub compare_bytes-same : (xs ys : Bytes) → compare_bytes xs ys ≡ same → xs ≡ ys
unfolding compare_bytes
compare_bytes-same [] [] h = refl
compare_bytes-same [] (y ∷ ys) h = cc
compare_bytes-same (x ∷ xs) [] h = cc
compare_bytes-same (x ∷ xs) (y ∷ ys) h = ground (arith, compare_bytes-same xs ys)

pub compare_bytes_trans :
    (xs ys zs : Bytes)
    → compare_bytes xs ys ≡ below
    → compare_bytes ys zs ≡ below
    → compare_bytes xs zs ≡ below
unfolding compare_bytes
compare_bytes_trans [] [] zs h k = cc
compare_bytes_trans [] (y ∷ ys) [] h k = cc
compare_bytes_trans [] (y ∷ ys) (z ∷ zs) h k = refl
compare_bytes_trans (x ∷ xs) [] zs h k = cc
compare_bytes_trans (x ∷ xs) (y ∷ ys) [] h k = cc
compare_bytes_trans (x ∷ xs) (y ∷ ys) (z ∷ zs) h k = ground (arith, compare_bytes_trans xs ys zs)

pub compare_bytes-flip : (xs ys : Bytes) → compare_bytes xs ys ≡ above → compare_bytes ys xs ≡ below
unfolding compare_bytes
compare_bytes-flip [] [] h = cc
compare_bytes-flip [] (y ∷ ys) h = cc
compare_bytes-flip (x ∷ xs) [] h = refl
compare_bytes-flip (x ∷ xs) (y ∷ ys) h = ground (arith, compare_bytes-flip xs ys)

pub compare_bytes-swap : (xs ys : Bytes) → compare_bytes xs ys ≡ below → compare_bytes ys xs ≡ above
unfolding compare_bytes
compare_bytes-swap [] [] h = cc
compare_bytes-swap [] (y ∷ ys) h = refl
compare_bytes-swap (x ∷ xs) [] h = cc
compare_bytes-swap (x ∷ xs) (y ∷ ys) h = ground (arith, compare_bytes-swap xs ys)

pub equal_bytes_refl : (xs : Bytes) → equal_bytes xs xs ≡ true
unfolding equal_bytes
equal_bytes_refl xs = ground (arith, compare_bytes_refl xs)

pub equal_bytes→eq : (xs ys : Bytes) → equal_bytes xs ys ≡ true → xs ≡ ys
unfolding equal_bytes
equal_bytes→eq xs ys h = compare_bytes-same xs ys (only (compare_bytes xs ys) h)
  where
    only : (o : Order) → is_same o ≡ true → o ≡ same
    only below e = cc
    only same e = refl
    only above e = cc

pub Order-cases : (o : Order) → (o ≡ below) ⊎ (o ≡ same) ⊎ (o ≡ above)
Order-cases below = inl refl
Order-cases same = inr (inl refl)
Order-cases above = inr (inr refl)
