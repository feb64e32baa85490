-- ===== src/Common/Tables/Last.antt =====
-- Lookups in a map that a loop filled, as the last element of the loop's list with that key.
use mathlib.Core.Path.{◌≡◌, refl, ap, ◌∙◌}
use mathlib.Core.Logic.{inl, inr}
use mathlib.Core.Bool.{false}
use mathlib.Core.List.{List, [], ◌∷◌}
use mathlib.Core.Option.{Option, none, some}
use madder.Common.Lists.{All}
use madder.Common.Tests.{if◌then◌else◌, Bool-cases}
use madder.Common.Bytes.{Bytes, equal_bytes, equal_bytes→eq}
use madder.Common.Tables.{Table, insert, lookup, insert_all, lookup-insert, lookup-insert-other}

-- No key stands twice, as in every Go map.
abbrev pub Unique {ℓ} : {V : Type ℓ} → Table V → Type ℓ
Unique [] = Unit
Unique ((j, w) ∷ rest) = All (λ p. equal_bytes j p.0 ≡ false) rest × Unique rest

lookup-insert_if {ℓ} :
    {V : Type ℓ} (k j : Bytes) (v : V) (t : Table V)
    → lookup k (insert j v t) ≡ (if equal_bytes k j then some v else lookup k t)
lookup-insert_if k j v t = elim (Bool-cases (equal_bytes k j)) [
  | inl same ↦
      ap (λ i. lookup i (insert j v t)) (equal_bytes→eq k j same)
      ∙ lookup-insert j v t
      ∙ rw (same, if◌then◌else◌)
  | inr differs ↦ lookup-insert-other j k v t differs ∙ rw (differs, if◌then◌else◌)
]

module _ {ℓ κ} {A : Type ℓ} {V : Type κ} (key : A → Bytes) (value : A → V) (k : Bytes) where
  -- What a store of `x` makes of the answer for the key `k`.
  abbrev pub answer : A → Option V → Option V
  answer x before = if equal_bytes k (key x) then some (value x) else before

  abbrev pub last_of : List A → Option V → Option V
  last_of [] before = before
  last_of (x ∷ xs) before = last_of xs (answer x before)

  pub lookup-insert_all :
      (xs : List A) (t : Table V) → lookup k (insert_all key value xs t) ≡ last_of xs (lookup k t)
  unfolding insert_all
  lookup-insert_all [] t = refl
  lookup-insert_all (x ∷ xs) t =
      lookup-insert_all xs (insert (key x) (value x) t)
      ∙ ap (last_of xs) (lookup-insert_if k (key x) (value x) t)

  -- Two elements of different keys may change places.
  pub answer_comm :
      (x y : A) (before : Option V)
      → equal_bytes (key x) (key y) ≡ false
      → answer x (answer y before) ≡ answer y (answer x before)
  answer_comm x y before apart = elim (Bool-cases (equal_bytes k (key x))) [
    | inl same ↦ rw (
      same,
      ap (λ j. equal_bytes j (key y)) (equal_bytes→eq k (key x) same) ∙ apart,
      if◌then◌else◌,
    )
    | inr differs ↦ rw (differs, if◌then◌else◌)
  ]

lookup-apart {ℓ} :
    {V : Type ℓ} (j : Bytes) (t : Table V)
    → All (λ p. equal_bytes j p.0 ≡ false) t
    → lookup j t ≡ none
unfolding lookup
lookup-apart j [] h = refl
lookup-apart j ((i, w) ∷ rest) (apart, h) = rw (apart, if◌then◌else◌) (lookup-apart j rest h)

-- The entries of a map, stored again one after the other, give its lookups.
module _ {ℓ} {V : Type ℓ} (k : Bytes) where
  abbrev or_before : Option V → Option V → Option V
  or_before none before = before
  or_before (some v) before = some v

  last_of-Unique_or :
      (t : Table V) (before : Option V)
      → Unique t
      → last_of (λ (p : Bytes × V). p.0) (λ p. p.1) k t before ≡ or_before (lookup k t) before
  unfolding lookup
  last_of-Unique_or [] before u = refl
  last_of-Unique_or ((j, w) ∷ rest) before (apart, u) = elim (Bool-cases (equal_bytes k j)) [
    | inl same ↦
        rw (same, if◌then◌else◌)
          (last_of-Unique_or rest (some w) u
            ∙ ap (λ o. or_before o (some w))
                (ap (λ i. lookup i rest) (equal_bytes→eq k j same) ∙ lookup-apart j rest apart))
    | inr differs ↦ rw (differs, if◌then◌else◌) (last_of-Unique_or rest before u)
  ]

  pub last_of-Unique :
      (t : Table V) → Unique t → last_of (λ (p : Bytes × V). p.0) (λ p. p.1) k t none ≡ lookup k t
  last_of-Unique t u = last_of-Unique_or t none u ∙ collapse (lookup k t)
    where
      collapse : (o : Option V) → or_before o none ≡ o
      collapse none = refl
      collapse (some v) = refl
