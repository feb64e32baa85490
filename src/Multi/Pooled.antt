-- ===== src/Multi/Pooled.antt =====
-- The merge of AllBlobs over two children that each fill one id object again and again, as
-- localAllBlobs does, and that list the same ids.
use madder.Common.{ℕ, zero, suc, ◌+◌, ◌<◌, ◌≡◌, ◌≢◌, refl, sym, ap, ◌∙◌, arith, All, List, [], ◌∷◌}
use madder.Common.{length, some, none}
use madder.Common.Bytes.{Order, below, same, above}
use madder.Multi.Merge.{
  MarklId, Item, given, yielded, Head, pending_errors, past_errors, lesser, minimum_from, advance,
  advance_rest, advance_by, merge, count_items, all_blobs, compare_markl_ids,
}
use mathlib.Core.Path.{subst}
use madder.Multi.Ids.{Less, Less-trans, same_ids, compare_markl_ids_refl}
use madder.Multi.Heads.{irreflexive}
use madder.Multi.Listings.{IsAscending, yields, round}

-- One round of a merge without errors.
pub merge_round :
    (k : ℕ) (heads : List Head) {heads' : List Head} {m : MarklId}
    → pending_errors heads ≡ []
    → past_errors heads ≡ heads
    → minimum_from none heads ≡ some m
    → advance m heads ≡ heads'
    → merge (suc k) heads ≡ yielded m ∷ merge k heads'
unfolding merge
merge_round k heads {heads'} {m} calm past least next =
    (λ i. round k (calm i) (past i) ((ap (minimum_from none) past ∙ least) i))
    ∙ ap (λ h. yielded m ∷ merge k h) next

-- What the id object of a child holds when the ids that are left are asked for: the next id, and
-- `reset` after the last, when the object has gone back to its pool.
unfoldable pub next_of : MarklId → List MarklId → MarklId
next_of reset [] = reset
next_of reset (x ∷ xs) = x

unfoldable pub pooled : MarklId → List MarklId → Head
unfolding next_of
pooled reset [] = []
pooled reset (x ∷ xs) = given x (next_of reset xs) ∷ pooled reset xs

-- Each id twice.
unfoldable pub doubled : List MarklId → List MarklId
doubled [] = []
doubled (x ∷ xs) = x ∷ x ∷ doubled xs

apart_orders : below ≡ same → ⊥
apart_orders e = cc

Less-above : (x y : MarklId) → Less x y → compare_markl_ids y x ≡ above
Less-above x y l = go (compare_markl_ids y x) refl
  where
    go : (o : Order) → compare_markl_ids y x ≡ o → o ≡ above
    go below q = absurd (irreflexive x (Less-trans x y x l q))
    go same q = absurd (irreflexive x (subst (Less x) (same_ids y x q) l))
    go above q = refl

lesser-same : (x : MarklId) → lesser (some x) x ≡ some x
lesser-same x =
    ap (λ (o : Order). elim o [ below ↦ some x | same ↦ some x | above ↦ some x ])
      (compare_markl_ids_refl x)

lesser-below : (x y : MarklId) → Less x y → lesser (some y) x ≡ some x
lesser-below x y l =
    ap (λ (o : Order). elim o [ below ↦ some x | same ↦ some y | above ↦ some y ]) l

advance-first :
    (x later : MarklId) (rest : Head) (heads : List Head)
    → advance x ((given x later ∷ rest) ∷ heads) ≡ rest ∷ advance_rest later heads
unfolding advance
advance-first x later rest heads =
    ap
      (λ (o : Order). elim o as (λ _. List Head) [
        | same ↦ rest ∷ advance_rest later heads
        | below ↦ (given x later ∷ rest) ∷ advance x heads
        | above ↦ (given x later ∷ rest) ∷ advance x heads
      ])
      (compare_markl_ids_refl x)

advance-above :
    (m x later : MarklId) (rest : Head) (heads : List Head)
    → compare_markl_ids x m ≡ above
    → advance m ((given x later ∷ rest) ∷ heads) ≡ (given x later ∷ rest) ∷ advance m heads
unfolding advance
advance-above m x later rest heads h =
    ap
      (λ (o : Order). elim o as (λ _. List Head) [
        | same ↦ rest ∷ advance_rest later heads
        | below ↦ (given x later ∷ rest) ∷ advance m heads
        | above ↦ (given x later ∷ rest) ∷ advance m heads
      ])
      h

module _ (reset : MarklId) where
  kept_apart :
      (x n : MarklId) (item : Item) (rest : Head)
      → x ≢ n
      → advance_by (compare_markl_ids x n) item rest ≡ item ∷ rest
  kept_apart x n item rest apart = go (compare_markl_ids x n) refl
    where
      go : (o : Order) → compare_markl_ids x n ≡ o → advance_by o item rest ≡ item ∷ rest
      go below q = refl
      go same q = absurd (apart (same_ids x n q))
      go above q = refl

  -- The two children stand at the same id, and then the first of them one further.
  first_round :
      (k : ℕ) (x : MarklId) (xs : List MarklId)
      → x ≢ next_of reset xs
      → merge (suc k) (pooled reset (x ∷ xs) ∷ pooled reset (x ∷ xs) ∷ [])
        ≡ yielded x ∷ merge k (pooled reset xs ∷ pooled reset (x ∷ xs) ∷ [])
  unfolding pending_errors past_errors minimum_from advance advance_rest pooled
  first_round k x xs apart = merge_round k _ refl refl (lesser-same x) (
      advance-first x (next_of reset xs) (pooled reset xs) (pooled reset (x ∷ xs) ∷ [])
      ∙ ap (λ h. pooled reset xs ∷ h ∷ [])
          (kept_apart x (next_of reset xs) (given x (next_of reset xs)) (pooled reset xs) apart))

  second_round :
      (k : ℕ) (x : MarklId) (xs : List MarklId)
      → All (Less x) xs
      → merge (suc k) (pooled reset xs ∷ pooled reset (x ∷ xs) ∷ [])
        ≡ yielded x ∷ merge k (pooled reset xs ∷ pooled reset xs ∷ [])
  unfolding pending_errors past_errors minimum_from advance advance_rest pooled
  second_round k x [] after =
      merge_round k _ refl refl refl
        (ap (λ l. [] ∷ l) (advance-first x (next_of reset []) (pooled reset []) []))
  second_round k x (y ∷ ys) (l, after) = merge_round k _ refl refl (lesser-below x y l) (
      advance-above x y (next_of reset ys) (pooled reset ys) (pooled reset (x ∷ y ∷ ys) ∷ [])
        (Less-above x y l)
      ∙ ap (λ t. pooled reset (y ∷ ys) ∷ t)
          (advance-first x (next_of reset (y ∷ ys)) (pooled reset (y ∷ ys)) []))

  apart_next :
      (x : MarklId) (xs : List MarklId) → All (Less x) xs → x ≢ reset → x ≢ next_of reset xs
  unfolding next_of
  apart_next x [] after apart = apart
  apart_next x (y ∷ ys) (l, after) apart = λ e. irreflexive x (subst (Less x) (sym e) l)

  merge-doubled :
      (fuel : ℕ) (xs : List MarklId)
      → IsAscending xs
      → All (λ x. x ≢ reset) xs
      → length xs + length xs < fuel
      → merge fuel (pooled reset xs ∷ pooled reset xs ∷ []) ≡ yields (doubled xs)
  unfolding merge pending_errors past_errors minimum_from pooled doubled
  merge-doubled zero xs a apart enough = absurd (omega arith)
  merge-doubled (suc fuel) [] a apart enough = refl
  merge-doubled (suc zero) (x ∷ xs) a apart enough = absurd (omega arith)
  merge-doubled (suc (suc fuel)) (x ∷ xs) (after, a) (p, apart) enough =
      first_round (suc fuel) x xs (apart_next x xs after p)
      ∙ ap (λ l. yielded x ∷ l)
          (second_round fuel x xs after
            ∙ ap (λ l. yielded x ∷ l) (merge-doubled fuel xs a apart (omega arith)))

  -- The merge does not collapse the duplicates of children that fill one id object again and again,
  -- as the local stores do: of two that list the same ids, in strictly ascending order, every id is
  -- yielded twice, unless an id is what the objects hold when they have gone back to their pool.
  pub all_blobs-doubled :
      (xs : List MarklId)
      → IsAscending xs
      → All (λ x. x ≢ reset) xs
      → all_blobs (pooled reset xs ∷ pooled reset xs ∷ []) ≡ yields (doubled xs)
  unfolding all_blobs count_items pooled
  all_blobs-doubled xs a apart = merge-doubled _ xs a apart (omega (arith, length-pooled xs))
    where
      length-pooled : (xs : List MarklId) → length (pooled reset xs) ≡ length xs
      length-pooled [] = refl
      length-pooled (x ∷ xs) = ap suc (length-pooled xs)
