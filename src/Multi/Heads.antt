-- ===== src/Multi/Heads.antt =====
-- The heads of a round of AllBlobs, before and after they are advanced.
use madder.Common.{suc, ◌≤◌, ◌≡◌, refl, sym, ◌∙◌, arith, All, List, [], ◌∷◌}
use madder.Common.{length, ◌⊎◌, inl, inr}
use madder.Common.Bytes.{Order, below, same, above}
use madder.Multi.Merge.{MarklId, compare_markl_ids}
use madder.Multi.Ids.{Less, Less-trans, same_ids, above_ids, compare_markl_ids_refl}
use mathlib.Core.List.{map, Memᴰ}
use mathlib.Core.List.Memᴰ
use mathlib.Core.Path.{subst}
use madder.Multi.Listings.{IsAscending, ListedBy, advance_head}
use madder.Multi.Least.{AtMost, FirstAtMost}

-- Every id of the children comes after `y`.
abbrev pub AllAfter : MarklId → List (List MarklId) → Type 0
AllAfter y = All (All (Less y))

pub irreflexive : (x : MarklId) → Less x x → ⊥
irreflexive x h = apart (sym (compare_markl_ids_refl x) ∙ h)
  where
    apart : same ≡ below → ⊥
    apart e = cc

pub All-map :
    {P Q : MarklId → Type 0}
    → ((x : MarklId) → P x → Q x)
    → (xs : List MarklId) → All P xs
    → All Q xs
All-map f [] a = tt
All-map f (x ∷ xs) (p, a) = (f x p, All-map f xs a)

pub All-Mem {ℓ} : {A : Type ℓ} (P : A → Type 0) (xs : List A) {x : A} → All P xs → Memᴰ x xs → P x
All-Mem P [] a m = absurd (Memᴰ.not-nil m)
All-Mem P (y ∷ ys) (p, a) (Memᴰ.head e) = subst P (sym e) p
All-Mem P (y ∷ ys) (p, a) (Memᴰ.tail m) = All-Mem P ys a m

-- One head, advanced past the minimum.
module _ (m : MarklId) where
  head-after :
      (h : List MarklId) → IsAscending h → FirstAtMost m h → All (Less m) (advance_head m h)
  unfolding advance_head FirstAtMost AtMost
  head-after [] a low = tt
  head-after (x ∷ xs) (later, a) low = go (compare_markl_ids x m) refl
    where
      go :
          (o : Order)
          → compare_markl_ids x m ≡ o
          → All (Less m) (elim o [ same ↦ xs | below ↦ x ∷ xs | above ↦ x ∷ xs ])
      go same q = subst (λ y. All (Less y) xs) (same_ids x m q) later
      go below q = absurd (wrong low)
        where
          wrong : AtMost m x → ⊥
          wrong (inl e) = irreflexive m (subst (λ y. Less y m) (sym e) q)
          wrong (inr l) = irreflexive m (Less-trans m x m l q)
      go above q = let l = above_ids x m q in (l, All-map (λ y k. Less-trans m x y l k) xs later)

  head-IsAscending : (h : List MarklId) → IsAscending h → IsAscending (advance_head m h)
  unfolding advance_head
  head-IsAscending [] a = tt
  head-IsAscending (x ∷ xs) (later, a) = go (compare_markl_ids x m)
    where
      go : (o : Order) → IsAscending (elim o [ same ↦ xs | below ↦ x ∷ xs | above ↦ x ∷ xs ])
      go same = a
      go below = (later, a)
      go above = (later, a)

  pub head-kept : (h : List MarklId) {z : MarklId} → Memᴰ z (advance_head m h) → Memᴰ z h
  unfolding advance_head
  head-kept [] k = k
  head-kept (x ∷ xs) {z} k = go (compare_markl_ids x m) k
    where
      go :
          (o : Order)
          → Memᴰ z (elim o [ same ↦ xs | below ↦ x ∷ xs | above ↦ x ∷ xs ])
          → Memᴰ z (x ∷ xs)
      go same k = Memᴰ.tail k
      go below k = k
      go above k = k

  pub head-left : (h : List MarklId) {z : MarklId} → Memᴰ z h → (z ≡ m) ⊎ Memᴰ z (advance_head m h)
  unfolding advance_head
  head-left [] k = inr k
  head-left (x ∷ xs) {z} k = go (compare_markl_ids x m) refl k
    where
      go :
          (o : Order)
          → compare_markl_ids x m ≡ o
          → Memᴰ z (x ∷ xs)
          → (z ≡ m) ⊎ Memᴰ z (elim o [ same ↦ xs | below ↦ x ∷ xs | above ↦ x ∷ xs ])
      go same q (Memᴰ.head e) = inl (e ∙ same_ids x m q)
      go same q (Memᴰ.tail k) = inr k
      go below q k = inr k
      go above q k = inr k

  pub head-length : (h : List MarklId) → length (advance_head m h) ≤ length h
  unfolding advance_head
  head-length [] = omega arith
  head-length (x ∷ xs) = go (compare_markl_ids x m)
    where
      go :
          (o : Order)
          → length (elim o [ same ↦ xs | below ↦ x ∷ xs | above ↦ x ∷ xs ]) ≤ suc (length xs)
      go same = omega arith
      go below = omega arith
      go above = omega arith

  pub first-length : (xs : List MarklId) → length (advance_head m (m ∷ xs)) ≡ length xs
  unfolding advance_head
  first-length xs = rw (advance_head, compare_markl_ids_refl m)

  -- All heads, advanced.
  pub heads-after :
      (hs : List (List MarklId))
      → All IsAscending hs
      → All (FirstAtMost m) hs
      → AllAfter m (map (advance_head m) hs)
  heads-after [] a low = tt
  heads-after (h ∷ hs) (a, as') (l, low) = (head-after h a l, heads-after hs as' low)

  pub heads-IsAscending :
      (hs : List (List MarklId)) → All IsAscending hs → All IsAscending (map (advance_head m) hs)
  heads-IsAscending [] a = tt
  heads-IsAscending (h ∷ hs) (a, as') = (head-IsAscending h a, heads-IsAscending hs as')

  pub heads-kept :
      (hs : List (List MarklId)) {z : MarklId}
      → ListedBy (map (advance_head m) hs) z
      → ListedBy hs z
  heads-kept hs {z} (h, found, k) =
      let (g, in_hs, e) = Memᴰ.of_map (advance_head m) hs found in
      (g, in_hs, head-kept g (subst (Memᴰ z) (sym e) k))

  pub heads-left :
      (hs : List (List MarklId)) {z : MarklId}
      → ListedBy hs z
      → (z ≡ m) ⊎ ListedBy (map (advance_head m) hs) z
  heads-left hs (h, found, k) = elim (head-left h k) [
    | inl e ↦ inl e
    | inr k' ↦ inr (advance_head m h, Memᴰ.map (advance_head m) found, k')
  ]
