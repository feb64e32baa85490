-- ===== src/Multi/Merged.antt =====
-- The merge of AllBlobs over children that list their ids in order.
use madder.Common.{ℕ, zero, suc, ◌+◌, ◌≤◌, ◌<◌, ◌≡◌, refl, sym, ap, ◌∙◌, arith, All, List, [], ◌∷◌}
use madder.Common.{length, Option, none, some, inl, inr, ◌↔◌}
use madder.Multi.Merge.{MarklId, count_items, all_blobs}
use madder.Multi.Ids.{Less, Less-trans}
use mathlib.Core.List.{map, Memᴰ}
use mathlib.Core.List.Memᴰ
use mathlib.Core.Path.{subst}
use madder.Multi.Listings.{
  listing, listings, yields, IsAscending, ListedBy, least_from, advance_head, merge_ids,
  merge-listings,
}
use madder.Multi.Least.{least_from-AtMost, least_from-first, least_from-none}
use madder.Multi.Heads.{
  AllAfter, All-map, All-Mem, head-length, first-length, heads-after, heads-IsAscending, heads-kept,
  heads-left,
}

count_ids : List (List MarklId) → ℕ
count_ids [] = 0
count_ids (h ∷ hs) = length h + count_ids hs

module _ (m : MarklId) where
  heads-length : (hs : List (List MarklId)) → count_ids (map (advance_head m) hs) ≤ count_ids hs
  unfolding count_ids
  heads-length [] = omega arith
  heads-length (h ∷ hs) = omega (arith, head-length m h, heads-length hs)

  heads-fewer :
      (hs : List (List MarklId)) {xs : List MarklId}
      → Memᴰ (m ∷ xs) hs
      → count_ids (map (advance_head m) hs) < count_ids hs
  unfolding count_ids
  heads-fewer [] k = absurd (Memᴰ.not-nil k)
  heads-fewer (h ∷ hs) {xs} (Memᴰ.head e) = omega (
    arith,
    ap (λ l. length (advance_head m l)) (sym e) ∙ first-length m xs,
    ap (length {A = MarklId}) (sym e),
    heads-length hs,
  )
  heads-fewer (h ∷ hs) (Memᴰ.tail k) = omega (arith, head-length m h, heads-fewer hs k)

nothing_listed : (hs : List (List MarklId)) {z : MarklId} → All (λ h. h ≡ []) hs → ListedBy hs z → ⊥
nothing_listed hs {z} empty (h, found, k) =
    Memᴰ.not-nil (subst (Memᴰ z) (All-Mem (λ h. h ≡ []) hs empty found) k)

-- What the merge of ascending listings is.
record Merges (hs : List (List MarklId)) (ids : List MarklId) : Type 0 where
  pub ascends : IsAscending ids
  pub after : (y : MarklId) → AllAfter y hs → All (Less y) ids
  pub listed : (z : MarklId) → Memᴰ z ids → ListedBy hs z
  pub lists : (z : MarklId) → ListedBy hs z → Memᴰ z ids

merge_ids-Merges :
    (fuel : ℕ) (hs : List (List MarklId))
    → All IsAscending hs
    → count_ids hs < fuel
    → Merges hs (merge_ids fuel hs)
unfolding merge_ids
merge_ids-Merges zero hs a enough = absurd (omega arith)
merge_ids-Merges (suc fuel) hs a enough =
    go (least_from none hs) refl
      (λ m fewer. merge_ids-Merges fuel (map (advance_head m) hs) (heads-IsAscending m hs a) fewer)
  where
    nothing_at : {m : MarklId} → none ≡ some m → ⊥
    nothing_at e = cc

    go :
        (o : Option MarklId)
        → least_from none hs ≡ o
        → ((m : MarklId)
            → count_ids (map (advance_head m) hs) < fuel
            → Merges (map (advance_head m) hs) (merge_ids fuel (map (advance_head m) hs)))
        → Merges hs (elim o [ none ↦ [] | some m ↦ m ∷ merge_ids fuel (map (advance_head m) hs) ])
    go none q later =
        let (_, empty) = least_from-none hs none q in
        record {
          ascends = tt;
          after = λ y b. tt;
          listed = λ z k. absurd (Memᴰ.not-nil k);
          lists = λ z k. absurd (nothing_listed hs empty k);
        }
    go (some m) q later = elim (least_from-first none hs q) [
      | inl e ↦ absurd (nothing_at e)
      | inr (xs, found) ↦
          let (_, low) = least_from-AtMost none hs q in
          let r = later m (omega (arith, heads-fewer m hs found)) in
          record {
            ascends = (r.after m (heads-after m hs a low), r.ascends);
            after = λ y b.
                let y_m = (All-Mem (All (Less y)) hs b found).0 in
                (
                  y_m,
                  All-map (λ x k. Less-trans y m x y_m k) _ (r.after m (heads-after m hs a low)),
                );
            listed = λ z k. elim (Memᴰ.cases_cons k) [
              | inl e ↦ (m ∷ xs, found, Memᴰ.head e)
              | inr k' ↦ heads-kept m hs (r.listed z k')
            ];
            lists = λ z k. elim (heads-left m hs k) [
              | inl e ↦ Memᴰ.head e
              | inr k' ↦ Memᴰ.tail (r.lists z k')
            ];
          }
    ]

count_items-listings : (hs : List (List MarklId)) → count_items (listings hs) ≡ count_ids hs
unfolding count_items count_ids
count_items-listings [] = refl
count_items-listings (h ∷ hs) = omega (arith, count h, count_items-listings hs)
  where
    count : (h : List MarklId) → length (listing h) ≡ length h
    count [] = refl
    count (x ∷ xs) = ap suc (count xs)

-- If each child lists ids only, each as an object of its own and in strictly ascending order, the merged sequence is a list of ids
-- without errors, in strictly ascending order and so without repetition, that has exactly the ids
-- that some child has.
pub all_blobs-listings :
    (hs : List (List MarklId))
    → All IsAscending hs
    → (ids : List MarklId) × (all_blobs (listings hs) ≡ yields ids)
      × IsAscending ids
      × ((z : MarklId) → Memᴰ z ids ↔ ListedBy hs z)
unfolding all_blobs
all_blobs-listings hs a =
    let fuel = suc (count_items (listings hs)) in
    let r = merge_ids-Merges fuel hs a (omega (arith, count_items-listings hs)) in
    (merge_ids fuel hs, merge-listings fuel hs, r.ascends, λ z. (r.listed z, r.lists z))
