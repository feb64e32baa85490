-- ===== src/Multi/Least.antt =====
-- The id that a round of AllBlobs yields: the least of the first ids of the children.
use madder.Common.{◌≡◌, refl, sym, ◌∙◌, All, List, [], ◌∷◌}
use madder.Common.{Option, none, some, some_inj, ◌⊎◌, inl, inr}
use madder.Common.Bytes.{Order, below, same, above}
use madder.Multi.Merge.{MarklId, lesser, compare_markl_ids}
use madder.Multi.Ids.{Less, Less-trans, same_ids, above_ids}
use mathlib.Core.List.{Memᴰ}
use mathlib.Core.Path.{subst}
use madder.Multi.Listings.{least_from}

-- The minimum is at most every first id, and is the first id of a child.
unfoldable pub AtMost : MarklId → MarklId → Type 0
AtMost m x = (m ≡ x) ⊎ Less m x

unfoldable pub FirstAtMost : MarklId → List MarklId → Type 0
FirstAtMost m [] = Unit
FirstAtMost m (x ∷ xs) = AtMost m x

lesser-AtMost :
    (l : Option MarklId) (x m : MarklId) {w : MarklId}
    → lesser l x ≡ some w
    → AtMost m w
    → AtMost m x × ((v : MarklId) → l ≡ some v → AtMost m v)
unfolding AtMost
lesser-AtMost none x m h low = (subst (AtMost m) (sym (some_inj h)) low, λ v e. absurd (apart e))
  where
    apart : {v : MarklId} → none ≡ some v → ⊥
    apart e = cc
lesser-AtMost (some v) x m {w} h low = go (compare_markl_ids x v) refl h
  where
    transfer : (y : MarklId) → AtMost m y → y ≡ w → AtMost m w
    transfer y a e = subst (AtMost m) e a

    under : (a b : MarklId) → AtMost m a → Less a b → AtMost m b
    under a b (inl e) k = inr (subst (λ y. Less y b) (sym e) k)
    under a b (inr l) k = inr (Less-trans m a b l k)

    go :
        (o : Order)
        → compare_markl_ids x v ≡ o
        → elim o [ below ↦ some x | same ↦ some v | above ↦ some v ] ≡ some w
        → AtMost m x × ((u : MarklId) → some v ≡ some u → AtMost m u)
    go below q k =
        let low_x = subst (AtMost m) (sym (some_inj k)) low in
        (low_x, λ u e. subst (AtMost m) (some_inj e) (under x v low_x q))
    go same q k =
        let low_v = subst (AtMost m) (sym (some_inj k)) low in
        (subst (AtMost m) (sym (same_ids x v q)) low_v, λ u e. subst (AtMost m) (some_inj e) low_v)
    go above q k =
        let low_v = subst (AtMost m) (sym (some_inj k)) low in
        (under v x low_v (above_ids x v q), λ u e. subst (AtMost m) (some_inj e) low_v)

lesser-some : (l : Option MarklId) (x : MarklId) → (w : MarklId) × (lesser l x ≡ some w)
lesser-some none x = (x, refl)
lesser-some (some v) x = go (compare_markl_ids x v)
  where
    go :
        (o : Order)
        → (w : MarklId) × (elim o [ below ↦ some x | same ↦ some v | above ↦ some v ] ≡ some w)
    go below = (x, refl)
    go same = (v, refl)
    go above = (v, refl)

pub least_from-AtMost :
    (l : Option MarklId) (hs : List (List MarklId)) {m : MarklId}
    → least_from l hs ≡ some m
    → ((v : MarklId) → l ≡ some v → AtMost m v) × All (FirstAtMost m) hs
unfolding least_from FirstAtMost AtMost
least_from-AtMost l [] {m} h = ((λ v e. inl (some_inj (sym h ∙ e))), tt)
least_from-AtMost l ([] ∷ hs) h =
    let (first, rest) = least_from-AtMost l hs h in (first, (tt, rest))
least_from-AtMost l ((x ∷ xs) ∷ hs) {m} h =
    let (first, rest) = least_from-AtMost (lesser l x) hs h in
    let (w, q) = lesser-some l x in
    let (low_x, low) = lesser-AtMost l x m q (first w q) in (low, (low_x, rest))

lesser-or : (l : Option MarklId) (x : MarklId) → (lesser l x ≡ some x) ⊎ (lesser l x ≡ l)
lesser-or none x = inl refl
lesser-or (some v) x = go (compare_markl_ids x v)
  where
    go :
        (o : Order)
        → (elim o [ below ↦ some x | same ↦ some v | above ↦ some v ] ≡ some x)
          ⊎ (elim o [ below ↦ some x | same ↦ some v | above ↦ some v ] ≡ some v)
    go below = inl refl
    go same = inr refl
    go above = inr refl

-- Where the minimum comes from.
pub least_from-first :
    (l : Option MarklId) (hs : List (List MarklId)) {m : MarklId}
    → least_from l hs ≡ some m
    → (l ≡ some m) ⊎ ((xs : List MarklId) × Memᴰ (m ∷ xs) hs)
unfolding least_from
least_from-first l [] h = inl h
least_from-first l ([] ∷ hs) h = elim (least_from-first l hs h) [
  | inl e ↦ inl e
  | inr (xs, found) ↦ inr (xs, Memᴰ.tail found)
]
least_from-first l ((x ∷ xs) ∷ hs) {m} h = elim (least_from-first (lesser l x) hs h) [
  | inl e ↦ elim (lesser-or l x) [
    | inl q ↦ inr (xs, Memᴰ.head (λ i. some_inj (sym e ∙ q) i ∷ xs))
    | inr q ↦ inl (sym q ∙ e)
  ]
  | inr (ys, found) ↦ inr (ys, Memᴰ.tail found)
]

pub least_from-none :
    (hs : List (List MarklId)) (l : Option MarklId)
    → least_from l hs ≡ none
    → (l ≡ none) × All (λ h. h ≡ []) hs
unfolding least_from
least_from-none [] l h = (h, tt)
least_from-none ([] ∷ hs) l h = let (e, rest) = least_from-none hs l h in (e, (refl, rest))
least_from-none ((x ∷ xs) ∷ hs) l h =
    let (e, _) = least_from-none hs (lesser l x) h in
    let (w, q) = lesser-some l x in absurd (apart (sym q ∙ e))
  where
    apart : {y : MarklId} → some y ≡ none → ⊥
    apart k = cc
