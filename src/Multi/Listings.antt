-- ===== src/Multi/Listings.antt =====
-- The merge of AllBlobs over children that list ids only, as a merge of lists of ids.
use madder.Common.{ℕ, zero, suc, ◌≡◌, refl, ap, ◌∙◌, All, List, [], ◌∷◌}
use madder.Common.{◌++◌, Option, none, some}
use madder.Common.Bytes.{Order, below, same, above}
use madder.Multi.Merge.{
  MarklId, given, Yield, yielded, Head, pending_errors, past_errors, lesser, minimum_from, advance,
  advance_rest, merge, compare_markl_ids, advance_by,
}
use madder.Multi.Ids.{Less, same_ids}
use mathlib.Core.List.{map, Memᴰ}

-- Children that list ids and nothing else, each id as an object of its own.
abbrev pub listing : List MarklId → Head
listing ids = map (λ id. given id id) ids

-- What a sequence of ids gives.
abbrev pub yields : List MarklId → List Yield
yields ids = map yielded ids

abbrev pub listings : List (List MarklId) → List Head
listings hs = map listing hs

abbrev pub IsAscending : List MarklId → Type 0
IsAscending [] = Unit
IsAscending (x ∷ xs) = All (Less x) xs × IsAscending xs

-- An id that some child lists.
abbrev pub ListedBy : List (List MarklId) → MarklId → Type 0
ListedBy hs z = (h : List MarklId) × Memᴰ h hs × Memᴰ z h

unfoldable pub least_from : Option MarklId → List (List MarklId) → Option MarklId
least_from l [] = l
least_from l ([] ∷ hs) = least_from l hs
least_from l ((x ∷ xs) ∷ hs) = least_from (lesser l x) hs

unfoldable pub advance_head : MarklId → List MarklId → List MarklId
advance_head m [] = []
advance_head m (x ∷ xs) = elim (compare_markl_ids x m) [ same ↦ xs | _ ↦ x ∷ xs ]

unfoldable pub merge_ids : ℕ → List (List MarklId) → List MarklId
unfolding least_from advance_head
merge_ids zero hs = []
merge_ids (suc fuel) hs = elim (least_from none hs) [
  | none ↦ []
  | some m ↦ m ∷ merge_ids fuel (map (advance_head m) hs)
]

-- The merge of listings is that of their ids.
past_errors-listings : (hs : List (List MarklId)) → past_errors (listings hs) ≡ listings hs
unfolding past_errors
past_errors-listings [] = refl
past_errors-listings ([] ∷ hs) = ap (λ l. [] ∷ l) (past_errors-listings hs)
past_errors-listings ((x ∷ xs) ∷ hs) = ap (λ l. listing (x ∷ xs) ∷ l) (past_errors-listings hs)

pending_errors-listings : (hs : List (List MarklId)) → pending_errors (listings hs) ≡ []
unfolding pending_errors
pending_errors-listings [] = refl
pending_errors-listings ([] ∷ hs) = pending_errors-listings hs
pending_errors-listings ((x ∷ xs) ∷ hs) = pending_errors-listings hs

minimum_from-listings :
    (l : Option MarklId) (hs : List (List MarklId)) → minimum_from l (listings hs) ≡ least_from l hs
unfolding minimum_from least_from
minimum_from-listings l [] = refl
minimum_from-listings l ([] ∷ hs) = minimum_from-listings l hs
minimum_from-listings l ((x ∷ xs) ∷ hs) = minimum_from-listings (lesser l x) hs

advance_rest-listings :
    (m : MarklId) (hs : List (List MarklId))
    → advance_rest m (listings hs) ≡ listings (map (advance_head m) hs)
unfolding advance_rest advance_head
advance_rest-listings m [] = refl
advance_rest-listings m ([] ∷ hs) = ap (λ l. [] ∷ l) (advance_rest-listings m hs)
advance_rest-listings m ((x ∷ xs) ∷ hs) =
    λ i. go (compare_markl_ids x m) i ∷ advance_rest-listings m hs i
  where
    go :
        (o : Order)
        → advance_by o (given x x) (listing xs)
          ≡ listing (elim o [ same ↦ xs | below ↦ x ∷ xs | above ↦ x ∷ xs ])
    go below = refl
    go same = refl
    go above = refl

advance-listings :
    (m : MarklId) (hs : List (List MarklId))
    → advance m (listings hs) ≡ listings (map (advance_head m) hs)
unfolding advance advance_head
advance-listings m [] = refl
advance-listings m ([] ∷ hs) = ap (λ l. [] ∷ l) (advance-listings m hs)
advance-listings m ((x ∷ xs) ∷ hs) = go (compare_markl_ids x m) refl (advance-listings m hs)
  where
    go :
        (o : Order)
        → compare_markl_ids x m ≡ o
        → advance m (listings hs) ≡ listings (map (advance_head m) hs)
        → elim o [
          | same ↦ listing xs ∷ advance_rest x (listings hs)
          | below ↦ listing (x ∷ xs) ∷ advance m (listings hs)
          | above ↦ listing (x ∷ xs) ∷ advance m (listings hs)
        ]
          ≡ listing (elim o [ same ↦ xs | below ↦ x ∷ xs | above ↦ x ∷ xs ])
            ∷ listings (map (advance_head m) hs)
    go same q later =
        ap (λ l. listing xs ∷ l)
          (ap (λ k. advance_rest k (listings hs)) (same_ids x m q) ∙ advance_rest-listings m hs)
    go below q later = ap (λ l. listing (x ∷ xs) ∷ l) later
    go above q later = ap (λ l. listing (x ∷ xs) ∷ l) later

abbrev pub round : ℕ → List Yield → List Head → Option MarklId → List Yield
round fuel errors hs least = elim least [
  | none ↦ errors
  | some m ↦ errors ++ (yielded m ∷ merge fuel (advance m hs))
]

pub merge-listings :
    (fuel : ℕ) (hs : List (List MarklId)) → merge fuel (listings hs) ≡ yields (merge_ids fuel hs)
unfolding merge merge_ids
merge-listings zero hs = refl
merge-listings (suc fuel) hs =
    let least = ap (minimum_from none) (past_errors-listings hs) ∙ minimum_from-listings none hs in
    (λ i. round fuel (pending_errors-listings hs i) (past_errors-listings hs i) (least i))
    ∙ go (least_from none hs) (λ m.
      ap (merge fuel) (advance-listings m hs) ∙ merge-listings fuel (map (advance_head m) hs))
  where
    go :
        (o : Option MarklId)
        → ((m : MarklId)
            → merge fuel (advance m (listings hs))
              ≡ yields (merge_ids fuel (map (advance_head m) hs)))
        → round fuel [] (listings hs) o
          ≡ yields (elim o [ none ↦ [] | some m ↦ m ∷ merge_ids fuel (map (advance_head m) hs) ])
    go none later = refl
    go (some m) later = ap (λ l. yielded m ∷ l) (later m)
