-- ===== src/ArchiveStore/IndexCache/Sorting.antt =====
-- What the sorting of cache entries keeps and gives.
use madder.Common.{◌≡◌, refl, sym, ap, ◌∙◌, List, [], ◌∷◌, length, true, false, All}
use madder.Common.{Option, ◌↔◌, suc}
use madder.Common.Bytes.{Bytes, Order, below, same, above, compare_bytes, equal_bytes}
use madder.Common.Bytes.{compare_bytes-flip, compare_bytes-swap, compare_bytes-same}
use madder.Common.Bytes.{equal_bytes_refl}
use madder.Common.Tables.Last.{last_of, answer_comm}
use madder.Archive.Types.{CacheEntryV1}
use madder.Archive.Cache.Order.{IsSorted, Precedes, All-Precedes-trans}
use madder.ArchiveStore.Types.{ArchiveEntryV1}
use madder.ArchiveStore.IndexCache.{sort_cache_in, sort_cache, archive_entry_of}

-- The hash of the first is not that of the second.
abbrev pub Apart : CacheEntryV1 → CacheEntryV1 → Type 0
Apart x y = equal_bytes x.hash y.hash ≡ false

-- No two entries are of one blob.
abbrev pub AllApart : List CacheEntryV1 → Type 0
AllApart [] = Unit
AllApart (x ∷ xs) = All (Apart x) xs × AllApart xs

Precedes-Apart : (x y : CacheEntryV1) → Precedes x y → Apart x y
unfolding equal_bytes
Precedes-Apart x y h = rw h

Precedes-Apart_back : (x y : CacheEntryV1) → Precedes x y → Apart y x
unfolding equal_bytes
Precedes-Apart_back x y h = rw (compare_bytes-swap x.hash y.hash h)

All-Precedes-Apart :
    (x : CacheEntryV1) (l : List CacheEntryV1) → All (Precedes x) l → All (Apart x) l
All-Precedes-Apart x [] h = tt
All-Precedes-Apart x (y ∷ l) (h, hs) = (Precedes-Apart x y h, All-Precedes-Apart x l hs)

abbrev picked : CacheEntryV1 → CacheEntryV1 → List CacheEntryV1 → Order → List CacheEntryV1
picked e x l o = elim o [ below ↦ x ∷ sort_cache_in e l | _ ↦ e ∷ x ∷ l ]

module _ {κ} (P : CacheEntryV1 → Type κ) where
  All-sort_cache_in :
      (e : CacheEntryV1) (l : List CacheEntryV1) → All P (sort_cache_in e l) ↔ (P e × All P l)
  unfolding sort_cache_in
  All-sort_cache_in e [] = ((λ h. (h.0, tt)), λ h. (h.0, tt))
  All-sort_cache_in e (x ∷ l) = go (All-sort_cache_in e l) (compare_bytes x.hash e.hash)
    where
      go :
          All P (sort_cache_in e l) ↔ (P e × All P l)
          → (o : Order) → All P (picked e x l o) ↔ (P e × (P x × All P l))
      go ih below = ((λ (p, q). ((ih.0 q).0, (p, (ih.0 q).1))), λ (p, (q, r)). (q, ih.1 (p, r)))
      go ih same = ((λ h. h), λ h. h)
      go ih above = ((λ h. h), λ h. h)

  -- The sorting keeps the entries: what holds of all of them holds of all of them.
  pub All-sort_cache : (l : List CacheEntryV1) → All P (sort_cache l) ↔ All P l
  unfolding sort_cache
  All-sort_cache [] = ((λ h. h), λ h. h)
  All-sort_cache (x ∷ l) = (
    (λ h. let (p, q) = (All-sort_cache_in x (sort_cache l)).0 h in (p, (All-sort_cache l).0 q)),
    λ (p, q). (All-sort_cache_in x (sort_cache l)).1 (p, (All-sort_cache l).1 q),
  )

-- A strictly sorted result comes of entries of different blobs, and of such only.
sort_cache_in-Apart :
    (e : CacheEntryV1) (l : List CacheEntryV1)
    → IsSorted (sort_cache_in e l)
    → All (Apart e) l × IsSorted l
unfolding sort_cache_in
sort_cache_in-Apart e [] h = (tt, tt)
sort_cache_in-Apart e (x ∷ l) h = go (sort_cache_in-Apart e l) (compare_bytes x.hash e.hash) refl h
  where
    go :
        (IsSorted (sort_cache_in e l) → All (Apart e) l × IsSorted l)
        → (o : Order) → compare_bytes x.hash e.hash ≡ o
        → IsSorted (picked e x l o)
        → All (Apart e) (x ∷ l) × IsSorted (x ∷ l)
    go ih below c (first, s) =
        let (apart, sorted) = ih s in
        (
          (Precedes-Apart_back x e c, apart),
          (((All-sort_cache_in (Precedes x) e l).0 first).1, sorted),
        )
    go ih same c (first, s) = (All-Precedes-Apart e (x ∷ l) first, s)
    go ih above c (first, s) = (All-Precedes-Apart e (x ∷ l) first, s)

sort_cache_in-IsSorted :
    (e : CacheEntryV1) (l : List CacheEntryV1)
    → All (Apart e) l
    → IsSorted l
    → IsSorted (sort_cache_in e l)
unfolding sort_cache_in
sort_cache_in-IsSorted e [] a s = (tt, tt)
sort_cache_in-IsSorted e (x ∷ l) (a, apart) (first, s) =
    go (sort_cache_in-IsSorted e l apart s) (compare_bytes x.hash e.hash) refl
  where
    clash : compare_bytes x.hash e.hash ≡ same → ⊥
    clash c = ne (
        sym (equal_bytes_refl e.hash)
        ∙ ap (equal_bytes e.hash) (sym (compare_bytes-same x.hash e.hash c))
        ∙ a)
      where
        ne : true ≡ false → ⊥
        ne q = cc

    go :
        IsSorted (sort_cache_in e l)
        → (o : Order) → compare_bytes x.hash e.hash ≡ o
        → IsSorted (picked e x l o)
    go ih below c = ((All-sort_cache_in (Precedes x) e l).1 (c, first), ih)
    go ih same c = absurd (clash c)
    go ih above c =
        let before = compare_bytes-flip x.hash e.hash c in
        ((before, All-Precedes-trans e x l before first), (first, s))

pub sort_cache-IsSorted_iff : (l : List CacheEntryV1) → IsSorted (sort_cache l) ↔ AllApart l
unfolding sort_cache
sort_cache-IsSorted_iff [] = ((λ h. h), λ h. h)
sort_cache-IsSorted_iff (x ∷ l) = (
  (λ h.
      let (apart, sorted) = sort_cache_in-Apart x (sort_cache l) h in
      ((All-sort_cache (Apart x) l).0 apart, (sort_cache-IsSorted_iff l).0 sorted)),
  λ (apart, rest).
      sort_cache_in-IsSorted x (sort_cache l) ((All-sort_cache (Apart x) l).1 apart)
        ((sort_cache-IsSorted_iff l).1 rest),
)

length-sort_cache_in :
    (e : CacheEntryV1) (l : List CacheEntryV1) → length (sort_cache_in e l) ≡ suc (length l)
unfolding sort_cache_in
length-sort_cache_in e [] = refl
length-sort_cache_in e (x ∷ l) = go (length-sort_cache_in e l) (compare_bytes x.hash e.hash)
  where
    go :
        length (sort_cache_in e l) ≡ suc (length l)
        → (o : Order) → length (picked e x l o) ≡ suc (suc (length l))
    go ih below = ap suc ih
    go ih same = refl
    go ih above = refl

pub length-sort_cache : (l : List CacheEntryV1) → length (sort_cache l) ≡ length l
unfolding sort_cache
length-sort_cache [] = refl
length-sort_cache (x ∷ l) = length-sort_cache_in x (sort_cache l) ∙ ap suc (length-sort_cache l)

-- Filling a map by the sorted entries or by the entries as they came.
module _ (k : Bytes) where
  abbrev pub found_in : List CacheEntryV1 → Option ArchiveEntryV1 → Option ArchiveEntryV1
  found_in = last_of (λ (e : CacheEntryV1). e.hash) archive_entry_of k

  found_in-sort_cache_in :
      (e : CacheEntryV1) (l : List CacheEntryV1) (before : Option ArchiveEntryV1)
      → All (Apart e) l
      → found_in (sort_cache_in e l) before ≡ found_in (e ∷ l) before
  unfolding sort_cache_in
  found_in-sort_cache_in e [] before h = refl
  found_in-sort_cache_in e (x ∷ l) before (apart, h) =
      go (λ b. found_in-sort_cache_in e l b h) (compare_bytes x.hash e.hash)
    where
      go :
          ((b : Option ArchiveEntryV1) → found_in (sort_cache_in e l) b ≡ found_in (e ∷ l) b)
          → (o : Order) → found_in (picked e x l o) before ≡ found_in (e ∷ x ∷ l) before
      go ih below =
          ih _
          ∙ ap (found_in l)
              (answer_comm (λ (c : CacheEntryV1). c.hash) archive_entry_of k e x before apart)
      go ih same = refl
      go ih above = refl

  pub found_in-sort_cache :
      (l : List CacheEntryV1) (before : Option ArchiveEntryV1)
      → AllApart l
      → found_in (sort_cache l) before ≡ found_in l before
  unfolding sort_cache
  found_in-sort_cache [] before h = refl
  found_in-sort_cache (x ∷ l) before (apart, h) =
      found_in-sort_cache_in x (sort_cache l) before ((All-sort_cache (Apart x) l).1 apart)
      ∙ found_in-sort_cache l _ h
