-- ===== src/ArchiveStore/IndexCache/Duplicates.antt =====
-- A blob that stands in two archives, and the rebuilding of the index.
use madder.Common.{ℕ, zero, suc, ◌<◌, ◌≡◌, refl, sym, ap, ◌∙◌, arith, List, [], ◌∷◌, true, false}
use madder.Common.{All-get, Option, none, some, get_elem?, some_inj}
use madder.Common.Bytes.{Bytes, equal_bytes, equal_bytes_refl}
use madder.Common.Tables.{Table}
use madder.Archive.Types.{Result, ok, err, Error, ◌>>=◌, CacheEntryV1, hash_size_for_format}
use madder.ArchiveStore.Types.{StoreConfig, ArchiveEntryV1}
use madder.ArchiveStore.IndexCache.{
  IndexFile, CacheDisk, fill_index, try_read_cache, collect_entries, or_rebuild, write_cache_file,
  finish_rebuild, rebuild_index, load_index,
}
use madder.ArchiveStore.IndexCache.Sorting.{AllApart, Apart}
use madder.ArchiveStore.IndexCache.Reloaded.{rebuilt, write_cache_file-AllApart}
use mathlib.Core.Path.{subst}

AllApart-get :
    (l : List CacheEntryV1) (i j : ℕ) (x y : CacheEntryV1)
    → AllApart l
    → i < j
    → get_elem? l i ≡ some x
    → get_elem? l j ≡ some y
    → Apart x y
AllApart-get [] i j x y h lt p q = cc
AllApart-get (z ∷ l) i zero x y h lt p q = elim lt [ ]
AllApart-get (z ∷ l) zero (suc j) x y (apart, h) lt p q =
    subst (λ w. Apart w y) (some_inj p) (All-get (Apart z) l j apart q)
AllApart-get (z ∷ l) (suc i) (suc j) x y (apart, h) lt p q =
    AllApart-get l i j x y h (omega arith) p q

module _ (config : StoreConfig) (disk : CacheDisk) (n : ℕ)
    (sized : hash_size_for_format config.hash_format ≡ ok n) where
  finish_rebuild-fails :
      (l : List CacheEntryV1) (i : ℕ) {x : CacheEntryV1}
      → get_elem? l i ≡ some x
      → (AllApart l → ⊥)
      → (e : Error) × (finish_rebuild config disk l ≡ err e)
  unfolding finish_rebuild
  finish_rebuild-fails [] i p clash = cc
  finish_rebuild-fails (z ∷ l) i p clash = go (write_cache_file config disk (z ∷ l)) refl
    where
      go :
          (r : Result Bytes)
          → write_cache_file config disk (z ∷ l) ≡ r
          → (e : Error) × (◌≡◌ {A = Result (Table ArchiveEntryV1 × Option Bytes)}
              (r >>= λ file. ok (fill_index (z ∷ l), some file))
              (err e))
      go (err e) h = (e, refl)
      go (ok file) h = absurd (clash (write_cache_file-AllApart config disk n sized (z ∷ l) h))

  -- If two of the entries in the index files have the same hash, a store that cannot use its cache file
  -- is not opened: the cache of the rebuilt index is refused as unsorted, and so is the store.
  pub load_index-duplicate :
      (cache : Option Bytes) (matches : Result (List IndexFile)) (es : List CacheEntryV1) (i j : ℕ)
      (x y : CacheEntryV1)
      → try_read_cache config cache ≡ none
      → matches >>= collect_entries config ≡ ok es
      → i < j
      → get_elem? es i ≡ some x
      → get_elem? es j ≡ some y
      → x.hash ≡ y.hash
      → (e : Error) × (load_index config disk cache matches ≡ err e)
  unfolding load_index
  load_index-duplicate cache matches es i j x y unread found lt p q alike =
      let (e, fails) = finish_rebuild-fails es i p clash in
      (
        e,
        ap (or_rebuild config (rebuild_index config disk matches) cache) unread
            ∙ rebuilt config disk n sized matches es found
            ∙ fails,
      )
    where
      clash : AllApart es → ⊥
      clash apart = ne (
          sym (equal_bytes_refl x.hash)
          ∙ ap (equal_bytes x.hash) alike
          ∙ AllApart-get es i j x y apart lt p q)
        where
          ne : true ≡ false → ⊥
          ne h = cc
