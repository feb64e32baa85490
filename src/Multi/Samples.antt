-- ===== src/Multi/Samples.antt =====
-- A mirror over a store out of reach and one without the blob, and listings to merge.
use madder.Common.{ℕ, ◌+◌, ◌≡◌, ◌≢◌, ◌↔◌, inl, inr, refl, [], ◌∷◌, true, false, none, some}
use madder.Multi.Store.{BlobStore, Multi, mode_unset, mode_mirror, refused}
use madder.Multi.Store.{unavailable, blob_missing, make_blob_reader, all_blob_sources}
use madder.Multi.Missing.{Misses, make_blob_reader-missing_iff}
use madder.Common.{List, All}
use madder.Common.Bytes.{compare_bytes}
use madder.Multi.Merge.{
  MarklId, all_blobs, merge, pending_errors, past_errors, minimum_from, advance, advance_rest,
  compare_markl_ids, count_items,
}
use madder.Multi.Listings.{listings, yields, IsAscending, ListedBy}
use madder.Multi.Merged.{all_blobs-listings}
use mathlib.Core.List.{Memᴰ}
use madder.Common.{ap}
use madder.Multi.Heads.{All-Mem}
use madder.Multi.Merge.{given, failed, yielded_error}
use madder.Multi.Pooled.{pooled, doubled, all_blobs-doubled}
use madder.Multi.Lossless.{Child, Lists, sequences, all_blobs-lossless}

abbrev away : BlobStore ℕ ℕ
away = record {
  has_blob_of = λ id. true;
  make_blob_reader_of = λ id. refused unavailable;
  make_default_writer = some (λ reader. reader + 1000);
}

abbrev empty : BlobStore ℕ ℕ
empty = record {
  has_blob_of = λ id. false;
  make_blob_reader_of = λ id. refused blob_missing;
  make_default_writer = none;
}

abbrev mirror : Multi ℕ ℕ
mirror = record {
  mode = mode_mirror;
  child_stores = away ∷ empty ∷ [];
  write_store = empty;
  read_stores = [];
  read_fill = false;
}

mirror_known : mode_mirror ≢ mode_unset
mirror_known h = cc

make_blob_reader-missing_iff_example :
    (make_blob_reader mirror 7 ≡ refused blob_missing) ↔ Misses 7 (all_blob_sources mirror)
make_blob_reader-missing_iff_example = make_blob_reader-missing_iff mirror 7 mirror_known

abbrev id_of : ℕ → MarklId
id_of n = record { format = []; bytes = n ∷ [] }

-- Two children with one id in common.
abbrev two_listings : List (List MarklId)
two_listings = (id_of 1 ∷ id_of 4 ∷ []) ∷ (id_of 2 ∷ id_of 4 ∷ []) ∷ []

two_listings_merged : all_blobs (listings two_listings) ≡ yields (id_of 1 ∷ id_of 2 ∷ id_of 4 ∷ [])
unfolding all_blobs merge pending_errors past_errors minimum_from advance advance_rest
    compare_markl_ids compare_bytes count_items
two_listings_merged = refl

two_listings_ascend : All IsAscending two_listings
unfolding compare_markl_ids compare_bytes
two_listings_ascend = (((refl, tt), (tt, tt)), (((refl, tt), (tt, tt)), tt))

all_blobs-listings_example :
    (ids : List MarklId) × (all_blobs (listings two_listings) ≡ yields ids)
    × IsAscending ids
    × ((z : MarklId) → Memᴰ z ids ↔ ListedBy two_listings z)
all_blobs-listings_example = all_blobs-listings two_listings two_listings_ascend

-- What an id object holds when it has gone back to its pool.
abbrev spent : MarklId
spent = record { format = []; bytes = [] }

-- Two children that fill one object each, and one with objects of its own, out of order.
abbrev three_children : List Child
three_children =
    (false, id_of 1 ∷ id_of 4 ∷ [])
    ∷ (false, id_of 1 ∷ id_of 2 ∷ id_of 4 ∷ [])
    ∷ (true, id_of 4 ∷ id_of 1 ∷ [])
    ∷ []

has_bytes : (n : ℕ) → (id_of n).bytes ≢ []
has_bytes n e = cc

spent_unlisted : Lists spent three_children → ⊥
spent_unlisted k = elim k [
  | inl k₁ ↦ All-Mem (λ z. z.bytes ≢ []) _ (has_bytes 1, (has_bytes 4, tt)) k₁ refl
  | inr (inl k₂) ↦
      All-Mem (λ z. z.bytes ≢ []) _ (has_bytes 1, (has_bytes 2, (has_bytes 4, tt))) k₂ refl
  | inr (inr (inl k₃)) ↦ All-Mem (λ z. z.bytes ≢ []) _ (has_bytes 4, (has_bytes 1, tt)) k₃ refl
  | inr (inr (inr k₄)) ↦ absurd k₄
]

all_blobs-lossless_example :
    (ids : List MarklId) × (all_blobs (sequences spent three_children) ≡ yields ids)
    × ((z : MarklId) → Memᴰ z ids ↔ Lists z three_children)
all_blobs-lossless_example = all_blobs-lossless spent three_children spent_unlisted

abbrev two_ids : List MarklId
two_ids = id_of 1 ∷ id_of 4 ∷ []

two_ids-IsAscending : IsAscending two_ids
unfolding compare_markl_ids compare_bytes
two_ids-IsAscending = ((refl, tt), (tt, tt))

not_spent : (n : ℕ) → id_of n ≢ spent
not_spent n e = has_bytes n (ap (λ (z : MarklId). z.bytes) e)

all_blobs-doubled_example :
    all_blobs (pooled spent two_ids ∷ pooled spent two_ids ∷ []) ≡ yields (doubled two_ids)
all_blobs-doubled_example =
    all_blobs-doubled spent two_ids two_ids-IsAscending (not_spent 1, (not_spent 4, tt))

-- A child that stands at a second error when no other is left ends the merge.
two_errors_end :
    all_blobs ((failed 7 ∷ failed 8 ∷ given (id_of 1) (id_of 1) ∷ []) ∷ []) ≡ yielded_error 7 ∷ []
unfolding all_blobs merge pending_errors past_errors minimum_from count_items
two_errors_end = refl
