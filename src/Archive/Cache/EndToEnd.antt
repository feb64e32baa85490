-- ===== src/Archive/Cache/EndToEnd.antt =====
-- cache_v1.go as its callers use it: what `WriteCacheV1` wrote to an empty file, opened, listed and
-- validated.
use madder.Common.{ℕ, ◌-◌, ◌^◌, ◌≤◌, ◌<◌, ◌≡◌, refl, sym, ap, ◌∙◌, arith}
use madder.Common.{List, [], ◌++◌, length, length-append, take, drop, All, le→leb, take_all}
use madder.Common.Bytes.{Bytes, equal_bytes_refl}
use madder.Archive.Types.{Result, ok, err, Error, ◌>>=◌, CacheEntryV1, Digest, IsSized, IsU64}
use madder.Archive.Types.{hash_size_for_format}
use madder.Archive.Stream.{Sink}
use madder.Archive.Sealed.{ne_err, outcome_sink}
use madder.Archive.Index.Check.{read_at_inside, sealed_cut}
use madder.Archive.Cache.Writer.{write_cache_v1, write_cache_v1_body, verify_cache_v1_sorted}
use madder.Archive.Cache.Reader.{new_cache_reader_v1, read_all_entries, validate}
use madder.Archive.Cache.Order.{IsSorted, HasSize, verify_cache_v1_sorted_iff}
use madder.Archive.Cache.Written.{Fits, IsCache, cache_image, cache_file, write_cache_v1-cache_file}
use madder.Archive.Cache.RoundTrip.{opened, new_cache_reader_v1-opened, read_all_entries-opened}

module _ (digest : Digest) (format : Bytes) (n : ℕ) (es : List CacheEntryV1) (s : Sink)
    (sized : hash_size_for_format format ≡ ok n) where
  refused :
      {e : Error} → verify_cache_v1_sorted es n ≡ err e → write_cache_v1 digest format es s ≡ err e
  unfolding write_cache_v1 write_cache_v1_body
  refused h = rw (sized, h)

  -- `WriteCacheV1` succeeds only on strictly ascending hashes of the length that the format has, and on
  -- archive checksums of that length.
  pub write_cache_v1-IsSorted :
      {r : Bytes × Sink}
      → write_cache_v1 digest format es s ≡ ok r
      → IsSorted es × All (HasSize n) es
  write_cache_v1-IsSorted {r} h = go (verify_cache_v1_sorted es n) refl
    where
      go :
          (v : Result (Unit {0}))
          → verify_cache_v1_sorted es n ≡ v
          → IsSorted es × All (HasSize n) es
      go (ok u) e = (verify_cache_v1_sorted_iff es n).0 e
      go (err x) e = absurd (ne_err (sym (refused e) ∙ h))

-- A file made of an image and its digest passes.
validate-opened :
    (digest : Digest) (format : Bytes) (n : ℕ) (es : List CacheEntryV1)
    → IsSized digest
    → hash_size_for_format format ≡ ok n
    → length (cache_file digest format es) < 2 ^ 63
    → validate digest (opened digest format n es) ≡ ok tt
unfolding opened cache_file validate
validate-opened digest format n es honest sized small = rw (
  le→leb n (length file) inside,
  read_at_inside file n (length file - n) (omega arith) (omega (arith, inside)),
  sized,
  read_at_inside file (length file - n) 0 (omega arith) (omega arith),
  cut.0,
  cut.1,
  take_all n checksum checksum_length,
  equal_bytes_refl checksum,
)
  where
    image : Bytes
    image = cache_image format es

    checksum : Bytes
    checksum = digest format image

    file : Bytes
    file = image ++ checksum

    checksum_length : length checksum ≡ n
    checksum_length = honest format image n sized

    inside : n ≤ length file
    inside = omega (arith, length-append image checksum, checksum_length)

    cut : (take (length file - n) file ≡ image) × (drop (length file - n) file ≡ checksum)
    cut = sealed_cut image checksum n checksum_length

module _ (digest : Digest) (format : Bytes) (n : ℕ) (es : List CacheEntryV1) (s s' : Sink)
    (checksum : Bytes) (sized : hash_size_for_format format ≡ ok n) (fits : All Fits es)
    (few : IsU64 (length es)) (empty : s.written ≡ [])
    (written : write_cache_v1 digest format es s ≡ ok (checksum, s'))
    (small : length s'.written < 2 ^ 63) where
  valid : IsCache n es
  valid =
      let (sorted, sizes) = write_cache_v1-IsSorted digest format n es s sized written in
      record { sorted = sorted; sizes = sizes; fits = fits; few = few }

  written_file : s'.written ≡ cache_file digest format es
  written_file =
      ap (λ (t : Sink). t.written)
        (outcome_sink _ (digest format (cache_image format es)) checksum _ s'
          (sym (write_cache_v1-cache_file digest format n es s sized valid) ∙ written))
      ∙ ap (λ w. w ++ cache_file digest format es) empty

  small_file : length (cache_file digest format es) < 2 ^ 63
  small_file = rw written_file at small

  reopened :
      new_cache_reader_v1 s'.written (length s'.written) format ≡ ok (opened digest format n es)
  reopened = rw written_file (new_cache_reader_v1-opened digest format n es sized valid)

  -- Listing a cache that `WriteCacheV1` wrote to an empty file gives back the entries, in order. The
  -- entries' numbers are within the ranges of Go's types, and the file is shorter than 2^63 bytes.
  pub read_all_entries-write_cache_v1 :
      (do cr ← new_cache_reader_v1 s'.written (length s'.written) format; read_all_entries cr)
      ≡ ok es
  read_all_entries-write_cache_v1 =
      rw reopened (read_all_entries-opened digest format n es sized valid small_file)

  -- A cache that `WriteCacheV1` wrote to an empty file passes `Validate`, for entries within the ranges
  -- of Go's types, a file shorter than 2^63 bytes, and digests as long as their format says.
  pub validate-write_cache_v1 :
      IsSized digest
      → (do cr ← new_cache_reader_v1 s'.written (length s'.written) format; validate digest cr)
        ≡ ok tt
  validate-write_cache_v1 honest =
      rw reopened (validate-opened digest format n es honest sized small_file)
