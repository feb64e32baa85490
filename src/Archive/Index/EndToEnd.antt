-- ===== src/Archive/Index/EndToEnd.antt =====
-- index_v1.go as its callers use it: what `WriteIndexV1` wrote to an empty file, opened, searched,
-- listed and validated.
use madder.Common.{ℕ, ◌^◌, ◌<◌, ◌≡◌, refl, sym, ap, ◌∙◌}
use madder.Common.{List, [], ◌++◌, length, All}
use madder.Common.Bytes.{Bytes}
use madder.Archive.Types.{Result, ok, err, Error, ◌>>=◌, IndexEntryV1, Digest, IsSized, IsU64}
use madder.Archive.Types.{hash_size_for_format}
use madder.Archive.Stream.{Sink}
use madder.Archive.Sealed.{ne_err, outcome_sink}
use madder.Archive.Index.Writer.{write_index_v1, write_index_v1_body, verify_sorted_v1}
use madder.Archive.Index.Reader.{new_index_reader_v1, lookup_hash, read_all_entries}
use madder.Archive.Index.Reader.{validate, place_of}
use madder.Archive.Index.Order.{IsSorted, HasSize, verify_sorted_v1_iff}
use madder.Archive.Index.Written.{Fits, IsIndex, index_image, index_file, write_index_v1-index_file}
use madder.Archive.Index.FanOut.{first_of}
use madder.Archive.Index.RoundTrip.{opened, new_index_reader_v1-opened, read_all_entries-opened}
use madder.Archive.Index.Lookup.{lookup_hash-found}
use madder.Archive.Index.Find.{find_entry}
use madder.Archive.Index.Check.{validate-opened}
use mathlib.Core.Option

module _ (digest : Digest) (format : Bytes) (n : ℕ) (es : List IndexEntryV1) (s : Sink) where
  refused :
      {e : Error}
      → hash_size_for_format format ≡ ok n
      → verify_sorted_v1 es n ≡ err e
      → write_index_v1 digest format es s ≡ err e
  unfolding write_index_v1 write_index_v1_body
  refused sized h = rw (sized, h)

  -- `WriteIndexV1` succeeds only on strictly ascending hashes of the length that the format has.
  pub write_index_v1-IsSorted :
      {r : Bytes × Sink}
      → hash_size_for_format format ≡ ok n
      → write_index_v1 digest format es s ≡ ok r
      → IsSorted es × All (HasSize n) es
  write_index_v1-IsSorted {r} sized h = go (verify_sorted_v1 es n) refl
    where
      go : (v : Result (Unit {0})) → verify_sorted_v1 es n ≡ v → IsSorted es × All (HasSize n) es
      go (ok u) e = (verify_sorted_v1_iff es n).0 e
      go (err x) e = absurd (ne_err (sym (refused sized e) ∙ h))

module _ (digest : Digest) (format : Bytes) (n : ℕ) (es : List IndexEntryV1) (s s' : Sink)
    (checksum : Bytes) (sized : hash_size_for_format format ≡ ok n) (fits : All Fits es)
    (few : IsU64 (length es)) (empty : s.written ≡ [])
    (written : write_index_v1 digest format es s ≡ ok (checksum, s'))
    (small : length s'.written < 2 ^ 63) where
  valid : IsIndex n es
  valid =
      let (sorted, sizes) = write_index_v1-IsSorted digest format n es s sized written in
      record { sorted = sorted; sizes = sizes; fits = fits; few = few }

  written_file : s'.written ≡ index_file digest format es
  written_file =
      ap (λ (t : Sink). t.written)
        (outcome_sink _ (digest format (index_image format es)) checksum _ s'
          (sym (write_index_v1-index_file digest format n es s sized valid) ∙ written))
      ∙ ap (λ w. w ++ index_file digest format es) empty

  small_file : length (index_file digest format es) < 2 ^ 63
  small_file = rw written_file at small

  reopened :
      new_index_reader_v1 s'.written (length s'.written) format ≡ ok (opened digest format n es)
  reopened = rw written_file (new_index_reader_v1-opened digest format n es sized valid)

  -- Listing an index that `WriteIndexV1` wrote to an empty file gives back the entries, in order. The
  -- entries' fields are within the ranges of Go's types, and the file is shorter than 2^63 bytes.
  pub read_all_entries-write_index_v1 :
      (do ir ← new_index_reader_v1 s'.written (length s'.written) format; read_all_entries ir)
      ≡ ok es
  read_all_entries-write_index_v1 =
      rw reopened (read_all_entries-opened digest format n es sized valid small_file)

  -- An index that `WriteIndexV1` wrote to an empty file, opened again, answers the lookup of a digest
  -- as a linear search through the entries would, with the found entry's place or with nothing. The
  -- entries' fields are within the ranges of Go's types, the file is shorter than 2^63 bytes, and the
  -- digest is not empty and begins with a byte.
  pub lookup_hash-write_index_v1 :
      (hash : Bytes)
      → 0 < length hash
      → first_of hash < 256
      → (do ir ← new_index_reader_v1 s'.written (length s'.written) format; lookup_hash ir hash)
        ≡ ok (Option.map place_of (find_entry hash es))
  lookup_hash-write_index_v1 hash full first =
      rw reopened (lookup_hash-found digest format n es sized valid small_file hash full first)

  -- An index that `WriteIndexV1` wrote to an empty file passes `Validate`, for entries within the ranges
  -- of Go's types, a file shorter than 2^63 bytes, and digests as long as their format says.
  pub validate-write_index_v1 :
      IsSized digest
      → (do ir ← new_index_reader_v1 s'.written (length s'.written) format; validate digest ir)
        ≡ ok tt
  validate-write_index_v1 honest =
      rw reopened (validate-opened digest format n es honest sized small_file)
