-- ===== src/Archive/Index/Written.antt =====
-- The file that `write_index_v1` leaves in its sink.
use madder.Common.{ℕ, ◌-◌, ◌%◌, ◌^◌, ◌≤◌, ◌<◌, ◌≡◌, ap, ◌∙◌, arith}
use madder.Common.{List, [], ◌∷◌, ◌++◌, length}
use madder.Common.{All, leb, if◌then◌else◌}
use madder.Common.Bytes.{Bytes, IsByte, codes, equal_bytes→eq}
use madder.Archive.Types.{Result, ok, err, IndexEntryV1, Digest, IsU64, write_failed}
use madder.Archive.Types.{hash_size_for_format}
use madder.Archive.Stream.{Write, Sink, ◌>>=◌, ◌>>◌, lift, write}
use madder.Archive.Stream.{write-then-write}
use madder.Archive.Index.Writer.{write_index_v1_header, write_index_v1_entries, fresh_hasher}
use madder.Archive.Index.Writer.{write_index_v1_fan_out, write_words, write_index_v1}
use madder.Archive.Index.Writer.{verify_sorted_v1, write_index_v1_body}
use madder.Archive.Sealed.{seal, sealed_file, sealed, seal-sealed}
use madder.Archive.Index.Order.{IsSorted, HasSize, verify_sorted_v1_iff}
use madder.Archive.Index.FanOut.{HasFirst, first_of, counts_from, count_fan_out-counts}
use madder.Archive.Index.Image.{header_bytes, words_bytes, entries_bytes}
use madder.Archive.Index.Image.{write_index_v1_header-image, write_words-image}
use madder.Archive.Index.Image.{write_index_v1_entries-image}
use native.Mathlib.Nat.{mod-eq_of_lt}

-- The fields of an entry in the ranges of their Go types.
pub record Fits (e : IndexEntryV1) : Type 0 where
  pub hash : All IsByte e.hash
  pub pack_offset : IsU64 e.pack_offset
  pub stored_size : IsU64 e.stored_size
  pub base_offset : IsU64 e.base_offset

-- Entries that `write_index_v1` takes for digests of `n` bytes.
pub record IsIndex (n : ℕ) (es : List IndexEntryV1) : Type 0 where
  pub sorted : IsSorted es
  pub sizes : All (HasSize n) es
  pub fits : All Fits es
  pub few : IsU64 (length es)

unfoldable pub index_image : Bytes → List IndexEntryV1 → Bytes
index_image format es =
    header_bytes format (length es) ++ (words_bytes (counts_from 0 256 es) ++ entries_bytes es)

unfoldable pub index_file : Digest → Bytes → List IndexEntryV1 → Bytes
index_file digest format es = index_image format es ++ digest format (index_image format es)

pub hash_size_bounds :
    (format : Bytes) (n : ℕ)
    → hash_size_for_format format ≡ ok n
    → (32 ≤ n) × (n ≤ 64) × (length format ≤ 10)
unfolding hash_size_for_format
hash_size_bounds format n h = ground (
  arith,
  equal_bytes→eq format (codes "sha256"),
  equal_bytes→eq format (codes "sha512"),
  equal_bytes→eq format (codes "blake2b256"),
  equal_bytes→eq format (codes "blake2b512"),
)

first_of-IsByte : (hash : Bytes) → All IsByte hash → first_of hash < 256
first_of-IsByte [] h = omega arith
first_of-IsByte (b ∷ bs) (h, _) = h

pub All-HasFirst :
    (n : ℕ) (es : List IndexEntryV1) → 0 < n → All (HasSize n) es → All Fits es → All HasFirst es
All-HasFirst n [] pos h k = tt
All-HasFirst n (e ∷ es) pos (h, hs) (k, ks) =
    ((omega arith, first_of-IsByte e.hash k.hash), All-HasFirst n es pos hs ks)

write_index_v1_fan_out-image :
    (es : List IndexEntryV1)
    → All HasFirst es
    → IsU64 (length es)
    → write_index_v1_fan_out es ≡ write (words_bytes (counts_from 0 256 es))
unfolding write_index_v1_fan_out
write_index_v1_fan_out-image es h few =
    ap (λ (r : Result (List ℕ)). lift r >>= write_words) (count_fan_out-counts es h few)
    ∙ write_words-image (counts_from 0 256 es)

module _ (digest : Digest) (format : Bytes) (n : ℕ) (es : List IndexEntryV1) where
  body_image :
      hash_size_for_format format ≡ ok n
      → IsIndex n es
      → write_index_v1_body digest format es ≡ (write (index_image format es) >> seal digest format)
  unfolding write_index_v1_body index_image
  body_image sized v =
      ap (λ r. lift r >>= after_size) sized
      ∙ ap (λ r. lift r >> parts) ((verify_sorted_v1_iff es n).1 (v.sorted, v.sizes))
      ∙ write-then-write _ _ (seal digest format) header (
          write-then-write _ _ (seal digest format) fan_out
            (λ i. write_index_v1_entries-image es i >> seal digest format))
    where
      parts : Write Bytes
      parts = do
        write_index_v1_header format (length es % 2 ^ 64)
        write_index_v1_fan_out es
        write_index_v1_entries es
        seal digest format

      after_size : ℕ → Write Bytes
      after_size size = do lift (verify_sorted_v1 es size); parts

      bounds : (32 ≤ n) × (n ≤ 64) × (length format ≤ 10)
      bounds = hash_size_bounds format n sized

      header :
          write_index_v1_header format (length es % 2 ^ 64)
          ≡ write (header_bytes format (length es))
      header =
          ap (write_index_v1_header format) (mod-eq_of_lt v.few)
          ∙ write_index_v1_header-image format (length es) (omega (arith, bounds))

      fan_out : write_index_v1_fan_out es ≡ write (words_bytes (counts_from 0 256 es))
      fan_out =
          write_index_v1_fan_out-image es (All-HasFirst n es (omega (arith, bounds)) v.sizes v.fits)
            v.few

-- For strictly ascending entries within the ranges of Go's types, `WriteIndexV1` puts the header, the
-- fan-out table, the entries and the checksum into the sink and returns the checksum if there is room
-- for all of them, and otherwise fails as a write does.
pub write_index_v1-index_file :
    (digest : Digest) (format : Bytes) (n : ℕ) (es : List IndexEntryV1) (s : Sink)
    → hash_size_for_format format ≡ ok n
    → IsIndex n es
    → write_index_v1 digest format es s ≡ (
        if leb (length (index_file digest format es)) s.room
        then ok (
          digest format (index_image format es),
          record {
            written = s.written ++ index_file digest format es;
            hashed = index_image format es;
            room = s.room - length (index_file digest format es);
          },
        )
        else err write_failed)
unfolding write_index_v1
write_index_v1-index_file digest format n es s sized v =
    ap (λ (m : Write Bytes). m (fresh_hasher s)) (body_image digest format n es sized v)
    ∙ unfold index_file sealed sealed_file in seal-sealed digest format (index_image format es) s
