-- ===== src/Archive/Cache/Written.antt =====
-- The file that `write_cache_v1` leaves in its sink.
use madder.Common.{ℕ, ◌-◌, ◌%◌, ◌^◌, ◌≤◌, ◌≡◌, refl, sym, ap, ◌∙◌, arith}
use madder.Common.{List, [], ◌∷◌, ◌++◌, append_assoc, length, All, leb, if◌then◌else◌}
use madder.Common.Bytes.{Bytes}
use madder.Common.BigEndian.{word_bytes}
use madder.Archive.Types.{ok, err, CacheEntryV1, Digest, IsU64, write_failed}
use madder.Archive.Types.{hash_size_for_format, cache_file_magic, cache_file_version_v1}
use madder.Archive.Stream.{Write, Sink, ◌>>=◌, ◌>>◌, lift, write, then-write, pure-eq-write-nil}
use madder.Archive.Stream.{write-then-write}
use madder.Archive.Sealed.{seal, sealed_file, sealed, seal-sealed}
use madder.Archive.Index.Writer.{fresh_hasher}
use madder.Archive.Index.Image.{reject_long-short}
use madder.Archive.Index.Written.{hash_size_bounds}
use madder.Archive.Cache.Writer.{write_cache_v1_header, write_cache_v1_entries, write_cache_v1}
use madder.Archive.Cache.Writer.{write_cache_v1_body, verify_cache_v1_sorted}
use madder.Archive.Cache.Order.{IsSorted, HasSize, verify_cache_v1_sorted_iff}
use native.Mathlib.Nat.{mod-eq_of_lt}

abbrev pub header_bytes : Bytes → ℕ → Bytes
header_bytes format count =
    cache_file_magic
    ++ (word_bytes 2 cache_file_version_v1
        ++ ((length format % 256 ∷ []) ++ (format ++ word_bytes 8 count)))

abbrev pub entry_bytes : CacheEntryV1 → Bytes
entry_bytes e =
    e.hash
    ++ (e.archive_checksum
        ++ (word_bytes 8 e.offset
            ++ (word_bytes 8 e.stored_size ++ ((e.entry_type ∷ []) ++ word_bytes 8 e.base_offset))))

abbrev pub entries_bytes : List CacheEntryV1 → Bytes
entries_bytes [] = []
entries_bytes (e ∷ es) = entry_bytes e ++ entries_bytes es

-- The numbers of an entry in the ranges of their Go types.
pub record Fits (e : CacheEntryV1) : Type 0 where
  pub offset : IsU64 e.offset
  pub stored_size : IsU64 e.stored_size
  pub base_offset : IsU64 e.base_offset

-- Entries that `write_cache_v1` takes for digests of `n` bytes.
pub record IsCache (n : ℕ) (es : List CacheEntryV1) : Type 0 where
  pub sorted : IsSorted es
  pub sizes : All (HasSize n) es
  pub fits : All Fits es
  pub few : IsU64 (length es)

unfoldable pub cache_image : Bytes → List CacheEntryV1 → Bytes
cache_image format es = header_bytes format (length es) ++ entries_bytes es

unfoldable pub cache_file : Digest → Bytes → List CacheEntryV1 → Bytes
cache_file digest format es = cache_image format es ++ digest format (cache_image format es)

write_cache_v1_header-image :
    (format : Bytes) (count : ℕ)
    → length format ≤ 255
    → write_cache_v1_header format count ≡ write (header_bytes format count)
unfolding write_cache_v1_header
write_cache_v1_header-image format count h = then-write _ _ refl (
    then-write _ _ refl (
      then-write [] _ (reject_long-short format h)
        (then-write _ _ refl (then-write _ _ refl refl))))

entry_bytes-append :
    (e : CacheEntryV1) (rest : Bytes)
    → entry_bytes e ++ rest
      ≡ e.hash
        ++ (e.archive_checksum
            ++ (word_bytes 8 e.offset
                ++ (word_bytes 8 e.stored_size
                    ++ ((e.entry_type ∷ []) ++ (word_bytes 8 e.base_offset ++ rest)))))
entry_bytes-append e rest = simp append_assoc

write_cache_v1_entries-image :
    (es : List CacheEntryV1) → write_cache_v1_entries es ≡ write (entries_bytes es)
unfolding write_cache_v1_entries
write_cache_v1_entries-image [] = pure-eq-write-nil
write_cache_v1_entries-image (e ∷ es) =
    then-write _ _ refl (
      then-write _ _ refl (
        then-write _ _ refl (
          then-write _ _ refl
            (then-write _ _ refl (then-write _ _ refl (write_cache_v1_entries-image es))))))
    ∙ ap write (sym (entry_bytes-append e (entries_bytes es)))

module _ (digest : Digest) (format : Bytes) (n : ℕ) (es : List CacheEntryV1) where
  body_image :
      hash_size_for_format format ≡ ok n
      → IsCache n es
      → write_cache_v1_body digest format es ≡ (write (cache_image format es) >> seal digest format)
  unfolding write_cache_v1_body cache_image
  body_image sized v =
      ap (λ r. lift r >>= after_size) sized
      ∙ ap (λ r. lift r >> parts) ((verify_cache_v1_sorted_iff es n).1 (v.sorted, v.sizes))
      ∙ write-then-write _ _ (seal digest format) header
          (λ i. write_cache_v1_entries-image es i >> seal digest format)
    where
      parts : Write Bytes
      parts = do
        write_cache_v1_header format (length es % 2 ^ 64)
        write_cache_v1_entries es
        seal digest format

      after_size : ℕ → Write Bytes
      after_size size = do lift (verify_cache_v1_sorted es size); parts

      header :
          write_cache_v1_header format (length es % 2 ^ 64)
          ≡ write (header_bytes format (length es))
      header =
          ap (write_cache_v1_header format) (mod-eq_of_lt v.few)
          ∙ write_cache_v1_header-image format (length es)
              (omega (arith, hash_size_bounds format n sized))

-- For strictly ascending entries within the ranges of Go's types, `WriteCacheV1` puts the header, the
-- entries and the checksum into the sink and returns the checksum if there is room for all of them,
-- and otherwise fails as a write does.
pub write_cache_v1-cache_file :
    (digest : Digest) (format : Bytes) (n : ℕ) (es : List CacheEntryV1) (s : Sink)
    → hash_size_for_format format ≡ ok n
    → IsCache n es
    → write_cache_v1 digest format es s ≡ (
        if leb (length (cache_file digest format es)) s.room
        then ok (
          digest format (cache_image format es),
          record {
            written = s.written ++ cache_file digest format es;
            hashed = cache_image format es;
            room = s.room - length (cache_file digest format es);
          },
        )
        else err write_failed)
unfolding write_cache_v1
write_cache_v1-cache_file digest format n es s sized v =
    ap (λ (m : Write Bytes). m (fresh_hasher s)) (body_image digest format n es sized v)
    ∙ unfold cache_file sealed sealed_file in seal-sealed digest format (cache_image format es) s
