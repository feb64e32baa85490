-- ===== src/Archive/Cache/RoundTrip.antt =====
-- Opening a written cache file, and reading all of it back.
use madder.Common.{ℕ, zero, suc, ◌+◌, ◌*◌, ◌%◌, ◌^◌, ◌≤◌, ◌<◌, ◌≡◌, refl, sym, ap, ◌∙◌, arith}
use madder.Common.{List, [], ◌∷◌, ◌++◌, append_assoc, length, length-append, drop}
use madder.Common.{get_elem?, get_elem?-of-lt, some, All, All-get, drop_all, drop-get_elem?}
use madder.Common.Bytes.{Bytes, equal_bytes_refl}
use madder.Common.BigEndian.{length-word_bytes, bytes_word-word_bytes}
use madder.Archive.Types.{ok, CacheEntryV1, IsU64, Digest, IsSized}
use madder.Archive.Types.{hash_size_for_format, cache_file_magic, cache_file_version_v1}
use madder.Archive.Headed.{
  read_at_segment, headed, magic_read, version_read, length_read, format_read, count_read,
}
use madder.Archive.Index.Reader.{read_at}
use madder.Archive.Index.Written.{hash_size_bounds}
use madder.Archive.Cache.Reader.{CacheReaderV1, read_header, new_cache_reader_v1, cache_entry_size}
use madder.Archive.Cache.Reader.{read_entry_at, read_cache_entries, read_all_entries}
use madder.Archive.Cache.Order.{HasSize}
use madder.Archive.Cache.Written.{header_bytes, entry_bytes, entries_bytes, Fits, IsCache}
use madder.Archive.Cache.Written.{cache_image, cache_file}
use madder.Archive.Cache.Decode.{stands, Stands, length-entry_bytes, decode_cache_entry-entry_bytes}
use native.Mathlib.Nat.{mod-eq_of_lt}

read_header-headed :
    (cr : CacheReaderV1) (count : ℕ) (rest : Bytes)
    → length cr.hash_format_id ≤ 255
    → IsU64 count
    → cr.reader ≡ headed cache_file_magic cache_file_version_v1 cr.hash_format_id count rest
    → read_header cr
      ≡ ok (record cr {
        entry_count = count;
        entries_start = 4 + 2 + 1 + length cr.hash_format_id % 256 + 8;
      })
unfolding read_header
read_header-headed cr count rest short few e = rw (
  (ap (λ file. read_at file 4 0) e
      ∙ magic_read cache_file_magic cache_file_version_v1 cr.hash_format_id count rest refl short),
  equal_bytes_refl cache_file_magic,
  (ap (λ file. read_at file 2 4) e
      ∙ version_read cache_file_magic cache_file_version_v1 cr.hash_format_id count rest refl
          short),
  bytes_word-word_bytes 2 cache_file_version_v1 (omega arith),
  (ap (λ file. read_at file 1 6) e
      ∙ length_read cache_file_magic cache_file_version_v1 cr.hash_format_id count rest refl short),
  (ap (λ file. read_at file (length cr.hash_format_id % 256) 7) e
      ∙ format_read cache_file_magic cache_file_version_v1 cr.hash_format_id count rest refl short),
  equal_bytes_refl cr.hash_format_id,
  (ap (λ file. read_at file 8 (7 + length cr.hash_format_id % 256)) e
      ∙ count_read cache_file_magic cache_file_version_v1 cr.hash_format_id count rest refl short),
  bytes_word-word_bytes 8 count few,
)

length-header_bytes :
    (format : Bytes) (count : ℕ) → length (header_bytes format count) ≡ 15 + length format
length-header_bytes format count = simp (length-append, length-word_bytes) (omega arith)

module _ (digest : Digest) (format : Bytes) (n : ℕ) (es : List CacheEntryV1) where
  -- The reader of the file that was written for `es`.
  unfoldable pub opened : CacheReaderV1
  opened = record {
    reader = cache_file digest format es;
    total_size = length (cache_file digest format es);
    hash_format_id = format;
    hash_size = n;
    entry_count = length es;
    entries_start = 15 + length format;
  }

  checksum : Bytes
  checksum = digest format (cache_image format es)

  file_headed :
      cache_file digest format es
      ≡ headed cache_file_magic cache_file_version_v1 format
          (length es)
          (entries_bytes es ++ checksum)
  unfolding cache_file cache_image checksum
  file_headed = simp append_assoc

  module _ (sized : hash_size_for_format format ≡ ok n) (v : IsCache n es) where
    pub new_cache_reader_v1-opened :
        new_cache_reader_v1
          (cache_file digest format es)
          (length (cache_file digest format es))
          format
        ≡ ok opened
    unfolding new_cache_reader_v1 opened
    new_cache_reader_v1-opened =
        rw
          (
            sized,
            read_header-headed unread (length es) _ (omega (arith, hash_size_bounds format n sized))
                v.few file_headed,
          )
          (ap ok (cc start))
      where
        unread : CacheReaderV1
        unread = record {
          reader = cache_file digest format es;
          total_size = length (cache_file digest format es);
          hash_format_id = format;
          hash_size = n;
          entry_count = 0;
          entries_start = 0;
        }

        start : 4 + 2 + 1 + length format % 256 + 8 ≡ 15 + length format
        start = omega (arith, hash_size_bounds format n sized)

    module _ (small : length (cache_file digest format es) < 2 ^ 63) where
      entry_read :
          (i : ℕ) (e : CacheEntryV1)
          → HasSize n e
          → Stands n i e es
          → read_at
              (cache_file digest format es)
              (n + n + 8 + 8 + 1 + 8)
              ((15 + length format + i * (n + n + 8 + 8 + 1 + 8)) % 2 ^ 64)
            ≡ ok (entry_bytes e)
      entry_read i e size st =
          ap (read_at (cache_file digest format es) (n + n + 8 + 8 + 1 + 8))
            (mod-eq_of_lt (omega (arith, room, before_length)))
          ∙ read_at_segment _ before (entry_bytes e) (st.back ++ checksum) _ _ split before_length
              (omega (arith, length-entry_bytes e n size)) (omega (arith, room, before_length))
        where
          before : Bytes
          before = header_bytes format (length es) ++ st.front

          split : cache_file digest format es ≡ before ++ (entry_bytes e ++ (st.back ++ checksum))
          split =
              file_headed
              ∙ ap
                  (λ l.
                    headed cache_file_magic cache_file_version_v1 format (length es)
                      (l ++ checksum))
                  st.split
              ∙ simp append_assoc

          room : length before ≤ length (cache_file digest format es)
          room =
              rw split
                (omega (arith, length-append before (entry_bytes e ++ (st.back ++ checksum))))

          before_length : length before ≡ 15 + length format + i * (n + n + 8 + 8 + 1 + 8)
          before_length =
              length-append (header_bytes format (length es)) st.front
              ∙ omega (arith, length-header_bytes format (length es), st.front_length)

      read_entry_at-opened :
          (i : ℕ) (e : CacheEntryV1) → get_elem? es i ≡ some e → read_entry_at opened i ≡ ok e
      unfolding read_entry_at opened cache_entry_size
      read_entry_at-opened i e p = rw (
        entry_read i e (All-get (HasSize n) es i v.sizes p) (stands n i e es v.sizes p),
        decode_cache_entry-entry_bytes e n (All-get (HasSize n) es i v.sizes p)
            (All-get Fits es i v.fits p),
      )

      read_cache_entries-opened :
          (left i : ℕ) → i + left ≡ length es → read_cache_entries opened left i ≡ ok (drop i es)
      unfolding read_cache_entries
      read_cache_entries-opened zero i h = ap ok (sym (drop_all i es (omega arith)))
      read_cache_entries-opened (suc left) i h =
          let (e, p) = get_elem?-of-lt es i (omega arith) in
          rw (read_entry_at-opened i e p, read_cache_entries-opened left (i + 1) (omega arith))
            (ap ok (sym (drop-get_elem? es i p)))

      pub read_all_entries-opened : read_all_entries opened ≡ ok es
      unfolding read_all_entries opened
      read_all_entries-opened = read_cache_entries-opened (length es) 0 (omega arith)

length-entries_bytes :
    (n : ℕ) (es : List CacheEntryV1)
    → All (HasSize n) es
    → length (entries_bytes es) ≡ length es * (n + n + 25)
length-entries_bytes n [] h = omega arith
length-entries_bytes n (e ∷ es) (h, hs) =
    length-append (entry_bytes e) (entries_bytes es)
    ∙ omega (arith, length-entry_bytes e n h, length-entries_bytes n es hs)

pub length-cache_file :
    (digest : Digest) (format : Bytes) (n : ℕ) (es : List CacheEntryV1)
    → IsSized digest
    → hash_size_for_format format ≡ ok n
    → All (HasSize n) es
    → length (cache_file digest format es) ≡ 15 + length format + length es * (n + n + 25) + n
unfolding cache_file cache_image
length-cache_file digest format n es honest sized h =
    simp (length-append, length-word_bytes)
      (omega (arith, length-entries_bytes n es h, honest format (cache_image format es) n sized))
