-- ===== src/Archive/Index/RoundTrip.antt =====
-- Opening a written index file, and reading all of it back.
use madder.Common.{ℕ, zero, suc, ◌+◌, ◌*◌, ◌%◌, ◌^◌, ◌≤◌, ◌<◌, ◌≡◌, refl, sym, ap, ◌∙◌, arith}
use madder.Common.{List, [], ◌∷◌, ◌++◌, append_assoc, length, length-append, drop}
use madder.Common.{get_elem?, get_elem?-of-lt, some, All, All-get, drop_all, drop-get_elem?}
use madder.Common.Bytes.{Bytes}
use madder.Common.BigEndian.{length-word_bytes}
use madder.Archive.Types.{ok, IndexEntryV1, IsU64, Digest, IsSized}
use madder.Archive.Types.{hash_size_for_format}
use madder.Archive.Index.Reader.{IndexReaderV1, read_at, read_fan_out, new_index_reader_v1}
use madder.Archive.Index.Reader.{header_size, entry_size, words_of, read_entry_at}
use madder.Archive.Index.Reader.{read_entries, read_all_entries}
use madder.Archive.Index.Order.{HasSize}
use madder.Archive.Index.FanOut.{counts_from, count_le-le-length}
use madder.Archive.Index.Image.{header_bytes, words_bytes, entry_bytes, entries_bytes}
use madder.Archive.Index.Written.{Fits, IsIndex, index_image, index_file, hash_size_bounds}
use madder.Archive.Types.{index_file_magic, index_file_version_v1}
use madder.Archive.Headed.{read_at_segment, headed}
use madder.Archive.Index.Opened.{read_header-headed}
use madder.Archive.Index.Decode.{length-words_bytes, words_of-words_bytes, stands, Stands}
use madder.Archive.Index.Decode.{length-entry_bytes, decode_entry-entry_bytes}
use native.Mathlib.Nat.{mod-eq_of_lt}

length-counts_from : (j n : ℕ) (es : List IndexEntryV1) → length (counts_from j n es) ≡ n
unfolding counts_from
length-counts_from j zero es = refl
length-counts_from j (suc n) es = ap suc (length-counts_from (suc j) n es)

counts_from-IsU64 :
    (j n : ℕ) (es : List IndexEntryV1) → IsU64 (length es) → All IsU64 (counts_from j n es)
unfolding counts_from
counts_from-IsU64 j zero es h = tt
counts_from-IsU64 j (suc n) es h =
    (omega (arith, count_le-le-length j es), counts_from-IsU64 (suc j) n es h)

regroup :
    (h w front e back c : Bytes)
    → h ++ (w ++ ((front ++ (e ++ back)) ++ c)) ≡ (h ++ (w ++ front)) ++ (e ++ (back ++ c))
regroup h w front e back c = simp append_assoc

header_bytes-append :
    (format : Bytes) (count : ℕ) (rest : Bytes)
    → header_bytes format count ++ rest
      ≡ headed index_file_magic index_file_version_v1 format count rest
header_bytes-append format count rest = simp append_assoc

length-header_bytes :
    (format : Bytes) (count : ℕ) → length (header_bytes format count) ≡ 15 + length format
length-header_bytes format count = simp (length-append, length-word_bytes) (omega arith)

module _ (digest : Digest) (format : Bytes) (n : ℕ) (es : List IndexEntryV1) where
  -- The reader of the file that was written for `es`.
  unfoldable pub opened : IndexReaderV1
  opened = record {
    reader = index_file digest format es;
    total_size = length (index_file digest format es);
    hash_format_id = format;
    hash_size = n;
    entry_count = length es;
    fan_out = counts_from 0 256 es;
    entries_start = 15 + length format + 2048;
  }

  checksum : Bytes
  checksum = digest format (index_image format es)

  file_headed :
      index_file digest format es
      ≡ headed index_file_magic index_file_version_v1 format
          (length es)
          (words_bytes (counts_from 0 256 es) ++ (entries_bytes es ++ checksum))
  unfolding index_file index_image checksum
  file_headed = simp append_assoc

  file_at_words :
      index_file digest format es
      ≡ header_bytes format (length es)
        ++ (words_bytes (counts_from 0 256 es) ++ (entries_bytes es ++ checksum))
  file_at_words = file_headed ∙ sym (header_bytes-append format (length es) _)

  module _ (sized : hash_size_for_format format ≡ ok n) (v : IsIndex n es) where
    words_read :
        read_at (index_file digest format es) 2048 (15 + length format)
        ≡ ok (words_bytes (counts_from 0 256 es))
    words_read =
        read_at_segment _ (header_bytes format (length es)) (words_bytes (counts_from 0 256 es))
          (entries_bytes es ++ checksum) 2048 _ file_at_words
          (length-header_bytes format (length es))
          (length-words_bytes (counts_from 0 256 es) ∙ omega (arith, length-counts_from 0 256 es))
          (omega (arith, hash_size_bounds format n sized))

    pub new_index_reader_v1-opened :
        new_index_reader_v1
          (index_file digest format es)
          (length (index_file digest format es))
          format
        ≡ ok opened
    unfolding new_index_reader_v1 opened read_fan_out header_size
    new_index_reader_v1-opened =
        rw
          (
            sized,
            read_header-headed unread (length es) _ (omega (arith, hash_size_bounds format n sized))
                v.few file_headed,
          )
          (rw ((ap (read_at (index_file digest format es) 2048) start ∙ words_read), table, start))
      where
        unread : IndexReaderV1
        unread = record {
          reader = index_file digest format es;
          total_size = length (index_file digest format es);
          hash_format_id = format;
          hash_size = n;
          entry_count = 0;
          fan_out = [];
          entries_start = 0;
        }

        start : 7 + length format + 8 ≡ 15 + length format
        start = omega arith

        table : words_of 256 (words_bytes (counts_from 0 256 es)) ≡ counts_from 0 256 es
        table =
            ap (λ k. words_of k (words_bytes (counts_from 0 256 es)))
              (sym (length-counts_from 0 256 es))
            ∙ words_of-words_bytes (counts_from 0 256 es) (counts_from-IsU64 0 256 es v.few)

    module _ (small : length (index_file digest format es) < 2 ^ 63) where
      entry_read :
          (i : ℕ) (e : IndexEntryV1)
          → length e.hash ≡ n
          → Stands n i e es
          → read_at
              (index_file digest format es)
              (n + 8 + 8 + 1 + 8)
              ((15 + length format + 2048 + i * (n + 8 + 8 + 1 + 8)) % 2 ^ 64)
            ≡ ok (entry_bytes e)
      entry_read i e size st =
          ap (read_at (index_file digest format es) (n + 8 + 8 + 1 + 8))
            (mod-eq_of_lt (omega (arith, room, before_length)))
          ∙ read_at_segment _ before (entry_bytes e) (st.back ++ checksum) _ _ split before_length
              (omega (arith, length-entry_bytes e)) (omega (arith, room, before_length))
        where
          before : Bytes
          before =
              header_bytes format (length es) ++ (words_bytes (counts_from 0 256 es) ++ st.front)

          split : index_file digest format es ≡ before ++ (entry_bytes e ++ (st.back ++ checksum))
          split =
              file_at_words
              ∙ ap
                  (λ l.
                    header_bytes format (length es)
                    ++ (words_bytes (counts_from 0 256 es) ++ (l ++ checksum)))
                  st.split
              ∙ regroup (header_bytes format (length es)) (words_bytes (counts_from 0 256 es))
                  st.front (entry_bytes e) st.back checksum

          room : length before ≤ length (index_file digest format es)
          room =
              rw split
                (omega (arith, length-append before (entry_bytes e ++ (st.back ++ checksum))))

          before_length : length before ≡ 15 + length format + 2048 + i * (n + 8 + 8 + 1 + 8)
          before_length =
              length-append (header_bytes format (length es)) _
              ∙ omega (
                arith,
                length-header_bytes format (length es),
                length-append (words_bytes (counts_from 0 256 es)) st.front,
                length-words_bytes (counts_from 0 256 es),
                length-counts_from 0 256 es,
                st.front_length,
              )

      -- The entry with index `i` is read back from its place.
      pub read_entry_at-opened :
          (i : ℕ) (e : IndexEntryV1) → get_elem? es i ≡ some e → read_entry_at opened i ≡ ok e
      unfolding read_entry_at opened entry_size
      read_entry_at-opened i e p = rw (
        entry_read i e (All-get (HasSize n) es i v.sizes p) (stands n i e es v.sizes p),
        decode_entry-entry_bytes e n (All-get (HasSize n) es i v.sizes p)
            (All-get Fits es i v.fits p),
      )

      read_entries-opened :
          (left i : ℕ) → i + left ≡ length es → read_entries opened left i ≡ ok (drop i es)
      unfolding read_entries
      read_entries-opened zero i h = ap ok (sym (drop_all i es (omega arith)))
      read_entries-opened (suc left) i h =
          let (e, p) = get_elem?-of-lt es i (omega arith) in
          rw (read_entry_at-opened i e p, read_entries-opened left (i + 1) (omega arith))
            (ap ok (sym (drop-get_elem? es i p)))

      -- All entries are read back, in order.
      pub read_all_entries-opened : read_all_entries opened ≡ ok es
      unfolding read_all_entries opened
      read_all_entries-opened = read_entries-opened (length es) 0 (omega arith)

length-entries_bytes :
    (n : ℕ) (es : List IndexEntryV1)
    → All (HasSize n) es
    → length (entries_bytes es) ≡ length es * (n + 25)
length-entries_bytes n [] h = omega arith
length-entries_bytes n (e ∷ es) (h, hs) =
    length-append (entry_bytes e) (entries_bytes es)
    ∙ omega (arith, length-entry_bytes e, length-entries_bytes n es hs)

pub length-index_file :
    (digest : Digest) (format : Bytes) (n : ℕ) (es : List IndexEntryV1)
    → IsSized digest
    → hash_size_for_format format ≡ ok n
    → All (HasSize n) es
    → length (index_file digest format es) ≡ 15 + length format + 2048 + length es * (n + 25) + n
unfolding index_file index_image
length-index_file digest format n es honest sized h =
    simp (length-append, length-word_bytes)
      (omega (
        arith,
        length-words_bytes (counts_from 0 256 es),
        length-counts_from 0 256 es,
        length-entries_bytes n es h,
        honest format (index_image format es) n sized,
      ))
