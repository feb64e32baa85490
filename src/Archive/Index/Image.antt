-- ===== src/Archive/Index/Image.antt =====
-- The bytes of an index file: header, fan-out table and entries.
use madder.Common.{ℕ, ◌%◌, ◌≤◌, ◌≡◌, refl, sym, ap, ◌∙◌}
use madder.Common.{List, [], ◌∷◌, ◌++◌, append_assoc, length}
use madder.Common.{le→ltb, if◌then◌else◌}
use madder.Common.Bytes.{Bytes}
use madder.Common.BigEndian.{word_bytes}
use madder.Archive.Types.{IndexEntryV1, index_file_magic, index_file_version_v1}
use madder.Archive.Stream.{write, then-write, pure-eq-write-nil}
use madder.Archive.Index.Writer.{
  reject_long, write_index_v1_header, write_words, write_index_v1_entries,
}

abbrev pub header_bytes : Bytes → ℕ → Bytes
header_bytes format count =
    index_file_magic
    ++ (word_bytes 2 index_file_version_v1
        ++ ((length format % 256 ∷ []) ++ (format ++ word_bytes 8 count)))

abbrev pub words_bytes : List ℕ → Bytes
words_bytes [] = []
words_bytes (w ∷ ws) = word_bytes 8 w ++ words_bytes ws

abbrev pub entry_bytes : IndexEntryV1 → Bytes
entry_bytes e =
    e.hash
    ++ (word_bytes 8 e.pack_offset
        ++ (word_bytes 8 e.stored_size ++ ((e.entry_type ∷ []) ++ word_bytes 8 e.base_offset)))

abbrev pub entries_bytes : List IndexEntryV1 → Bytes
entries_bytes [] = []
entries_bytes (e ∷ es) = entry_bytes e ++ entries_bytes es

pub reject_long-short : (format : Bytes) → length format ≤ 255 → reject_long format ≡ write []
unfolding reject_long
reject_long-short format h = rw (le→ltb 255 (length format) h, if◌then◌else◌) pure-eq-write-nil

pub write_index_v1_header-image :
    (format : Bytes) (count : ℕ)
    → length format ≤ 255
    → write_index_v1_header format count ≡ write (header_bytes format count)
unfolding write_index_v1_header
write_index_v1_header-image format count h = then-write _ _ refl (
    then-write _ _ refl (
      then-write [] _ (reject_long-short format h)
        (then-write _ _ refl (then-write _ _ refl refl))))

pub write_words-image : (ws : List ℕ) → write_words ws ≡ write (words_bytes ws)
unfolding write_words
write_words-image [] = pure-eq-write-nil
write_words-image (w ∷ ws) = then-write _ _ refl (write_words-image ws)

entry_bytes-append :
    (e : IndexEntryV1) (rest : Bytes)
    → entry_bytes e ++ rest
      ≡ e.hash
        ++ (word_bytes 8 e.pack_offset
            ++ (word_bytes 8 e.stored_size
                ++ ((e.entry_type ∷ []) ++ (word_bytes 8 e.base_offset ++ rest))))
entry_bytes-append e rest = simp append_assoc

pub write_index_v1_entries-image :
    (es : List IndexEntryV1) → write_index_v1_entries es ≡ write (entries_bytes es)
unfolding write_index_v1_entries
write_index_v1_entries-image [] = pure-eq-write-nil
write_index_v1_entries-image (e ∷ es) =
    then-write _ _ refl (
      then-write _ _ refl (
        then-write _ _ refl
          (then-write _ _ refl (then-write _ _ refl (write_index_v1_entries-image es)))))
    ∙ ap write (sym (entry_bytes-append e (entries_bytes es)))
