-- ===== src/Archive/Index/Opened.antt =====
-- What the index reader sees in a file that the writer wrote.
use madder.Common.{ℕ, ◌+◌, ◌%◌, ◌≤◌, ◌≡◌, refl, ap, ◌∙◌, arith}
use madder.Common.{length}
use madder.Common.Bytes.{Bytes, equal_bytes_refl}
use madder.Common.BigEndian.{bytes_word-word_bytes}
use madder.Archive.Types.{ok, IsU64}
use madder.Archive.Types.{index_file_magic, index_file_version_v1}
use madder.Archive.Index.Reader.{IndexReaderV1, read_at, read_header}
use madder.Archive.Headed.{headed, magic_read, version_read, length_read, format_read, count_read}

pub read_header-headed :
    (ir : IndexReaderV1) (count : ℕ) (rest : Bytes)
    → length ir.hash_format_id ≤ 255
    → IsU64 count
    → ir.reader ≡ headed index_file_magic index_file_version_v1 ir.hash_format_id count rest
    → read_header ir ≡ ok (record ir { entry_count = count })
unfolding read_header
read_header-headed ir count rest short few e = rw (
  (ap (λ file. read_at file 4 0) e
      ∙ magic_read index_file_magic index_file_version_v1 ir.hash_format_id count rest refl short),
  equal_bytes_refl index_file_magic,
  (ap (λ file. read_at file 2 4) e
      ∙ version_read index_file_magic index_file_version_v1 ir.hash_format_id count rest refl
          short),
  bytes_word-word_bytes 2 index_file_version_v1 (omega arith),
  (ap (λ file. read_at file 1 6) e
      ∙ length_read index_file_magic index_file_version_v1 ir.hash_format_id count rest refl short),
  (ap (λ file. read_at file (length ir.hash_format_id % 256) 7) e
      ∙ format_read index_file_magic index_file_version_v1 ir.hash_format_id count rest refl short),
  equal_bytes_refl ir.hash_format_id,
  (ap (λ file. read_at file 8 (7 + length ir.hash_format_id % 256)) e
      ∙ count_read index_file_magic index_file_version_v1 ir.hash_format_id count rest refl short),
  bytes_word-word_bytes 8 count few,
)
