-- ===== src/Archive/Index/Reader.antt =====
-- The reading half of index_v1.go, over an io.ReaderAt.
use madder.Common.{ℕ, zero, suc, ◌+◌, ◌-◌, ◌*◌, ◌/◌, ◌%◌, ◌^◌, List, [], ◌∷◌, length}
use madder.Common.{take, drop, get_or, ltb, leb, ◌==◌, if◌then◌else◌, Option, some, none}
use madder.Common.Bytes.{Bytes, below, same, above, compare_bytes, equal_bytes}
use madder.Common.BigEndian.{bytes_word}
use madder.Archive.Types.{Result, ok, err, ◌>>=◌, ◌>>◌, guard, IndexEntryV1, Digest}
use madder.Archive.Types.{
  invalid_magic, unsupported_version, hash_mismatch, short_read, out_of_rounds,
}
use madder.Archive.Types.{too_small, checksum_mismatch, hash_size_for_format}
use madder.Archive.Types.{index_file_magic, index_file_version_v1}
use madder.Archive.Index.Writer.{first_byte}

-- The `n` bytes at `off`, all of them or an error. `off` is an int64 by its bit pattern.
unfoldable pub read_at : Bytes → ℕ → ℕ → Result Bytes
read_at file n off =
    if leb (2 ^ 63) off
    then err short_read
    else if leb (off + n) (length file)
    then ok (take n (drop off file))
    else err short_read

pub record IndexReaderV1 : Type 0 where
  pub reader : Bytes
  pub total_size : ℕ
  pub hash_format_id : Bytes
  pub hash_size : ℕ
  pub entry_count : ℕ
  pub fan_out : List ℕ
  pub entries_start : ℕ

unfoldable pub header_size : IndexReaderV1 → ℕ
header_size ir = 4 + 2 + 1 + length ir.hash_format_id + 8

unfoldable pub entry_size : IndexReaderV1 → ℕ
entry_size ir = ir.hash_size + 8 + 8 + 1 + 8

unfoldable pub read_header : IndexReaderV1 → Result IndexReaderV1
read_header ir = do
  magic ← read_at ir.reader 4 0
  guard (equal_bytes magic index_file_magic) invalid_magic
  version ← read_at ir.reader 2 4
  guard (bytes_word version == index_file_version_v1) unsupported_version
  format_len ← read_at ir.reader 1 6
  format ← read_at ir.reader (get_or format_len 0 0) 7
  guard (equal_bytes format ir.hash_format_id) hash_mismatch
  count ← read_at ir.reader 8 (7 + get_or format_len 0 0)
  ok (record ir { entry_count = bytes_word count })

-- The words of the first `8 * n` bytes.
unfoldable pub words_of : ℕ → Bytes → List ℕ
words_of zero buf = []
words_of (suc n) buf = bytes_word (take 8 buf) ∷ words_of n (drop 8 buf)

unfoldable pub read_fan_out : IndexReaderV1 → Result IndexReaderV1
read_fan_out ir = do
  buf ← read_at ir.reader (256 * 8) (header_size ir)
  ok (record ir { fan_out = words_of 256 buf; entries_start = header_size ir + 256 * 8 })

unfoldable pub new_index_reader_v1 : Bytes → ℕ → Bytes → Result IndexReaderV1
new_index_reader_v1 r total_size format = do
  hash_size ← hash_size_for_format format
  ir ← read_header (record {
    reader = r;
    total_size = total_size;
    hash_format_id = format;
    hash_size = hash_size;
    entry_count = 0;
    fan_out = [];
    entries_start = 0;
  })
  read_fan_out ir

-- The fields of an entry in its `hash_size + 25` bytes.
unfoldable pub decode_entry : ℕ → Bytes → IndexEntryV1
decode_entry hash_size buf = record {
  hash = take hash_size buf;
  pack_offset = bytes_word (take 8 (drop hash_size buf));
  stored_size = bytes_word (take 8 (drop (hash_size + 8) buf));
  entry_type = get_or (drop (hash_size + 8 + 8) buf) 0 0;
  base_offset = bytes_word (take 8 (drop (hash_size + 8 + 8 + 1) buf));
}

-- The offset is computed in int64, so modulo 2^64.
unfoldable pub read_entry_at : IndexReaderV1 → ℕ → Result IndexEntryV1
read_entry_at ir index = do
  buf ← read_at ir.reader (entry_size ir) ((ir.entries_start + index * entry_size ir) % 2 ^ 64)
  ok (decode_entry ir.hash_size buf)

-- packOffset, storedSize, entryType and baseOffset of an entry that was found.
pub record Place : Type 0 where
  pub pack_offset : ℕ
  pub stored_size : ℕ
  pub entry_type : ℕ
  pub base_offset : ℕ

abbrev pub place_of : IndexEntryV1 → Place
place_of e = record {
  pack_offset = e.pack_offset;
  stored_size = e.stored_size;
  entry_type = e.entry_type;
  base_offset = e.base_offset;
}

-- for lo < hi { … }, on fuel: the range halves, so 65 rounds end it. `none` is found == false, and a
-- loop that has not ended when the rounds are used up gives `out_of_rounds`.
unfoldable pub search_range : IndexReaderV1 → Bytes → ℕ → ℕ → ℕ → Result (Option Place)
search_range ir hash zero lo hi = if ltb lo hi then err out_of_rounds else ok none
search_range ir hash (suc fuel) lo hi =
    let mid = lo + (hi - lo) / 2 in
    let left = search_range ir hash fuel lo mid in
    let right = search_range ir hash fuel (mid + 1) hi in
    if ltb lo hi
    then (do
      entry ← read_entry_at ir mid
      elim (compare_bytes hash entry.hash) [
        | same ↦ ok (some (place_of entry))
        | below ↦ left
        | above ↦ right
      ])
    else ok none

-- fanOut[firstByte-1], or 0 for the first byte 0.
abbrev pub lower_bound : IndexReaderV1 → ℕ → ℕ
lower_bound ir zero = 0
lower_bound ir (suc b) = get_or ir.fan_out b 0

unfoldable pub lookup_hash : IndexReaderV1 → Bytes → Result (Option Place)
lookup_hash ir hash = if ir.entry_count == 0 then ok none else (do
  first ← first_byte hash
  if leb (get_or ir.fan_out first 0) (lower_bound ir first)
      then ok none
      else search_range ir hash 65 (lower_bound ir first) (get_or ir.fan_out first 0))

-- for i := range ir.entryCount, with `left` rounds to go from `i` on.
unfoldable pub read_entries : IndexReaderV1 → ℕ → ℕ → Result (List IndexEntryV1)
read_entries ir zero i = ok []
read_entries ir (suc left) i = do
  entry ← read_entry_at ir i
  later ← read_entries ir left (i + 1)
  ok (entry ∷ later)

unfoldable pub read_all_entries : IndexReaderV1 → Result (List IndexEntryV1)
read_all_entries ir = read_entries ir ir.entry_count 0

unfoldable pub validate : Digest → IndexReaderV1 → Result (Unit {0})
validate digest ir = do
  guard (leb ir.hash_size ir.total_size) too_small
  stored ← read_at ir.reader ir.hash_size (ir.total_size - ir.hash_size)
  _ ← hash_size_for_format ir.hash_format_id
  content ← read_at ir.reader (ir.total_size - ir.hash_size) 0
  guard (equal_bytes (digest ir.hash_format_id content) stored) checksum_mismatch
