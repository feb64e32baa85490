-- ===== src/Archive/Cache/Reader.antt =====
-- The reading half of cache_v1.go, over an io.ReaderAt.
use madder.Common.{ℕ, zero, suc, ◌+◌, ◌-◌, ◌*◌, ◌%◌, ◌^◌, List, [], ◌∷◌}
use madder.Common.{take, drop, get_or, leb, ◌==◌}
use madder.Common.Bytes.{Bytes, equal_bytes}
use madder.Common.BigEndian.{bytes_word}
use madder.Common.Tables.{Table, insert_all}
use madder.Archive.Types.{Result, ok, ◌>>=◌, ◌>>◌, guard, CacheEntryV1, Digest}
use madder.Archive.Types.{invalid_magic, unsupported_version, hash_mismatch}
use madder.Archive.Types.{too_small, checksum_mismatch, hash_size_for_format}
use madder.Archive.Types.{cache_file_magic, cache_file_version_v1}
use madder.Archive.Index.Reader.{read_at}

pub record CacheReaderV1 : Type 0 where
  pub reader : Bytes
  pub total_size : ℕ
  pub hash_format_id : Bytes
  pub hash_size : ℕ
  pub entry_count : ℕ
  pub entries_start : ℕ

unfoldable pub read_header : CacheReaderV1 → Result CacheReaderV1
read_header cr = do
  magic ← read_at cr.reader 4 0
  guard (equal_bytes magic cache_file_magic) invalid_magic
  version ← read_at cr.reader 2 4
  guard (bytes_word version == cache_file_version_v1) unsupported_version
  format_len ← read_at cr.reader 1 6
  format ← read_at cr.reader (get_or format_len 0 0) 7
  guard (equal_bytes format cr.hash_format_id) hash_mismatch
  count ← read_at cr.reader 8 (7 + get_or format_len 0 0)
  ok (record cr {
    entry_count = bytes_word count;
    entries_start = 4 + 2 + 1 + get_or format_len 0 0 + 8;
  })

unfoldable pub new_cache_reader_v1 : Bytes → ℕ → Bytes → Result CacheReaderV1
new_cache_reader_v1 r total_size format = do
  hash_size ← hash_size_for_format format
  read_header (record {
    reader = r;
    total_size = total_size;
    hash_format_id = format;
    hash_size = hash_size;
    entry_count = 0;
    entries_start = 0;
  })

unfoldable pub cache_entry_size : CacheReaderV1 → ℕ
cache_entry_size cr = cr.hash_size + cr.hash_size + 8 + 8 + 1 + 8

-- The fields of an entry in its bytes.
unfoldable pub decode_cache_entry : ℕ → Bytes → CacheEntryV1
decode_cache_entry n buf = record {
  hash = take n buf;
  archive_checksum = take n (drop n buf);
  offset = bytes_word (take 8 (drop (n + n) buf));
  stored_size = bytes_word (take 8 (drop (n + n + 8) buf));
  entry_type = get_or (drop (n + n + 8 + 8) buf) 0 0;
  base_offset = bytes_word (take 8 (drop (n + n + 8 + 8 + 1) buf));
}

-- The offset is computed in int64, so modulo 2^64.
unfoldable pub read_entry_at : CacheReaderV1 → ℕ → Result CacheEntryV1
read_entry_at cr index = do
  buf ←
      read_at cr.reader (cache_entry_size cr)
        ((cr.entries_start + index * cache_entry_size cr) % 2 ^ 64)
  ok (decode_cache_entry cr.hash_size buf)

-- for i := range cr.entryCount, with `left` rounds to go from `i` on.
unfoldable pub read_cache_entries : CacheReaderV1 → ℕ → ℕ → Result (List CacheEntryV1)
read_cache_entries cr zero i = ok []
read_cache_entries cr (suc left) i = do
  entry ← read_entry_at cr i
  later ← read_cache_entries cr left (i + 1)
  ok (entry ∷ later)

unfoldable pub read_all_entries : CacheReaderV1 → Result (List CacheEntryV1)
read_all_entries cr = read_cache_entries cr cr.entry_count 0

unfoldable pub validate : Digest → CacheReaderV1 → Result (Unit {0})
validate digest cr = do
  guard (leb cr.hash_size cr.total_size) too_small
  stored ← read_at cr.reader cr.hash_size (cr.total_size - cr.hash_size)
  _ ← hash_size_for_format cr.hash_format_id
  content ← read_at cr.reader (cr.total_size - cr.hash_size) 0
  guard (equal_bytes (digest cr.hash_format_id content) stored) checksum_mismatch

-- The map of the entries by their hashes.
unfoldable pub to_map_v1 : List CacheEntryV1 → Table CacheEntryV1
unfolding insert_all
to_map_v1 entries = insert_all (λ e. e.hash) (λ e. e) entries []
