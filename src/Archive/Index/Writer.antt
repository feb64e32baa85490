-- ===== src/Archive/Index/Writer.antt =====
-- The writing half of index_v1.go.
use madder.Common.{ℕ, zero, suc, ◌+◌, ◌%◌, ◌^◌, List, [], ◌∷◌, length, replicate}
use madder.Common.{ltb, ◌==◌, if◌then◌else◌, Bool, true, false, not}
use madder.Common.Bytes.{Bytes, Order, below, same, above, compare_bytes}
use madder.Common.BigEndian.{word_bytes}
use madder.Archive.Types.{Result, ok, err, unsorted, hash_length, id_too_long, panic}
use madder.Archive.Types.{IndexEntryV1, Digest, hash_size_for_format}
use madder.Archive.Types.{index_file_magic, index_file_version_v1}
use madder.Archive.Stream.{Sink, Write, ◌>>=◌, ◌>>◌, pure, raise, lift, write, write_unhashed}

-- bytes.Compare(a, b) >= 0
abbrev pub at_least : Order → Bool
at_least below = false
at_least same = true
at_least above = true

-- The loop over neighbours; `i` is the index of the first of the two.
unfoldable pub check_order : ℕ → List IndexEntryV1 → Result (Unit {0})
check_order i [] = ok tt
check_order i (x ∷ []) = ok tt
check_order i (x ∷ y ∷ rest) =
    let later = check_order (i + 1) (y ∷ rest) in
    if at_least (compare_bytes x.hash y.hash) then err (unsorted i) else later

unfoldable pub check_lengths : ℕ → ℕ → List IndexEntryV1 → Result (Unit {0})
check_lengths i size [] = ok tt
check_lengths i size (x ∷ rest) =
    let later = check_lengths (i + 1) size rest in
    if not (length x.hash == size) then err (hash_length i) else later

unfoldable pub verify_sorted_v1 : List IndexEntryV1 → ℕ → Result (Unit {0})
verify_sorted_v1 entries size = elim (check_order 0 entries) [
  | ok _ ↦ check_lengths 0 size entries
  | err e ↦ err e
]

-- if len(hashFormatIdBytes) > 255
unfoldable pub reject_long : Bytes → Write (Unit {0})
reject_long format = if ltb 255 (length format) then raise id_too_long else pure tt

unfoldable pub write_index_v1_header : Bytes → ℕ → Write (Unit {0})
write_index_v1_header format entry_count = do
  write index_file_magic
  write (word_bytes 2 index_file_version_v1)
  reject_long format
  write ((length format % 256) ∷ [])
  write format
  write (word_bytes 8 entry_count)

-- for j := first; j < 256; j++ { fanOut[j]++ }
unfoldable pub bump : ℕ → List ℕ → List ℕ
bump j [] = []
bump zero (c ∷ cs) = ((c + 1) % 2 ^ 64) ∷ bump zero cs
bump (suc j) (c ∷ cs) = c ∷ bump j cs

-- entry.Hash[0]
unfoldable pub first_byte : Bytes → Result ℕ
first_byte [] = err panic
first_byte (b ∷ bs) = ok b

unfoldable pub count_fan_out : List ℕ → List IndexEntryV1 → Result (List ℕ)
count_fan_out table [] = ok table
count_fan_out table (e ∷ es) = elim (first_byte e.hash) [
  | ok first ↦ count_fan_out (bump first table) es
  | err x ↦ err x
]

unfoldable pub write_words : List ℕ → Write (Unit {0})
write_words [] = pure tt
write_words (w ∷ ws) = do write (word_bytes 8 w); write_words ws

unfoldable pub write_index_v1_fan_out : List IndexEntryV1 → Write (Unit {0})
write_index_v1_fan_out entries = do
  fan_out ← lift (count_fan_out (replicate 256 0) entries)
  write_words fan_out

unfoldable pub write_index_v1_entries : List IndexEntryV1 → Write (Unit {0})
write_index_v1_entries [] = pure tt
write_index_v1_entries (e ∷ es) = do
  write e.hash
  write (word_bytes 8 e.pack_offset)
  write (word_bytes 8 e.stored_size)
  write (e.entry_type ∷ [])
  write (word_bytes 8 e.base_offset)
  write_index_v1_entries es

-- hasher.Sum(nil)
unfoldable pub sum : Digest → Bytes → Write Bytes
sum digest format s = ok (digest format s.hashed, s)

-- The hasher starts empty.
abbrev pub fresh_hasher : Sink → Sink
fresh_hasher s = record s { hashed = [] }

unfoldable pub write_index_v1_body : Digest → Bytes → List IndexEntryV1 → Write Bytes
write_index_v1_body digest format entries = do
  size ← lift (hash_size_for_format format)
  lift (verify_sorted_v1 entries size)
  write_index_v1_header format (length entries % 2 ^ 64)
  write_index_v1_fan_out entries
  write_index_v1_entries entries
  checksum ← sum digest format
  write_unhashed checksum
  pure checksum

unfoldable pub write_index_v1 : Digest → Bytes → List IndexEntryV1 → Write Bytes
unfolding write_index_v1_body
write_index_v1 digest format entries s = write_index_v1_body digest format entries (fresh_hasher s)
