-- ===== src/Archive/Data/Reader.antt =====
-- data_reader_v1.go. The file and its position are the state; the reader's record is an argument.
use madder.Common.{ℕ, zero, suc, ◌+◌, ◌-◌, List, [], ◌∷◌, length, get_or}
use madder.Common.{true, false, leb, ◌==◌, if◌then◌else◌, Option}
use madder.Common.Bytes.{Bytes, equal_bytes}
use madder.Archive.Types.{Result, ok, err, guard, DataEntryV1, Digest, hash_size_for_format}
use madder.Archive.Types.{Error, invalid_magic, unsupported_version, unknown_entry_type, too_small}
use madder.Archive.Types.{checksum_mismatch, end_of_file, short_read, byte_to_compression_ref}
use madder.Archive.Types.{data_file_magic, data_file_version_v1, entry_type_full, entry_type_delta}
use madder.Archive.Data.Codec.{Codec, Plugins, restore}
use madder.Archive.Data.Cursor.{
  Cursor, Read, ◌>>=◌, ◌>>◌, pure, raise, lift, seek, seek_end, position,
}
use madder.Archive.Data.Cursor.{read_full, reading, read_word}

pub record DataReaderV1 : Type 0 where
  pub hash_format_id : Bytes
  pub compression_ref : Bytes
  pub encryption : Option Codec
  pub hash_size : ℕ
  pub flags : ℕ
  pub data_start : ℕ

unfoldable pub read_header : Option Codec → Read DataReaderV1
read_header encryption = do
  magic ← reading (read_full 4)
  lift (guard (equal_bytes magic data_file_magic) invalid_magic)
  version ← read_word 2
  lift (guard (version == data_file_version_v1) unsupported_version)
  format_len ← reading (read_full 1)
  format ← reading (read_full (get_or format_len 0 0))
  hash_size ← lift (hash_size_for_format format)
  compression_byte ← reading (read_full 1)
  compression_ref ← lift (byte_to_compression_ref (get_or compression_byte 0 0))
  flags ← read_word 2
  pure (record {
    hash_format_id = format;
    compression_ref = compression_ref;
    encryption = encryption;
    hash_size = hash_size;
    flags = flags;
    data_start = 4 + 2 + 1 + length format + 1 + 2;
  })

abbrev pub at_start : Bytes → Cursor
at_start file = record { file = file; pos = 0; rest = file }

unfoldable pub new_data_reader_v1 : Bytes → Option Codec → Result (DataReaderV1 × Cursor)
unfolding read_header
new_data_reader_v1 file encryption = read_header encryption (at_start file)

-- A codec's failure, wrapped.
abbrev pub codec_result : Result Bytes → Result Bytes
codec_result (ok bs) = ok bs
codec_result (err e) = err short_read

module _ (plugins : Plugins) (dr : DataReaderV1) where
  unfoldable pub read_full_entry_body : DataEntryV1 → Bytes → Read DataEntryV1
  read_full_entry_body entry ref = do
    logical_size ← read_word 8
    stored_size ← read_word 8
    stored ← reading (read_full stored_size)
    contents ← lift (codec_result (restore plugins dr.encryption ref stored))
    pure (record entry {
      logical_size = logical_size;
      stored_size = stored_size;
      contents = contents;
    })

  unfoldable pub read_delta_entry_body : DataEntryV1 → Bytes → Read DataEntryV1
  read_delta_entry_body entry ref = do
    delta_algorithm ← reading (read_full 1)
    base_hash ← reading (read_full dr.hash_size)
    logical_size ← read_word 8
    stored_size ← read_word 8
    stored ← reading (read_full stored_size)
    contents ← lift (codec_result (restore plugins dr.encryption ref stored))
    pure (record entry {
      delta_algorithm = get_or delta_algorithm 0 0;
      base_hash = base_hash;
      logical_size = logical_size;
      stored_size = stored_size;
      contents = contents;
    })

  -- switch entry.EntryType
  unfoldable pub read_entry_body : DataEntryV1 → Bytes → Read DataEntryV1
  read_entry_body entry ref =
      if entry.entry_type == entry_type_full
      then read_full_entry_body entry ref
      else if entry.entry_type == entry_type_delta
      then read_delta_entry_body entry ref
      else raise (unknown_entry_type entry.entry_type)

  unfoldable pub read_entry : Read DataEntryV1
  read_entry = do
    offset ← position
    hash ← read_full dr.hash_size
    entry_type ← reading (read_full 1)
    encoding ← reading (read_full 1)
    ref ← lift (byte_to_compression_ref (get_or encoding 0 0))
    read_entry_body
        (record {
          hash = hash;
          entry_type = get_or entry_type 0 0;
          encoding = get_or encoding 0 0;
          logical_size = 0;
          stored_size = 0;
          contents = [];
          offset = offset;
          delta_algorithm = 0;
          base_hash = [];
        })
        ref

  -- What one entry's outcome means for the loop: io.EOF ends it, any other error is returned.
  abbrev pub after_entry :
      Result (DataEntryV1 × Cursor)
      → (Cursor → Result (List DataEntryV1))
      → Result (List DataEntryV1)
  after_entry (ok (entry, c)) loop = elim (loop c) [
    | ok entries ↦ ok (entry ∷ entries)
    | err e ↦ err e
  ]
  after_entry (err end_of_file) loop = ok []
  after_entry (err e) loop = err e

  -- The loop, on fuel: each entry takes a byte at least. Running out is `panic`, which is no error
  -- that the source returns here.
  unfoldable pub read_loop : ℕ → ℕ → Cursor → Result (List DataEntryV1)
  read_loop zero entries_end c = err Error.panic
  read_loop (suc fuel) entries_end c = elim (leb entries_end c.pos) [
    | true ↦ ok []
    | false ↦ after_entry (read_entry c) (read_loop fuel entries_end)
  ]

  -- A negative end and an end of 0 stop the loop alike.
  unfoldable pub read_all_entries : Cursor → Result (List DataEntryV1)
  read_all_entries c = elim (seek dr.data_start c) [
    | ok (_, c') ↦ read_loop (suc (length c.file)) (length c.file - (8 + dr.hash_size)) c'
    | err e ↦ err e
  ]

  unfoldable pub read_entry_at : ℕ → Read DataEntryV1
  read_entry_at offset = do seek offset; read_entry

-- io.CopyN(hasher, r, n): all of the `n` bytes, or io.EOF.
unfoldable pub validate : Digest → DataReaderV1 → Read (Unit {0})
validate digest dr = do
  total_size ← seek_end
  lift (guard (leb (8 + dr.hash_size) total_size) too_small)
  seek (total_size - dr.hash_size)
  stored ← reading (read_full dr.hash_size)
  _ ← lift (hash_size_for_format dr.hash_format_id)
  seek 0
  content ← reading (read_full (total_size - dr.hash_size))
  lift (guard (equal_bytes (digest dr.hash_format_id content) stored) checksum_mismatch)
