-- ===== src/Archive/Data/Writer.antt =====
-- data_writer_v1.go. A method takes the writer's record and gives back the new one.
use madder.Common.{ℕ, ◌+◌, ◌%◌, ◌^◌, List, [], ◌∷◌, ◌++◌, length, Option, none, some}
use madder.Common.Bytes.{Bytes}
use madder.Common.BigEndian.{word_bytes}
use madder.Archive.Types.{DataEntryV1, Digest, hash_size_for_format}
use madder.Archive.Types.{compression_ref_to_byte, data_file_magic, data_file_version_v1}
use madder.Archive.Types.{entry_type_full, entry_type_delta, flag_has_encryption_v1}
use madder.Archive.Stream.{Write, ◌>>=◌, ◌>>◌, pure, lift, write, write_unhashed}
use madder.Archive.Index.Writer.{reject_long, sum, fresh_hasher}
use madder.Archive.Data.Codec.{Codec, Plugins, store}
use Prim.Native.Nat.{bit_or}

pub record DataWriterV1 : Type 0 where
  pub hash_format_id : Bytes
  pub compression_ref : Bytes
  pub encryption : Option Codec
  pub hash_size : ℕ
  pub flags : ℕ
  pub entries : List DataEntryV1
  pub offset : ℕ

unfoldable pub write_header : DataWriterV1 → Write DataWriterV1
write_header dw = do
  write data_file_magic
  write (word_bytes 2 data_file_version_v1)
  reject_long dw.hash_format_id
  write ((length dw.hash_format_id % 256) ∷ [])
  write dw.hash_format_id
  compression_byte ← lift (compression_ref_to_byte dw.compression_ref)
  write (compression_byte ∷ [])
  write (word_bytes 2 dw.flags)
  pure (record dw { offset = 4 + 2 + 1 + length dw.hash_format_id + 1 + 2 })

abbrev pub with_encryption_flag : Option Codec → ℕ → ℕ
with_encryption_flag none flags = flags
with_encryption_flag (some _) flags = bit_or flags flag_has_encryption_v1

unfoldable pub new_data_writer_v1_body : Bytes → Bytes → ℕ → Option Codec → Write DataWriterV1
new_data_writer_v1_body format compression_ref flags encryption = do
  hash_size ← lift (hash_size_for_format format)
  write_header (record {
    hash_format_id = format;
    compression_ref = compression_ref;
    encryption = encryption;
    hash_size = hash_size;
    flags = with_encryption_flag encryption flags;
    entries = [];
    offset = 0;
  })

-- The hasher is new.
unfoldable pub new_data_writer_v1 : Bytes → Bytes → ℕ → Option Codec → Write DataWriterV1
unfolding new_data_writer_v1_body
new_data_writer_v1 format compression_ref flags encryption s =
    new_data_writer_v1_body format compression_ref flags encryption (fresh_hasher s)

module _ (plugins : Plugins) (dw : DataWriterV1) where
  unfoldable pub write_full_entry : Bytes → Bytes → Write DataWriterV1
  write_full_entry entry_hash plain = do
    encoding ← lift (compression_ref_to_byte dw.compression_ref)
    write entry_hash
    write (entry_type_full ∷ [])
    write (encoding ∷ [])
    stored ← lift (store plugins dw.encryption dw.compression_ref plain)
    write (word_bytes 8 (length plain % 2 ^ 64))
    write (word_bytes 8 (length stored % 2 ^ 64))
    write stored
    pure (record dw {
      entries =
          dw.entries
          ++ (record {
            hash = entry_hash;
            entry_type = entry_type_full;
            encoding = encoding;
            logical_size = length plain % 2 ^ 64;
            stored_size = length stored % 2 ^ 64;
            contents = [];
            offset = dw.offset;
            delta_algorithm = 0;
            base_hash = [];
          }
              ∷ []);
      offset = (dw.offset + (length entry_hash + 1 + 1 + 8 + 8 + length stored % 2 ^ 64)) % 2 ^ 64;
    })

  unfoldable pub write_delta_entry : Bytes → ℕ → Bytes → ℕ → Bytes → Write DataWriterV1
  write_delta_entry entry_hash delta_algorithm base_hash logical_size payload = do
    encoding ← lift (compression_ref_to_byte dw.compression_ref)
    write entry_hash
    write (entry_type_delta ∷ [])
    write (encoding ∷ [])
    write (delta_algorithm ∷ [])
    write base_hash
    stored ← lift (store plugins dw.encryption dw.compression_ref payload)
    write (word_bytes 8 logical_size)
    write (word_bytes 8 (length stored % 2 ^ 64))
    write stored
    pure (record dw {
      entries =
          dw.entries
          ++ (record {
            hash = entry_hash;
            entry_type = entry_type_delta;
            encoding = encoding;
            logical_size = logical_size;
            stored_size = length stored % 2 ^ 64;
            contents = [];
            offset = dw.offset;
            delta_algorithm = delta_algorithm;
            base_hash = base_hash;
          }
              ∷ []);
      offset =
          (dw.offset
            + (length entry_hash + 1 + 1 + 1 + length base_hash + 8 + 8 + length stored % 2 ^ 64))
          % 2 ^ 64;
    })

-- The checksum and the entries.
unfoldable pub close : Digest → DataWriterV1 → Write (Bytes × List DataEntryV1)
close digest dw = do
  write (word_bytes 8 (length dw.entries % 2 ^ 64))
  checksum ← sum digest dw.hash_format_id
  write_unhashed checksum
  pure (checksum, dw.entries)
