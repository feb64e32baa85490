-- ===== src/Archive/Data/Opening.antt =====
-- The header of an archive file: what `NewDataWriterV1` writes, `NewDataReaderV1` reads.
use madder.Common.{ℕ, ◌+◌, ◌%◌, ◌≤◌, ◌≡◌, refl, sym, ap, ◌∙◌, arith, [], ◌∷◌, ◌++◌}
use madder.Common.{append_assoc, length, length-append, Option, if◌then◌else◌, le→ltb}
use madder.Common.Bytes.{Bytes, codes, equal_bytes, equal_bytes→eq}
use madder.Common.BigEndian.{word_bytes, length-word_bytes}
use madder.Archive.Types.{ok, Error, IsU16, hash_size_for_format, guard}
use madder.Archive.Types.{compression_ref_to_byte}
use madder.Archive.Types.{data_file_magic, data_file_version_v1}
use madder.Archive.Exec.{lift-ok}
use madder.Archive.Stream.{Sink, Write, ◌>>◌, write-ok}
use madder.Archive.Index.Writer.{reject_long}
use madder.Archive.Data.Codec.{Codec}
use madder.Archive.Data.Writer.{DataWriterV1, new_data_writer_v1, new_data_writer_v1_body}
use madder.Archive.Data.Writer.{write_header, with_encryption_flag}
use madder.Archive.Data.Reader.{DataReaderV1, read_header, at_start}
use madder.Archive.Data.Entry.{byte_to_compression_ref-of}
use madder.Archive.Data.Steps.{reading-then, read_word-then, lift-then}
use madder.Archive.Data.Wrote.{returned, left_in}

abbrev pub header_bytes : Bytes → ℕ → ℕ → Bytes
header_bytes format compression_byte flags =
    data_file_magic
    ++ (word_bytes 2 data_file_version_v1
        ++ ((length format % 256 ∷ [])
            ++ (format ++ ((compression_byte ∷ []) ++ word_bytes 2 flags))))

pub length-header_bytes :
    (format : Bytes) (b flags : ℕ)
    → length (header_bytes format b flags) ≡ 4 + 2 + 1 + length format + 1 + 2
length-header_bytes format b flags = simp (length-append, length-word_bytes) (omega arith)

-- The names of the digests are short.
pub hash_size_for_format_short :
    (format : Bytes) {n : ℕ} → hash_size_for_format format ≡ ok n → length format ≤ 255
unfolding hash_size_for_format
hash_size_for_format_short format h = ground (
  arith,
  equal_bytes→eq format (codes "sha256"),
  equal_bytes→eq format (codes "sha512"),
  equal_bytes→eq format (codes "blake2b256"),
  equal_bytes→eq format (codes "blake2b512"),
)

reject_long-then :
    {B : Type 0} (format : Bytes) (k : Write B) (s : Sink)
    → length format ≤ 255
    → (reject_long format >> k) s ≡ k s
unfolding reject_long
reject_long-then format k s h = rw (le→ltb 255 (length format) h, if◌then◌else◌)

-- What a new writer has done.
pub record Opened (format ref : Bytes) (flags : ℕ) (encryption : Option Codec) (s : Sink)
    (dw : DataWriterV1) (s' : Sink) : Type 0 where
  pub hash_size : ℕ
  pub sized : hash_size_for_format format ≡ ok hash_size
  pub compression_byte : ℕ
  pub encoded : compression_ref_to_byte ref ≡ ok compression_byte
  pub written :
      s'.written
      ≡ s.written ++ header_bytes format compression_byte (with_encryption_flag encryption flags)
  pub hashed :
      s'.hashed ≡ header_bytes format compression_byte (with_encryption_flag encryption flags)
  pub writer : dw ≡ record {
    hash_format_id = format;
    compression_ref = ref;
    encryption = encryption;
    hash_size = hash_size;
    flags = with_encryption_flag encryption flags;
    entries = [];
    offset = 4 + 2 + 1 + length format + 1 + 2;
  }

regroup :
    (w a b c d e f : Bytes)
    → (((((w ++ a) ++ b) ++ c) ++ d) ++ e) ++ f ≡ w ++ (a ++ (b ++ (c ++ (d ++ (e ++ f)))))
regroup w a b c d e f = simp append_assoc

pub new_data_writer_v1-Opened :
    (format ref : Bytes) (flags : ℕ) (encryption : Option Codec) (s s' : Sink) (dw : DataWriterV1)
    → new_data_writer_v1 format ref flags encryption s ≡ ok (dw, s')
    → Opened format ref flags encryption s dw s'
unfolding new_data_writer_v1 new_data_writer_v1_body write_header
new_data_writer_v1-Opened format ref flags encryption s s' dw h =
    let (n, sized, h1) = lift-ok (hash_size_for_format format) _ _ h in
    let h2 = write-ok data_file_magic _ _ h1 in
    let h3 = write-ok (word_bytes 2 data_file_version_v1) _ _ h2 in
    let h4 = sym (reject_long-then format _ _ (hash_size_for_format_short format sized)) ∙ h3 in
    let h5 = write-ok (length format % 256 ∷ []) _ _ h4 in
    let h6 = write-ok format _ _ h5 in
    let (b, encoded, h7) = lift-ok (compression_ref_to_byte ref) _ _ h6 in
    let h8 = write-ok (b ∷ []) _ _ h7 in
    let h9 = write-ok (word_bytes 2 (with_encryption_flag encryption flags)) _ _ h8 in
    record {
      hash_size = n;
      sized = sized;
      compression_byte = b;
      encoded = encoded;
      written =
          sym (ap (λ r. (left_in s r).written) h9)
          ∙ regroup s.written data_file_magic (word_bytes 2 data_file_version_v1)
              (length format % 256 ∷ []) format (b ∷ [])
              (word_bytes 2 (with_encryption_flag encryption flags));
      hashed =
          sym (ap (λ r. (left_in s r).hashed) h9)
          ∙ regroup [] data_file_magic (word_bytes 2 data_file_version_v1)
              (length format % 256 ∷ []) format (b ∷ [])
              (word_bytes 2 (with_encryption_flag encryption flags));
      writer = sym (ap (returned dw) h9);
    }

header_bytes-append :
    (format more : Bytes) (b flags : ℕ)
    → header_bytes format b flags ++ more
      ≡ data_file_magic
        ++ (word_bytes 2 data_file_version_v1
            ++ ((length format % 256 ∷ [])
                ++ (format ++ ((b ∷ []) ++ (word_bytes 2 flags ++ more)))))
header_bytes-append format more b flags = simp append_assoc

module _ (format ref : Bytes) (n b flags : ℕ) (encryption : Option Codec)
    (sized : hash_size_for_format format ≡ ok n) (encoded : compression_ref_to_byte ref ≡ ok b)
    (range : IsU16 flags) where
  abbrev pub reader : DataReaderV1
  reader = record {
    hash_format_id = format;
    compression_ref = ref;
    encryption = encryption;
    hash_size = n;
    flags = flags;
    data_start = 4 + 2 + 1 + length format + 1 + 2;
  }

  format_len : length format % 256 ≡ length format
  format_len = omega (arith, hash_size_for_format_short format sized)

  magic_passed : guard (equal_bytes data_file_magic data_file_magic) Error.invalid_magic ≡ ok tt
  unfolding equal_bytes
  magic_passed = refl

  pub read_header-header_bytes :
      (more : Bytes)
      → read_header encryption (at_start (header_bytes format b flags ++ more))
        ≡ ok (
          reader,
          record {
            file = header_bytes format b flags ++ more;
            pos = 4 + 2 + 1 + length format + 1 + 2;
            rest = more;
          },
        )
  unfolding read_header
  read_header-header_bytes more =
      reading-then (at_start (header_bytes format b flags ++ more)) 4 data_file_magic _
        (header_bytes-append format more b flags) refl _
      ∙ lift-then _ _ _ magic_passed
      ∙ read_word-then _ 2 data_file_version_v1 _ refl (omega arith) _
      ∙ reading-then _ 1 (length format % 256 ∷ []) _ refl refl _
      ∙ reading-then _ (length format % 256) format _ refl (sym format_len) _
      ∙ lift-then _ _ _ sized
      ∙ reading-then _ 1 (b ∷ []) _ refl refl _
      ∙ lift-then _ _ _ (byte_to_compression_ref-of ref b encoded)
      ∙ read_word-then _ 2 flags more refl (omega arith) _
      ∙ ap
          (λ p.
            ok
              (reader, record { file = header_bytes format b flags ++ more; pos = p; rest = more }))
          (omega (arith, format_len))
