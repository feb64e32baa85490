-- ===== src/Archive/Data/WholeFile.antt =====
-- An archive file from the first byte to the last: opened, filled by a run of calls, closed, and
-- opened again by the reader.
use madder.Common.{ℕ, ◌+◌, ◌%◌, ◌^◌, ◌<◌, ◌≡◌, refl, sym, ap, ◌∙◌, arith, All}
use madder.Common.{List, [], ◌++◌, append_assoc, append-nil, length, length-append}
use madder.Common.{Option}
use madder.Common.Bytes.{Bytes}
use madder.Common.BigEndian.{word_bytes, length-word_bytes}
use madder.Archive.Types.{
  Result, ok, err, DataEntryV1, Digest, IsSized, IsU16, hash_size_for_format,
}
use madder.Archive.Exec.{then-ok}
use madder.Archive.Stream.{Sink, Write, ◌>>=◌, write-ok, write_unhashed-ok}
use madder.Archive.Data.Codec.{Codec, Plugins, AllLossless}
use madder.Archive.Data.Cursor.{Cursor}
use madder.Archive.Data.Writer.{DataWriterV1, new_data_writer_v1, with_encryption_flag, close}
use madder.Archive.Data.Reader.{DataReaderV1, new_data_reader_v1}
use madder.Archive.Data.Chain.{Chain, done}
use madder.Archive.Data.Session.{Call, IsCall, write_calls, Session, AllHold, recorded}
use madder.Archive.Data.Opening.{Opened, header_bytes, length-header_bytes, reader}
use madder.Archive.Data.Opening.{new_data_writer_v1-Opened, read_header-header_bytes}
use madder.Archive.Data.Runs.{write_calls-Session}
use madder.Archive.Index.Writer.{sum}
use mathlib.Core.Path.{subst}
use mathlib.Core.List.{map}

-- A writer that is opened, used for these calls, and closed.
unfoldable pub write_archive :
    Plugins
    → Digest
    → Bytes
    → Bytes
    → ℕ
    → Option Codec
    → List Call
    → Write (Bytes × List DataEntryV1)
write_archive plugins digest format ref flags encryption calls = do
  dw ← new_data_writer_v1 format ref flags encryption
  dw' ← write_calls plugins dw calls
  close digest dw'

module _ (digest : Digest) (dw : DataWriterV1) where
  -- What `Close` leaves behind the entries.
  abbrev pub footer_bytes : Bytes → Bytes
  footer_bytes hashed =
      word_bytes 8 (length dw.entries % 2 ^ 64)
      ++ digest dw.hash_format_id (hashed ++ word_bytes 8 (length dw.entries % 2 ^ 64))

  sink_of : Sink → Result ((Bytes × List DataEntryV1) × Sink) → Sink
  sink_of s (ok (x, t)) = t
  sink_of s (err e) = s

  entries_of : Result ((Bytes × List DataEntryV1) × Sink) → List DataEntryV1
  entries_of (ok (x, t)) = x.1
  entries_of (err e) = []

  close_ok :
      (s s' : Sink) (checksum : Bytes) (entries : List DataEntryV1)
      → close digest dw s ≡ ok ((checksum, entries), s')
      → (s'.written ≡ s.written ++ footer_bytes s.hashed) × (entries ≡ dw.entries)
  unfolding close sum sink_of entries_of
  close_ok s s' checksum entries h =
      let h1 = write-ok (word_bytes 8 (length dw.entries % 2 ^ 64)) _ s h in
      let h2 =
        write_unhashed-ok
          (digest dw.hash_format_id (s.hashed ++ word_bytes 8 (length dw.entries % 2 ^ 64))) _ _
          h1 in
      (
        sym (ap (λ r. (sink_of s r).written) h2)
            ∙ append_assoc s.written (word_bytes 8 (length dw.entries % 2 ^ 64)) _,
        sym (ap entries_of h2),
      )

-- A file that was written whole, and the reader that it opens as.
pub record Archived (plugins : Plugins) (digest : Digest) (format : Bytes) (n : ℕ)
    (encryption : Option Codec) (calls : List Call) (entries : List DataEntryV1) (s' : Sink)
    : Type 0 where
  pub dr : DataReaderV1
  pub cursor : Cursor
  pub opens : new_data_reader_v1 s'.written encryption ≡ ok (dr, cursor)
  pub file : cursor.file ≡ s'.written
  pub format_kept : dr.hash_format_id ≡ format
  pub size_kept : dr.hash_size ≡ n
  pub head : Bytes
  pub bytes : Bytes
  pub count : Bytes
  pub checksum : Bytes
  pub es : List DataEntryV1
  pub written : s'.written ≡ head ++ (bytes ++ (count ++ checksum))
  pub chain : Chain plugins dr (length head) es bytes
  pub start : dr.data_start ≡ length head
  pub end : length (count ++ checksum) ≡ 8 + dr.hash_size
  pub checksum_eq : checksum ≡ digest format ((head ++ bytes) ++ count)
  pub checksum_length : length checksum ≡ n
  pub held : AllHold calls es
  pub recorded_eq : entries ≡ map recorded es

module _ (plugins : Plugins) (digest : Digest) (format ref : Bytes) (flags : ℕ)
    (encryption : Option Codec) (calls : List Call) (n : ℕ) (s s' : Sink) (checksum : Bytes)
    (entries : List DataEntryV1) (sized : hash_size_for_format format ≡ ok n)
    (lossless : AllLossless plugins encryption) (ranges : All (IsCall n) calls)
    (range : IsU16 (with_encryption_flag encryption flags)) (digest_sized : IsSized digest)
    (empty : s.written ≡ [])
    (h : write_archive plugins digest format ref flags encryption calls s
      ≡ ok ((checksum, entries), s'))
    (small : length s'.written < 2 ^ 63) where
  start-Session :
      (dw : DataWriterV1) (s1 : Sink) (o : Opened format ref flags encryption s dw s1)
      → Session plugins
          (reader format ref o.hash_size o.compression_byte
            (with_encryption_flag encryption flags)
            encryption
            o.sized
            o.encoded
            range)
          (header_bytes format o.compression_byte (with_encryption_flag encryption flags))
          dw
          s1
          []
  start-Session dw s1 o = record {
    bytes = [];
    written =
        o.written
        ∙ ap
            (λ w.
              w ++ header_bytes format o.compression_byte (with_encryption_flag encryption flags))
            empty
        ∙ sym (append-nil _);
    hashed = o.hashed ∙ sym (append-nil _);
    chain = done;
    offset =
        ap (λ (d : DataWriterV1). d.offset) o.writer
        ∙ sym (
            ap (length {A = ℕ}) (
              o.written
              ∙ ap
                  (λ w.
                    w
                    ++ header_bytes format o.compression_byte
                        (with_encryption_flag encryption flags))
                  empty)
            ∙ length-header_bytes format o.compression_byte
                (with_encryption_flag encryption flags));
    format = ap (λ (d : DataWriterV1). d.hash_format_id) o.writer;
    compression = ap (λ (d : DataWriterV1). d.compression_ref) o.writer;
    encryption = ap (λ (d : DataWriterV1). d.encryption) o.writer;
    entries = ap (λ (d : DataWriterV1). d.entries) o.writer;
  }

  finished :
      (dw dw' : DataWriterV1) (s1 s2 : Sink) (es : List DataEntryV1)
      (o : Opened format ref flags encryption s dw s1)
      → Session plugins
          (reader format ref o.hash_size o.compression_byte
            (with_encryption_flag encryption flags)
            encryption
            o.sized
            o.encoded
            range)
          (header_bytes format o.compression_byte (with_encryption_flag encryption flags))
          dw'
          s2
          es
      → AllHold calls es
      → s'.written ≡ s2.written ++ footer_bytes digest dw' s2.hashed
      → entries ≡ dw'.entries
      → o.hash_size ≡ n
      → Archived plugins digest format n encryption calls entries s'
  unfolding new_data_reader_v1
  finished dw dw' s1 s2 es o session held written returned_entries same =
      let flags' = with_encryption_flag encryption flags in
      let head = header_bytes format o.compression_byte flags' in
      let count = word_bytes 8 (length dw'.entries % 2 ^ 64) in
      let checksum = digest dw'.hash_format_id (s2.hashed ++ count) in
      let file : s'.written ≡ head ++ (session.bytes ++ (count ++ checksum)) =
        written
        ∙ ap (λ w. w ++ (count ++ checksum)) session.written
        ∙ append_assoc head session.bytes (count ++ checksum) in
      let long : length checksum ≡ n =
        digest_sized dw'.hash_format_id (s2.hashed ++ count) n
          (ap hash_size_for_format session.format ∙ sized) in
      record {
        dr =
            reader format ref o.hash_size o.compression_byte flags' encryption o.sized o.encoded
              range;
        cursor = record {
          file = head ++ (session.bytes ++ (count ++ checksum));
          pos = 4 + 2 + 1 + length format + 1 + 2;
          rest = session.bytes ++ (count ++ checksum);
        };
        opens =
            ap (λ w. new_data_reader_v1 w encryption) file
            ∙ read_header-header_bytes format ref o.hash_size o.compression_byte flags' encryption
                o.sized o.encoded range (session.bytes ++ (count ++ checksum));
        file = sym file;
        format_kept = refl;
        size_kept = same;
        head = head;
        bytes = session.bytes;
        count = count;
        checksum = checksum;
        es = es;
        written = file;
        chain = session.chain;
        start = sym (length-header_bytes format o.compression_byte flags');
        end =
            length-append count checksum
            ∙ omega (arith, long, same, length-word_bytes 8 (length dw'.entries % 2 ^ 64));
        checksum_eq = (λ i. digest (session.format i) (session.hashed i ++ count));
        checksum_length = long;
        held = held;
        recorded_eq = returned_entries ∙ session.entries;
      }

  pub archived : Archived plugins digest format n encryption calls entries s'
  unfolding write_archive new_data_reader_v1
  archived =
      let (dw, s1, opening, h1) = then-ok (new_data_writer_v1 format ref flags encryption) _ s h in
      let (dw', s2, running, closing) = then-ok (write_calls plugins dw calls) _ s1 h1 in
      let o = new_data_writer_v1-Opened format ref flags encryption s s1 dw opening in
      let same : o.hash_size ≡ n = same_size (sym o.sized ∙ sized) in
      let (written, returned_entries) = close_ok digest dw' s2 s' checksum entries closing in
      let dr =
        reader format ref o.hash_size o.compression_byte (with_encryption_flag encryption flags)
          encryption o.sized o.encoded range in
      let (es, held, session) =
        write_calls-Session plugins dr _ lossless calls dw dw' s1 s2 [] (start-Session dw s1 o)
          (subst (λ k. All (IsCall k) calls) (sym same) ranges) running
          (omega (
            arith,
            ap (length {A = ℕ}) written,
            length-append s2.written (footer_bytes digest dw' s2.hashed),
          )) in
      finished dw dw' s1 s2 es o session held written returned_entries same
    where
      same_size : {a b : ℕ} → ok a ≡ ok b → a ≡ b
      same_size e = cc
