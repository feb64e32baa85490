-- ===== src/Archive/Data/Session.antt =====
-- An archive writer in the middle of its work, and what stands in its sink.
use madder.Common.{ℕ, ◌+◌, ◌%◌, ◌^◌, ◌≤◌, ◌<◌, ◌≡◌, sym, ap, ◌∙◌, arith}
use madder.Common.{List, [], ◌∷◌, ◌++◌, append_assoc, length, length-append}
use madder.Common.Bytes.{Bytes}
use madder.Archive.Types.{DataEntryV1, IsU64, entry_type_full, entry_type_delta}
use madder.Archive.Exec.{pure}
use madder.Archive.Stream.{Sink, Write, ◌>>=◌}
use madder.Archive.Data.Codec.{Plugins}
use madder.Archive.Data.Writer.{DataWriterV1, write_full_entry, write_delta_entry}
use madder.Archive.Data.Reader.{DataReaderV1}
use madder.Archive.Data.Wrote.{Wrote}
use madder.Archive.Data.Chain.{Chain, ReadsAs, snoc}
use mathlib.Core.List.{map, map-append}
use native.Mathlib.Nat.{mod-eq_of_lt}

-- One call of the writer, for a blob or for a delta.
pub data Call : Type 0 where
  full : Bytes → Bytes → Call
  delta : Bytes → ℕ → Bytes → ℕ → Bytes → Call

abbrev pub plain_of : Call → Bytes
plain_of (full entry_hash plain) = plain
plain_of (delta entry_hash alg base_hash logical_size payload) = payload

-- The lengths of the hashes, and the ranges of Go's types.
abbrev pub IsCall : ℕ → Call → Type 0
IsCall n (full entry_hash plain) = (length entry_hash ≡ n) × IsU64 (length plain)
IsCall n (delta entry_hash alg base_hash logical_size payload) =
    (length entry_hash ≡ n) × (length base_hash ≡ n) × IsU64 logical_size

-- Entries as the writer records them, without their contents.
abbrev pub recorded : DataEntryV1 → DataEntryV1
recorded e = record e { contents = [] }

module _ (plugins : Plugins) where
  unfoldable pub write_call : DataWriterV1 → Call → Write DataWriterV1
  write_call dw (full entry_hash plain) = write_full_entry plugins dw entry_hash plain
  write_call dw (delta entry_hash alg base_hash logical_size payload) =
      write_delta_entry plugins dw entry_hash alg base_hash logical_size payload

  unfoldable pub write_calls : DataWriterV1 → List Call → Write DataWriterV1
  write_calls dw [] = pure dw
  write_calls dw (c ∷ cs) = do dw' ← write_call dw c; write_calls dw' cs

  pub record Session (dr : DataReaderV1) (head : Bytes) (dw : DataWriterV1) (s : Sink)
      (es : List DataEntryV1) : Type 0 where
    pub bytes : Bytes
    pub written : s.written ≡ head ++ bytes
    pub hashed : s.hashed ≡ head ++ bytes
    pub chain : Chain plugins dr (length head) es bytes
    pub offset : dw.offset ≡ length s.written
    pub format : dw.hash_format_id ≡ dr.hash_format_id
    pub compression : dw.compression_ref ≡ dr.compression_ref
    pub encryption : dw.encryption ≡ dr.encryption
    pub entries : dw.entries ≡ map recorded es

-- What a call asks for, and an entry that holds it.
abbrev pub Holds : Call → DataEntryV1 → Type 0
Holds (full entry_hash plain) e =
    (e.hash ≡ entry_hash)
    × (e.entry_type ≡ entry_type_full)
    × (e.logical_size ≡ length plain)
    × (e.contents ≡ plain)
Holds (delta entry_hash alg base_hash logical_size payload) e =
    (e.hash ≡ entry_hash)
    × (e.entry_type ≡ entry_type_delta)
    × (e.delta_algorithm ≡ alg)
    × (e.base_hash ≡ base_hash)
    × (e.logical_size ≡ logical_size)
    × (e.contents ≡ payload)

abbrev pub AllHold : List Call → List DataEntryV1 → Type 0
AllHold [] [] = Unit
AllHold (c ∷ cs) (e ∷ es) = Holds c e × AllHold cs es
AllHold _ _ = ⊥

abbrev pub filled : DataEntryV1 → Bytes → DataEntryV1
filled e plain = record e { contents = plain }

module _ (plugins : Plugins) (dr : DataReaderV1) (head : Bytes) (dw dw' : DataWriterV1)
    (s s' : Sink) (es : List DataEntryV1) (plain : Bytes) (entry : ℕ → Bytes → DataEntryV1)
    (image : DataEntryV1 → Bytes → Bytes) (session : Session plugins dr head dw s es)
    (w : Wrote plugins dw s plain entry image dw' s') (small : length s'.written < 2 ^ 63) where
  pub written_length :
      length s'.written ≡ length s.written + length (image (entry w.encoding w.stored) w.stored)
  written_length =
      ap (length {A = ℕ}) w.written
      ∙ length-append s.written (image (entry w.encoding w.stored) w.stored)

  pub here : dw.offset ≡ length head + length session.bytes
  here = session.offset ∙ ap (length {A = ℕ}) session.written ∙ length-append head session.bytes

  unfilled_eq : (e : DataEntryV1) → e.contents ≡ [] → e ≡ recorded (filled e plain)
  unfilled_eq e h = λ i. record e { contents = h i }

  -- One more entry, once its image is known to be read back.
  pub extend :
      (entry w.encoding w.stored).offset ≡ dw.offset
      → (entry w.encoding w.stored).contents ≡ []
      → 0 < length (image (entry w.encoding w.stored) w.stored)
      → length w.stored ≤ length (image (entry w.encoding w.stored) w.stored)
      → ReadsAs plugins dr
          (length head + length session.bytes)
          (filled (entry w.encoding w.stored) plain)
          (image (entry w.encoding w.stored) w.stored)
      → Session plugins dr head dw' s' (es ++ (filled (entry w.encoding w.stored) plain ∷ []))
  extend at blank nonempty inside reads = record {
    bytes = session.bytes ++ image (entry w.encoding w.stored) w.stored;
    written =
        w.written
        ∙ ap (λ b. b ++ image (entry w.encoding w.stored) w.stored) session.written
        ∙ append_assoc head session.bytes (image (entry w.encoding w.stored) w.stored);
    hashed =
        w.hashed
        ∙ ap (λ b. b ++ image (entry w.encoding w.stored) w.stored) session.hashed
        ∙ append_assoc head session.bytes (image (entry w.encoding w.stored) w.stored);
    chain = snoc _ _ session.chain reads (at ∙ here) nonempty;
    offset =
        w.offset (omega (arith, written_length))
        ∙ ap (λ k. (k + length (image (entry w.encoding w.stored) w.stored)) % 2 ^ 64)
            session.offset
        ∙ mod-eq_of_lt (omega (arith, written_length))
        ∙ sym written_length;
    format = ap (λ (d : DataWriterV1). d.hash_format_id) w.kept ∙ session.format;
    compression = ap (λ (d : DataWriterV1). d.compression_ref) w.kept ∙ session.compression;
    encryption = ap (λ (d : DataWriterV1). d.encryption) w.kept ∙ session.encryption;
    entries =
        w.entries
        ∙ (λ i. session.entries i ++ (unfilled_eq (entry w.encoding w.stored) blank i ∷ []))
        ∙ sym (map-append recorded es (filled (entry w.encoding w.stored) plain ∷ []));
  }
