-- ===== src/Archive/Data/Wrote.antt =====
-- What a successful write of one entry did to the sink and to the writer's record.
use madder.Common.{ℕ, ◌+◌, ◌%◌, ◌^◌, ◌<◌, ◌≡◌, sym, ap, ◌∙◌, arith, [], ◌∷◌, ◌++◌}
use madder.Common.{append_assoc, length, length-append}
use madder.Common.Bytes.{Bytes}
use madder.Common.BigEndian.{word_bytes, length-word_bytes}
use madder.Archive.Types.{Result, ok, err, DataEntryV1, compression_ref_to_byte}
use madder.Archive.Types.{entry_type_full, entry_type_delta}
use madder.Archive.Exec.{lift-ok}
use madder.Archive.Stream.{Sink, write-ok}
use madder.Archive.Data.Codec.{Plugins, store}
use madder.Archive.Data.Writer.{DataWriterV1, write_full_entry, write_delta_entry}
use madder.Archive.Data.Entry.{full_bytes, delta_bytes}
use native.Mathlib.Nat.{mod-eq_of_lt}

-- The entry that the writer records for a blob.
abbrev pub full_entry : Bytes → ℕ → Bytes → Bytes → ℕ → DataEntryV1
full_entry entry_hash encoding plain stored offset = record {
  hash = entry_hash;
  entry_type = entry_type_full;
  encoding = encoding;
  logical_size = length plain % 2 ^ 64;
  stored_size = length stored % 2 ^ 64;
  contents = [];
  offset = offset;
  delta_algorithm = 0;
  base_hash = [];
}

abbrev pub delta_entry : Bytes → ℕ → ℕ → Bytes → ℕ → Bytes → ℕ → DataEntryV1
delta_entry entry_hash encoding delta_algorithm base_hash logical_size stored offset = record {
  hash = entry_hash;
  entry_type = entry_type_delta;
  encoding = encoding;
  logical_size = logical_size;
  stored_size = length stored % 2 ^ 64;
  contents = [];
  offset = offset;
  delta_algorithm = delta_algorithm;
  base_hash = base_hash;
}

-- A payload was stored, an entry recorded, and its image written behind what the sink had.
pub record Wrote (plugins : Plugins) (dw : DataWriterV1) (s : Sink) (plain : Bytes)
    (entry : ℕ → Bytes → DataEntryV1) (image : DataEntryV1 → Bytes → Bytes) (dw' : DataWriterV1)
    (s' : Sink) : Type 0 where
  pub encoding : ℕ
  pub stored : Bytes
  pub encoded : compression_ref_to_byte dw.compression_ref ≡ ok encoding
  pub was_stored : store plugins dw.encryption dw.compression_ref plain ≡ ok stored
  pub written : s'.written ≡ s.written ++ image (entry encoding stored) stored
  pub hashed : s'.hashed ≡ s.hashed ++ image (entry encoding stored) stored
  pub entries : dw'.entries ≡ dw.entries ++ (entry encoding stored ∷ [])
  pub offset :
      length stored < 2 ^ 64
      → dw'.offset ≡ (dw.offset + length (image (entry encoding stored) stored)) % 2 ^ 64
  pub kept : dw' ≡ record dw { entries = dw'.entries; offset = dw'.offset }

-- The two halves of an outcome.
abbrev pub returned : DataWriterV1 → Result (DataWriterV1 × Sink) → DataWriterV1
returned default (ok (dw, s)) = dw
returned default (err e) = default

abbrev pub left_in : Sink → Result (DataWriterV1 × Sink) → Sink
left_in default (ok (dw, s)) = s
left_in default (err e) = default

regroup_full :
    (w a b c d e f : Bytes)
    → (((((w ++ a) ++ b) ++ c) ++ d) ++ e) ++ f ≡ w ++ (a ++ (b ++ (c ++ (d ++ (e ++ f)))))
regroup_full w a b c d e f = simp append_assoc

regroup_delta :
    (w a b c d e f g h : Bytes)
    → (((((((w ++ a) ++ b) ++ c) ++ d) ++ e) ++ f) ++ g) ++ h
      ≡ w ++ (a ++ (b ++ (c ++ (d ++ (e ++ (f ++ (g ++ h)))))))
regroup_delta w a b c d e f g h = simp append_assoc

module _ (entry_hash plain : Bytes) where
  full_length :
      (encoding offset : ℕ) (stored : Bytes)
      → length stored < 2 ^ 64
      → length entry_hash + 1 + 1 + 8 + 8 + length stored % 2 ^ 64
        ≡ length (full_bytes (full_entry entry_hash encoding plain stored offset) stored)
  full_length encoding offset stored small =
      simp (length-append, length-word_bytes) (omega (arith, mod-eq_of_lt small))

module _ (plugins : Plugins) (dw : DataWriterV1) (s : Sink) (entry_hash plain : Bytes)
    (dw' : DataWriterV1) (s' : Sink) where
  pub write_full_entry-Wrote :
      write_full_entry plugins dw entry_hash plain s ≡ ok (dw', s')
      → Wrote plugins dw s plain
          (λ encoding stored. full_entry entry_hash encoding plain stored dw.offset)
          full_bytes
          dw'
          s'
  unfolding write_full_entry
  write_full_entry-Wrote h =
      let (encoding, encoded, h1) = lift-ok (compression_ref_to_byte dw.compression_ref) _ s h in
      let h2 = write-ok entry_hash _ s h1 in
      let h3 = write-ok (entry_type_full ∷ []) _ _ h2 in
      let h4 = write-ok (encoding ∷ []) _ _ h3 in
      let (stored, was_stored, h5) =
        lift-ok (store plugins dw.encryption dw.compression_ref plain) _ _ h4 in
      let h6 = write-ok (word_bytes 8 (length plain % 2 ^ 64)) _ _ h5 in
      let h7 = write-ok (word_bytes 8 (length stored % 2 ^ 64)) _ _ h6 in
      let h8 = write-ok stored _ _ h7 in
      record {
        encoding = encoding;
        stored = stored;
        encoded = encoded;
        was_stored = was_stored;
        written =
            sym (ap (λ r. (left_in s r).written) h8)
            ∙ regroup_full s.written entry_hash (entry_type_full ∷ []) (encoding ∷ [])
                (word_bytes 8 (length plain % 2 ^ 64)) (word_bytes 8 (length stored % 2 ^ 64))
                stored;
        hashed =
            sym (ap (λ r. (left_in s r).hashed) h8)
            ∙ regroup_full s.hashed entry_hash (entry_type_full ∷ []) (encoding ∷ [])
                (word_bytes 8 (length plain % 2 ^ 64)) (word_bytes 8 (length stored % 2 ^ 64))
                stored;
        entries = sym (ap (λ r. (returned dw r).entries) h8);
        offset = λ small.
            sym (ap (λ r. (returned dw r).offset) h8)
            ∙ ap (λ k. (dw.offset + k) % 2 ^ 64)
                (full_length entry_hash plain encoding dw.offset stored small);
        kept = cc (ap (returned dw) h8);
      }

delta_length :
    (entry_hash base_hash stored : Bytes) (encoding delta_algorithm logical_size offset : ℕ)
    → length stored < 2 ^ 64
    → length entry_hash + 1 + 1 + 1 + length base_hash + 8 + 8 + length stored % 2 ^ 64
      ≡ length (
          delta_bytes
            (delta_entry entry_hash encoding delta_algorithm base_hash logical_size stored offset)
            stored)
delta_length entry_hash base_hash stored encoding delta_algorithm logical_size offset small =
    simp (length-append, length-word_bytes) (omega (arith, mod-eq_of_lt small))

module _ (plugins : Plugins) (dw : DataWriterV1) (s : Sink) (entry_hash : Bytes)
    (delta_algorithm : ℕ) (base_hash : Bytes) (logical_size : ℕ) (payload : Bytes)
    (dw' : DataWriterV1) (s' : Sink) where
  pub write_delta_entry-Wrote :
      write_delta_entry plugins dw entry_hash delta_algorithm base_hash logical_size payload s
        ≡ ok (dw', s')
      → Wrote plugins dw s payload
          (λ encoding stored.
            delta_entry entry_hash encoding delta_algorithm base_hash logical_size stored dw.offset)
          delta_bytes
          dw'
          s'
  unfolding write_delta_entry
  write_delta_entry-Wrote h =
      let (encoding, encoded, h1) = lift-ok (compression_ref_to_byte dw.compression_ref) _ s h in
      let h2 = write-ok entry_hash _ s h1 in
      let h3 = write-ok (entry_type_delta ∷ []) _ _ h2 in
      let h4 = write-ok (encoding ∷ []) _ _ h3 in
      let h5 = write-ok (delta_algorithm ∷ []) _ _ h4 in
      let h6 = write-ok base_hash _ _ h5 in
      let (stored, was_stored, h7) =
        lift-ok (store plugins dw.encryption dw.compression_ref payload) _ _ h6 in
      let h8 = write-ok (word_bytes 8 logical_size) _ _ h7 in
      let h9 = write-ok (word_bytes 8 (length stored % 2 ^ 64)) _ _ h8 in
      let h10 = write-ok stored _ _ h9 in
      record {
        encoding = encoding;
        stored = stored;
        encoded = encoded;
        was_stored = was_stored;
        written =
            sym (ap (λ r. (left_in s r).written) h10)
            ∙ regroup_delta s.written entry_hash (entry_type_delta ∷ []) (encoding ∷ [])
                (delta_algorithm ∷ []) base_hash (word_bytes 8 logical_size)
                (word_bytes 8 (length stored % 2 ^ 64)) stored;
        hashed =
            sym (ap (λ r. (left_in s r).hashed) h10)
            ∙ regroup_delta s.hashed entry_hash (entry_type_delta ∷ []) (encoding ∷ [])
                (delta_algorithm ∷ []) base_hash (word_bytes 8 logical_size)
                (word_bytes 8 (length stored % 2 ^ 64)) stored;
        entries = sym (ap (λ r. (returned dw r).entries) h10);
        offset = λ small.
            sym (ap (λ r. (returned dw r).offset) h10)
            ∙ ap (λ k. (dw.offset + k) % 2 ^ 64)
                (delta_length entry_hash base_hash stored encoding delta_algorithm logical_size
                  dw.offset small);
        kept = cc (ap (returned dw) h10);
      }
