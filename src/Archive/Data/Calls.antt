-- ===== src/Archive/Data/Calls.antt =====
-- The session of an archive writer through one call.
use madder.Common.{ℕ, ◌+◌, ◌%◌, ◌^◌, ◌<◌, ◌≡◌, refl, sym, ap, ◌∙◌, arith}
use madder.Common.{List, [], ◌∷◌, ◌++◌, length}
use madder.Common.Bytes.{Bytes}
use madder.Archive.Types.{ok, DataEntryV1, IsU64, byte_to_compression_ref}
use madder.Archive.Stream.{Sink}
use madder.Archive.Data.Codec.{Plugins, store, AllLossless}
use madder.Archive.Data.Writer.{DataWriterV1, write_full_entry, write_delta_entry}
use madder.Archive.Data.Reader.{DataReaderV1}
use madder.Archive.Data.Entry.{
  length-full_bytes, length-delta_bytes, full_bytes, delta_bytes, byte_to_compression_ref-of,
  restore-store,
}
use madder.Archive.Data.ReadBack.{IsStored, read_entry-full_bytes, read_entry-delta_bytes}
use madder.Archive.Data.Wrote.{Wrote, full_entry, delta_entry, write_full_entry-Wrote}
use madder.Archive.Data.Wrote.{write_delta_entry-Wrote}
use madder.Archive.Data.Session.{Call, full, delta, IsCall, write_call, Session}
use madder.Archive.Data.Session.{Holds, filled, extend, here, written_length}
use native.Mathlib.Nat.{mod-eq_of_lt}

module _ (plugins : Plugins) (dr : DataReaderV1) (head : Bytes)
    (lossless : AllLossless plugins dr.encryption) where
  -- The payload of an entry that was written is one that the reader restores.
  stored-IsStored :
      (dw dw' : DataWriterV1) (s s' : Sink) (es : List DataEntryV1) (plain : Bytes)
      (entry : ℕ → Bytes → DataEntryV1) (image : DataEntryV1 → Bytes → Bytes)
      → Session plugins dr head dw s es
      → (w : Wrote plugins dw s plain entry image dw' s') → length w.stored < 2 ^ 64
      → length (entry w.encoding w.stored).hash ≡ dr.hash_size
      → (entry w.encoding w.stored).encoding ≡ w.encoding
      → IsU64 (entry w.encoding w.stored).logical_size
      → (entry w.encoding w.stored).stored_size ≡ length w.stored % 2 ^ 64
      → IsStored plugins dr (entry w.encoding w.stored) plain w.stored
  stored-IsStored dw dw' s s' es plain entry image session w small hash_length same logical size =
      record {
        hash_length = hash_length;
        ref = dw.compression_ref;
        encoded =
            ap byte_to_compression_ref same
            ∙ byte_to_compression_ref-of dw.compression_ref w.encoding w.encoded;
        restored = restore-store plugins dr.encryption dw.compression_ref plain w.stored lossless (
            ap (λ x. store plugins x dw.compression_ref plain) (sym session.encryption)
            ∙ w.was_stored);
        logical_small = logical;
        stored_length = size ∙ mod-eq_of_lt small;
        stored_small = rw size (omega arith);
      }

  module _ (dw dw' : DataWriterV1) (s s' : Sink) (es : List DataEntryV1)
      (session : Session plugins dr head dw s es) (small : length s'.written < 2 ^ 63) where
    full_step :
        (entry_hash plain : Bytes)
        → IsCall dr.hash_size (full entry_hash plain)
        → write_full_entry plugins dw entry_hash plain s ≡ ok (dw', s')
        → (e : DataEntryV1) × Holds (full entry_hash plain) e
          × Session plugins dr head dw' s' (es ++ (e ∷ []))
    full_step entry_hash plain (hash_length, plain_small) h =
        let w = write_full_entry-Wrote plugins dw s entry_hash plain dw' s' h in
        let entry = full_entry entry_hash w.encoding plain w.stored dw.offset in
        let long =
          written_length plugins dr head dw dw' s s' es plain _ full_bytes session w small in
        let fits : length w.stored < 2 ^ 64 =
          omega (arith, long, length-full_bytes entry w.stored) in
        let v =
          stored-IsStored dw dw' s s' es plain _ full_bytes session w fits hash_length refl
            (omega arith) refl in
        (
          filled entry plain,
          (refl, refl, mod-eq_of_lt plain_small, refl),
          extend plugins dr head dw dw' s s' es plain _ full_bytes session w small refl refl
              (omega (arith, length-full_bytes entry w.stored))
              (omega (arith, length-full_bytes entry w.stored))
              (λ file more.
                read_entry-full_bytes plugins dr entry plain w.stored v
                  (record {
                    file = file;
                    pos = length head + length session.bytes;
                    rest = full_bytes entry w.stored ++ more;
                  })
                  (here plugins dr head dw dw' s s' es plain _ full_bytes session w small) more refl
                  refl refl refl),
        )

    delta_step :
        (entry_hash : Bytes) (alg : ℕ) (base_hash : Bytes) (logical_size : ℕ) (payload : Bytes)
        → IsCall dr.hash_size (delta entry_hash alg base_hash logical_size payload)
        → write_delta_entry plugins dw entry_hash alg base_hash logical_size payload s
          ≡ ok (dw', s')
        → (e : DataEntryV1) × Holds (delta entry_hash alg base_hash logical_size payload) e
          × Session plugins dr head dw' s' (es ++ (e ∷ []))
    delta_step entry_hash alg base_hash logical_size payload (hash_length, base_length, logical) h =
        let w =
          write_delta_entry-Wrote plugins dw s entry_hash alg base_hash logical_size payload dw' s'
            h in
        let entry =
          delta_entry entry_hash w.encoding alg base_hash logical_size w.stored dw.offset in
        let long =
          written_length plugins dr head dw dw' s s' es payload _ delta_bytes session w small in
        let fits : length w.stored < 2 ^ 64 =
          omega (arith, long, length-delta_bytes entry w.stored) in
        let v =
          stored-IsStored dw dw' s s' es payload _ delta_bytes session w fits hash_length refl
            logical refl in
        (
          filled entry payload,
          (refl, refl, refl, refl, refl, refl),
          extend plugins dr head dw dw' s s' es payload _ delta_bytes session w small refl refl
              (omega (arith, length-delta_bytes entry w.stored))
              (omega (arith, length-delta_bytes entry w.stored))
              (λ file more.
                read_entry-delta_bytes plugins dr entry payload w.stored v
                  (record {
                    file = file;
                    pos = length head + length session.bytes;
                    rest = delta_bytes entry w.stored ++ more;
                  })
                  (here plugins dr head dw dw' s s' es payload _ delta_bytes session w small) more
                  refl base_length refl),
        )

    pub call_step :
        (c : Call)
        → IsCall dr.hash_size c
        → write_call plugins dw c s ≡ ok (dw', s')
        → (e : DataEntryV1) × Holds c e × Session plugins dr head dw' s' (es ++ (e ∷ []))
    unfolding write_call
    call_step (full entry_hash plain) ranges h = full_step entry_hash plain ranges h
    call_step (delta entry_hash alg base_hash logical_size payload) ranges h =
        delta_step entry_hash alg base_hash logical_size payload ranges h
