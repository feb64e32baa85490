-- ===== src/Archive/Data/Entry.antt =====
-- One entry of an archive: its compression byte, its payload, and its bytes.
use madder.Common.{ℕ, ◌≡◌, refl, ◌∙◌, arith}
use madder.Common.{[], ◌∷◌, ◌++◌, Option, some, none, ◌+◌, length, length-append}
use madder.Common.Bytes.{Bytes, codes, equal_bytes→eq}
use madder.Common.BigEndian.{word_bytes, length-word_bytes}
use madder.Archive.Types.{ok, DataEntryV1, bind-ok}
use madder.Archive.Types.{compression_ref_to_byte, byte_to_compression_ref}
use madder.Archive.Data.Codec.{Codec, Plugins, store, restore, AllLossless}

-- A compression reference that `CompressionRefToByte` turns into a byte comes back from the byte.
pub byte_to_compression_ref-of :
    (ref : Bytes) (b : ℕ) → compression_ref_to_byte ref ≡ ok b → byte_to_compression_ref b ≡ ok ref
unfolding compression_ref_to_byte byte_to_compression_ref
byte_to_compression_ref-of ref b h = ground (
  arith,
  equal_bytes→eq ref (codes "madder-codec-none-v1@none"),
  equal_bytes→eq ref (codes "madder-codec-gzip-v1@gzip"),
  equal_bytes→eq ref (codes "madder-codec-zlib-v1@zlib"),
  equal_bytes→eq ref (codes "madder-codec-zstd-v1@zstd"),
)

-- What compression and encryption made of a payload, decryption and decompression undo, if the codecs
-- decode what they encode.
pub restore-store :
    (plugins : Plugins) (encryption : Option Codec) (ref plain stored : Bytes)
    → AllLossless plugins encryption
    → store plugins encryption ref plain ≡ ok stored
    → restore plugins encryption ref stored ≡ ok plain
unfolding store restore
restore-store plugins none ref plain stored (h, k) e =
    let (plugin, found, e1) = bind-ok (plugins ref) _ e in
    let (compressed, coded, e2) = bind-ok (plugin.encode plain) _ e1 in
    rw found (h ref plugin found plain stored (coded ∙ e2))
restore-store plugins (some wrapper) ref plain stored (h, k) e =
    let (plugin, found, e1) = bind-ok (plugins ref) _ e in
    let (compressed, coded, e2) = bind-ok (plugin.encode plain) _ e1 in
    rw (k wrapper refl compressed stored e2, found) (h ref plugin found plain compressed coded)

abbrev pub full_bytes : DataEntryV1 → Bytes → Bytes
full_bytes e stored =
    e.hash
    ++ ((e.entry_type ∷ [])
        ++ ((e.encoding ∷ [])
            ++ (word_bytes 8 e.logical_size ++ (word_bytes 8 e.stored_size ++ stored))))

abbrev pub delta_bytes : DataEntryV1 → Bytes → Bytes
delta_bytes e stored =
    e.hash
    ++ ((e.entry_type ∷ [])
        ++ ((e.encoding ∷ [])
            ++ ((e.delta_algorithm ∷ [])
                ++ (e.base_hash
                    ++ (word_bytes 8 e.logical_size ++ (word_bytes 8 e.stored_size ++ stored))))))

pub length-full_bytes :
    (e : DataEntryV1) (stored : Bytes)
    → length (full_bytes e stored) ≡ length e.hash + 18 + length stored
length-full_bytes e stored = simp (length-append, length-word_bytes) (omega arith)

pub length-delta_bytes :
    (e : DataEntryV1) (stored : Bytes)
    → length (delta_bytes e stored) ≡ length e.hash + 19 + length e.base_hash + length stored
length-delta_bytes e stored = simp (length-append, length-word_bytes) (omega arith)
