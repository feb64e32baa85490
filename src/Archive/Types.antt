-- ===== src/Archive/Types.antt =====
-- go/internal/alfa/inventory_archive/types.go: constants, entries, compression bytes and hash sizes,
-- with the errors that the package's functions return.
use madder.Common.{ℕ, ◌^◌, ◌<◌, ◌≡◌, refl, if◌then◌else◌, ◌==◌, length}
use madder.Common.{Bool, true, false}
use madder.Common.Bytes.{Bytes, codes, equal_bytes}

-- One constructor for each place that makes an error; `short_read` is a wrapped read error,
-- `end_of_file` the bare io.EOF, `panic` an index out of range. The last line is for the errors that
-- the archive store of blob_stores makes of its own.
pub data Error : Type 0 where
  unsupported_hash unsupported_compression unknown_compression : Error
  unsorted : ℕ → Error
  hash_length : ℕ → Error
  archive_checksum_length : ℕ → Error
  id_too_long invalid_magic unsupported_version hash_mismatch : Error
  unknown_entry_type : ℕ → Error
  too_small checksum_mismatch short_read end_of_file write_failed codec_failed panic : Error
  unsupported_delta cancelled file_failed not_found missing_base chained_delta : Error
  unknown_base count_mismatch deletion_unsupported unknown_selector unknown_signature : Error
  -- no error of the program: a loop that has used up its rounds before it ended
  out_of_rounds : Error

-- Go's (value, error) pair: the error if there is one, and else the value.
pub data Result {α} (X : Type α) : Type α where
  err : Error → Result X
  ok : X → Result X

abbrev pub data_file_magic : Bytes
data_file_magic = codes "MIAR"

abbrev pub index_file_magic : Bytes
index_file_magic = codes "MIAX"

abbrev pub cache_file_magic : Bytes
cache_file_magic = codes "MIAC"

abbrev pub data_file_version_v1 : ℕ
data_file_version_v1 = 1

abbrev pub index_file_version_v1 : ℕ
index_file_version_v1 = 1

abbrev pub cache_file_version_v1 : ℕ
cache_file_version_v1 = 1

abbrev pub entry_type_full : ℕ
entry_type_full = 0

abbrev pub entry_type_delta : ℕ
entry_type_delta = 1

-- 1 << 0
abbrev pub flag_has_deltas : ℕ
flag_has_deltas = 1

-- 1 << 2
abbrev pub flag_has_encryption_v1 : ℕ
flag_has_encryption_v1 = 4

pub record DataEntryV1 : Type 0 where
  pub hash : Bytes
  pub entry_type : ℕ
  pub encoding : ℕ
  pub logical_size : ℕ
  pub stored_size : ℕ
  pub contents : Bytes
  pub offset : ℕ
  pub delta_algorithm : ℕ
  pub base_hash : Bytes

pub record IndexEntryV1 : Type 0 where
  pub hash : Bytes
  pub pack_offset : ℕ
  pub stored_size : ℕ
  pub entry_type : ℕ
  pub base_offset : ℕ

pub record CacheEntryV1 : Type 0 where
  pub hash : Bytes
  pub archive_checksum : Bytes
  pub offset : ℕ
  pub stored_size : ℕ
  pub entry_type : ℕ
  pub base_offset : ℕ

abbrev pub IsU16 : ℕ → Type 0
IsU16 v = v < 2 ^ 16

abbrev pub IsU64 : ℕ → Type 0
IsU64 v = v < 2 ^ 64

unfoldable pub compression_ref_to_byte : Bytes → Result ℕ
unfolding equal_bytes
compression_ref_to_byte ref =
    if equal_bytes ref (codes "madder-codec-none-v1@none")
    then ok 0
    else if equal_bytes ref (codes "madder-codec-gzip-v1@gzip")
    then ok 1
    else if equal_bytes ref (codes "madder-codec-zlib-v1@zlib")
    then ok 2
    else if equal_bytes ref (codes "madder-codec-zstd-v1@zstd")
    then ok 3
    else err unsupported_compression

unfoldable pub byte_to_compression_ref : ℕ → Result Bytes
byte_to_compression_ref b =
    if b == 0
    then ok (codes "madder-codec-none-v1@none")
    else if b == 1
    then ok (codes "madder-codec-gzip-v1@gzip")
    else if b == 2
    then ok (codes "madder-codec-zlib-v1@zlib")
    else if b == 3
    then ok (codes "madder-codec-zstd-v1@zstd")
    else err unknown_compression

-- Sizes in bytes of the four digests.
unfoldable pub hash_size_for_format : Bytes → Result ℕ
unfolding equal_bytes
hash_size_for_format format =
    if equal_bytes format (codes "sha256")
    then ok 32
    else if equal_bytes format (codes "sha512")
    then ok 64
    else if equal_bytes format (codes "blake2b256")
    then ok 32
    else if equal_bytes format (codes "blake2b512")
    then ok 64
    else err unsupported_hash

-- The hash functions are those of the Go libraries: for a format and a content, the digest.
abbrev pub Digest : Type 0
Digest = Bytes → Bytes → Bytes

-- A digest has the length that the format promises.
abbrev pub IsSized : Digest → Type 0
IsSized digest =
    (format content : Bytes) (n : ℕ)
    → hash_size_for_format format ≡ ok n
    → length (digest format content) ≡ n

-- if err != nil { return err }
module _ {α β} {X : Type α} {Y : Type β} where
  infixl 5 ◌>>=◌
  abbrev pub ◌>>=◌ : Result X → (X → Result Y) → Result Y
  err x >>= next = err x
  ok v >>= next = next v

  -- What a success says of the first step.
  pub bind-ok :
      (r : Result X) (next : X → Result Y) {y : Y}
      → (r >>= next) ≡ ok y
      → (v : X) × (r ≡ ok v) × (next v ≡ ok y)
  bind-ok (err x) next h = cc
  bind-ok (ok v) next h = (v, refl, h)

-- A test that returns an error when it fails.
abbrev pub guard : Bool → Error → Result (Unit {0})
guard test x = elim test [ false ↦ err x | true ↦ ok tt ]

infixl 5 ◌>>◌
abbrev pub ◌>>◌ {α} : {X : Type α} → Result (Unit {0}) → Result X → Result X
r >> next = r >>= λ done. next
