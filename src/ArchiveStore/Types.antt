-- ===== src/ArchiveStore/Types.antt =====
-- The state of an archive store, and what it takes from outside: delta_algorithm.go,
-- store_inventory_archive_v1.go:25 and the structs of pack_v0.go and pack_parallel.go.
use madder.Common.{ℕ, List, Bool, if◌then◌else◌, Option, ◌==◌, ◌≡◌}
use madder.Common.Bytes.{Bytes, codes, equal_bytes}
use madder.Common.Tables.{Table}
use madder.Archive.Types.{Result, ok, err, Digest, unsupported_delta}
use madder.Archive.Data.Codec.{Codec, Plugins}
use madder.Packing.Selector.{BlobMetadata}

-- A delta from the first blob to the second, and the second blob from the first and a delta.
pub record DeltaAlgorithm : Type 0 where
  pub compute : Bytes → Bytes → Result Bytes
  pub apply : Bytes → Bytes → Result Bytes

-- The algorithm's library gives back the blob that the delta was made of.
abbrev pub IsExact : DeltaAlgorithm → Type 0
IsExact alg =
    (base target patch : Bytes)
    → alg.compute base target ≡ ok patch
    → alg.apply base patch ≡ ok target

abbrev pub delta_algorithm_byte_bsdiff : ℕ
delta_algorithm_byte_bsdiff = 0

-- The registry holds the one algorithm that the package registers.
unfoldable pub delta_algorithm_for_byte : DeltaAlgorithm → ℕ → Result DeltaAlgorithm
delta_algorithm_for_byte bsdiff b =
    if b == delta_algorithm_byte_bsdiff then ok bsdiff else err unsupported_delta

unfoldable pub delta_algorithm_byte_for_name : Bytes → Result ℕ
delta_algorithm_byte_for_name name =
    if equal_bytes name (codes "bsdiff")
    then ok delta_algorithm_byte_bsdiff
    else err unsupported_delta

-- The archive's checksum names its file; the source keeps it in hexadecimal.
pub record ArchiveEntryV1 : Type 0 where
  pub archive_checksum : Bytes
  pub offset : ℕ
  pub stored_size : ℕ
  pub entry_type : ℕ
  pub base_offset : ℕ

pub record PackedBlob : Type 0 where
  pub digest : Bytes
  pub contents : Bytes

pub record PackedBlobMeta : Type 0 where
  pub digest : Bytes
  pub size : ℕ

pub record DeltaResult : Type 0 where
  pub blob_idx : ℕ
  pub base_idx : ℕ
  -- nil: store the blob whole
  pub delta_contents : Option Bytes

-- The fields that do not change, with the interfaces that the configuration names, or the errors of
-- looking them up: the selector as its calls of Assign, and the signature computer, if there is one.
pub record StoreConfig : Type 0 where
  pub hash_format : Bytes
  pub digest : Digest
  -- MarklId.IsNull
  pub is_null : Bytes → Bool
  pub plugins : Plugins
  pub encryption : Option Codec
  pub compression_ref : Bytes
  pub delta_enabled : Bool
  pub delta_algorithm : Bytes
  pub bsdiff : DeltaAlgorithm
  pub selector : Result (List BlobMetadata → List (ℕ × ℕ))
  pub signature_computer : Result (Option (Bytes → Result (List ℕ)))

-- The index, keyed by the digest's bytes, and the files of the archives directory by their checksum.
pub record InventoryArchiveV1 : Type 0 where
  pub index : Table ArchiveEntryV1
  pub archive_files : Table Bytes
  pub index_files : Table Bytes
