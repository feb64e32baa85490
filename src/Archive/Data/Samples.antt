-- ===== src/Archive/Data/Samples.antt =====
-- An archive of one blob and one delta, and each theorem of the archive file at it.
use madder.Common.{◌≡◌, refl, arith, List, [], ◌∷◌, replicate}
use madder.Common.{All}
use madder.Common.Bytes.{Bytes, codes}
use madder.Archive.Types.{ok, DataEntryV1, hash_size_for_format}
use madder.Archive.TestDigest.{sum_digest, sum_digest-IsSized}
use madder.Archive.Stream.{Sink}
use madder.Archive.TestCodec.{plugins, encryption, plugins-AllLossless, gzip, sha_size}
use madder.Archive.Data.Session.{Call, full, delta, IsCall}
use madder.Archive.Data.WholeFile.{write_archive}
use madder.Common.{◌++◌}
use madder.Common.Bytes.{equal_bytes}
use madder.Common.BigEndian.{word_bytes}
use madder.Archive.Types.{compression_ref_to_byte}
use madder.Archive.TestDigest.{total, digest_of}
use madder.Archive.Stream.{write, write_unhashed}
use madder.Archive.Index.Writer.{sum, reject_long}
use madder.Archive.Data.Codec.{store}
use madder.Archive.Data.Writer.{new_data_writer_v1, new_data_writer_v1_body, write_header, close}
use madder.Archive.Data.Writer.{write_full_entry, write_delta_entry}
use madder.Archive.Data.Session.{write_call, write_calls, AllHold, Holds, recorded}
use madder.Archive.Data.ReadArchive.{read_archive, read_archive_at, validate_archive}
use madder.Archive.Data.ReadArchive.{read_all_entries-write_archive, read_entry_at-write_archive}
use madder.Archive.Data.ReadArchive.{validate-write_archive}
use mathlib.Core.List.{map}

abbrev two_calls : List Call
two_calls =
    full (replicate 32 5) (1 ∷ 2 ∷ 3 ∷ [])
    ∷ delta (replicate 32 9) 1 (replicate 32 5) 300 (4 ∷ 5 ∷ [])
    ∷ []

abbrev start : Sink
start = record { written = []; hashed = []; room = 10000 }

abbrev blob_entry : DataEntryV1
blob_entry = record {
  hash = replicate 32 5;
  entry_type = 0;
  encoding = 1;
  logical_size = 3;
  stored_size = 5;
  contents = [];
  offset = 16;
  delta_algorithm = 0;
  base_hash = [];
}

abbrev patch_entry : DataEntryV1
patch_entry = record {
  hash = replicate 32 9;
  entry_type = 1;
  encoding = 1;
  logical_size = 300;
  stored_size = 4;
  contents = [];
  offset = 71;
  delta_algorithm = 1;
  base_hash = replicate 32 5;
}

abbrev two_entries : List DataEntryV1
two_entries = blob_entry ∷ patch_entry ∷ []

abbrev before_checksum : Bytes
before_checksum =
    codes "MIAR"
    ++ (0 ∷ 1 ∷ 6 ∷ [])
    ++ codes "sha256"
    ++ (1 ∷ 0 ∷ 5 ∷ [])
    ++ replicate 32 5
    ++ (0 ∷ 1 ∷ 0 ∷ 0 ∷ 0 ∷ 0 ∷ 0 ∷ 0 ∷ 0 ∷ 3 ∷ 0 ∷ 0 ∷ 0 ∷ 0 ∷ 0 ∷ 0 ∷ 0 ∷ 5 ∷ 9 ∷ 7 ∷ 1 ∷ 2 ∷ 3
        ∷ [])
    ++ replicate 32 9
    ++ (1 ∷ 1 ∷ 1 ∷ [])
    ++ replicate 32 5
    ++ (0 ∷ 0 ∷ 0 ∷ 0 ∷ 0 ∷ 0 ∷ 1 ∷ 44 ∷ 0 ∷ 0 ∷ 0 ∷ 0 ∷ 0 ∷ 0 ∷ 0 ∷ 4 ∷ 9 ∷ 7 ∷ 4 ∷ 5 ∷ [])
    ++ (0 ∷ 0 ∷ 0 ∷ 0 ∷ 0 ∷ 0 ∷ 0 ∷ 2 ∷ [])

abbrev file : Bytes
file = before_checksum ++ replicate 32 221

abbrev finish : Sink
finish = record { written = file; hashed = before_checksum; room = 9802 }

-- The bytes of the file, each of them.
archive_written :
    write_archive plugins sum_digest (codes "sha256") gzip 1 encryption two_calls start
    ≡ ok ((replicate 32 221, two_entries), finish)
unfolding write_archive new_data_writer_v1 new_data_writer_v1_body write_header write_calls
    write_call write_full_entry write_delta_entry close write write_unhashed sum sum_digest
    digest_of total hash_size_for_format compression_ref_to_byte store word_bytes equal_bytes
    reject_long
archive_written = refl

calls_ranges : All (IsCall 32) two_calls
calls_ranges = ((refl, omega arith), ((refl, refl, omega arith), tt))

read_all_entries-write_archive_example :
    (es : List DataEntryV1) × (read_archive plugins encryption file ≡ ok es)
    × AllHold two_calls es
    × (two_entries ≡ map recorded es)
read_all_entries-write_archive_example =
    read_all_entries-write_archive plugins sum_digest (codes "sha256") gzip 1 encryption two_calls
      32 start finish (replicate 32 221) two_entries sha_size plugins-AllLossless calls_ranges
      (omega arith) sum_digest-IsSized refl archive_written (omega arith)

read_entry_at-write_archive_example :
    (e : DataEntryV1) × (read_archive_at plugins encryption file 71 ≡ ok e)
    × Holds (delta (replicate 32 9) 1 (replicate 32 5) 300 (4 ∷ 5 ∷ [])) e
    × (patch_entry ≡ recorded e)
read_entry_at-write_archive_example =
    read_entry_at-write_archive plugins sum_digest (codes "sha256") gzip 1 encryption two_calls 32
      start finish (replicate 32 221) two_entries sha_size plugins-AllLossless calls_ranges
      (omega arith) sum_digest-IsSized refl archive_written (omega arith) 1 refl refl

validate-write_archive_example : validate_archive sum_digest encryption file ≡ ok tt
validate-write_archive_example =
    validate-write_archive plugins sum_digest (codes "sha256") gzip 1 encryption two_calls 32 start
      finish (replicate 32 221) two_entries sha_size plugins-AllLossless calls_ranges (omega arith)
      sum_digest-IsSized refl archive_written (omega arith)

stored : store plugins encryption gzip (4 ∷ []) ≡ ok (9 ∷ 7 ∷ 4 ∷ [])
unfolding store
stored = refl
