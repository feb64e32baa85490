-- ===== src/Multi/Writers/Samples.antt =====
-- A mirror of two stores, and each theorem of its writer at it.
use madder.Common.{◌≡◌, refl, List, [], ◌∷◌, ◌++◌, length, Option, none, some}
use madder.Common.Bytes.{Bytes, codes}
use madder.Multi.Store.{mode_mirror}
use madder.Multi.Tee.{fine, at_end, Answer}
use madder.Multi.Writers.{
  ok, err, no_default_hash, close_failed, BlobWriter, WriteStore, WriteMulti, mirrored,
  make_writers, make_blob_writer, read_from, write_child, multi_write, close,
}
use madder.Multi.Writers.Copies.{Holds, IsHonest, contents_of}
use madder.Multi.Writers.Mirrored.{Mirrors, read_from-Mirrors}
use madder.Multi.Writers.Closed.{shut, close-failed}
use mathlib.Core.List.{map}
use mathlib.Core.Path.{subst}
use madder.Common.{false}

abbrev writer_of : Option Bytes → BlobWriter
writer_of none = record {
  format = [];
  written = [];
  accepts = [];
  closed = false;
  close_error = none;
}
writer_of (some format) = record {
  format = format;
  written = [];
  accepts = [];
  closed = false;
  close_error = none;
}

-- A store with a default hash type.
abbrev store_of : Option Bytes → WriteStore
store_of default = record {
  default_hash_type = default;
  make_blob_writer_of = λ asked. ok (writer_of asked);
}

store_of-IsHonest : (default : Option Bytes) → IsHonest (store_of default)
store_of-IsHonest default format w e = subst (Holds format []) (ok_inj e) (refl, refl)
  where
    ok_inj : {v w : BlobWriter} → ok v ≡ ok w → v ≡ w
    ok_inj h = cc

abbrev sha : Bytes
sha = codes "sha256"

abbrev blake : Bytes
blake = codes "blake2b256"

abbrev source : List Answer
source =
    record { bytes = 7 ∷ 8 ∷ []; outcome = fine } ∷ record { bytes = 9 ∷ []; outcome = at_end } ∷ []

abbrev test_digest : Bytes → Bytes → Bytes
test_digest format bytes = length format ∷ bytes

-- Two defaults that differ, and no hash type asked for.
abbrev stores : List WriteStore
stores = store_of (some blake) ∷ []

abbrev multi : WriteMulti
multi = record {
  mode = mode_mirror;
  child_stores = store_of (some sha) ∷ stores;
  write_store = store_of none;
}

abbrev writers : List BlobWriter
writers = writer_of (some sha) ∷ writer_of (some sha) ∷ []

made : make_blob_writer multi none ≡ ok (mirrored writers)
unfolding make_blob_writer make_writers
made = refl

copied : (read_from source writers).1 ≡ none
unfolding read_from multi_write write_child
copied = refl

read_from-Mirrors_example :
    Mirrors test_digest none
      (store_of (some sha) ∷ stores)
      (contents_of source)
      (read_from source writers).0
read_from-Mirrors_example =
    read_from-Mirrors test_digest none (store_of (some sha)) stores (store_of none) source writers
      (store_of-IsHonest (some sha), (store_of-IsHonest (some blake), tt)) made copied

no_default :
    make_blob_writer (record multi { child_stores = store_of none ∷ stores }) none
    ≡ err no_default_hash
unfolding make_blob_writer
no_default = refl

-- The second of three members fails to close.
abbrev failing : BlobWriter
failing = record (writer_of (some sha)) { close_error = some 4 }

close-failed_example :
    close ((writer_of (some sha) ∷ []) ++ (failing ∷ writer_of (some sha) ∷ [])) ≡ (
      map shut (writer_of (some sha) ∷ []) ++ (shut failing ∷ writer_of (some sha) ∷ []),
      some (close_failed 4),
    )
close-failed_example =
    close-failed (writer_of (some sha) ∷ []) failing (writer_of (some sha) ∷ []) 4 (refl, tt) refl
