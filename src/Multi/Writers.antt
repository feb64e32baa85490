-- ===== src/Multi/Writers.antt =====
-- The writing half of go/internal/foxtrot/blob_stores/multi.go: MakeBlobWriter, and the writer that
-- writes to every member of a mirror.
use madder.Common.{List, [], ◌∷◌, ◌++◌, take, Bool, true, false, if◌then◌else◌, ◌&&◌, Option}
use madder.Common.{ℕ, none, some}
use madder.Common.Bytes.{Bytes, equal_bytes}
use madder.Multi.Store.{MultiMode, mode_unset, mode_mirror, mode_write_through}
use madder.Multi.Tee.{Outcome, fine, at_end, failed, Answer, Took, all_of_it, fewer, refused}
use madder.Multi.Tee.{MarklId, next_took, later_took}
pub mod Copies
pub mod Mirrored
pub mod Closed
mod Samples

pub data WriteError : Type 0 where
  make_failed write_failed read_failed close_failed : ℕ → WriteError
  short_write no_default_hash unknown_mode ids_differ : WriteError

pub data Result (A : Type 0) : Type 0 where
  ok : A → Result A
  err : WriteError → Result A

-- A writer of a child store: its hash type, what it took, its answers to the next writes, of which it
-- takes all after those listed, and how its Close ends.
pub record BlobWriter : Type 0 where
  pub format : Bytes
  pub written : Bytes
  pub accepts : List Took
  pub closed : Bool
  pub close_error : Option ℕ

-- A child store by what MakeBlobWriter needs of it; nil is none.
pub record WriteStore : Type 0 where
  pub default_hash_type : Option Bytes
  pub make_blob_writer_of : Option Bytes → Result BlobWriter

pub record WriteMulti : Type 0 where
  pub mode : MultiMode
  pub child_stores : List WriteStore
  pub write_store : WriteStore

pub data Made : Type 0 where
  mirrored : List BlobWriter → Made
  through : BlobWriter → Made

abbrev pub first_default : List WriteStore → Option Bytes
first_default [] = none
first_default (s ∷ ss) = s.default_hash_type

unfoldable pub get_default_hash_type : WriteMulti → Option Bytes
get_default_hash_type multi = elim multi.mode [
  | mode_mirror ↦ first_default multi.child_stores
  | mode_write_through ↦ multi.write_store.default_hash_type
  | mode_unset ↦ none
]

abbrev pub add_writer : Result BlobWriter → Result (List BlobWriter) → Result (List BlobWriter)
add_writer (err e) rest = err e
add_writer (ok w) (err e) = err e
add_writer (ok w) (ok ws) = ok (w ∷ ws)

-- The loop over the children.
unfoldable pub make_writers : Bytes → List WriteStore → Result (List BlobWriter)
make_writers hash_type [] = ok []
make_writers hash_type (s ∷ ss) =
    add_writer (s.make_blob_writer_of (some hash_type)) (make_writers hash_type ss)

abbrev pub as_mirrored : Result (List BlobWriter) → Result Made
as_mirrored (ok ws) = ok (mirrored ws)
as_mirrored (err e) = err e

abbrev pub as_through : Result BlobWriter → Result Made
as_through (ok w) = ok (through w)
as_through (err e) = err e

abbrev pub or_default : Option Bytes → Option Bytes → Option Bytes
or_default none default = default
or_default (some hash_type) default = some hash_type

abbrev pub make_mirror : List WriteStore → Option Bytes → Result Made
make_mirror stores none = err no_default_hash
make_mirror stores (some hash_type) = as_mirrored (make_writers hash_type stores)

unfoldable pub make_blob_writer : WriteMulti → Option Bytes → Result Made
unfolding get_default_hash_type
make_blob_writer multi hash_type = elim multi.mode [
  | mode_mirror ↦
      make_mirror multi.child_stores (or_default hash_type (get_default_hash_type multi))
  | mode_write_through ↦ as_through (multi.write_store.make_blob_writer_of hash_type)
  | mode_unset ↦ err unknown_mode
]

-- One Write to a child.
abbrev pub take_in : Took → Bytes → BlobWriter → BlobWriter × Option WriteError
take_in all_of_it bytes w = (record w { written = w.written ++ bytes }, none)
take_in (fewer n) bytes w = (record w { written = w.written ++ take n bytes }, some short_write)
take_in (refused n e) bytes w =
    (record w { written = w.written ++ take n bytes }, some (write_failed e))

unfoldable pub write_child : Bytes → BlobWriter → BlobWriter × Option WriteError
write_child bytes w =
    take_in (next_took w.accepts) bytes (record w { accepts = later_took w.accepts })

-- io.MultiWriter: the writers in turn, up to the first error.
unfoldable pub multi_write : Bytes → List BlobWriter → List BlobWriter × Option WriteError
multi_write bytes [] = ([], none)
multi_write bytes (w ∷ ws) =
    let done = write_child bytes w in
    let rest = multi_write bytes ws in
    elim done.1 [ some e ↦ (done.0 ∷ ws, some e) | none ↦ (done.0 ∷ rest.0, rest.1) ]

-- What io.Copy does after a Read.
abbrev pub copy_on :
    Outcome
    → (List BlobWriter → List BlobWriter × Option WriteError)
    → List BlobWriter × Option WriteError
    → List BlobWriter × Option WriteError
copy_on o rest (ws, some e) = (ws, some e)
copy_on fine rest (ws, none) = rest ws
copy_on at_end rest (ws, none) = (ws, none)
copy_on (failed e) rest (ws, none) = (ws, some (read_failed e))

abbrev pub write_some : Bytes → List BlobWriter → List BlobWriter × Option WriteError
write_some [] ws = (ws, none)
write_some (b ∷ bs) ws = multi_write (b ∷ bs) ws

-- io.Copy from a reader by its answers; after them it is at its end.
unfoldable pub read_from : List Answer → List BlobWriter → List BlobWriter × Option WriteError
read_from [] ws = (ws, none)
read_from (a ∷ later) ws = copy_on a.outcome (read_from later) (write_some a.bytes ws)

-- The children in turn, up to the first error.
unfoldable pub close : List BlobWriter → List BlobWriter × Option WriteError
close [] = ([], none)
close (w ∷ ws) =
    let shut = record w { closed = true } in
    let rest = close ws in
    elim w.close_error [
      | some e ↦ (shut ∷ ws, some (close_failed e))
      | none ↦ (shut ∷ rest.0, rest.1)
    ]

module _ (digest : Bytes → Bytes → Bytes) where
  abbrev pub markl_id_of : BlobWriter → MarklId
  markl_id_of w = record { format = w.format; digest = digest w.format w.written }

  abbrev pub same_id : MarklId → MarklId → Bool
  same_id x y = equal_bytes x.format y.format && equal_bytes x.digest y.digest

  -- The rest of the loop, once there is a first id; `ids_differ` is a panic.
  unfoldable pub agree : MarklId → List BlobWriter → Result (Option MarklId)
  agree first [] = ok (some first)
  agree first (w ∷ ws) =
      let rest = agree first ws in if same_id first (markl_id_of w) then rest else err ids_differ

  unfoldable pub get_markl_id : List BlobWriter → Result (Option MarklId)
  unfolding agree
  get_markl_id [] = ok none
  get_markl_id (w ∷ ws) = agree (markl_id_of w) ws
