-- ===== src/Multi/Store.antt =====
-- The reading half of Multi. A child store is what it answers while one call runs: whether it has a
-- blob, and the reader or the error that it gives for one.
use madder.Common.{ℕ, List, [], ◌∷◌, Bool, true, false, if◌then◌else◌, Option, none, some}

-- The errors that Multi tells apart: a store out of reach, and any other; and those of its own.
pub data ReadError : Type 0 where
  unavailable : ReadError
  blob_missing : ReadError
  other_error : ℕ → ReadError
  unknown_mode : ReadError

pub data Reading (R : Type 0) : Type 0 where
  opened : R → Reading R
  refused : ReadError → Reading R

pub record BlobStore (K R : Type 0) : Type 0 where
  pub has_blob_of : K → Bool
  pub make_blob_reader_of : K → Reading R
  -- the writer that MakeBlobWriter gives for the store's default hash type, if it gives one
  pub make_default_writer : Option (R → R)

pub data MultiMode : Type 0 where
  mode_unset mode_mirror mode_write_through : MultiMode

pub record Multi (K R : Type 0) : Type 0 where
  pub mode : MultiMode
  pub child_stores : List (BlobStore K R)
  pub write_store : BlobStore K R
  pub read_stores : List (BlobStore K R)
  pub read_fill : Bool

module _ {R : Type 0} where
  -- What one store's answer means for the walk: a store out of reach counts as one without the blob.
  abbrev pub or_next : Reading R → (R → R) → Reading R → Reading R
  or_next (opened reader) finish later = opened (finish reader)
  or_next (refused unavailable) finish later = later
  or_next (refused blob_missing) finish later = refused blob_missing
  or_next (refused (other_error e)) finish later = refused (other_error e)
  or_next (refused unknown_mode) finish later = refused unknown_mode

  abbrev pub unchanged : R → R
  unchanged reader = reader

  -- The tee into the write store, if it is asked for and the store gives a writer.
  abbrev pub fill : Bool → Option (R → R) → R → R
  fill false writer reader = reader
  fill true none reader = reader
  fill true (some tee) reader = tee reader

module _ {K R : Type 0} where
  unfoldable pub any_has : List (BlobStore K R) → K → Bool
  any_has [] id = false
  any_has (store ∷ stores) id =
      let later = any_has stores id in if store.has_blob_of id then true else later

  unfoldable pub has_blob : Multi K R → K → Bool
  has_blob multi id = elim multi.mode [
    | mode_mirror ↦ any_has multi.child_stores id
    | mode_write_through ↦
        if multi.write_store.has_blob_of id then true else any_has multi.read_stores id
    | mode_unset ↦ false
  ]

  -- The loop over the stores; `finish` is what becomes of the reader that is found.
  unfoldable pub walk_readers : (R → R) → List (BlobStore K R) → K → Reading R
  walk_readers finish [] id = refused blob_missing
  walk_readers finish (store ∷ stores) id =
      let later = walk_readers finish stores id in
      if store.has_blob_of id then or_next (store.make_blob_reader_of id) finish later else later

  unfoldable pub make_blob_reader : Multi K R → K → Reading R
  make_blob_reader multi id =
      let from_reads =
        walk_readers (fill multi.read_fill multi.write_store.make_default_writer) multi.read_stores
          id in
      elim multi.mode [
        | mode_mirror ↦ walk_readers unchanged multi.child_stores id
        | mode_write_through ↦
            if multi.write_store.has_blob_of id
            then or_next (multi.write_store.make_blob_reader_of id) unchanged from_reads
            else from_reads
        | mode_unset ↦ refused unknown_mode
      ]

  unfoldable pub all_blob_sources : Multi K R → List (BlobStore K R)
  all_blob_sources multi = elim multi.mode [
    | mode_mirror ↦ multi.child_stores
    | mode_write_through ↦ multi.write_store ∷ multi.read_stores
    | mode_unset ↦ []
  ]
