-- ===== src/ArchiveStore/ReadPacked.antt =====
-- MakeBlobReader after packChunkArchiveV1.
use madder.Common.{ℕ, ◌^◌, ◌<◌, ◌≡◌, refl, sym, ap, ◌∙◌, List, []}
use madder.Common.{All, get_elem?, Option, none, some, length}
use madder.Common.{true, false, if◌then◌else◌, ◌==◌, Bool-cases, inl, inr}
use madder.Common.Bytes.{Bytes}
use madder.Common.Tables.{lookup}
use madder.Archive.Types.{Result, ok, err, ◌>>=◌, ◌>>◌, guard, not_found, DataEntryV1, IsSized}
use madder.Archive.Types.{hash_size_for_format, chained_delta, entry_type_full}
use madder.Archive.Data.Codec.{AllLossless}
use madder.Archive.Data.Cursor.{Cursor}
use madder.Archive.Data.Reader.{new_data_reader_v1, read_entry_at}
use madder.Archive.Data.Session.{Holds, recorded}
use madder.ArchiveStore.Types.{PackedBlob, StoreConfig, InventoryArchiveV1}
use madder.ArchiveStore.Types.{IsExact, delta_algorithm_for_byte}
use madder.ArchiveStore.Deltas.{DeltaPlan, plan_deltas, base_of, try_delta}
use madder.ArchiveStore.Packer.{Disk, Packed, archive_entry}
use madder.ArchiveStore.Packer.{data_offsets, pack_chunk_archive_v1}
use madder.ArchiveStore.Planned.{Based, based, planned-none, planned-some, call_of, planned}
use madder.ArchiveStore.Reads.{
  LooseBlobStore, make_blob_reader, read_archived, read_blob_entry, read_base,
}
use madder.ArchiveStore.PackedFile.{PackedFile, packed_file, Stands, stands, entry_read}
use madder.ArchiveStore.Stored.{
  IsDistinct, IsBlob, planned-Based, registered-IsExact, try_delta-compute,
}

-- What a packed blob is read back as: itself, or its delta on a base that is not itself a delta.
unfoldable pub restored_on : DeltaPlan → Based → Option Based → Result Bytes
restored_on plan x none = plan.alg.apply x.base.contents x.patch
restored_on plan x (some y) = err chained_delta

unfoldable pub restored : DeltaPlan → List PackedBlob → ℕ → PackedBlob → Result Bytes
restored plan blobs i blob = elim (planned plan blobs i blob) [
  | none ↦ ok blob.contents
  | some x ↦ restored_on plan x (planned plan blobs x.base_idx x.base)
]

module _ {config : StoreConfig} {plan : DeltaPlan} {blobs : List PackedBlob} {n : ℕ}
    {store store' : InventoryArchiveV1} {p : Packed}
    (f : PackedFile config plan blobs n store store' p) where
  -- A delta entry is read as its base's entry allows.
  read_based :
      (i : ℕ) (b : PackedBlob) (x : Based) (e : DataEntryV1) (c : Cursor)
      → planned plan blobs i b ≡ some x
      → Holds (call_of plan.alg_byte b (some x)) e
      → c.file ≡ f.sink.written
      → read_base config store'.index f.whole.dr c e
        ≡ restored_on plan x (planned plan blobs x.base_idx x.base)
  unfolding read_base restored_on
  read_based i b x e c q holds same =
      let (assigned, base_found, _) = planned-Based plan blobs i b q in
      let t = stands f x.base_idx x.base base_found in
      let (c', read, _) = entry_read f x.base_idx x.base t c same in
      rw
        (
          read_base,
          ap (λ d. lookup d store'.index) holds.3 ∙ t.looked_up,
          ap
              (λ r. r >>= λ base.
                guard (base.0.entry_type == entry_type_full) chained_delta
                >> (delta_algorithm_for_byte config.bsdiff e.delta_algorithm >>= λ alg.
                    alg.apply base.0.contents e.contents))
              read,
        )
        (go t.entry (planned plan blobs x.base_idx x.base) t.holds (
          ap (delta_algorithm_for_byte config.bsdiff) holds.2
          ∙ f.prepared.registered i x.base_idx assigned))
    where
      go :
          (base : DataEntryV1) (o : Option Based)
          → Holds (call_of plan.alg_byte x.base o) base
          → delta_algorithm_for_byte config.bsdiff e.delta_algorithm ≡ ok plan.alg
          → (guard (base.entry_type == entry_type_full) chained_delta
              >> (delta_algorithm_for_byte config.bsdiff e.delta_algorithm >>= λ alg.
                  alg.apply base.contents e.contents))
            ≡ restored_on plan x o
      go base none (hash, type, size, contents) registered =
          rw (type, registered) (λ k. plan.alg.apply (contents k) (holds.5 k))
      go base (some y) held registered = rw (held.1)

  read_standing :
      (i : ℕ) (b : PackedBlob) (t : Stands f i b) (c : Cursor)
      → get_elem? blobs i ≡ some b
      → c.file ≡ f.sink.written
      → read_blob_entry config store'.index f.whole.dr (t.entry, c) ≡ restored plan blobs i b
  unfolding read_blob_entry restored read_base
  read_standing i b t c found same = go (planned plan blobs i b) refl t.holds
    where
      go :
          (o : Option Based)
          → planned plan blobs i b ≡ o
          → Holds (call_of plan.alg_byte b o) t.entry
          → read_blob_entry config store'.index f.whole.dr (t.entry, c) ≡ elim o [
            | none ↦ ok b.contents
            | some x ↦ restored_on plan x (planned plan blobs x.base_idx x.base)
          ]
      go none q (hash, type, size, contents) =
          rw (read_blob_entry, type, if◌then◌else◌) (ap ok contents)
      go (some x) q held =
          rw (read_blob_entry, held.1, if◌then◌else◌) (read_based i b x t.entry c q held same)

  archived_read :
      (i : ℕ) (b : PackedBlob) (t : Stands f i b)
      → get_elem? blobs i ≡ some b
      → read_archived config store'
          (archive_entry p.checksum (data_offsets f.entries) (recorded t.entry))
        ≡ restored plan blobs i b
  unfolding read_archived
  archived_read i b t found =
      let (c', read, same) = entry_read f i b t f.whole.cursor f.whole.file in
      ap
        (λ o. elim o [ none ↦ err not_found | some file ↦ ok file ] >>= λ file.
          new_data_reader_v1 file config.encryption >>= λ opened.
          read_entry_at config.plugins opened.0 t.entry.offset opened.1 >>= λ entry.
          read_blob_entry config store'.index opened.0 entry)
        f.file_found
      ∙ ap
          (λ o. o >>= λ opened.
            read_entry_at config.plugins opened.0 t.entry.offset opened.1 >>= λ entry.
            read_blob_entry config store'.index opened.0 entry)
          f.whole.opens
      ∙ ap (λ o. o >>= λ entry. read_blob_entry config store'.index f.whole.dr entry) read
      ∙ read_standing i b t c' found same

  read_planned :
      (loose : LooseBlobStore) (i : ℕ) (b : PackedBlob)
      → get_elem? blobs i ≡ some b
      → config.is_null b.digest ≡ false
      → make_blob_reader config loose store' b.digest ≡ restored plan blobs i b
  unfolding make_blob_reader
  read_planned loose i b found not_null =
      let t = stands f i b found in
      rw (make_blob_reader, not_null, if◌then◌else◌, t.looked_up) (archived_read i b t found)

module _ (config : StoreConfig) (disk : Disk) (loose : LooseBlobStore)
    (store store' : InventoryArchiveV1) (blobs : List PackedBlob) (plan : DeltaPlan) (p : Packed)
    (n : ℕ) (planned_by : plan_deltas config blobs ≡ ok plan)
    (h : pack_chunk_archive_v1 config disk store blobs ≡ (store', ok p))
    (sized : hash_size_for_format config.hash_format ≡ ok n) (digest_sized : IsSized config.digest)
    (lossless : AllLossless config.plugins config.encryption) (ranges : All (IsBlob n) blobs)
    (distinct : IsDistinct blobs)
    (small : (file : Bytes)
      → lookup p.checksum store'.archive_files ≡ some file
      → length file < 2 ^ 63) where
  file : PackedFile config plan blobs n store store' p
  file =
      packed_file config disk store store' blobs plan p n planned_by h sized digest_sized lossless
        ranges distinct small

  -- After a chunk is packed, the reader of each of its blobs gives what the plan of the chunk makes of
  -- the blob: its contents if it is stored whole, the algorithm's answer for its base and its delta if
  -- its base is stored whole, and the error for a chained delta if the base is itself a delta. This is
  -- so for codecs that decode what they encode, digests as long as the format says and told apart,
  -- contents below 2^64 bytes, an archive file below 2^63, and a digest that is not null.
  pub make_blob_reader-restored :
      (i : ℕ) (b : PackedBlob)
      → get_elem? blobs i ≡ some b
      → config.is_null b.digest ≡ false
      → make_blob_reader config loose store' b.digest ≡ restored plan blobs i b
  make_blob_reader-restored i b found not_null = read_planned file loose i b found not_null

  restored-chain :
      (i j k : ℕ) (a b base : PackedBlob) (patch below : Bytes)
      → base_of plan.assignments i ≡ some j
      → base_of plan.assignments j ≡ some k
      → get_elem? blobs j ≡ some b
      → get_elem? blobs k ≡ some base
      → try_delta plan.alg b.contents a.contents ≡ some patch
      → try_delta plan.alg base.contents b.contents ≡ some below
      → restored plan blobs i a ≡ err chained_delta
  unfolding restored restored_on
  restored-chain i j k a b base patch below first second at_j at_k tried tried_base = rw (
    restored,
    planned-some plan blobs i j a b first at_j ∙ ap (based j b) tried,
    restored_on,
    planned-some plan blobs j k b base second at_k ∙ ap (based k base) tried_base,
  )

  -- A blob whose base in the chunk is itself stored as a delta cannot be read from the archive: for
  -- such a pair of assignments whose deltas are smaller than their blobs, the chunk is packed, and the
  -- reader of the first blob is the error for a chained delta. This is so for codecs that decode what
  -- they encode, digests as long as the format says and told apart, contents below 2^64 bytes, an
  -- archive file below 2^63, and a digest that is not null.
  pub make_blob_reader-chained_delta :
      (i j k : ℕ) (a b base : PackedBlob) (patch below : Bytes)
      → base_of plan.assignments i ≡ some j
      → base_of plan.assignments j ≡ some k
      → get_elem? blobs i ≡ some a
      → get_elem? blobs j ≡ some b
      → get_elem? blobs k ≡ some base
      → try_delta plan.alg b.contents a.contents ≡ some patch
      → try_delta plan.alg base.contents b.contents ≡ some below
      → config.is_null a.digest ≡ false
      → make_blob_reader config loose store' a.digest ≡ err chained_delta
  make_blob_reader-chained_delta i j k a b base patch below first second at_i at_j at_k tried
        tried_base not_null =
      make_blob_reader-restored i a at_i not_null
      ∙ restored-chain i j k a b base patch below first second at_j at_k tried tried_base

  module _ (exact : IsExact config.bsdiff)
      (unchained : (i j : ℕ)
        → base_of plan.assignments i ≡ some j
        → base_of plan.assignments j ≡ none) where
    restored_back : (i : ℕ) (b : PackedBlob) → restored plan blobs i b ≡ ok b.contents
    unfolding restored restored_on
    restored_back i b = go (planned plan blobs i b) refl
      where
        go :
            (o : Option Based)
            → planned plan blobs i b ≡ o
            → elim o [
              | none ↦ ok b.contents
              | some x ↦ restored_on plan x (planned plan blobs x.base_idx x.base)
            ]
              ≡ ok b.contents
        go none q = refl
        go (some x) q =
            let (assigned, _, tried) = planned-Based plan blobs i b q in
            ap (restored_on plan x)
              (planned-none plan blobs x.base_idx x.base (unchained i x.base_idx assigned))
            ∙ registered-IsExact config plan exact (file.prepared.registered i x.base_idx assigned)
                x.base.contents b.contents x.patch (try_delta-compute plan.alg _ _ tried)

    -- After a chunk is packed, the reader of each of its blobs gives the blob's contents, provided no
    -- base of an assignment is itself assigned, the delta library gives back what a delta was made of,
    -- codecs decode what they encode, digests are as long as the format says and told apart, the blob's digest
    -- is not null or its contents are empty, contents are below 2^64 bytes and the archive file below 2^63.
    pub make_blob_reader-pack_chunk_archive_v1 :
        (i : ℕ) (b : PackedBlob)
        → get_elem? blobs i ≡ some b
        → (config.is_null b.digest ≡ true → b.contents ≡ [])
        → make_blob_reader config loose store' b.digest ≡ ok b.contents
    unfolding make_blob_reader
    make_blob_reader-pack_chunk_archive_v1 i b found null_empty =
        elim (Bool-cases (config.is_null b.digest)) [
          | inl null ↦ rw (make_blob_reader, null, if◌then◌else◌) (ap ok (sym (null_empty null)))
          | inr not_null ↦ make_blob_reader-restored i b found not_null ∙ restored_back i b
        ]
