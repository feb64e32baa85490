-- ===== src/ArchiveStore/PackedFile.antt =====
-- A packed chunk in the store: its file, and the entry that the index has for each of its blobs.
use madder.Common.{ℕ, ◌+◌, ◌^◌, ◌<◌, ◌≡◌, refl, sym, ap, ◌∙◌, arith, List, []}
use madder.Common.{◌∷◌, ◌++◌, All, All-get, get_elem?, some, some_inj, length}
use madder.Common.Bytes.{Bytes}
use madder.Common.Tables.{Table, lookup, lookup-insert, insert_all, insert_all-Found}
use madder.Archive.Types.{ok, DataEntryV1, IsSized}
use madder.Archive.Types.{hash_size_for_format}
use madder.Archive.Data.Codec.{AllLossless}
use madder.Archive.Data.Cursor.{Cursor}
use madder.Archive.Data.Reader.{read_entry_at}
use madder.Archive.Data.Chain.{read_entry_at-Chain}
use madder.Archive.Data.Session.{Call, Holds, recorded}
use madder.Archive.Data.WholeFile.{Archived, archived}
use madder.ArchiveStore.Types.{PackedBlob, StoreConfig, InventoryArchiveV1, ArchiveEntryV1}
use madder.ArchiveStore.Deltas.{DeltaPlan, plan_deltas}
use madder.ArchiveStore.Packer.{Disk, Packed, data_file_flags, update_index, archive_entry}
use madder.Archive.Stream.{Sink}
use madder.ArchiveStore.Packer.{
  count_fulls, count_deltas, data_offsets, temp_file, pack_chunk_archive_v1,
}
use madder.ArchiveStore.Planned.{Listed, call_for, IsCallFor}
use madder.ArchiveStore.ChunkCalls.{packed_chunk}
use madder.ArchiveStore.FileCalls.{plan_deltas-Prepared, Prepared}
use madder.ArchiveStore.Lookups.{digest_of_call, Holds-hash, AllHold-entry, AllHold-call}
use madder.ArchiveStore.Stored.{
  IsDistinct, IsBlob, digest_of_call-call_for, calls-IsCall, data_file_flags-IsU16, map-get,
  get-map,
}
use mathlib.Core.Path.{subst}

-- The file of a chunk that was packed, and what the store knows of it.
pub record PackedFile (config : StoreConfig) (plan : DeltaPlan) (blobs : List PackedBlob) (n : ℕ)
    (store store' : InventoryArchiveV1) (p : Packed) : Type 0 where
  pub prepared : Prepared config plan
  pub ranges : All (IsBlob n) blobs
  pub distinct : IsDistinct blobs
  pub calls : List Call
  pub each : All (IsCallFor plan blobs) calls
  pub every :
      (i : ℕ) (b : PackedBlob) → get_elem? blobs i ≡ some b → Listed calls (call_for plan blobs i b)
  pub entries : List DataEntryV1
  pub sink : Sink
  pub whole :
      Archived config.plugins config.digest config.hash_format n config.encryption calls entries
        sink
  pub file_found : lookup p.checksum store'.archive_files ≡ some sink.written
  pub small : length sink.written < 2 ^ 63
  pub indexed : store'.index ≡ update_index p.checksum (data_offsets entries) entries store.index
  pub counted : p.full_count + p.delta_count ≡ length entries

update_index_eq :
    (checksum : Bytes) (offsets : Table ℕ) (entries : List DataEntryV1)
    (index : Table ArchiveEntryV1) (id : Bytes)
    → lookup id (update_index checksum offsets entries index)
      ≡ lookup id (
          insert_all (λ (de : DataEntryV1). de.hash) (archive_entry checksum offsets) entries index)
unfolding update_index
update_index_eq checksum offsets entries index id = refl

count_all : (es : List DataEntryV1) → count_fulls es + count_deltas es ≡ length es
unfolding count_fulls count_deltas
count_all [] = omega arith
count_all (e ∷ es) = ground (arith, count_all es)

module _ (config : StoreConfig) (disk : Disk) (store store' : InventoryArchiveV1)
    (blobs : List PackedBlob) (plan : DeltaPlan) (p : Packed) (n : ℕ)
    (planned_by : plan_deltas config blobs ≡ ok plan)
    (h : pack_chunk_archive_v1 config disk store blobs ≡ (store', ok p))
    (sized : hash_size_for_format config.hash_format ≡ ok n) (digest_sized : IsSized config.digest)
    (lossless : AllLossless config.plugins config.encryption) (ranges : All (IsBlob n) blobs)
    (distinct : IsDistinct blobs)
    (small : (file : Bytes)
      → lookup p.checksum store'.archive_files ≡ some file
      → length file < 2 ^ 63) where
  pub packed_file : PackedFile config plan blobs n store store' p
  packed_file =
      let chunk = packed_chunk config disk store store' blobs plan p planned_by h in
      let file_found : lookup p.checksum store'.archive_files ≡ some chunk.sink.written =
        ap (lookup p.checksum) chunk.files
        ∙ lookup-insert p.checksum chunk.sink.written store.archive_files in
      record {
        prepared = plan_deltas-Prepared config blobs plan planned_by;
        ranges = ranges;
        distinct = distinct;
        calls = chunk.chunk.calls;
        each = chunk.chunk.each;
        every = chunk.chunk.every;
        entries = chunk.entries;
        sink = chunk.sink;
        whole =
            archived config.plugins config.digest config.hash_format config.compression_ref
              (data_file_flags config plan) config.encryption chunk.chunk.calls n (temp_file disk)
              chunk.sink p.checksum chunk.entries sized lossless
              (calls-IsCall plan blobs n chunk.chunk.calls ranges chunk.chunk.each)
              (data_file_flags-IsU16 config plan) digest_sized refl chunk.chunk.run
              (small chunk.sink.written file_found);
        file_found = file_found;
        small = small chunk.sink.written file_found;
        indexed = chunk.indexed;
        counted = omega (arith, chunk.fulls, chunk.deltas, count_all chunk.entries);
      }

module _ {config : StoreConfig} {plan : DeltaPlan} {blobs : List PackedBlob} {n : ℕ}
    {store store' : InventoryArchiveV1} {p : Packed}
    (f : PackedFile config plan blobs n store store' p) where
  -- The entry that the index has for a blob.
  pub record Stands (i : ℕ) (b : PackedBlob) : Type 0 where
    pub entry : DataEntryV1
    pub idx : ℕ
    pub found : get_elem? f.whole.es idx ≡ some entry
    pub holds : Holds (call_for plan blobs i b) entry
    pub looked_up :
        lookup b.digest store'.index
        ≡ some (archive_entry p.checksum (data_offsets f.entries) (recorded entry))

  pub same_call :
      (i : ℕ) (b : PackedBlob) (c : Call)
      → get_elem? blobs i ≡ some b
      → IsCallFor plan blobs c
      → digest_of_call c ≡ b.digest
      → c ≡ call_for plan blobs i b
  same_call i b c found g d =
      let same : g.idx ≡ i = f.distinct g.idx i g.blob b g.found found (
        sym (digest_of_call-call_for plan blobs g.idx g.blob)
        ∙ ap digest_of_call (sym g.called)
        ∙ d) in
      let blob : g.blob ≡ b = some_inj (sym g.found ∙ ap (get_elem? blobs) same ∙ found) in
      g.called ∙ (λ k. call_for plan blobs (same k) (blob k))

  pub stands : (i : ℕ) (b : PackedBlob) → get_elem? blobs i ≡ some b → Stands i b
  stands i b found =
      let (k, listed) = f.every i b found in
      let (e0, at_k, holds0) = AllHold-entry f.calls f.whole.es k f.whole.held listed in
      let keyed0 : e0.hash ≡ b.digest =
        Holds-hash (call_for plan blobs i b) e0 holds0 ∙ digest_of_call-call_for plan blobs i b in
      let entry = archive_entry p.checksum (data_offsets f.entries) in
      let x =
        insert_all-Found (λ (de : DataEntryV1). de.hash) entry f.entries store.index k b.digest
          (ap (λ l. get_elem? l k) f.whole.recorded_eq ∙ get-map f.whole.es k at_k) keyed0 in
      let (e, at_m, record_eq) =
        map-get f.whole.es x.idx
          (ap (λ l. get_elem? l x.idx) (sym f.whole.recorded_eq) ∙ x.found) in
      let (c, called, holds) = AllHold-call f.calls f.whole.es x.idx f.whole.held at_m in
      let hash : e.hash ≡ b.digest = ap (λ (y : DataEntryV1). y.hash) (sym record_eq) ∙ x.keyed in
      let same =
        same_call i b c found (All-get (IsCallFor plan blobs) f.calls x.idx f.each called)
          (sym (Holds-hash c e holds) ∙ hash) in
      record {
        entry = e;
        idx = x.idx;
        found = at_m;
        holds = subst (λ y. Holds y e) same holds;
        looked_up =
            ap (lookup b.digest) f.indexed
            ∙ update_index_eq p.checksum (data_offsets f.entries) f.entries store.index b.digest
            ∙ x.stored
            ∙ ap (λ r. some (entry r)) record_eq;
      }

  pub entry_read :
      (i : ℕ) (b : PackedBlob) (t : Stands i b) (c : Cursor)
      → c.file ≡ f.sink.written
      → (c' : Cursor) × (read_entry_at config.plugins f.whole.dr t.entry.offset c
          ≡ ok (t.entry, c'))
        × (c'.file ≡ f.sink.written)
  entry_read i b t c same =
      let (c', read, kept) =
        read_entry_at-Chain config.plugins f.whole.dr f.whole.head f.whole.bytes
          (f.whole.count ++ f.whole.checksum) f.whole.es f.whole.chain f.whole.start f.whole.end
          (omega (arith, ap (length {A = ℕ}) f.whole.written, f.small)) c t.idx
          (same ∙ f.whole.written) t.found in
      (c', read, kept ∙ same)
