-- ===== src/ArchiveStore/ChunkCalls.antt =====
-- A chunk that was packed: its data file, and what became of the store.
use madder.Common.{◌≡◌, refl, sym, ap, ◌∙◌, List}
use madder.Common.Bytes.{Bytes}
use madder.Common.Tables.{insert}
use madder.Archive.Types.{Result, ok, err, bind-ok, guard, DataEntryV1, file_failed}
use madder.Archive.Types as Types
use madder.Archive.Stream.{Sink}
use madder.ArchiveStore.Types.{PackedBlob, StoreConfig, InventoryArchiveV1}
use madder.ArchiveStore.Deltas.{DeltaPlan, plan_deltas}
use madder.ArchiveStore.Packer.{
  Disk, write_data_file, temp_file, Renamed, write_renamed, update_store, write_index_file,
  pack_chunk_archive_v1, Packed, update_index, data_offsets, count_fulls, count_deltas,
}
use madder.ArchiveStore.FileCalls.{ChunkCalls, chunk_calls, plan_deltas-Prepared}

-- A chunk that was packed under a plan.
pub record PackedChunk (config : StoreConfig) (disk : Disk) (store store' : InventoryArchiveV1)
    (blobs : List PackedBlob) (plan : DeltaPlan) (p : Packed) : Type 0 where
  pub entries : List DataEntryV1
  pub sink : Sink
  pub chunk : ChunkCalls config plan disk blobs p.checksum entries sink
  pub files : store'.archive_files ≡ insert p.checksum sink.written store.archive_files
  pub indexed : store'.index ≡ update_index p.checksum (data_offsets entries) entries store.index
  pub index_bytes : Bytes
  pub index_written : write_index_file config disk entries ≡ ok index_bytes
  pub index_files : store'.index_files ≡ insert p.checksum index_bytes store.index_files
  pub fulls : p.full_count ≡ count_fulls entries
  pub deltas : p.delta_count ≡ count_deltas entries

module _ (config : StoreConfig) (disk : Disk) (store store' : InventoryArchiveV1)
    (blobs : List PackedBlob) (plan : DeltaPlan) (p : Packed)
    (planned : plan_deltas config blobs ≡ ok plan) where
  -- A file that got its final name, and the run that wrote it.
  record Written (r : Renamed) : Type 0 where
    pub sink : Sink
    pub ran :
        write_data_file config plan disk blobs (temp_file disk) ≡ ok ((r.checksum, r.entries), sink)
    pub file : r.file ≡ sink.written

  written : (r : Renamed) → write_renamed config disk blobs ≡ ok r → Written r
  unfolding write_renamed
  written r h =
      let (plan', planned', h1) = bind-ok (plan_deltas config blobs) _ h in
      let (_, _, h2) = bind-ok (guard disk.makes_directory file_failed) _ h1 in
      let (_, _, h3) = bind-ok (guard disk.makes_temp file_failed) _ h2 in
      let (out, ran, h4) =
        bind-ok (write_data_file config plan' disk blobs (temp_file disk)) _ h3 in
      let (_, _, h5) = bind-ok (guard disk.closes_temp file_failed) _ h4 in
      let (_, _, h6) = bind-ok (guard disk.renames file_failed) _ h5 in
      record {
        sink = out.1;
        ran =
            (λ i.
              write_data_file config (same (sym planned ∙ planned') i) disk blobs (temp_file disk))
            ∙ ran
            ∙ (λ i. ok (((kept h6 i).checksum, (kept h6 i).entries), out.1));
        file = sym (ap (λ (x : Renamed). x.file) (kept h6));
      }
    where
      same : {x y : DeltaPlan} → ok x ≡ ok y → x ≡ y
      same e = cc

      kept : {x y : Renamed} → ok x ≡ ok y → x ≡ y
      kept e = cc

  updated :
      (r : Renamed) (o : Result Bytes)
      → Written r
      → write_index_file config disk r.entries ≡ o
      → update_store store r o ≡ (store', ok p)
      → PackedChunk config disk store store' blobs plan p
  unfolding update_store
  updated r (err e) w q h = absurd (apart (ap (λ x. x.1) h))
    where
      apart : {e : Types.Error} → err e ≡ ok p → ⊥
      apart k = cc
  updated r (ok bytes) w q h =
      let same : ok (record {
        checksum = r.checksum;
        full_count = count_fulls r.entries;
        delta_count = count_deltas r.entries;
      })
          ≡ ok p =
        ap (λ x. x.1) h in
      let checked = kept same in
      record {
        entries = r.entries;
        sink = w.sink;
        chunk =
            chunk_calls config plan disk blobs p.checksum r.entries w.sink
              (plan_deltas-Prepared config blobs plan planned).ascending
              (w.ran ∙ (λ i. ok (((checked i).checksum, r.entries), w.sink)));
        files =
            sym (ap (λ x. x.0.archive_files) h)
            ∙ (λ i. insert (checked i).checksum (w.file i) store.archive_files);
        indexed = sym (ap (λ x. x.0.index) h) ∙ (λ i.
            update_index (checked i).checksum (data_offsets r.entries) r.entries store.index);
        index_bytes = bytes;
        index_written = q;
        index_files =
            sym (ap (λ x. x.0.index_files) h)
            ∙ (λ i. insert (checked i).checksum bytes store.index_files);
        fulls = sym (ap (λ (x : Packed). x.full_count) checked);
        deltas = sym (ap (λ (x : Packed). x.delta_count) checked);
      }
    where
      kept : {x y : Packed} → ok x ≡ ok y → x ≡ y
      kept e = cc

  pub packed_chunk :
      pack_chunk_archive_v1 config disk store blobs ≡ (store', ok p)
      → PackedChunk config disk store store' blobs plan p
  unfolding pack_chunk_archive_v1
  packed_chunk h = go (write_renamed config disk blobs) refl h
    where
      go :
          (o : Result Renamed)
          → write_renamed config disk blobs ≡ o
          → ◌≡◌ {A = InventoryArchiveV1 × Result Packed}
              (elim o [
                | err e ↦ (store, err e)
                | ok renamed ↦
                    update_store store renamed (write_index_file config disk renamed.entries)
              ])
              (store', ok p)
          → PackedChunk config disk store store' blobs plan p
      go (err e) q h = absurd (apart (ap (λ x. x.1) h))
        where
          apart : {e : Types.Error} → err e ≡ ok p → ⊥
          apart k = cc
      go (ok r) q h = updated r (write_index_file config disk r.entries) (written r q) refl h
