-- ===== src/ArchiveStore/ValidatePacked.antt =====
-- validateArchiveV1 after packChunkArchiveV1.
use madder.Common.{ℕ, suc, ◌+◌, ◌^◌, ◌<◌, ◌≡◌, refl, sym, ap, ◌∙◌, arith, List, []}
use madder.Common.{◌∷◌, ◌++◌, All, All-get, get_elem?, Option, none, some, length}
use madder.Common.{if◌then◌else◌, ◌==◌, eq→==}
use madder.Common.Bytes.{Bytes, equal_bytes_refl}
use madder.Common.Tables.{lookup, insert_all-Found}
use madder.Archive.Types.{Result, ok, err, ◌>>=◌, ◌>>◌, guard, DataEntryV1, IsSized}
use madder.Archive.Types.{hash_size_for_format, not_found}
use madder.Archive.Types.{count_mismatch}
use madder.Archive.Data.Codec.{AllLossless}
use madder.Archive.Data.Reader.{new_data_reader_v1, read_all_entries}
use madder.Archive.Data.Chain.{read_all_entries-Chain}
use madder.Archive.Data.Session.{Holds, recorded}
use madder.ArchiveStore.Types.{PackedBlob, StoreConfig, InventoryArchiveV1, IsExact}
use madder.ArchiveStore.Types.{delta_algorithm_for_byte}
use madder.ArchiveStore.Deltas.{DeltaPlan, plan_deltas, base_of}
use madder.ArchiveStore.Packer.{Disk, Packed, pack_chunk_archive_v1}
use madder.ArchiveStore.Planned.{Based, call_of, planned, call_for, IsCallFor, planned-none}
use madder.ArchiveStore.Validator.{
  full_entries, full_contents, original_contents, validate_entry, validate_entries,
  validate_archive_v1,
}
use madder.ArchiveStore.Lookups.{Holds-hash, AllHold-entry, AllHold-call}
use madder.ArchiveStore.Stored.{
  IsDistinct, IsBlob, planned-Based, registered-IsExact, try_delta-compute, digest_of_call-call_for,
}
use madder.ArchiveStore.PackedFile.{PackedFile, packed_file, same_call}
use mathlib.Core.List.{map}
use mathlib.Core.Path.{subst}
use madder.ArchiveStore.FullEntries.{full_entries-get, get-full_entries}

module _ {config : StoreConfig} {plan : DeltaPlan} {blobs : List PackedBlob} {n : ℕ}
    {store store' : InventoryArchiveV1} {p : Packed}
    (f : PackedFile config plan blobs n store store' p) (exact : IsExact config.bsdiff)
    (unchained : (i j : ℕ)
      → base_of plan.assignments i ≡ some j
      → base_of plan.assignments j ≡ none)
    (digested : (i : ℕ) (b : PackedBlob)
      → get_elem? blobs i ≡ some b
      → config.digest config.hash_format b.contents ≡ b.digest) where
  -- A whole blob's contents are in the table of bases.
  base_found :
      (i : ℕ) (b : PackedBlob)
      → get_elem? blobs i ≡ some b
      → planned plan blobs i b ≡ none
      → lookup b.digest (full_contents f.whole.es) ≡ some b.contents
  unfolding full_contents
  base_found i b found whole =
      let (k, listed) = f.every i b found in
      let (e0, at_k, holds0) = AllHold-entry f.calls f.whole.es k f.whole.held listed in
      let (k', in_full) =
        get-full_entries f.whole.es k at_k
          (subst (λ o. Holds (call_of plan.alg_byte b o) e0) whole holds0).1 in
      let keyed0 : e0.hash ≡ b.digest =
        Holds-hash (call_for plan blobs i b) e0 holds0 ∙ digest_of_call-call_for plan blobs i b in
      let x =
        insert_all-Found (λ (e : DataEntryV1). e.hash) (λ e. e.contents) (full_entries f.whole.es)
          [] k' b.digest in_full keyed0 in
      let (m, at_m, _) = full_entries-get f.whole.es x.idx x.found in
      let (c, called, holds) = AllHold-call f.calls f.whole.es m f.whole.held at_m in
      let same =
        same_call f i b c found (All-get (IsCallFor plan blobs) f.calls m f.each called)
          (sym (Holds-hash c x.item holds) ∙ x.keyed) in
      x.stored
      ∙ ap some
          (subst (λ o. Holds (call_of plan.alg_byte b o) x.item) whole
            (subst (λ y. Holds y x.item) same holds)).3

  original_found :
      (i : ℕ) (b : PackedBlob) (e : DataEntryV1)
      → get_elem? blobs i ≡ some b
      → Holds (call_for plan blobs i b) e
      → original_contents config (full_contents f.whole.es) e ≡ ok b.contents
  unfolding original_contents
  original_found i b e found held = go (planned plan blobs i b) refl held
    where
      go :
          (o : Option Based)
          → planned plan blobs i b ≡ o
          → Holds (call_of plan.alg_byte b o) e
          → original_contents config (full_contents f.whole.es) e ≡ ok b.contents
      go none q (hash, type, size, contents) =
          rw (original_contents, type, if◌then◌else◌) (ap ok contents)
      go (some x) q held' =
          let (assigned, at_base, tried) = planned-Based plan blobs i b q in
          let based_on =
            base_found x.base_idx x.base at_base
              (planned-none plan blobs x.base_idx x.base (unchained i x.base_idx assigned)) in
          let registered = f.prepared.registered i x.base_idx assigned in
          rw
            (
              original_contents,
              held'.1,
              if◌then◌else◌,
              ap (λ d. lookup d (full_contents f.whole.es)) held'.3 ∙ based_on,
              ap (delta_algorithm_for_byte config.bsdiff) held'.2 ∙ registered,
            )
            (ap (plan.alg.apply x.base.contents) held'.5
              ∙ registered-IsExact config plan exact registered x.base.contents b.contents x.patch
                  (try_delta-compute plan.alg _ _ tried))

  entry_valid :
      (e : DataEntryV1) (m : ℕ)
      → get_elem? f.whole.es m ≡ some e
      → validate_entry config (full_contents f.whole.es) e ≡ ok tt
  unfolding validate_entry
  entry_valid e m at_m =
      let (c, called, holds) = AllHold-call f.calls f.whole.es m f.whole.held at_m in
      let g = All-get (IsCallFor plan blobs) f.calls m f.each called in
      let held = subst (λ y. Holds y e) g.called holds in
      rw (
        validate_entry,
        original_found g.idx g.blob e g.found held,
        digested g.idx g.blob g.found,
        Holds-hash (call_for plan blobs g.idx g.blob) e held
            ∙ digest_of_call-call_for plan blobs g.idx g.blob,
        equal_bytes_refl g.blob.digest,
      )

  all_valid :
      (es : List DataEntryV1)
      → ((m : ℕ) (e : DataEntryV1)
          → get_elem? es m ≡ some e
          → validate_entry config (full_contents f.whole.es) e ≡ ok tt)
      → validate_entries config (full_contents f.whole.es) es ≡ ok tt
  unfolding validate_entries
  all_valid [] each = refl
  all_valid (e ∷ es) each =
      ap (λ r. r >> validate_entries config (full_contents f.whole.es) es) (each 0 e refl)
      ∙ all_valid es (λ m x h. each (suc m) x h)

  pub file_validates :
      validate_archive_v1 config store' p.checksum (p.full_count + p.delta_count) ≡ ok tt
  unfolding validate_archive_v1
  file_validates =
      let count : length f.whole.es ≡ p.full_count + p.delta_count =
        sym (length-map f.whole.es)
        ∙ ap (length {A = DataEntryV1}) (sym f.whole.recorded_eq)
        ∙ sym f.counted in
      let read : read_all_entries config.plugins f.whole.dr f.whole.cursor ≡ ok f.whole.es =
        read_all_entries-Chain config.plugins f.whole.dr f.whole.head f.whole.bytes
          (f.whole.count ++ f.whole.checksum) f.whole.es f.whole.chain f.whole.start f.whole.end
          (omega (arith, ap (length {A = ℕ}) f.whole.written, f.small)) f.whole.cursor
          (f.whole.file ∙ f.whole.written) in
      let check : List DataEntryV1 → Result (Unit {0}) = λ entries.
        guard (length entries == (p.full_count + p.delta_count)) count_mismatch
        >> validate_entries config (full_contents entries) entries in
      ap
        (λ o. elim o [ none ↦ err not_found | some file ↦ ok file ] >>= λ file.
          new_data_reader_v1 file config.encryption >>= λ opened.
          read_all_entries config.plugins opened.0 opened.1 >>= check)
        f.file_found
      ∙ ap (λ o. o >>= λ opened. read_all_entries config.plugins opened.0 opened.1 >>= check)
          f.whole.opens
      ∙ ap (λ o. o >>= check) read
      ∙ ap
          (λ q.
            guard q count_mismatch >> validate_entries config (full_contents f.whole.es) f.whole.es)
          (eq→== (length f.whole.es) (p.full_count + p.delta_count) count)
      ∙ all_valid f.whole.es (λ m e h. entry_valid e m h)
    where
      length-map : (es : List DataEntryV1) → length (map recorded es) ≡ length es
      length-map [] = refl
      length-map (e ∷ es) = ap suc (length-map es)

module _ (config : StoreConfig) (disk : Disk) (store store' : InventoryArchiveV1)
    (blobs : List PackedBlob) (plan : DeltaPlan) (p : Packed) (n : ℕ)
    (planned_by : plan_deltas config blobs ≡ ok plan)
    (h : pack_chunk_archive_v1 config disk store blobs ≡ (store', ok p))
    (sized : hash_size_for_format config.hash_format ≡ ok n) (digest_sized : IsSized config.digest)
    (lossless : AllLossless config.plugins config.encryption) (ranges : All (IsBlob n) blobs)
    (distinct : IsDistinct blobs)
    (small : (file : Bytes)
      → lookup p.checksum store'.archive_files ≡ some file
      → length file < 2 ^ 63) where
  -- The archive of a packed chunk passes the validation that precedes the deletion of the loose blobs,
  -- with the number of entries that packing reports, provided each blob's digest is that of its
  -- contents, no base of an assignment is itself assigned, the delta library gives back what a delta
  -- was made of, codecs decode what they encode, digests are as long as the format says and told
  -- apart, contents are below 2^64 bytes and the archive file below 2^63.
  pub validate_archive_v1-pack_chunk_archive_v1 :
      IsExact config.bsdiff
      → ((i j : ℕ) → base_of plan.assignments i ≡ some j → base_of plan.assignments j ≡ none)
      → ((i : ℕ) (b : PackedBlob)
          → get_elem? blobs i ≡ some b
          → config.digest config.hash_format b.contents ≡ b.digest)
      → validate_archive_v1 config store' p.checksum (p.full_count + p.delta_count) ≡ ok tt
  validate_archive_v1-pack_chunk_archive_v1 exact unchained digested =
      file_validates
        (packed_file config disk store store' blobs plan p n planned_by h sized digest_sized
          lossless ranges distinct small)
        exact unchained digested
