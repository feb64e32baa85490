-- ===== src/ArchiveStore/FileCalls.antt =====
-- The calls that made a chunk's data file, and the plan behind them.
use madder.Common.{ℕ, ◌≡◌, sym, ◌∙◌, arith, All, List, []}
use madder.Common.{◌++◌, get_elem?, none, some, some_inj, Option-cases, inl, inr}
use madder.Common.{Bool, true, false}
use madder.Common.Bytes.{Bytes}
use madder.Archive.Types.{Result, ok, err, bind-ok, guard, DataEntryV1, file_failed}
use madder.Archive.Types as Types
use madder.Archive.Exec.{then-ok, lift-ok, bind_ok}
use madder.Archive.Stream.{Sink}
use madder.Archive.Data.Writer.{DataWriterV1, new_data_writer_v1, close}
use madder.Archive.Data.Session.{Call, write_calls}
use madder.Archive.Data.WholeFile.{write_archive}
use madder.ArchiveStore.Types.{PackedBlob, StoreConfig}
use madder.ArchiveStore.Types.{delta_algorithm_byte_for_name, delta_algorithm_for_byte}
use madder.ArchiveStore.Deltas.{DeltaPlan, base_of, compute_deltas, plan_deltas, blob_set}
use madder.ArchiveStore.Deltas.{assign_all, nil_algorithm}
use madder.ArchiveStore.Packer.{
  Disk, write_full_blobs, write_results, poll, write_data_file, data_file_flags, temp_file,
}
use madder.ArchiveStore.Assignments.{IsAscending, base_of-get, get-base_of, assign_all-IsAscending}
use madder.ArchiveStore.Planned.{Listed, Listed-append, append-Listed, All-append, call_for}
use madder.ArchiveStore.Planned.{IsCallFor, write_calls-append}
use madder.ArchiveStore.Called.{FullCalls, full_calls}
use madder.ArchiveStore.DeltaCalls.{DeltaCalls, delta_calls}
use mathlib.Core.Path.{subst}

-- The calls that wrote a data file: one for each blob, and no other.
pub record ChunkCalls (config : StoreConfig) (plan : DeltaPlan) (disk : Disk)
    (blobs : List PackedBlob) (checksum : Bytes) (entries : List DataEntryV1) (s' : Sink)
    : Type 0 where
  pub calls : List Call
  pub run :
      write_archive config.plugins config.digest config.hash_format config.compression_ref
        (data_file_flags config plan)
        config.encryption
        calls
        (temp_file disk)
      ≡ ok ((checksum, entries), s')
  pub each : All (IsCallFor plan blobs) calls
  pub every :
      (i : ℕ) (b : PackedBlob) → get_elem? blobs i ≡ some b → Listed calls (call_for plan blobs i b)

module _ (config : StoreConfig) (plan : DeltaPlan) (disk : Disk) (blobs : List PackedBlob)
    (checksum : Bytes) (entries : List DataEntryV1) (s' : Sink)
    (ascending : IsAscending plan.assignments) where
  combined :
      (dw dw1 dw2 : DataWriterV1) (s1 s2 s3 : Sink)
      → new_data_writer_v1 config.hash_format config.compression_ref
          (data_file_flags config plan)
          config.encryption
          (temp_file disk)
        ≡ ok (dw, s1)
      → (f : FullCalls config plan disk blobs 0 blobs dw dw1 s1 s2)
      → (d : DeltaCalls config plan disk blobs plan.assignments dw1 dw2 s2 s3)
      → close config.digest dw2 s3 ≡ ok ((checksum, entries), s')
      → ChunkCalls config plan disk blobs checksum entries s'
  unfolding write_archive
  combined dw dw1 dw2 s1 s2 s3 opening f d closing = record {
    calls = f.calls ++ d.calls;
    run =
        bind_ok
          (new_data_writer_v1 config.hash_format config.compression_ref
            (data_file_flags config plan) config.encryption)
          _ (temp_file disk) opening
        ∙ bind_ok (write_calls config.plugins dw (f.calls ++ d.calls)) (λ w. close config.digest w)
            s1 (write_calls-append config.plugins f.calls d.calls dw dw1 s1 s2 f.run d.run)
        ∙ closing;
    each = All-append (IsCallFor plan blobs) f.calls d.calls f.each d.each;
    every = λ i b found. elim (Option-cases (base_of plan.assignments i)) [
      | inl whole ↦ append-Listed f.calls d.calls (call_for plan blobs i b) (
          subst (λ m. Listed f.calls (call_for plan blobs m b)) (omega arith)
            (f.every i b found
              (subst (λ m. base_of plan.assignments m ≡ none) (omega arith) whole)))
      | inr (j, assigned) ↦
          let (m, here) = get-base_of plan.assignments i assigned in
          let (x, at_i, listed) = d.every m i j here in
          Listed-append f.calls d.calls (call_for plan blobs i b) (
            subst (λ y. Listed d.calls (call_for plan blobs i y)) (some_inj (sym at_i ∙ found))
              listed)
    ];
  }

  pub chunk_calls :
      write_data_file config plan disk blobs (temp_file disk) ≡ ok ((checksum, entries), s')
      → ChunkCalls config plan disk blobs checksum entries s'
  unfolding write_data_file
  chunk_calls h =
      let (dw, s1, opening, h1) =
        then-ok
          (new_data_writer_v1 config.hash_format config.compression_ref
            (data_file_flags config plan) config.encryption)
          _ (temp_file disk) h in
      let (dw1, s2, fulls, h2) = then-ok (write_full_blobs config plan dw 0 blobs) _ s1 h1 in
      let (results, computed, h3) =
        lift-ok (compute_deltas plan.alg blobs plan.assignments) _ s2 h2 in
      let (_, _, h4) = lift-ok (poll disk 0) _ s2 h3 in
      let (dw2, s3, deltas, closing) =
        then-ok (write_results config plan disk blobs 1 dw1 results) _ s2 h4 in
      combined dw dw1 dw2 s1 s2 s3 opening
        (full_calls config plan disk blobs 0 blobs dw dw1 s1 s2
          (λ k b p. subst (λ m. get_elem? blobs m ≡ some b) (omega arith) p) fulls)
        (delta_calls config plan disk blobs plan.assignments results 1 dw1 dw2 s2 s3 computed
          (λ m i j p. base_of-get plan.assignments m ascending p) deltas)
        closing

-- The plan's assignments ascend, and if there is one its algorithm is the registered one.
pub record Prepared (config : StoreConfig) (plan : DeltaPlan) : Type 0 where
  pub ascending : IsAscending plan.assignments
  pub registered :
      (i j : ℕ)
      → base_of plan.assignments i ≡ some j
      → delta_algorithm_for_byte config.bsdiff plan.alg_byte ≡ ok plan.alg

pub plan_deltas-Prepared :
    (config : StoreConfig) (blobs : List PackedBlob) (plan : DeltaPlan)
    → plan_deltas config blobs ≡ ok plan
    → Prepared config plan
unfolding plan_deltas base_of
plan_deltas-Prepared config blobs plan h = go config.delta_enabled h
  where
    same : {x y : DeltaPlan} → ok x ≡ ok y → x ≡ y
    same e = cc

    nothing : {j : ℕ} → none ≡ some j → ⊥
    nothing e = cc

    go :
        (q : Bool)
        → elim q [
          | false ↦ ok (record { alg_byte = 0; alg = nil_algorithm; assignments = [] })
          | true ↦ Types.◌>>=◌ (delta_algorithm_byte_for_name config.delta_algorithm) λ alg_byte.
              Types.◌>>=◌ (delta_algorithm_for_byte config.bsdiff alg_byte) λ alg.
                Types.◌>>=◌ config.selector λ select_bases.
                  Types.◌>>=◌ config.signature_computer λ computer.
                    Types.◌>>=◌ (blob_set computer blobs) λ blobs'. ok (record {
                      alg_byte = alg_byte;
                      alg = alg;
                      assignments = assign_all (select_bases blobs') [];
                    })
        ]
          ≡ ok plan
        → Prepared config plan
    go false e =
        subst (Prepared config) (same e)
          (record { ascending = tt; registered = λ i j p. absurd (nothing p) })
    go true e =
        let (alg_byte, named, e1) =
          bind-ok (delta_algorithm_byte_for_name config.delta_algorithm) _ e in
        let (alg, found, e2) = bind-ok (delta_algorithm_for_byte config.bsdiff alg_byte) _ e1 in
        let (select_bases, _, e3) = bind-ok config.selector _ e2 in
        let (computer, _, e4) = bind-ok config.signature_computer _ e3 in
        let (blobs', _, e5) = bind-ok (blob_set computer blobs) _ e4 in
        subst (Prepared config) (same e5) (record {
          ascending = assign_all-IsAscending (select_bases blobs') [] tt;
          registered = λ i j p. found;
        })
