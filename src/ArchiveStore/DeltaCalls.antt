-- ===== src/ArchiveStore/DeltaCalls.antt =====
-- The second pass of packChunkArchiveV1, and the whole data file, as runs of calls of the data writer.
use madder.Common.{ℕ, zero, suc, ◌≡◌, refl, sym, ap, ◌∙◌, All, List, [], ◌∷◌}
use madder.Common.{get_elem?, Option, none, some, some_inj}
use madder.Common.Bytes.{Bytes}
use madder.Archive.Types.{ok, bind-ok}
use madder.Archive.Exec.{then-ok, lift-ok}
use madder.Archive.Stream.{Sink}
use madder.Archive.Data.Writer.{DataWriterV1}
use madder.Archive.Data.Session.{Call, write_call, write_calls}
use madder.ArchiveStore.Types.{PackedBlob, DeltaResult, StoreConfig}
use madder.ArchiveStore.Deltas.{DeltaPlan, base_of, at, try_delta, compute_delta, compute_deltas}
use madder.ArchiveStore.Packer.{Disk, write_result, write_results, poll}
use madder.ArchiveStore.Planned.{Listed, based, call_of, call_for, IsCallFor, planned-some, at-ok}
use madder.ArchiveStore.Planned.{write_calls-cons}
use mathlib.Core.Path.{subst}

module _ (config : StoreConfig) (plan : DeltaPlan) (disk : Disk) (blobs : List PackedBlob) where
  -- The two blobs of an assignment whose delta was tried.
  record Tried (i j : ℕ) (r : DeltaResult) : Type 0 where
    pub blob : PackedBlob
    pub base : PackedBlob
    pub at_blob : at blobs i ≡ ok blob
    pub at_base : at blobs j ≡ ok base
    pub made : r ≡ record {
      blob_idx = i;
      base_idx = j;
      delta_contents = try_delta plan.alg base.contents blob.contents;
    }

  tried : (i j : ℕ) (r : DeltaResult) → compute_delta plan.alg blobs i j ≡ ok r → Tried i j r
  unfolding compute_delta
  tried i j r h =
      let (blob, at_blob, h1) = bind-ok (at blobs i) _ h in
      let (base, at_base, h2) = bind-ok (at blobs j) _ h1 in
      record {
        blob = blob;
        base = base;
        at_blob = at_blob;
        at_base = at_base;
        made = sym (same h2);
      }
    where
      same : {x y : DeltaResult} → ok x ≡ ok y → x ≡ y
      same e = cc

  -- Writing a result is the call that is planned for its blob.
  write_result_call :
      (i j : ℕ) (r : DeltaResult) (dw : DataWriterV1) (s : Sink) (t : Tried i j r)
      → base_of plan.assignments i ≡ some j
      → write_result config plan blobs dw r s
        ≡ write_call config.plugins dw (call_for plan blobs i t.blob) s
  unfolding write_result write_call
  write_result_call i j r dw s t h =
      ap (λ x. write_result config plan blobs dw x s) t.made
      ∙ go (try_delta plan.alg t.base.contents t.blob.contents)
      ∙ ap (λ b. write_call config.plugins dw (call_of plan.alg_byte t.blob b) s)
          (sym (planned-some plan blobs i j t.blob t.base h (at-ok blobs j t.at_base)))
    where
      go :
          (o : Option Bytes)
          → write_result config plan blobs dw
              (record { blob_idx = i; base_idx = j; delta_contents = o })
              s
            ≡ write_call config.plugins dw (call_of plan.alg_byte t.blob (based j t.base o)) s
      go none = rw (write_result, t.at_blob, t.at_base)
      go (some patch) = rw (write_result, t.at_blob, t.at_base)

  -- The calls of the second pass over some assignments.
  pub record DeltaCalls (rest : List (ℕ × ℕ)) (dw dw' : DataWriterV1) (s s' : Sink) : Type 0 where
    pub calls : List Call
    pub run : write_calls config.plugins dw calls s ≡ ok (dw', s')
    pub each : All (IsCallFor plan blobs) calls
    pub every :
        (m i j : ℕ)
        → get_elem? rest m ≡ some (i, j)
        → (b : PackedBlob) × (get_elem? blobs i ≡ some b) × Listed calls (call_for plan blobs i b)

  abbrev pub Known : List (ℕ × ℕ) → Type 0
  Known rest = (m i j : ℕ) → get_elem? rest m ≡ some (i, j) → base_of plan.assignments i ≡ some j

  pub delta_calls :
      (rest : List (ℕ × ℕ)) (results : List DeltaResult) (k : ℕ) (dw dw' : DataWriterV1)
      (s s' : Sink)
      → compute_deltas plan.alg blobs rest ≡ ok results
      → Known rest
      → write_results config plan disk blobs k dw results s ≡ ok (dw', s')
      → DeltaCalls rest dw dw' s s'
  unfolding compute_deltas write_results write_calls
  delta_calls [] results k dw dw' s s' made known h = record {
    calls = [];
    run = subst (λ r. write_results config plan disk blobs k dw r s ≡ ok (dw', s')) (same made) h;
    each = tt;
    every = λ m i j p. absurd (nothing p);
  }
    where
      same : {x y : List DeltaResult} → ok x ≡ ok y → y ≡ x
      same e = cc

      nothing : {p : ℕ × ℕ} → none ≡ some p → ⊥
      nothing p = cc
  delta_calls ((i, j) ∷ rest) results k dw dw' s s' made known h =
      let (r, computed, made1) = bind-ok (compute_delta plan.alg blobs i j) _ made in
      let (rs, computed_rest, made2) = bind-ok (compute_deltas plan.alg blobs rest) _ made1 in
      let h0 =
        subst (λ l. write_results config plan disk blobs k dw l s ≡ ok (dw', s')) (same made2) h in
      let (_, _, h1) = lift-ok (poll disk k) _ s h0 in
      let (dw1, s1, first, later) =
        then-ok (write_result config plan blobs dw r)
          (λ d. write_results config plan disk blobs (suc k) d rs) s h1 in
      let t = tried i j r computed in
      let c = call_for plan blobs i t.blob in
      let more =
        delta_calls rest rs (suc k) dw1 dw' s1 s' computed_rest (λ m. known (suc m)) later in
      record {
        calls = c ∷ more.calls;
        run =
            write_calls-cons config.plugins c more.calls dw dw1 s s1
              (sym (write_result_call i j r dw s t (known 0 i j refl)) ∙ first) more.run;
        each = (
          record { idx = i; blob = t.blob; found = at-ok blobs i t.at_blob; called = refl },
          more.each,
        );
        every = every t c more;
      }
    where
      same : {x y : List DeltaResult} → ok x ≡ ok y → y ≡ x
      same e = cc

      every :
          {r : DeltaResult} {dw1 : DataWriterV1} {s1 : Sink} (t : Tried i j r) (c : Call)
          (more : DeltaCalls rest dw1 dw' s1 s') (m a b : ℕ)
          → get_elem? ((i, j) ∷ rest) m ≡ some (a, b)
          → (x : PackedBlob) × (get_elem? blobs a ≡ some x)
            × Listed (call_for plan blobs i t.blob ∷ more.calls) (call_for plan blobs a x)
      every t c more zero a b p =
          subst
            (λ n.
              (x : PackedBlob) × (get_elem? blobs n ≡ some x)
              × Listed (call_for plan blobs i t.blob ∷ more.calls) (call_for plan blobs n x))
            (ap (λ q. q.0) (some_inj p)) (t.blob, at-ok blobs i t.at_blob, (0, refl))
      every t c more (suc m) a b p =
          let (x, found, (n, listed)) = more.every m a b p in (x, found, (suc n, listed))
