-- ===== src/ArchiveStore/Called.antt =====
-- The two passes of packChunkArchiveV1 as runs of calls of the data writer.
use madder.Common.{ℕ, zero, suc, ◌+◌, ◌≡◌, refl, sym, ap, ◌∙◌, arith, All, List, [], ◌∷◌}
use madder.Common.{get_elem?, none, some, Bool, true, false, if◌then◌else◌}
use madder.Common.{some_inj}
use madder.Archive.Types.{ok}
use madder.Archive.Exec.{then-ok}
use madder.Archive.Stream.{Sink, ◌>>=◌}
use madder.Archive.Data.Writer.{DataWriterV1, write_full_entry}
use madder.Archive.Data.Session.{Call, full, write_call, write_calls}
use madder.ArchiveStore.Types.{PackedBlob, StoreConfig}
use madder.ArchiveStore.Deltas.{DeltaPlan, base_of, is_delta}
use madder.ArchiveStore.Packer.{Disk, write_full_blobs}
use madder.ArchiveStore.Planned.{
  Listed, call_of, call_for, IsCallFor, planned-none, is_delta-false, is_delta-none,
}
use madder.ArchiveStore.Planned.{write_calls-cons}
use mathlib.Core.Path.{subst}

module _ (config : StoreConfig) (plan : DeltaPlan) (disk : Disk) (blobs : List PackedBlob) where
  -- The calls of the first pass over the blobs from the i-th on.
  pub record FullCalls (i : ℕ) (bs : List PackedBlob) (dw dw' : DataWriterV1) (s s' : Sink)
      : Type 0 where
    pub calls : List Call
    pub run : write_calls config.plugins dw calls s ≡ ok (dw', s')
    pub each : All (IsCallFor plan blobs) calls
    pub every :
        (k : ℕ) (b : PackedBlob)
        → get_elem? bs k ≡ some b
        → base_of plan.assignments (i + k) ≡ none
        → Listed calls (call_for plan blobs (i + k) b)

  abbrev pub From : ℕ → List PackedBlob → Type 0
  From i bs = (k : ℕ) (b : PackedBlob) → get_elem? bs k ≡ some b → get_elem? blobs (i + k) ≡ some b

  From-later : (i : ℕ) (b : PackedBlob) (bs : List PackedBlob) → From i (b ∷ bs) → From (suc i) bs
  From-later i b bs within k c h =
      subst (λ m. get_elem? blobs m ≡ some c) (omega arith) (within (suc k) c h)

  whole_call :
      (i : ℕ) (b : PackedBlob)
      → base_of plan.assignments i ≡ none
      → call_for plan blobs i b ≡ full b.digest b.contents
  whole_call i b h = ap (call_of plan.alg_byte b) (planned-none plan blobs i b h)

  skip_full :
      (i : ℕ) (b : PackedBlob) (bs : List PackedBlob) (dw dw' : DataWriterV1) (s s' : Sink)
      → is_delta plan.assignments i ≡ true
      → FullCalls (suc i) bs dw dw' s s'
      → FullCalls i (b ∷ bs) dw dw' s s'
  skip_full i b bs dw dw' s s' yes_delta r = record {
    calls = r.calls;
    run = r.run;
    each = r.each;
    every = every;
  }
    where
      clash : (j : ℕ) → j ≡ i → base_of plan.assignments j ≡ none → ⊥
      clash j e h = apart (
          sym yes_delta
          ∙ is_delta-none plan.assignments i (subst (λ m. base_of plan.assignments m ≡ none) e h))
        where
          apart : true ≡ false → ⊥
          apart q = cc

      every :
          (k : ℕ) (c : PackedBlob)
          → get_elem? (b ∷ bs) k ≡ some c
          → base_of plan.assignments (i + k) ≡ none
          → Listed r.calls (call_for plan blobs (i + k) c)
      every zero c h g = absurd (clash (i + 0) (omega arith) g)
      every (suc k) c h g =
          subst (λ m. Listed r.calls (call_for plan blobs m c)) (omega arith)
            (r.every k c h (subst (λ m. base_of plan.assignments m ≡ none) (omega arith) g))

  add_full :
      (i : ℕ) (b : PackedBlob) (bs : List PackedBlob) (dw dw1 dw' : DataWriterV1) (s s1 s' : Sink)
      → From i (b ∷ bs)
      → base_of plan.assignments i ≡ none
      → write_full_entry config.plugins dw b.digest b.contents s ≡ ok (dw1, s1)
      → FullCalls (suc i) bs dw1 dw' s1 s'
      → FullCalls i (b ∷ bs) dw dw' s s'
  unfolding write_call
  add_full i b bs dw dw1 dw' s s1 s' within whole first r = record {
    calls = full b.digest b.contents ∷ r.calls;
    run =
        write_calls-cons config.plugins (full b.digest b.contents) r.calls dw dw1 s s1 first r.run;
    each = (
      record {
        idx = i;
        blob = b;
        found = subst (λ m. get_elem? blobs m ≡ some b) (omega arith) (within 0 b refl);
        called = sym (whole_call i b whole);
      },
      r.each,
    );
    every = every;
  }
    where
      every :
          (k : ℕ) (c : PackedBlob)
          → get_elem? (b ∷ bs) k ≡ some c
          → base_of plan.assignments (i + k) ≡ none
          → Listed (full b.digest b.contents ∷ r.calls) (call_for plan blobs (i + k) c)
      every zero c h g = (
        0,
        ap some (ap (λ x. full x.digest x.contents) (some_inj h) ∙ sym (whole_call (i + 0) c g)),
      )
      every (suc k) c h g =
          let (m, found) =
            r.every k c h (subst (λ m. base_of plan.assignments m ≡ none) (omega arith) g) in
          (
            suc m,
            subst (λ n. get_elem? r.calls m ≡ some (call_for plan blobs n c)) (omega arith) found,
          )

  pub full_calls :
      (i : ℕ) (bs : List PackedBlob) (dw dw' : DataWriterV1) (s s' : Sink)
      → From i bs
      → write_full_blobs config plan dw i bs s ≡ ok (dw', s')
      → FullCalls i bs dw dw' s s'
  unfolding write_full_blobs write_calls
  full_calls i [] dw dw' s s' within h = record {
    calls = [];
    run = h;
    each = tt;
    every = λ k b p g. absurd (nothing p);
  }
    where
      nothing : {b : PackedBlob} → none ≡ some b → ⊥
      nothing p = cc
  full_calls i (b ∷ bs) dw dw' s s' within h =
      go (is_delta plan.assignments i) refl h
        (λ d t g. full_calls (suc i) bs d dw' t s' (From-later i b bs within) g)
    where
      go :
          (q : Bool)
          → is_delta plan.assignments i ≡ q
          → (if q
                then write_full_blobs config plan dw (suc i) bs
                else write_full_entry config.plugins dw b.digest b.contents
                  >>= λ (d : DataWriterV1). write_full_blobs config plan d (suc i) bs)
              s
            ≡ ok (dw', s')
          → ((d : DataWriterV1) (t : Sink)
              → write_full_blobs config plan d (suc i) bs t ≡ ok (dw', s')
              → FullCalls (suc i) bs d dw' t s')
          → FullCalls i (b ∷ bs) dw dw' s s'
      go true e g rest = skip_full i b bs dw dw' s s' e (rest dw s g)
      go false e g rest =
          let (dw1, s1, first, later) =
            then-ok (write_full_entry config.plugins dw b.digest b.contents)
              (λ d. write_full_blobs config plan d (suc i) bs) s g in
          add_full i b bs dw dw1 dw' s s1 s' within (is_delta-false plan.assignments i e) first
            (rest dw1 s1 later)
