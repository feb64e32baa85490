-- ===== src/ArchiveStore/Stored.antt =====
-- The entry that stands for a blob in a packed chunk, by the index of the store.
use madder.Common.{ℕ, zero, suc, ◌≡◌, refl, sym, ap, ◌∙◌, arith, List, []}
use madder.Common.{◌∷◌, All, All-get, get_elem?, Option, none, some, some_inj, length}
use madder.Common.{Bool, true, false, ltb, leb, if◌then◌else◌, ◌==◌}
use madder.Common.Bytes.{Bytes}
use madder.Archive.Types.{Result, ok, err, DataEntryV1, IsU16, IsU64}
use madder.Archive.Types.{flag_has_deltas, unsupported_delta}
use madder.Archive.Data.Codec.{Codec}
use madder.Archive.Data.Writer.{with_encryption_flag}
use madder.Archive.Data.Session.{Call, IsCall, recorded}
use madder.ArchiveStore.Types.{PackedBlob, StoreConfig}
use madder.ArchiveStore.Types.{DeltaAlgorithm, IsExact, delta_algorithm_for_byte}
use madder.ArchiveStore.Types.{delta_algorithm_byte_bsdiff}
use madder.ArchiveStore.Deltas.{DeltaPlan, base_of, try_delta, bytes_of}
use madder.ArchiveStore.Packer.{data_file_flags}
use madder.ArchiveStore.Planned.{Based, based, call_of, planned, planned_on, call_for}
use madder.ArchiveStore.Planned.{IsCallFor}
use madder.ArchiveStore.Lookups.{digest_of_call}
use mathlib.Core.List.{map}
use mathlib.Core.Path.{subst}

-- The blobs of a chunk are told apart by their digests.
abbrev pub IsDistinct : List PackedBlob → Type 0
IsDistinct blobs =
    (i j : ℕ) (a b : PackedBlob)
    → get_elem? blobs i ≡ some a
    → get_elem? blobs j ≡ some b
    → a.digest ≡ b.digest
    → i ≡ j

-- Digests of the format's length, and contents that Go can measure.
abbrev pub IsBlob : ℕ → PackedBlob → Type 0
IsBlob n b = (length b.digest ≡ n) × IsU64 (length b.contents)

module _ (plan : DeltaPlan) (blobs : List PackedBlob) where
  pub digest_of_call-call_for :
      (i : ℕ) (b : PackedBlob) → digest_of_call (call_for plan blobs i b) ≡ b.digest
  digest_of_call-call_for i b = go (planned plan blobs i b)
    where
      go : (o : Option Based) → digest_of_call (call_of plan.alg_byte b o) ≡ b.digest
      go none = refl
      go (some x) = refl

  -- What a planned delta says of its base.
  pub planned-Based :
      (i : ℕ) (b : PackedBlob) {x : Based}
      → planned plan blobs i b ≡ some x
      → (base_of plan.assignments i ≡ some x.base_idx)
        × (get_elem? blobs x.base_idx ≡ some x.base)
        × (try_delta plan.alg x.base.contents b.contents ≡ some x.patch)
  unfolding planned planned_on
  planned-Based i b {x} h = go (base_of plan.assignments i) refl h
    where
      made :
          (j : ℕ) (base : PackedBlob) (t : Option Bytes)
          → based j base t ≡ some x
          → (j ≡ x.base_idx) × (base ≡ x.base) × (t ≡ some x.patch)
      made j base none e = absurd (nothing e)
        where
          nothing : none ≡ some x → ⊥
          nothing q = cc
      made j base (some patch) e =
          let same = some_inj e in
          (
            ap (λ (y : Based). y.base_idx) same,
            ap (λ (y : Based). y.base) same,
            ap (λ (y : Based). some y.patch) same,
          )

      on :
          (j : ℕ) (o : Option PackedBlob)
          → get_elem? blobs j ≡ o
          → planned_on plan blobs b j o ≡ some x
          → (j ≡ x.base_idx)
            × (get_elem? blobs x.base_idx ≡ some x.base)
            × (try_delta plan.alg x.base.contents b.contents ≡ some x.patch)
      on j none q e = absurd (nothing e)
        where
          nothing : none ≡ some x → ⊥
          nothing r = cc
      on j (some base) q e =
          let (at_j, same_base, same_patch) =
            made j base (try_delta plan.alg base.contents b.contents) e in
          (
            at_j,
            (λ k. get_elem? blobs (sym at_j k)) ∙ q ∙ ap some same_base,
            ap (λ (y : PackedBlob). try_delta plan.alg y.contents b.contents) (sym same_base)
                ∙ same_patch,
          )

      go :
          (o : Option ℕ)
          → base_of plan.assignments i ≡ o
          → elim o [ none ↦ none | some j ↦ planned_on plan blobs b j (get_elem? blobs j) ] ≡ some x
          → (base_of plan.assignments i ≡ some x.base_idx)
            × (get_elem? blobs x.base_idx ≡ some x.base)
            × (try_delta plan.alg x.base.contents b.contents ≡ some x.patch)
      go none q e = absurd (nothing e)
        where
          nothing : none ≡ some x → ⊥
          nothing r = cc
      go (some j) q e =
          let (at_j, found, tried) = on j (get_elem? blobs j) refl e in
          (q ∙ ap some at_j, found, tried)

  call_for-IsCall : (n : ℕ) (c : Call) → All (IsBlob n) blobs → IsCallFor plan blobs c → IsCall n c
  call_for-IsCall n c all f =
      subst (IsCall n) (sym f.called)
        (go (planned plan blobs f.idx f.blob) refl (All-get (IsBlob n) blobs f.idx all f.found))
    where
      go :
          (o : Option Based)
          → planned plan blobs f.idx f.blob ≡ o
          → IsBlob n f.blob
          → IsCall n (call_of plan.alg_byte f.blob o)
      go none q b = b
      go (some x) q b =
          let (_, found, _) = planned-Based f.idx f.blob q in
          (b.0, (All-get (IsBlob n) blobs x.base_idx all found).0, omega arith)

  pub calls-IsCall :
      (n : ℕ) (cs : List Call)
      → All (IsBlob n) blobs
      → All (IsCallFor plan blobs) cs
      → All (IsCall n) cs
  calls-IsCall n [] all each = tt
  calls-IsCall n (c ∷ cs) all (f, each) = (call_for-IsCall n c all f, calls-IsCall n cs all each)

pub data_file_flags-IsU16 :
    (config : StoreConfig) (plan : DeltaPlan)
    → IsU16 (with_encryption_flag config.encryption (data_file_flags config plan))
unfolding data_file_flags
data_file_flags-IsU16 config plan = go config.encryption (ltb 0 (length plan.assignments))
  where
    go :
        (o : Option Codec) (q : Bool)
        → IsU16 (with_encryption_flag o (if q then flag_has_deltas else 0))
    go none true = omega arith
    go none false = omega arith
    go (some c) true = omega arith
    go (some c) false = omega arith

-- The entry under an entry's record.
pub map-get :
    (es : List DataEntryV1) (k : ℕ) {r : DataEntryV1}
    → get_elem? (map recorded es) k ≡ some r
    → (e : DataEntryV1) × (get_elem? es k ≡ some e) × (r ≡ recorded e)
map-get [] k h = absurd (cc)
map-get (e ∷ es) zero h = (e, refl, sym (some_inj h))
map-get (e ∷ es) (suc k) h = map-get es k h

pub get-map :
    (es : List DataEntryV1) (k : ℕ) {e : DataEntryV1}
    → get_elem? es k ≡ some e
    → get_elem? (map recorded es) k ≡ some (recorded e)
get-map [] k h = absurd (cc)
get-map (e ∷ es) zero h = ap (λ x. some (recorded x)) (some_inj h)
get-map (e ∷ es) (suc k) h = get-map es k h

-- A delta that was kept is one that the algorithm computed.
pub try_delta-compute :
    (alg : DeltaAlgorithm) (base target : Bytes) {patch : Bytes}
    → try_delta alg base target ≡ some patch
    → alg.compute base target ≡ ok patch
unfolding try_delta
try_delta-compute alg base target {patch} h = go (alg.compute base target) h
  where
    nothing : none ≡ some patch → ⊥
    nothing e = cc

    kept : (raw : Bytes) → bytes_of raw ≡ some patch → ok raw ≡ ok patch
    kept [] e = absurd (nothing e)
    kept (b ∷ bs) e = ap ok (some_inj e)

    small :
        (q : Bool) (raw : Bytes)
        → (if q then none else bytes_of raw) ≡ some patch
        → ok raw ≡ ok patch
    small true raw e = absurd (nothing e)
    small false raw e = kept raw e

    go :
        (r : Result Bytes)
        → elim r [
          | err e ↦ none
          | ok raw ↦ if leb (length target) (length raw) then none else bytes_of raw
        ]
          ≡ some patch
        → r ≡ ok patch
    go (err e) q = absurd (nothing q)
    go (ok raw) q = small (leb (length target) (length raw)) raw q

pub registered-IsExact :
    (config : StoreConfig) (plan : DeltaPlan)
    → IsExact config.bsdiff
    → delta_algorithm_for_byte config.bsdiff plan.alg_byte ≡ ok plan.alg
    → IsExact plan.alg
unfolding delta_algorithm_for_byte
registered-IsExact config plan exact h =
    subst IsExact (go (plan.alg_byte == delta_algorithm_byte_bsdiff) h) exact
  where
    go :
        (q : Bool)
        → (if q then ok config.bsdiff else err unsupported_delta) ≡ ok plan.alg
        → config.bsdiff ≡ plan.alg
    go true e = cc
    go false e = cc
