-- ===== src/ArchiveStore/Planned.antt =====
-- The calls of the data writer that packChunkArchiveV1 makes: one for each blob, by its place.
use madder.Common.{ℕ, zero, suc, ◌%◌, ◌^◌, ◌≡◌, refl, ◌∙◌, All, List, [], ◌∷◌}
use madder.Common.{◌++◌, length, get_elem?, Option, none, some, true, false}
use madder.Common.Bytes.{Bytes}
use madder.Archive.Types.{ok, err, panic}
use madder.Archive.Exec.{then-ok, bind_ok}
use madder.Archive.Stream.{Sink}
use madder.Archive.Data.Codec.{Plugins}
use madder.Archive.Data.Writer.{DataWriterV1}
use madder.Archive.Data.Session.{Call, full, delta, write_call, write_calls}
use madder.ArchiveStore.Types.{PackedBlob}
use madder.ArchiveStore.Deltas.{DeltaPlan, base_of, is_delta, at, try_delta}

-- A call that a list has.
abbrev pub Listed : List Call → Call → Type 0
Listed cs c = (k : ℕ) × (get_elem? cs k ≡ some c)

pub Listed-append : (xs ys : List Call) (c : Call) → Listed ys c → Listed (xs ++ ys) c
Listed-append [] ys c l = l
Listed-append (x ∷ xs) ys c l = let (k, found) = Listed-append xs ys c l in (suc k, found)

pub append-Listed : (xs ys : List Call) (c : Call) → Listed xs c → Listed (xs ++ ys) c
append-Listed [] ys c (k, h) = absurd (cc)
append-Listed (x ∷ xs) ys c (zero, h) = (zero, h)
append-Listed (x ∷ xs) ys c (suc k, h) =
    let (m, found) = append-Listed xs ys c (k, h) in (suc m, found)

pub All-append : (P : Call → Type 0) (xs ys : List Call) → All P xs → All P ys → All P (xs ++ ys)
All-append P [] ys a b = b
All-append P (x ∷ xs) ys (p, a) b = (p, All-append P xs ys a b)

-- The base and the delta of a blob that is stored as one.
pub record Based : Type 0 where
  pub base_idx : ℕ
  pub base : PackedBlob
  pub patch : Bytes

abbrev pub based : ℕ → PackedBlob → Option Bytes → Option Based
based j base none = none
based j base (some patch) = some (record { base_idx = j; base = base; patch = patch })

abbrev pub call_of : ℕ → PackedBlob → Option Based → Call
call_of alg_byte blob none = full blob.digest blob.contents
call_of alg_byte blob (some b) =
    delta blob.digest alg_byte b.base.digest (length blob.contents % 2 ^ 64) b.patch

module _ (plan : DeltaPlan) (blobs : List PackedBlob) where
  unfoldable pub planned_on : PackedBlob → ℕ → Option PackedBlob → Option Based
  planned_on blob j none = none
  planned_on blob j (some base) = based j base (try_delta plan.alg base.contents blob.contents)

  -- How the i-th blob is stored: whole, or as a delta.
  unfoldable pub planned : ℕ → PackedBlob → Option Based
  planned i blob = elim (base_of plan.assignments i) [
    | none ↦ none
    | some j ↦ planned_on blob j (get_elem? blobs j)
  ]

  abbrev pub call_for : ℕ → PackedBlob → Call
  call_for i blob = call_of plan.alg_byte blob (planned i blob)

  -- A call for some blob of the chunk.
  pub record IsCallFor (c : Call) : Type 0 where
    pub idx : ℕ
    pub blob : PackedBlob
    pub found : get_elem? blobs idx ≡ some blob
    pub called : c ≡ call_for idx blob

  pub planned-none :
      (i : ℕ) (blob : PackedBlob) → base_of plan.assignments i ≡ none → planned i blob ≡ none
  unfolding planned
  planned-none i blob h = rw (planned, h)

  pub planned-some :
      (i j : ℕ) (blob base : PackedBlob)
      → base_of plan.assignments i ≡ some j
      → get_elem? blobs j ≡ some base
      → planned i blob ≡ based j base (try_delta plan.alg base.contents blob.contents)
  unfolding planned planned_on
  planned-some i j blob base h g = rw (planned, h, planned_on, g)

pub at-ok :
    (blobs : List PackedBlob) (i : ℕ) {b : PackedBlob}
    → at blobs i ≡ ok b
    → get_elem? blobs i ≡ some b
at-ok blobs i {b} h = go (get_elem? blobs i) h
  where
    go : (o : Option PackedBlob) → elim o [ none ↦ err panic | some x ↦ ok x ] ≡ ok b → o ≡ some b
    go none e = absurd (cc)
    go (some x) e = cc

pub is_delta-false : (m : List (ℕ × ℕ)) (i : ℕ) → is_delta m i ≡ false → base_of m i ≡ none
unfolding is_delta
is_delta-false m i h = go (base_of m i) h
  where
    go : (o : Option ℕ) → elim o [ none ↦ false | some _ ↦ true ] ≡ false → o ≡ none
    go none e = refl
    go (some j) e = absurd (cc)

pub is_delta-none : (m : List (ℕ × ℕ)) (i : ℕ) → base_of m i ≡ none → is_delta m i ≡ false
unfolding is_delta
is_delta-none m i h = rw (is_delta, h)

module _ (plugins : Plugins) where
  pub write_calls-append :
      (xs ys : List Call) (dw dw1 : DataWriterV1) (s s1 : Sink) {x : DataWriterV1 × Sink}
      → write_calls plugins dw xs s ≡ ok (dw1, s1)
      → write_calls plugins dw1 ys s1 ≡ ok x
      → write_calls plugins dw (xs ++ ys) s ≡ ok x
  unfolding write_calls
  write_calls-append [] ys dw dw1 s s1 {x} h k =
      (λ i. write_calls plugins (same i).0 ys (same i).1) ∙ k
    where
      injected : {a b : DataWriterV1 × Sink} → ok a ≡ ok b → a ≡ b
      injected e = cc

      same : ◌≡◌ {A = DataWriterV1 × Sink} (dw, s) (dw1, s1)
      same = injected h
  write_calls-append (c ∷ xs) ys dw dw1 s s1 h k =
      let (dw2, s2, first, later) =
        then-ok (write_call plugins dw c) (λ d. write_calls plugins d xs) s h in
      bind_ok (write_call plugins dw c) (λ d. write_calls plugins d (xs ++ ys)) s first
      ∙ write_calls-append xs ys dw2 dw1 s2 s1 later k

  pub write_calls-cons :
      (c : Call) (cs : List Call) (dw dw1 : DataWriterV1) (s s1 : Sink) {x : DataWriterV1 × Sink}
      → write_call plugins dw c s ≡ ok (dw1, s1)
      → write_calls plugins dw1 cs s1 ≡ ok x
      → write_calls plugins dw (c ∷ cs) s ≡ ok x
  unfolding write_calls
  write_calls-cons c cs dw dw1 s s1 h k =
      bind_ok (write_call plugins dw c) (λ d. write_calls plugins d cs) s h ∙ k
