-- ===== src/Multi/Tee/Drains.antt =====
-- How a tee carries the bytes of its source to its sink, and drains the rest.
use madder.Common.{ℕ, ◌+◌, ◌≡◌, refl, sym, ap, ◌∙◌, List, [], ◌∷◌, ◌++◌, append_assoc}
use madder.Common.{append-nil, length, Bool, true, false, if◌then◌else◌, All, Option, none, some}
use madder.Common.Bytes.{Bytes, equal_bytes}
use madder.Multi.Tee.{
  Outcome, fine, at_end, failed, Answer, all_of_it, Setting, MarklId, TeeError, digest_mismatch,
  TeeBlobReader, sink_write, tee_bytes, Copied, go_on, after_write, write_loop, check_found,
  check_digest,
}
use madder.Multi.Tee.Effects.{tee_bytes-SameControl}
use mathlib.Core.Path.{subst}

-- All bytes of the answers.
abbrev pub contents : List Answer → Bytes
contents [] = []
contents (a ∷ later) = a.bytes ++ contents later

-- The source gives no error, and ends after the answers.
abbrev pub IsFine : Answer → Type 0
IsFine a = a.outcome ≡ fine

-- What was written and what is to come make up the whole, and the sink takes what comes.
pub record Carries (whole : Bytes) (t : TeeBlobReader) : Type 0 where
  pub adds_up : t.written ++ contents t.src ≡ whole
  pub taking : t.accepts ≡ []
  pub alive : t.sink_dead ≡ false
  pub fines : All IsFine t.src
  pub unmapped : t.mappings ≡ []

tee_bytes-taken :
    (bs : Bytes) (t : TeeBlobReader)
    → t.accepts ≡ []
    → t.sink_dead ≡ false
    → tee_bytes bs t ≡ record t { written = t.written ++ bs }
unfolding tee_bytes
tee_bytes-taken [] t taking alive = cc (append-nil t.written)
tee_bytes-taken (b ∷ bs) t taking alive =
    go t.sink_dead alive ∙ ap (λ l. sink_write (b ∷ bs) l t) taking
  where
    go :
        (q : Bool)
        → q ≡ false
        → (if q then t else sink_write (b ∷ bs) t.accepts t) ≡ sink_write (b ∷ bs) t.accepts t
    go true e = absurd (cc)
    go false e = refl

module _ (whole : Bytes) where
  pub step-Carries :
      (a : Answer) (later : List Answer) (t : TeeBlobReader)
      → t.src ≡ a ∷ later
      → Carries whole t
      → Carries whole (tee_bytes a.bytes (record t { src = later }))
  step-Carries a later t e h =
      subst (Carries whole)
        (sym (tee_bytes-taken a.bytes (record t { src = later }) h.taking h.alive))
        (record {
          adds_up =
              append_assoc t.written a.bytes (contents later)
              ∙ ap (λ l. t.written ++ contents l) (sym e)
              ∙ h.adds_up;
          taking = h.taking;
          alive = h.alive;
          fines = (subst (All IsFine) e h.fines).1;
          unmapped = h.unmapped;
        })

-- A reader without errors is read to its end by a writer that takes all.
pub write_loop-drains :
    (src : List Answer) (n : ℕ) (t : TeeBlobReader)
    → All IsFine src
    → t.src ≡ src
    → (write_loop src [] n t).0.src ≡ []
unfolding write_loop
write_loop-drains [] n t fines same = same
write_loop-drains (a ∷ later) n t (f, fines) same =
    go
      (λ m.
        write_loop-drains later m (tee_bytes a.bytes (record t { src = later })) fines
          (tee_bytes-SameControl a.bytes (record t { src = later })).src)
      a.bytes a.outcome f
  where
    loop : ℕ → TeeBlobReader × Copied
    loop m = write_loop later [] m (tee_bytes a.bytes (record t { src = later }))

    go :
        ((m : ℕ) → (loop m).0.src ≡ [])
        → (bs : Bytes) (o : Outcome) → o ≡ fine
        → (elim bs as (λ x. TeeBlobReader × Copied) [
          | [] ↦ go_on o n (tee_bytes a.bytes (record t { src = later })) loop
          | b ∷ bs' ↦
              after_write all_of_it
                (length (b ∷ bs'))
                n
                (tee_bytes a.bytes (record t { src = later }))
                (λ m. go_on o m (tee_bytes a.bytes (record t { src = later })) loop)
        ]).0.src
          ≡ []
    go ends [] fine e = ends n
    go ends (b ∷ bs) fine e = ends (n + length (b ∷ bs))
    go ends bs at_end e = absurd (cc)
    go ends bs (failed x) e = absurd (cc)

-- The errors that the comparison of two ids gives.
abbrev pub verdict : Option MarklId → Option MarklId → List TeeError
verdict none p = []
verdict (some x) none = []
verdict (some x) (some y) =
    if equal_bytes x.format y.format
    then (if equal_bytes x.digest y.digest then [] else digest_mismatch ∷ [])
    else []

-- The mappings that it gives.
abbrev pub foreign : Bool → Option MarklId → Option MarklId → List (MarklId × MarklId)
foreign adds none p = []
foreign adds (some x) none = []
foreign adds (some x) (some y) =
    if equal_bytes x.format y.format then [] else if adds then (x, y) ∷ [] else []

module _ (setting : Setting) where
  check_found-verdict :
      (o p : Option MarklId) (t : TeeBlobReader) → (check_found setting o p t).1 ≡ verdict o p
  check_found-verdict none p t = refl
  check_found-verdict (some x) none t = refl
  check_found-verdict (some x) (some y) t = go (equal_bytes x.format y.format) setting.adds_foreign
    where
      errors : List TeeError
      errors = if equal_bytes x.digest y.digest then [] else digest_mismatch ∷ []

      go :
          (b b' : Bool)
          → (if◌then◌else◌ {A = TeeBlobReader × List TeeError} b
              (t, errors)
              (if b' then (record t { mappings = t.mappings ++ ((x, y) ∷ []) }, []) else (t, []))).1
            ≡ (if b then errors else [])
      go true b' = refl
      go false true = refl
      go false false = refl

  pub check_digest-verdict :
      (t : TeeBlobReader)
      → t.sink_dead ≡ false
      → (check_digest setting t).1 ≡ verdict setting.expected (setting.sink_id t.written)
  unfolding check_digest
  check_digest-verdict t alive = go t.sink_dead alive
    where
      go :
          (b : Bool)
          → b ≡ false
          → (if b
              then (t, [])
              else check_found setting setting.expected (setting.sink_id t.written) t).1
            ≡ verdict setting.expected (setting.sink_id t.written)
      go true e = absurd (cc)
      go false e = check_found-verdict setting.expected (setting.sink_id t.written) t

  check_found-foreign :
      (o p : Option MarklId) (t : TeeBlobReader)
      → t.mappings ≡ []
      → (check_found setting o p t).0.mappings ≡ foreign setting.adds_foreign o p
  check_found-foreign none p t h = h
  check_found-foreign (some x) none t h = h
  check_found-foreign (some x) (some y) t h =
      go (equal_bytes x.format y.format) setting.adds_foreign
    where
      go :
          (b b' : Bool)
          → (if◌then◌else◌ {A = TeeBlobReader × List TeeError} b
              (t, if equal_bytes x.digest y.digest then [] else digest_mismatch ∷ [])
              (if b'
                then (record t { mappings = t.mappings ++ ((x, y) ∷ []) }, [])
                else (t, []))).0.mappings
            ≡ (if b then [] else if b' then (x, y) ∷ [] else [])
      go true b' = h
      go false true = ap (λ l. l ++ ((x, y) ∷ [])) h
      go false false = h

  pub check_digest-foreign :
      (t : TeeBlobReader)
      → t.sink_dead ≡ false
      → t.mappings ≡ []
      → (check_digest setting t).0.mappings
        ≡ foreign setting.adds_foreign setting.expected (setting.sink_id t.written)
  unfolding check_digest
  check_digest-foreign t alive unmapped = go t.sink_dead alive
    where
      go :
          (b : Bool)
          → b ≡ false
          → (if b
              then (t, [])
              else check_found setting setting.expected (setting.sink_id t.written) t).0.mappings
            ≡ foreign setting.adds_foreign setting.expected (setting.sink_id t.written)
      go true e = absurd (cc)
      go false e = check_found-foreign setting.expected (setting.sink_id t.written) t unmapped
