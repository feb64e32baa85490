-- ===== src/Multi/Tee/Closing.antt =====
-- How often a tee closes its source and its sink.
use madder.Common.{ℕ, suc, ◌++◌, ◌≡◌, refl, ap, ◌∙◌, List, [], ◌∷◌, Bool, true, false, ◌||◌}
use madder.Common.{if◌then◌else◌, Option, none, some}
use madder.Common.Bytes.{equal_bytes}
use madder.Multi.Tee.{
  Answer, Setting, MarklId, TeeError, digest_mismatch, TeeBlobReader, new_tee_blob_reader,
  tee_bytes, write_to, check_ids, check_found, check_digest, close_both, commit, flush_and_commit,
  Call, read_call, write_to_call, seek_call, close_call, call, run,
}
use madder.Multi.Tee.Effects.{tee_bytes-SameControl, write_to-keeps, read-keeps}

abbrev pub is_close : Call → Bool
is_close read_call = false
is_close (write_to_call took) = false
is_close (seek_call src) = false
is_close close_call = true

abbrev pub closes : List Call → Bool
closes [] = false
closes (c ∷ cs) = is_close c || closes cs

abbrev pub times : Bool → ℕ
times true = 1
times false = 0

-- Closed if `q`, and then once on either side.
pub record Counted (q : Bool) (t : TeeBlobReader) : Type 0 where
  pub done : t.done ≡ q
  pub src_closes : t.src_closes ≡ times q
  pub sink_closes : t.sink_closes ≡ times q

step-Counted :
    (q : Bool) (a : Answer) (later : List Answer) (t : TeeBlobReader)
    → t.src ≡ a ∷ later
    → Counted q t
    → Counted q (tee_bytes a.bytes (record t { src = later }))
step-Counted q a later t e h =
    let c = tee_bytes-SameControl a.bytes (record t { src = later }) in
    record {
      done = c.done ∙ h.done;
      src_closes = c.src_closes ∙ h.src_closes;
      sink_closes = c.sink_closes ∙ h.sink_closes;
    }

-- The check of the digest adds a mapping at most.
abbrev IsMapped : TeeBlobReader → TeeBlobReader → Type 0
IsMapped t t' = t' ≡ record t { mappings = t'.mappings }

module _ (setting : Setting) where
  check_ids-IsMapped : (x y : MarklId) (t : TeeBlobReader) → IsMapped t (check_ids setting x y t).0
  check_ids-IsMapped x y t = go (equal_bytes x.format y.format) setting.adds_foreign
    where
      go :
          (b b' : Bool)
          → IsMapped t
              (if◌then◌else◌ {A = TeeBlobReader × List TeeError} b
                (t, if equal_bytes x.digest y.digest then [] else digest_mismatch ∷ [])
                (if b'
                  then (record t { mappings = t.mappings ++ ((x, y) ∷ []) }, [])
                  else (t, []))).0
      go true b' = refl
      go false true = refl
      go false false = refl

  check_found-IsMapped :
      (o p : Option MarklId) (t : TeeBlobReader) → IsMapped t (check_found setting o p t).0
  check_found-IsMapped none p t = refl
  check_found-IsMapped (some x) none t = refl
  check_found-IsMapped (some x) (some y) t = check_ids-IsMapped x y t

  pub check_digest-IsMapped : (t : TeeBlobReader) → IsMapped t (check_digest setting t).0
  unfolding check_digest
  check_digest-IsMapped t = go t.sink_dead
    where
      go :
          (b : Bool)
          → IsMapped t
              (if b
                then (t, [])
                else check_found setting setting.expected (setting.sink_id t.written) t).0
      go true = refl
      go false = check_found-IsMapped setting.expected (setting.sink_id t.written) t

  check_digest-Counted :
      (q : Bool) (t : TeeBlobReader) → Counted q t → Counted q (check_digest setting t).0
  check_digest-Counted q t h =
      let e = check_digest-IsMapped t in
      record {
        done = ap (λ (u : TeeBlobReader). u.done) e ∙ h.done;
        src_closes = ap (λ (u : TeeBlobReader). u.src_closes) e ∙ h.src_closes;
        sink_closes = ap (λ (u : TeeBlobReader). u.sink_closes) e ∙ h.sink_closes;
      }

  -- A tee that is marked done and not yet closed.
  record Closing (t : TeeBlobReader) : Type 0 where
    pub done : t.done ≡ true
    pub src_closes : t.src_closes ≡ 0
    pub sink_closes : t.sink_closes ≡ 0

  step-Closing :
      (a : Answer) (later : List Answer) (t : TeeBlobReader)
      → t.src ≡ a ∷ later
      → Closing t
      → Closing (tee_bytes a.bytes (record t { src = later }))
  step-Closing a later t e h =
      let c = tee_bytes-SameControl a.bytes (record t { src = later }) in
      record {
        done = c.done ∙ h.done;
        src_closes = c.src_closes ∙ h.src_closes;
        sink_closes = c.sink_closes ∙ h.sink_closes;
      }

  pub commit-Counted : (t : TeeBlobReader) → Counted false t → Counted true (commit setting t).0
  unfolding commit
  commit-Counted t h =
      let c =
        write_to-keeps Closing step-Closing [] (record t { done = true })
          (record { done = refl; src_closes = h.src_closes; sink_closes = h.sink_closes }) in
      check_digest-Counted true (close_both setting (write_to [] (record t { done = true })).0)
        (record {
          done = c.done;
          src_closes = ap suc c.src_closes;
          sink_closes = ap suc c.sink_closes;
        })

  flush_and_commit-Counted :
      (q : Bool) (t : TeeBlobReader) → Counted q t → Counted true (flush_and_commit setting t).0
  unfolding flush_and_commit
  flush_and_commit-Counted q t h = go q h t.done h.done
    where
      go :
          (q : Bool)
          → Counted q t
          → (b : Bool) → b ≡ q
          → Counted true (if b then (t, []) else commit setting t).0
      go true h true e = h
      go false h false e = commit-Counted t h
      go true h false e = absurd (cc)
      go false h true e = absurd (cc)

  pub call-Counted :
      (q : Bool) (c : Call) (t : TeeBlobReader)
      → Counted q t
      → Counted (q || is_close c) (call setting c t).0
  unfolding call
  call-Counted true read_call t h = read-keeps (Counted true) (step-Counted true) t h
  call-Counted false read_call t h = read-keeps (Counted false) (step-Counted false) t h
  call-Counted true (write_to_call took) t h =
      write_to-keeps (Counted true) (step-Counted true) took t h
  call-Counted false (write_to_call took) t h =
      write_to-keeps (Counted false) (step-Counted false) took t h
  call-Counted true (seek_call src) t h = record {
    done = h.done;
    src_closes = h.src_closes;
    sink_closes = h.sink_closes;
  }
  call-Counted false (seek_call src) t h = record {
    done = h.done;
    src_closes = h.src_closes;
    sink_closes = h.sink_closes;
  }
  call-Counted true close_call t h = flush_and_commit-Counted true t h
  call-Counted false close_call t h = flush_and_commit-Counted false t h

  run-Counted :
      (q : Bool) (cs : List Call) (t : TeeBlobReader)
      → Counted q t
      → Counted (q || closes cs) (run setting cs t).0
  unfolding run
  run-Counted true [] t h = h
  run-Counted false [] t h = h
  run-Counted true (c ∷ cs) t h = run-Counted true cs (call setting c t).0 (call-Counted true c t h)
  run-Counted false (c ∷ cs) t h =
      run-Counted (is_close c) cs (call setting c t).0 (call-Counted false c t h)

  -- Whatever is called on a new tee, and however source and sink answer: once Close was called, or the
  -- context has ended, the source and the sink have been closed once each, however often it was
  -- called, and before that neither was.
  pub run-closes :
      (cs : List Call) (src : List Answer) (accepts : List Bool)
      → Counted (closes cs) (run setting cs (new_tee_blob_reader src accepts)).0
  unfolding new_tee_blob_reader
  run-closes cs src accepts =
      run-Counted false cs _ (record { done = refl; src_closes = refl; sink_closes = refl })
