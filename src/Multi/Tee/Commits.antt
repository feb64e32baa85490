-- ===== src/Multi/Tee/Commits.antt =====
-- What stands in the sink once a tee is closed, and what Close says.
use madder.Common.{◌≡◌, refl, sym, ap, ◌∙◌, List, [], ◌∷◌, ◌++◌, append-nil}
use madder.Common.{Bool, true, false, if◌then◌else◌, All, Option, none, some}
use madder.Common.Bytes.{Bytes}
use madder.Multi.Tee.{
  Answer, Setting, TeeError, TeeBlobReader, new_tee_blob_reader, read_next, read, write_loop,
  write_to, close_both, close_errors, commit, flush_and_commit, Call, read_call, write_to_call,
  seek_call, close_call, Reply, answered, copied, sought, closed, call, run,
}
use madder.Multi.Tee.Effects.{write_to-keeps, read-keeps}
use madder.Multi.Tee.Closing.{
  closes, Counted, call-Counted, commit-Counted, run-closes, times, check_digest-IsMapped,
}
use mathlib.Core.Path.{subst}
use madder.Multi.Tee.Drains.{
  contents, IsFine, Carries, step-Carries, write_loop-drains, verdict, foreign,
  check_digest-verdict, check_digest-foreign,
}

-- No Seek among the calls.
abbrev pub NoSeek : Call → Type 0
NoSeek (seek_call src) = ⊥
NoSeek read_call = Unit
NoSeek (write_to_call took) = Unit
NoSeek close_call = Unit

-- What the first Close answers.
abbrev pub first_close : List Reply → Option (List TeeError)
first_close [] = none
first_close (answered a ∷ replies) = first_close replies
first_close (copied c ∷ replies) = first_close replies
first_close (sought ∷ replies) = first_close replies
first_close (closed errors ∷ replies) = some errors

module _ (setting : Setting) where
  -- The drained tee before its sides are closed.
  drained : TeeBlobReader → TeeBlobReader
  drained t = (write_to [] (record t { done = true })).0

  module _ (whole : Bytes) where
    drained-Carries : (t : TeeBlobReader) → Carries whole t → Carries whole (drained t)
    unfolding drained
    drained-Carries t h =
        write_to-keeps (Carries whole) (step-Carries whole) [] (record t { done = true })
          (record {
            adds_up = h.adds_up;
            taking = h.taking;
            alive = h.alive;
            fines = h.fines;
            unmapped = h.unmapped;
          })

    drained-src : (t : TeeBlobReader) → Carries whole t → (drained t).src ≡ []
    unfolding drained write_to
    drained-src t h = write_loop-drains t.src 0 (record t { done = true }) h.fines refl

    drained-written : (t : TeeBlobReader) → Carries whole t → (drained t).written ≡ whole
    drained-written t h =
        sym (append-nil (drained t).written)
        ∙ ap (λ l. (drained t).written ++ contents l) (sym (drained-src t h))
        ∙ (drained-Carries t h).adds_up

    -- All is in the sink, nothing is left to read, and a foreign id is kept if it is to be.
    pub record Committed (t : TeeBlobReader) : Type 0 where
      pub mappings :
          t.mappings ≡ foreign setting.adds_foreign setting.expected (setting.sink_id whole)
      pub written : t.written ≡ whole
      pub src : t.src ≡ []
      pub alive : t.sink_dead ≡ false
      pub done : t.done ≡ true

    commit-Committed :
        (t : TeeBlobReader) → Carries whole t → Counted false t → Committed (commit setting t).0
    unfolding commit drained
    commit-Committed t h c = record {
      mappings =
          check_digest-foreign setting (close_both setting (drained t)) (drained-Carries t h).alive
            (drained-Carries t h).unmapped
          ∙ ap (λ w. foreign setting.adds_foreign setting.expected (setting.sink_id w))
              (drained-written t h);
      written = ap (λ (u : TeeBlobReader). u.written) mapped ∙ drained-written t h;
      src = ap (λ (u : TeeBlobReader). u.src) mapped ∙ drained-src t h;
      alive = ap (λ (u : TeeBlobReader). u.sink_dead) mapped ∙ (drained-Carries t h).alive;
      done = (commit-Counted setting t c).done;
    }
      where
        mapped :
            (commit setting t).0
            ≡ record (close_both setting (drained t)) { mappings = (commit setting t).0.mappings }
        mapped = check_digest-IsMapped setting (close_both setting (drained t))

    commit-verdict :
        (t : TeeBlobReader)
        → Carries whole t
        → (commit setting t).1
          ≡ close_errors setting ++ verdict setting.expected (setting.sink_id whole)
    unfolding commit drained
    commit-verdict t h =
        ap (λ l. close_errors setting ++ l)
          (check_digest-verdict setting (close_both setting (drained t)) (drained-Carries t h).alive
            ∙ ap (λ w. verdict setting.expected (setting.sink_id w)) (drained-written t h))

    -- After that no call changes anything.
    call-Committed :
        (c : Call) (t : TeeBlobReader) → NoSeek c → Committed t → (call setting c t).0 ≡ t
    unfolding call read write_to flush_and_commit
    call-Committed read_call t plain h = go t.src h.src
      where
        go : (l : List Answer) → l ≡ [] → (read_next l t).0 ≡ t
        go [] e = refl
        go (a ∷ l) e = absurd (cc)
    call-Committed (write_to_call took) t plain h = unfold write_loop in go t.src h.src
      where
        go : (l : List Answer) → l ≡ [] → (write_loop l took 0 t).0 ≡ t
        go [] e = unfold write_loop in refl
        go (a ∷ l) e = absurd (cc)
    call-Committed (seek_call src) t plain h = absurd plain
    call-Committed close_call t plain h = go t.done h.done
      where
        go : (b : Bool) → b ≡ true → (if b then (t, []) else commit setting t).0 ≡ t
        go true e = refl
        go false e = absurd (cc)

    run-Committed :
        (cs : List Call) (t : TeeBlobReader)
        → All NoSeek cs
        → Committed t
        → (run setting cs t).0 ≡ t
    unfolding run
    run-Committed [] t plain h = refl
    run-Committed (c ∷ cs) t (p, plain) h =
        ap (λ u. (run setting cs u).0) (call-Committed c t p h) ∙ run-Committed cs t plain h

    -- The state and the answer of the first Close.
    pub record Ends (r : TeeBlobReader × List Reply) : Type 0 where
      pub committed : Committed r.0
      pub answer :
          first_close r.1
          ≡ some (close_errors setting ++ verdict setting.expected (setting.sink_id whole))

    flush_open :
        (t : TeeBlobReader) → t.done ≡ false → flush_and_commit setting t ≡ commit setting t
    unfolding flush_and_commit
    flush_open t e = go t.done e
      where
        go : (b : Bool) → b ≡ false → (if b then (t, []) else commit setting t) ≡ commit setting t
        go true e = absurd (cc)
        go false e = refl

    pub close-Ends :
        (cs : List Call) (t : TeeBlobReader)
        → All NoSeek cs
        → Carries whole t
        → Counted false t
        → Ends (run setting (close_call ∷ cs) t)
    unfolding run call
    close-Ends cs t plain h d =
        let committed : Committed (flush_and_commit setting t).0 =
          subst (λ r. Committed r.0) (sym (flush_open t d.done)) (commit-Committed t h d) in
        record {
          committed =
              subst Committed
                (sym (run-Committed cs (flush_and_commit setting t).0 plain committed)) committed;
          answer = ap (λ r. some r.1) (flush_open t d.done) ∙ ap some (commit-verdict t h);
        }

    run-Ends :
        (cs : List Call) (t : TeeBlobReader)
        → closes cs ≡ true
        → All NoSeek cs
        → Carries whole t
        → Counted false t
        → Ends (run setting cs t)
    unfolding run call
    run-Ends [] t e plain h d = absurd (cc)
    run-Ends (read_call ∷ cs) t e (p, plain) h d =
        let ends =
          run-Ends cs (read t).0 e plain (read-keeps (Carries whole) (step-Carries whole) t h)
            (call-Counted setting false read_call t d) in
        record { committed = ends.committed; answer = ends.answer }
    run-Ends (write_to_call took ∷ cs) t e (p, plain) h d =
        let ends =
          run-Ends cs (write_to took t).0 e plain
            (write_to-keeps (Carries whole) (step-Carries whole) took t h)
            (call-Counted setting false (write_to_call took) t d) in
        record { committed = ends.committed; answer = ends.answer }
    run-Ends (seek_call src ∷ cs) t e (p, plain) h d = absurd p
    run-Ends (close_call ∷ cs) t e (p, plain) h d = close-Ends cs t plain h d

  -- If Close is called or the context ends, at any point of any calls but Seek, then in the end the
  -- sink holds all bytes of the source, whichever of them the caller read or its writers refused, and
  -- is closed once; the first Close answers with the errors of closing the two sides, and with a
  -- mismatch exactly if the sink computes an id of the expected format and another digest; and an id of
  -- another format is kept with the expected one, once, if the write store keeps such pairs. The source
  -- gives no error and the sink takes all writes.
  pub run-commits :
      (cs : List Call) (src : List Answer)
      → closes cs ≡ true
      → All NoSeek cs
      → All IsFine src
      → Ends (contents src) (run setting cs (new_tee_blob_reader src []))
        × ((run setting cs (new_tee_blob_reader src [])).0.sink_closes ≡ 1)
  unfolding new_tee_blob_reader
  run-commits cs src e plain fines = (
    run-Ends (contents src) cs (new_tee_blob_reader src []) e plain
        (record { adds_up = refl; taking = refl; alive = refl; fines = fines; unmapped = refl })
        (record { done = refl; src_closes = refl; sink_closes = refl }),
    (run-closes setting cs src []).sink_closes ∙ ap times e,
  )
