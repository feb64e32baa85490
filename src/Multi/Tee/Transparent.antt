-- ===== src/Multi/Tee/Transparent.antt =====
-- A caller cannot tell the sink of a tee from another.
use madder.Common.{ℕ, ◌+◌, ◌≡◌, refl, sym, ap, ◌∙◌, List, [], ◌∷◌, length, Bool, true, false}
use madder.Common.{if◌then◌else◌}
use madder.Common.Bytes.{Bytes}
use madder.Multi.Tee.{
  Outcome, fine, at_end, failed, Answer, Took, all_of_it, fewer, refused, Setting, TeeBlobReader,
  new_tee_blob_reader, tee_bytes, read_next, read, Copied, next_took, later_took, go_on,
  after_write, write_loop, write_to, close_both, commit, flush_and_commit, Call, read_call,
  write_to_call, seek_call, close_call, Reply, answered, copied, sought, closed, call, run,
}
use madder.Multi.Tee.Effects.{tee_bytes-SameControl}
use madder.Multi.Tee.Closing.{check_digest-IsMapped}
use mathlib.Core.List.{map}
use mathlib.Core.Path.{subst}

-- The reply without the errors of a Close.
abbrev pub seen : Reply → Reply
seen (answered a) = answered a
seen (copied c) = copied c
seen sought = sought
seen (closed errors) = closed []

-- Two tees of one source.
record SameSource (t u : TeeBlobReader) : Type 0 where
  pub src : t.src ≡ u.src
  pub done : t.done ≡ u.done

record Alike (p q : TeeBlobReader × Copied) : Type 0 where
  pub source : SameSource p.0 q.0
  pub result : p.1 ≡ q.1

tee_bytes-SameSource :
    (bs bs' : Bytes) (t u : TeeBlobReader)
    → SameSource t u
    → SameSource (tee_bytes bs t) (tee_bytes bs' u)
tee_bytes-SameSource bs bs' t u h =
    let c = tee_bytes-SameControl bs t in
    let d = tee_bytes-SameControl bs' u in
    record { src = c.src ∙ h.src ∙ sym d.src; done = c.done ∙ h.done ∙ sym d.done }

module _ (t u : TeeBlobReader) (same : SameSource t u) where
  go_on-Alike :
      (o : Outcome) (n : ℕ) (l m : ℕ → TeeBlobReader × Copied)
      → ((k : ℕ) → Alike (l k) (m k))
      → Alike (go_on o n t l) (go_on o n u m)
  go_on-Alike fine n l m h = h n
  go_on-Alike at_end n l m h = record { source = same; result = refl }
  go_on-Alike (failed e) n l m h = record { source = same; result = refl }

  after_write-Alike :
      (k : Took) (len n : ℕ) (l m : ℕ → TeeBlobReader × Copied)
      → ((i : ℕ) → Alike (l i) (m i))
      → Alike (after_write k len n t l) (after_write k len n u m)
  after_write-Alike all_of_it len n l m h = h (n + len)
  after_write-Alike (fewer i) len n l m h = record { source = same; result = refl }
  after_write-Alike (refused i e) len n l m h = record { source = same; result = refl }

  -- One round of the loop, for the bytes and the outcome of a Read.
  round-Alike :
      (bs : Bytes) (o : Outcome) (took : List Took) (n : ℕ)
      (l m : List Took → ℕ → TeeBlobReader × Copied)
      → ((w : List Took) (i : ℕ) → Alike (l w i) (m w i))
      → Alike
          (elim bs as (λ x. TeeBlobReader × Copied) [
            | [] ↦ go_on o n t (λ i. l took i)
            | b ∷ bs' ↦
                after_write
                  (next_took took)
                  (length (b ∷ bs'))
                  n
                  t
                  (λ i. go_on o i t (λ j. l (later_took took) j))
          ])
          (elim bs as (λ x. TeeBlobReader × Copied) [
            | [] ↦ go_on o n u (λ i. m took i)
            | b ∷ bs' ↦
                after_write
                  (next_took took)
                  (length (b ∷ bs'))
                  n
                  u
                  (λ i. go_on o i u (λ j. m (later_took took) j))
          ])
  round-Alike [] o took n l m h = go_on-Alike o n _ _ (λ i. h took i)
  round-Alike (b ∷ bs) o took n l m h =
      after_write-Alike (next_took took) (length (b ∷ bs)) n _ _
        (λ i. go_on-Alike o i _ _ (λ j. h (later_took took) j))

write_loop-Alike :
    (src : List Answer) (took : List Took) (n : ℕ) (t u : TeeBlobReader)
    → SameSource t u
    → Alike (write_loop src took n t) (write_loop src took n u)
unfolding write_loop
write_loop-Alike [] took n t u same = record { source = same; result = refl }
write_loop-Alike (a ∷ later) took n t u same =
    let next =
      tee_bytes-SameSource a.bytes a.bytes (record t { src = later }) (record u { src = later })
        (record { src = refl; done = same.done }) in
    round-Alike _ _ next a.bytes a.outcome took n _ _ (λ w i.
      write_loop-Alike later w i (tee_bytes a.bytes (record t { src = later }))
        (tee_bytes a.bytes (record u { src = later })) next)

write_to-Alike :
    (took : List Took) (t u : TeeBlobReader)
    → SameSource t u
    → Alike (write_to took t) (write_to took u)
unfolding write_to
write_to-Alike took t u same =
    subst (λ l. Alike (write_loop t.src took 0 t) (write_loop l took 0 u)) same.src
      (write_loop-Alike t.src took 0 t u same)

read-same :
    (t u : TeeBlobReader)
    → SameSource t u
    → SameSource (read t).0 (read u).0 × ((read t).1 ≡ (read u).1)
unfolding read
read-same t u same =
    subst
      (λ m.
        SameSource (read_next t.src t).0 (read_next m u).0
        × ((read_next t.src t).1 ≡ (read_next m u).1))
      same.src (go t.src)
  where
    go :
        (l : List Answer)
        → SameSource (read_next l t).0 (read_next l u).0 × ((read_next l t).1 ≡ (read_next l u).1)
    go [] = (same, refl)
    go (a ∷ later) = (
      tee_bytes-SameSource a.bytes a.bytes (record t { src = later }) (record u { src = later })
          (record { src = refl; done = same.done }),
      refl,
    )

module _ (setting setting' : Setting) where
  commit-SameSource :
      (t u : TeeBlobReader) → SameSource t u → SameSource (commit setting t).0 (commit setting' u).0
  unfolding commit
  commit-SameSource t u same =
      let h =
        write_to-Alike [] (record t { done = true }) (record u { done = true })
          (record { src = same.src; done = refl }) in
      let p =
        check_digest-IsMapped setting
          (close_both setting (write_to [] (record t { done = true })).0) in
      let q =
        check_digest-IsMapped setting'
          (close_both setting' (write_to [] (record u { done = true })).0) in
      record {
        src =
            ap (λ (x : TeeBlobReader). x.src) p
            ∙ h.source.src
            ∙ sym (ap (λ (x : TeeBlobReader). x.src) q);
        done =
            ap (λ (x : TeeBlobReader). x.done) p
            ∙ h.source.done
            ∙ sym (ap (λ (x : TeeBlobReader). x.done) q);
      }

  flush_and_commit-SameSource :
      (t u : TeeBlobReader)
      → SameSource t u
      → SameSource (flush_and_commit setting t).0 (flush_and_commit setting' u).0
  unfolding flush_and_commit
  flush_and_commit-SameSource t u same = go t.done u.done same.done
    where
      go :
          (b c : Bool)
          → b ≡ c
          → SameSource
              (if b then (t, []) else commit setting t).0
              (if c then (u, []) else commit setting' u).0
      go true true e = same
      go false false e = commit-SameSource t u same
      go true false e = absurd (cc)
      go false true e = absurd (cc)

  call-same :
      (c : Call) (t u : TeeBlobReader)
      → SameSource t u
      → SameSource (call setting c t).0 (call setting' c u).0
        × (seen (call setting c t).1 ≡ seen (call setting' c u).1)
  unfolding call
  call-same read_call t u same =
      let (source, answer) = read-same t u same in (source, ap answered answer)
  call-same (write_to_call took) t u same =
      let h = write_to-Alike took t u same in (h.source, ap copied h.result)
  call-same (seek_call src) t u same = (record { src = refl; done = same.done }, refl)
  call-same close_call t u same = (flush_and_commit-SameSource t u same, refl)

  run-same :
      (cs : List Call) (t u : TeeBlobReader)
      → SameSource t u
      → map seen (run setting cs t).1 ≡ map seen (run setting' cs u).1
  unfolding run
  run-same [] t u same = refl
  run-same (c ∷ cs) t u same =
      let (source, reply) = call-same c t u same in
      λ i. reply i ∷ run-same cs (call setting c t).0 (call setting' c u).0 source i

  -- The sink does not disturb the read: over any calls on the tees of one source, the bytes, counts
  -- and errors that Read and WriteTo answer are the same, whatever the two sinks take, compute and
  -- answer to Close, whatever is expected of them, and whatever the write stores keep.
  pub run-transparent :
      (cs : List Call) (src : List Answer) (accepts accepts' : List Bool)
      → map seen (run setting cs (new_tee_blob_reader src accepts)).1
        ≡ map seen (run setting' cs (new_tee_blob_reader src accepts')).1
  unfolding new_tee_blob_reader
  run-transparent cs src accepts accepts' = run-same cs _ _ (record { src = refl; done = refl })
