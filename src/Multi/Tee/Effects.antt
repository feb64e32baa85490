-- ===== src/Multi/Tee/Effects.antt =====
-- What a call of the tee leaves alone, how often the tee closes, and what its caller sees.
use madder.Common.{ℕ, ◌+◌, ◌≡◌, refl, List, [], ◌∷◌, length, Bool, true, false}
use madder.Common.{if◌then◌else◌}
use madder.Common.Bytes.{Bytes}
use madder.Multi.Tee.{
  Outcome, fine, at_end, failed, Answer, Took, all_of_it, fewer, refused, TeeBlobReader, sink_write,
  tee_bytes, read_next, read, Copied, next_took, later_took, go_on, after_write, write_loop,
  write_to,
}

-- A tee that differs from another in its sink at most.
pub record SameControl (t t' : TeeBlobReader) : Type 0 where
  pub src : t'.src ≡ t.src
  pub done : t'.done ≡ t.done
  pub src_closes : t'.src_closes ≡ t.src_closes
  pub sink_closes : t'.sink_closes ≡ t.sink_closes

sink_write-SameControl :
    (bs : Bytes) (l : List Bool) (t : TeeBlobReader) → SameControl t (sink_write bs l t)
sink_write-SameControl bs [] t = record {
  src = refl;
  done = refl;
  src_closes = refl;
  sink_closes = refl;
}
sink_write-SameControl bs (true ∷ l) t = record {
  src = refl;
  done = refl;
  src_closes = refl;
  sink_closes = refl;
}
sink_write-SameControl bs (false ∷ l) t = record {
  src = refl;
  done = refl;
  src_closes = refl;
  sink_closes = refl;
}

pub tee_bytes-SameControl : (bs : Bytes) (t : TeeBlobReader) → SameControl t (tee_bytes bs t)
unfolding tee_bytes
tee_bytes-SameControl [] t = record {
  src = refl;
  done = refl;
  src_closes = refl;
  sink_closes = refl;
}
tee_bytes-SameControl (b ∷ bs) t = go t.sink_dead
  where
    go : (q : Bool) → SameControl t (if q then t else sink_write (b ∷ bs) t.accepts t)
    go true = record { src = refl; done = refl; src_closes = refl; sink_closes = refl }
    go false = sink_write-SameControl (b ∷ bs) t.accepts t

-- A property that each read keeps is kept by the loop of WriteTo.
module _ {κ} (P : TeeBlobReader → Type κ) where
  go_on-keeps :
      (o : Outcome) (n : ℕ) (t : TeeBlobReader) (loop : ℕ → TeeBlobReader × Copied)
      → P t
      → ((m : ℕ) → P (loop m).0)
      → P (go_on o n t loop).0
  go_on-keeps fine n t loop p q = q n
  go_on-keeps at_end n t loop p q = p
  go_on-keeps (failed e) n t loop p q = p

  after_write-keeps :
      (k : Took) (len n : ℕ) (t : TeeBlobReader) (loop : ℕ → TeeBlobReader × Copied)
      → P t
      → ((m : ℕ) → P (loop m).0)
      → P (after_write k len n t loop).0
  after_write-keeps all_of_it len n t loop p q = q (n + len)
  after_write-keeps (fewer m) len n t loop p q = p
  after_write-keeps (refused m e) len n t loop p q = p

  module _
      (step : (a : Answer) (later : List Answer) (t : TeeBlobReader)
        → t.src ≡ a ∷ later
        → P t
        → P (tee_bytes a.bytes (record t { src = later }))) where
    pub write_loop-keeps :
        (src : List Answer) (took : List Took) (n : ℕ) (t : TeeBlobReader)
        → t.src ≡ src
        → P t
        → P (write_loop src took n t).0
    unfolding write_loop
    write_loop-keeps [] took n t same p = p
    write_loop-keeps (a ∷ later) took n t same p =
        go (step a later t same p)
          (λ took' m p'.
            write_loop-keeps later took' m (tee_bytes a.bytes (record t { src = later }))
              (tee_bytes-SameControl a.bytes (record t { src = later })).src p')
          a.bytes
      where
        go :
            P (tee_bytes a.bytes (record t { src = later }))
            → ((took' : List Took) (m : ℕ)
                → P (tee_bytes a.bytes (record t { src = later }))
                → P (write_loop later took' m (tee_bytes a.bytes (record t { src = later }))).0)
            → (bs : Bytes)
            → P
                (elim bs as (λ x. TeeBlobReader × Copied) [
                  | [] ↦
                      go_on a.outcome n (tee_bytes a.bytes (record t { src = later })) (λ m.
                        write_loop later took m (tee_bytes a.bytes (record t { src = later })))
                  | b ∷ bs' ↦
                      after_write
                        (next_took took)
                        (length (b ∷ bs'))
                        n
                        (tee_bytes a.bytes (record t { src = later }))
                        (λ m. go_on a.outcome m (tee_bytes a.bytes (record t { src = later })) (λ i.
                          write_loop later
                            (later_took took)
                            i
                            (tee_bytes a.bytes (record t { src = later }))))
                ]).0
        go p' rest [] = go_on-keeps a.outcome n _ _ p' (λ m. rest took m p')
        go p' rest (b ∷ bs) =
            after_write-keeps (next_took took) (length (b ∷ bs)) n _ _ p'
              (λ m. go_on-keeps a.outcome m _ _ p' (λ i. rest (later_took took) i p'))

    pub write_to-keeps : (took : List Took) (t : TeeBlobReader) → P t → P (write_to took t).0
    unfolding write_to
    write_to-keeps took t p = write_loop-keeps t.src took 0 t refl p

    pub read-keeps : (t : TeeBlobReader) → P t → P (read t).0
    unfolding read
    read-keeps t p = go t.src refl
      where
        go : (src : List Answer) → t.src ≡ src → P (read_next src t).0
        go [] e = p
        go (a ∷ later) e = step a later t e p
