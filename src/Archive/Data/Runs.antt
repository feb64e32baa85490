-- ===== src/Archive/Data/Runs.antt =====
-- The session of an archive writer through a run of calls.
use madder.Common.{ℕ, ◌^◌, ◌≤◌, ◌<◌, ◌≡◌, sym, ap, arith, All}
use madder.Common.{List, [], ◌∷◌, ◌++◌, append_assoc, append-nil, length, length-append}
use madder.Common.Bytes.{Bytes}
use madder.Archive.Types.{ok, DataEntryV1}
use madder.Archive.Exec.{then-ok}
use madder.Archive.Stream.{Sink}
use madder.Archive.Data.Codec.{Plugins, AllLossless}
use madder.Archive.Data.Writer.{DataWriterV1}
use madder.Archive.Data.Reader.{DataReaderV1}
use madder.Archive.Data.Entry.{full_bytes, delta_bytes}
use madder.Archive.Data.Wrote.{write_full_entry-Wrote, write_delta_entry-Wrote}
use madder.Archive.Data.Session.{Call, full, delta, IsCall, write_call, write_calls, Session}
use madder.Archive.Data.Session.{AllHold}
use madder.Archive.Data.Calls.{call_step}
use mathlib.Core.Path.{subst}

module _ (plugins : Plugins) where
  write_call_grows :
      (dw dw' : DataWriterV1) (s s' : Sink) (c : Call)
      → write_call plugins dw c s ≡ ok (dw', s')
      → length s.written ≤ length s'.written
  unfolding write_call
  write_call_grows dw dw' s s' (full entry_hash plain) h =
      let w = write_full_entry-Wrote plugins dw s entry_hash plain dw' s' h in
      omega (arith, ap (length {A = ℕ}) w.written, length-append s.written (full_bytes _ w.stored))
  write_call_grows dw dw' s s' (delta entry_hash alg base_hash logical_size payload) h =
      let w =
        write_delta_entry-Wrote plugins dw s entry_hash alg base_hash logical_size payload dw' s'
          h in
      omega (arith, ap (length {A = ℕ}) w.written, length-append s.written (delta_bytes _ w.stored))

  write_calls_nil :
      {dw dw' : DataWriterV1} {s s' : Sink}
      → write_calls plugins dw [] s ≡ ok (dw', s')
      → (dw ≡ dw') × (s ≡ s')
  unfolding write_calls
  write_calls_nil h = (cc, cc)

  write_calls_cons :
      (dw dw' : DataWriterV1) (s s' : Sink) (c : Call) (cs : List Call)
      → write_calls plugins dw (c ∷ cs) s ≡ ok (dw', s')
      → (dw1 : DataWriterV1) × (s1 : Sink) × (write_call plugins dw c s ≡ ok (dw1, s1))
        × (write_calls plugins dw1 cs s1 ≡ ok (dw', s'))
  unfolding write_calls
  write_calls_cons dw dw' s s' c cs h =
      then-ok (write_call plugins dw c) (λ d. write_calls plugins d cs) s h

  write_calls_grows :
      (cs : List Call) (dw dw' : DataWriterV1) (s s' : Sink)
      → write_calls plugins dw cs s ≡ ok (dw', s')
      → length s.written ≤ length s'.written
  write_calls_grows [] dw dw' s s' h =
      let (same, same_sink) = write_calls_nil h in
      omega (arith, ap (λ (t : Sink). length t.written) same_sink)
  write_calls_grows (c ∷ cs) dw dw' s s' h =
      let (dw1, s1, first, later) = write_calls_cons dw dw' s s' c cs h in
      omega (arith, write_call_grows dw dw1 s s1 c first, write_calls_grows cs dw1 dw' s1 s' later)

  -- Each call of the run adds one entry that holds what the call was given.
  pub write_calls-Session :
      (dr : DataReaderV1) (head : Bytes)
      → AllLossless plugins dr.encryption
      → (cs : List Call) (dw dw' : DataWriterV1) (s s' : Sink) (es : List DataEntryV1)
      → Session plugins dr head dw s es
      → All (IsCall dr.hash_size) cs
      → write_calls plugins dw cs s ≡ ok (dw', s')
      → length s'.written < 2 ^ 63
      → (later : List DataEntryV1) × AllHold cs later × Session plugins dr head dw' s' (es ++ later)
  write_calls-Session dr head lossless [] dw dw' s s' es session ranges h small =
      let (same, same_sink) = write_calls_nil h in
      (
        [],
        tt,
        subst (λ t. Session plugins dr head dw' t (es ++ [])) same_sink
            (subst (λ d. Session plugins dr head d s (es ++ [])) same
              (subst (Session plugins dr head dw s) (sym (append-nil es)) session)),
      )
  write_calls-Session dr head lossless (c ∷ cs) dw dw' s s' es session (range, ranges) h small =
      let (dw1, s1, first, rest) = write_calls_cons dw dw' s s' c cs h in
      let (e, held, session1) =
        call_step plugins dr head lossless dw dw1 s s1 es session
          (omega (arith, write_calls_grows cs dw1 dw' s1 s' rest)) c range first in
      let (later, all_held, session2) =
        write_calls-Session dr head lossless cs dw1 dw' s1 s' (es ++ (e ∷ [])) session1 ranges rest
          small in
      (
        e ∷ later,
        (held, all_held),
        subst (Session plugins dr head dw' s') (append_assoc es (e ∷ []) later) session2,
      )
