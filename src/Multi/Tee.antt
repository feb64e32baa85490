-- ===== src/Multi/Tee.antt =====
-- go/internal/foxtrot/blob_stores/multi_tee.go: a reader that copies what is read into a writer of
-- the write store, as a state and the calls on it.
use madder.Common.{ℕ, suc, ◌+◌, List, [], ◌∷◌, ◌++◌, length, Bool, true, false, not, ◌&&◌}
use madder.Common.{if◌then◌else◌, Option, none, some}
use madder.Common.Bytes.{Bytes, equal_bytes}
pub mod Effects
pub mod Closing
pub mod Drains
pub mod Commits
pub mod Rewound
pub mod Transparent
mod Samples

-- The error of a Read: nil, io.EOF, or another.
pub data Outcome : Type 0 where
  fine at_end : Outcome
  failed : ℕ → Outcome

pub record Answer : Type 0 where
  pub bytes : Bytes
  pub outcome : Outcome

-- The answer of the caller's writer to one Write.
pub data Took : Type 0 where
  all_of_it : Took
  fewer : ℕ → Took
  refused : ℕ → ℕ → Took

pub record MarklId : Type 0 where
  pub format : Bytes
  pub digest : Bytes

pub data TeeError : Type 0 where
  read_failed write_failed source_close sink_close : ℕ → TeeError
  short_write digest_mismatch : TeeError

-- What does not change: the expected id, how closing ends, the id that the sink computes of its
-- bytes, and whether the write store keeps foreign digests.
pub record Setting : Type 0 where
  pub expected : Option MarklId
  pub source_close_error : Option ℕ
  pub sink_close_error : Option ℕ
  pub sink_id : Bytes → Option MarklId
  pub adds_foreign : Bool

-- `src` is what the source will answer to the next calls of Read, and io.EOF after them; `accepts` is
-- whether the sink takes the next writes, and it takes all after them.
pub record TeeBlobReader : Type 0 where
  pub src : List Answer
  pub src_closes : ℕ
  pub written : Bytes
  pub accepts : List Bool
  pub sink_closes : ℕ
  pub sink_dead : Bool
  pub done : Bool
  pub mappings : List (MarklId × MarklId)

unfoldable pub new_tee_blob_reader : List Answer → List Bool → TeeBlobReader
new_tee_blob_reader src accepts = record {
  src = src;
  src_closes = 0;
  written = [];
  accepts = accepts;
  sink_closes = 0;
  sink_dead = false;
  done = false;
  mappings = [];
}

-- The Write to the sink; what a refused write leaves in it is not modelled.
abbrev pub sink_write : Bytes → List Bool → TeeBlobReader → TeeBlobReader
sink_write bytes [] t = record t { written = t.written ++ bytes }
sink_write bytes (true ∷ later) t = record t { written = t.written ++ bytes; accepts = later }
sink_write bytes (false ∷ later) t = record t { accepts = later; sink_dead = true }

-- if n > 0 && !t.sinkDead.Load() { … }
unfoldable pub tee_bytes : Bytes → TeeBlobReader → TeeBlobReader
tee_bytes [] t = t
tee_bytes (b ∷ bs) t = if t.sink_dead then t else sink_write (b ∷ bs) t.accepts t

abbrev pub read_next : List Answer → TeeBlobReader → TeeBlobReader × Answer
read_next [] t = (t, record { bytes = []; outcome = at_end })
read_next (a ∷ later) t = (tee_bytes a.bytes (record t { src = later }), a)

unfoldable pub read : TeeBlobReader → TeeBlobReader × Answer
read t = read_next t.src t

pub record Copied : Type 0 where
  pub total : ℕ
  pub error : Option TeeError

abbrev pub next_took : List Took → Took
next_took [] = all_of_it
next_took (k ∷ ks) = k

abbrev pub later_took : List Took → List Took
later_took [] = []
later_took (k ∷ ks) = ks

-- What the loop does with the error of a Read; `loop` is the rest of it.
abbrev pub go_on :
    Outcome → ℕ → TeeBlobReader → (ℕ → TeeBlobReader × Copied) → TeeBlobReader × Copied
go_on fine total t loop = loop total
go_on at_end total t loop = (t, record { total = total; error = none })
go_on (failed e) total t loop = (t, record { total = total; error = some (read_failed e) })

-- What it does with the answer of the writer, for `n` bytes.
abbrev pub after_write :
    Took → ℕ → ℕ → TeeBlobReader → (ℕ → TeeBlobReader × Copied) → TeeBlobReader × Copied
after_write all_of_it n total t loop = loop (total + n)
after_write (fewer m) n total t loop = (t, record { total = total + m; error = some short_write })
after_write (refused m e) n total t loop =
    (t, record { total = total + m; error = some (write_failed e) })

-- The loop of WriteTo, over the answers of the source; a writer takes all after its listed answers.
unfoldable pub write_loop : List Answer → List Took → ℕ → TeeBlobReader → TeeBlobReader × Copied
write_loop [] took total t = (t, record { total = total; error = none })
write_loop (a ∷ later) took total t =
    let t' = tee_bytes a.bytes (record t { src = later }) in
    let loop = write_loop later in
    elim a.bytes [
      | [] ↦ go_on a.outcome total t' (λ n. loop took n t')
      | b ∷ bs ↦
          after_write (next_took took) (length (b ∷ bs)) total t'
            (λ n. go_on a.outcome n t' (λ m. loop (later_took took) m t'))
    ]

unfoldable pub write_to : List Took → TeeBlobReader → TeeBlobReader × Copied
write_to took t = write_loop t.src took 0 t

-- The calls of a caller; Close and the context's end come to the same. A Seek leaves the tee alone
-- and changes what the source answers; ReadAt and GetMarklId are the source's and leave both alone.
pub data Call : Type 0 where
  read_call : Call
  write_to_call : List Took → Call
  seek_call : List Answer → Call
  close_call : Call

pub data Reply : Type 0 where
  answered : Answer → Reply
  copied : Copied → Reply
  sought : Reply
  closed : List TeeError → Reply

module _ (setting : Setting) where
  -- The digest of the sink against the expected one.
  abbrev pub check_ids : MarklId → MarklId → TeeBlobReader → TeeBlobReader × List TeeError
  check_ids expected writer t =
      if equal_bytes expected.format writer.format
      then (t, if equal_bytes expected.digest writer.digest then [] else digest_mismatch ∷ [])
      else if setting.adds_foreign
      then (record t { mappings = t.mappings ++ ((expected, writer) ∷ []) }, [])
      else (t, [])

  abbrev pub check_found :
      Option MarklId → Option MarklId → TeeBlobReader → TeeBlobReader × List TeeError
  check_found none found t = (t, [])
  check_found (some expected) none t = (t, [])
  check_found (some expected) (some writer) t = check_ids expected writer t

  unfoldable pub check_digest : TeeBlobReader → TeeBlobReader × List TeeError
  check_digest t =
      if t.sink_dead then (t, []) else check_found setting.expected (setting.sink_id t.written) t

  abbrev pub failure : (ℕ → TeeError) → Option ℕ → List TeeError
  failure kind none = []
  failure kind (some e) = kind e ∷ []

  abbrev pub close_both : TeeBlobReader → TeeBlobReader
  close_both t = record t { src_closes = suc t.src_closes; sink_closes = suc t.sink_closes }

  abbrev pub close_errors : List TeeError
  close_errors =
      failure source_close setting.source_close_error ++ failure sink_close setting.sink_close_error

  -- errors.Join of no errors is nil. io.Copy calls WriteTo, and io.Discard takes all.
  unfoldable pub commit : TeeBlobReader → TeeBlobReader × List TeeError
  commit t =
      let checked = check_digest (close_both (write_to [] (record t { done = true })).0) in
      (checked.0, close_errors ++ checked.1)

  -- if t.done.Swap(true) { return nil }
  unfoldable pub flush_and_commit : TeeBlobReader → TeeBlobReader × List TeeError
  unfolding commit
  flush_and_commit t = if t.done then (t, []) else commit t

  unfoldable pub call : Call → TeeBlobReader → TeeBlobReader × Reply
  call read_call t = let r = read t in (r.0, answered r.1)
  call (write_to_call took) t = let r = write_to took t in (r.0, copied r.1)
  call (seek_call src) t = (record t { src = src }, sought)
  call close_call t = let r = flush_and_commit t in (r.0, closed r.1)

  unfoldable pub run : List Call → TeeBlobReader → TeeBlobReader × List Reply
  run [] t = (t, [])
  run (c ∷ cs) t = let r = call c t in let rest = run cs r.0 in (rest.0, r.1 ∷ rest.1)
