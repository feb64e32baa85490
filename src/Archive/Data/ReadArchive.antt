-- ===== src/Archive/Data/ReadArchive.antt =====
-- What the reader makes of an archive that was written whole.
use madder.Common.{ℕ, zero, suc, ◌^◌, ◌<◌, ◌≡◌, refl, sym, ap, ◌∙◌, arith, All, List}
use madder.Common.{[], ◌∷◌, ◌++◌, append_assoc, length, length-append, Option, get_elem?, some}
use madder.Common.Bytes.{Bytes}
use madder.Archive.Types.{Result, ok, ◌>>=◌, DataEntryV1, Digest, IsSized, IsU16}
use madder.Archive.Types.{hash_size_for_format}
use madder.Archive.Stream.{Sink}
use madder.Archive.Data.Codec.{Codec, Plugins, AllLossless}
use madder.Archive.Data.Writer.{with_encryption_flag}
use madder.Archive.Data.Reader.{new_data_reader_v1, read_all_entries, read_entry_at}
use madder.Archive.Data.Reader.{validate}
use madder.Archive.Data.Chain.{read_all_entries-Chain, read_entry_at-Chain}
use madder.Archive.Data.Session.{Call, IsCall, AllHold, Holds, recorded}
use madder.Archive.Data.WholeFile.{write_archive, Archived, archived}
use madder.Archive.Data.Validated.{validate-passes}
use mathlib.Core.List.{map}
use mathlib.Core.Path.{subst}

abbrev pub read_archive : Plugins → Option Codec → Bytes → Result (List DataEntryV1)
read_archive plugins encryption file = do
  opened ← new_data_reader_v1 file encryption
  read_all_entries plugins opened.0 opened.1

abbrev pub read_archive_at : Plugins → Option Codec → Bytes → ℕ → Result DataEntryV1
read_archive_at plugins encryption file offset = do
  opened ← new_data_reader_v1 file encryption
  found ← read_entry_at plugins opened.0 offset opened.1
  ok found.0

abbrev pub validate_archive : Digest → Option Codec → Bytes → Result (Unit {0})
validate_archive digest encryption file = do
  opened ← new_data_reader_v1 file encryption
  done ← validate digest opened.0 opened.1
  ok done.0

-- The entry of the i-th call, and its record.
AllHold-get_elem :
    (calls : List Call) (es : List DataEntryV1) (i : ℕ) {c : Call} {r : DataEntryV1}
    → AllHold calls es
    → get_elem? calls i ≡ some c
    → get_elem? (map recorded es) i ≡ some r
    → (e : DataEntryV1) × (get_elem? es i ≡ some e) × Holds c e × (r ≡ recorded e)
AllHold-get_elem [] es i held p q = absurd (cc)
AllHold-get_elem (c ∷ cs) [] i held p q = absurd held
AllHold-get_elem (c ∷ cs) (e ∷ es) zero {c = d} (held, all_held) p q =
    (e, refl, subst (λ x. Holds x e) (same p) held, cc)
  where
    same : some c ≡ some d → c ≡ d
    same x = cc
AllHold-get_elem (c ∷ cs) (e ∷ es) (suc i) (held, all_held) p q =
    AllHold-get_elem cs es i all_held p q

module _ (plugins : Plugins) (digest : Digest) (format ref : Bytes) (flags : ℕ)
    (encryption : Option Codec) (calls : List Call) (n : ℕ) (s s' : Sink) (checksum : Bytes)
    (entries : List DataEntryV1) (sized : hash_size_for_format format ≡ ok n)
    (lossless : AllLossless plugins encryption) (ranges : All (IsCall n) calls)
    (range : IsU16 (with_encryption_flag encryption flags)) (digest_sized : IsSized digest)
    (empty : s.written ≡ [])
    (h : write_archive plugins digest format ref flags encryption calls s
      ≡ ok ((checksum, entries), s'))
    (small : length s'.written < 2 ^ 63) where
  whole : Archived plugins digest format n encryption calls entries s'
  whole =
      archived plugins digest format ref flags encryption calls n s s' checksum entries sized
        lossless ranges range digest_sized empty h small

  -- An archive that is opened on an empty file, given a run of blobs and deltas, and closed is read by
  -- a new reader as one entry for each call, in the order of the calls, with the call's hash, type and
  -- contents; without the contents these are the entries that `Close` returned. This is so for codecs
  -- that decode what they encode, digests and hashes as long as the format says, sizes within Go's
  -- types, and a file shorter than 2^63 bytes.
  pub read_all_entries-write_archive :
      (es : List DataEntryV1) × (read_archive plugins encryption s'.written ≡ ok es)
      × AllHold calls es
      × (entries ≡ map recorded es)
  read_all_entries-write_archive = (
    whole.es,
    ap (λ r. r >>= λ opened. read_all_entries plugins opened.0 opened.1) whole.opens
        ∙ read_all_entries-Chain plugins whole.dr whole.head whole.bytes
            (whole.count ++ whole.checksum) whole.es whole.chain whole.start whole.end
            (omega (arith, ap (length {A = ℕ}) whole.written)) whole.cursor
            (whole.file ∙ whole.written),
    whole.held,
    whole.recorded_eq,
  )

  -- In an archive that was written to an empty file, the entry that `Close` reports for a call is read
  -- at the offset that it gives, with the hash, type and contents of the call, for codecs that decode
  -- what they encode, digests and hashes as long as the format says, sizes within Go's types, and a
  -- file shorter than 2^63 bytes.
  pub read_entry_at-write_archive :
      (i : ℕ) {c : Call} {r : DataEntryV1}
      → get_elem? calls i ≡ some c
      → get_elem? entries i ≡ some r
      → (e : DataEntryV1) × (read_archive_at plugins encryption s'.written r.offset ≡ ok e)
        × Holds c e
        × (r ≡ recorded e)
  read_entry_at-write_archive i {c} {r} p q =
      let (e, found, holds, same) =
        AllHold-get_elem calls whole.es i whole.held p
          (ap (λ l. get_elem? l i) (sym whole.recorded_eq) ∙ q) in
      let (c', read, kept) =
        read_entry_at-Chain plugins whole.dr whole.head whole.bytes (whole.count ++ whole.checksum)
          whole.es whole.chain whole.start whole.end
          (omega (arith, ap (length {A = ℕ}) whole.written)) whole.cursor i
          (whole.file ∙ whole.written) found in
      (
        e,
        ap
              (λ o. o >>= λ opened.
                read_entry_at plugins opened.0 r.offset opened.1 >>= λ found. ok found.0)
              whole.opens
            ∙ ap (λ off. read_entry_at plugins whole.dr off whole.cursor >>= λ found. ok found.0)
                (ap (λ (x : DataEntryV1). x.offset) same)
            ∙ ap (λ o. o >>= λ found. ok found.0) read,
        holds,
        same,
      )

  regroup : (a b c d : Bytes) → a ++ (b ++ (c ++ d)) ≡ ((a ++ b) ++ c) ++ d
  regroup a b c d = simp append_assoc

  -- An archive that was written to an empty file passes `Validate`, for codecs that decode what they
  -- encode, digests and hashes as long as the format says, sizes within Go's types, and a file shorter
  -- than 2^63 bytes.
  pub validate-write_archive : validate_archive digest encryption s'.written ≡ ok tt
  validate-write_archive =
      let (c', passed) =
        validate-passes digest whole.dr whole.cursor ((whole.head ++ whole.bytes) ++ whole.count)
          whole.checksum n
          (whole.file ∙ whole.written ∙ regroup whole.head whole.bytes whole.count whole.checksum)
          (ap hash_size_for_format whole.format_kept ∙ sized)
          (whole.checksum_length ∙ sym whole.size_kept)
          (omega (
            arith,
            length-append (whole.head ++ whole.bytes) whole.count,
            length-append whole.count whole.checksum,
            whole.end,
            whole.checksum_length,
            whole.size_kept,
          ))
          (omega (arith, ap (length {A = ℕ}) whole.file))
          (whole.checksum_eq
            ∙ ap (λ f. digest f ((whole.head ++ whole.bytes) ++ whole.count))
                (sym whole.format_kept)) in
      ap (λ o. o >>= λ opened. validate digest opened.0 opened.1 >>= λ done. ok done.0) whole.opens
      ∙ ap (λ o. o >>= λ done. ok done.0) passed
