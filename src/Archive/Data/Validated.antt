-- ===== src/Archive/Data/Validated.antt =====
-- `Validate` of an archive file whose last bytes are known.
use madder.Common.{ℕ, ◌+◌, ◌-◌, ◌^◌, ◌≤◌, ◌<◌, ◌≡◌, refl, sym, ap, ◌∙◌, arith, ◌++◌, length}
use madder.Common.{
  length-append, drop, drop-append, lt→leb, le→leb, if◌then◌else◌, append-nil, leb, [],
}
use madder.Common.Bytes.{Bytes, equal_bytes, equal_bytes_refl}
use madder.Archive.Types.{ok, guard, Digest, hash_size_for_format}
use madder.Archive.Types.{too_small, checksum_mismatch}
use madder.Archive.Data.Cursor.{Cursor, Read, seek, seek_end, ◌>>=◌, lift}
use madder.Archive.Data.Reader.{DataReaderV1, validate}
use madder.Archive.Data.Steps.{moved, reading-then, lift-then}

seek-then :
    {B : Type 0} (c : Cursor) (front back : Bytes) (off : ℕ) (f : Unit {0} → Read B)
    → c.file ≡ front ++ back
    → length front ≡ off
    → off < 2 ^ 63
    → (seek off >>= f) c ≡ f tt (record { file = c.file; pos = off; rest = back })
unfolding seek
seek-then c front back off f e h s =
    rw (lt→leb (2 ^ 63) off s, if◌then◌else◌)
      (ap (λ b. f tt (record { file = c.file; pos = off; rest = b }))
        (ap (drop off) e ∙ drop-append off front back h))

module _ (digest : Digest) (dr : DataReaderV1) (c : Cursor) (front checksum : Bytes) (n : ℕ)
    (split : c.file ≡ front ++ checksum) (sized : hash_size_for_format dr.hash_format_id ≡ ok n)
    (whole : length checksum ≡ dr.hash_size) (enough : 8 ≤ length front)
    (small : length c.file < 2 ^ 63) (right : checksum ≡ digest dr.hash_format_id front) where
  total : length c.file ≡ length front + dr.hash_size
  total = ap (length {A = ℕ}) split ∙ length-append front checksum ∙ omega (arith, whole)

  front_end : length front ≡ length c.file - dr.hash_size
  front_end = omega (arith, total)

  large : guard (leb (8 + dr.hash_size) (length c.file)) too_small ≡ ok tt
  large = rw (le→leb (8 + dr.hash_size) (length c.file) (omega (arith, total)))

  same_digest :
      guard (equal_bytes (digest dr.hash_format_id front) checksum) checksum_mismatch ≡ ok tt
  same_digest = rw (sym right, equal_bytes_refl checksum)

  pub validate-passes : (c' : Cursor) × (validate digest dr c ≡ ok (tt, c'))
  unfolding validate seek_end
  validate-passes = (
    _,
    lift-then _ _ _ large
        ∙ seek-then _ front checksum (length c.file - dr.hash_size) _ split front_end
            (omega (arith, total))
        ∙ reading-then _ dr.hash_size checksum [] (sym (append-nil checksum)) whole _
        ∙ lift-then _ _ _ sized
        ∙ seek-then _ [] (front ++ checksum) 0 _ split refl (omega arith)
        ∙ reading-then _ (length c.file - dr.hash_size) front checksum refl front_end _
        ∙ ap
            (λ r. lift r (
              moved (record { file = c.file; pos = 0; rest = front ++ checksum })
                (length c.file - dr.hash_size) checksum))
            same_digest,
  )
