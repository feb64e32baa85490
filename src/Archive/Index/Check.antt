-- ===== src/Archive/Index/Check.antt =====
-- `validate` of an index file: the checksum at its end and the bytes before it.
use madder.Common.{
  Bool, List, ℕ, ◌+◌, ◌-◌, ◌^◌, ◌≤◌, ◌<◌, ◌≡◌, ◌↔◌, refl, sym, ap, ◌∙◌, arith, ◌++◌,
}
use madder.Common.{length, length-append, length-drop, take, drop, take_all, le→leb, lt→leb}
use madder.Common.{take-append, drop-append, if◌then◌else◌, true, false}
use madder.Common.Bytes.{Bytes, equal_bytes, equal_bytes_refl, equal_bytes→eq}
use madder.Archive.Types.{ok, guard, Digest, IsSized, hash_size_for_format}
use madder.Archive.Types.{checksum_mismatch, IndexEntryV1}
use madder.Archive.Index.Reader.{IndexReaderV1, read_at, validate}
use madder.Archive.Index.Written.{index_image, index_file}
use madder.Archive.Index.RoundTrip.{opened}

pub read_at_inside :
    (file : Bytes) (n off : ℕ)
    → off < 2 ^ 63
    → off + n ≤ length file
    → read_at file n off ≡ ok (take n (drop off file))
unfolding read_at
read_at_inside file n off small inside =
    rw (lt→leb (2 ^ 63) off small, le→leb (off + n) (length file) inside, if◌then◌else◌)

guard_passed : (b : Bool) → guard b checksum_mismatch ≡ ok tt → b ≡ true
guard_passed true h = refl
guard_passed false h = cc

pub guard_iff : (xs ys : Bytes) → (guard (equal_bytes xs ys) checksum_mismatch ≡ ok tt) ↔ (xs ≡ ys)
guard_iff xs ys = (
  (λ h. equal_bytes→eq xs ys (guard_passed (equal_bytes xs ys) h)),
  λ e. rw (e, equal_bytes_refl ys),
)

module _ (digest : Digest) (ir : IndexReaderV1)
    (sized : hash_size_for_format ir.hash_format_id ≡ ok ir.hash_size)
    (total : ir.total_size ≡ length ir.reader) (enough : ir.hash_size ≤ ir.total_size)
    (small : ir.total_size < 2 ^ 63) where
  validate-guard :
      validate digest ir
      ≡ guard
          (equal_bytes
            (digest ir.hash_format_id (take (ir.total_size - ir.hash_size) ir.reader))
            (take ir.hash_size (drop (ir.total_size - ir.hash_size) ir.reader)))
          checksum_mismatch
  unfolding validate
  validate-guard = rw (
    le→leb ir.hash_size ir.total_size enough,
    read_at_inside ir.reader ir.hash_size (ir.total_size - ir.hash_size) (omega arith)
        (omega arith),
    sized,
    read_at_inside ir.reader (ir.total_size - ir.hash_size) 0 (omega arith) (omega arith),
  )

  tail_whole :
      take ir.hash_size (drop (ir.total_size - ir.hash_size) ir.reader)
      ≡ drop (ir.total_size - ir.hash_size) ir.reader
  tail_whole =
      take_all ir.hash_size _ (omega (arith, length-drop (ir.total_size - ir.hash_size) ir.reader))

  -- An index file at least as long as a digest and shorter than 2^63 bytes passes `Validate` exactly
  -- when its last bytes are the digest of those before them.
  pub validate_iff : (validate digest ir ≡ ok tt) ↔ (
      digest ir.hash_format_id (take (ir.total_size - ir.hash_size) ir.reader)
      ≡ drop (ir.total_size - ir.hash_size) ir.reader)
  validate_iff = rw (validate-guard, tail_whole) (guard_iff _ _)

-- The cut of a file at its checksum gives back the image and the checksum.
pub sealed_cut :
    (image checksum : Bytes) (n : ℕ)
    → length checksum ≡ n
    → (take (length (image ++ checksum) - n) (image ++ checksum) ≡ image)
      × (drop (length (image ++ checksum) - n) (image ++ checksum) ≡ checksum)
sealed_cut image checksum n h = (take-append _ image checksum cut, drop-append _ image checksum cut)
  where
    cut : length image ≡ length (image ++ checksum) - n
    cut = omega (arith, length-append image checksum)

module _ (digest : Digest) (image : Bytes) (ir : IndexReaderV1) (honest : IsSized digest)
    (sized : hash_size_for_format ir.hash_format_id ≡ ok ir.hash_size)
    (same_file : ir.reader ≡ image ++ digest ir.hash_format_id image)
    (total : ir.total_size ≡ length ir.reader) (small : ir.total_size < 2 ^ 63) where
  validate-sealed : validate digest ir ≡ ok tt
  validate-sealed =
      (validate_iff digest ir sized total
          (rw (total, same_file) (omega (arith, length-append image checksum, checksum_length)))
          small).1
        (rw (total, same_file) (ap (digest ir.hash_format_id) cut.0 ∙ sym cut.1))
    where
      checksum : Bytes
      checksum = digest ir.hash_format_id image

      checksum_length : length checksum ≡ ir.hash_size
      checksum_length = honest ir.hash_format_id image ir.hash_size sized

      cut :
          (take (length (image ++ checksum) - ir.hash_size) (image ++ checksum) ≡ image)
          × (drop (length (image ++ checksum) - ir.hash_size) (image ++ checksum) ≡ checksum)
      cut = sealed_cut image checksum ir.hash_size checksum_length

-- The file that the writer wrote passes.
pub validate-opened :
    (digest : Digest) (format : Bytes) (n : ℕ) (es : List IndexEntryV1)
    → IsSized digest
    → hash_size_for_format format ≡ ok n
    → length (index_file digest format es) < 2 ^ 63
    → validate digest (opened digest format n es) ≡ ok tt
unfolding opened index_file
validate-opened digest format n es honest sized small =
    validate-sealed digest (index_image format es) (opened digest format n es) honest sized refl
      refl small
