-- ===== src/Archive/Sealed.antt =====
-- A file that ends with the checksum of what stands before it, as WriteIndexV1 and WriteCacheV1
-- make it.
use madder.Common.{◌+◌, ◌-◌, ◌≡◌, ◌∙◌, arith, ◌++◌, append_assoc, length, length-append}
use madder.Common.{Bool, true, false, leb, le→leb, lt→leb, if◌then◌else◌}
use madder.Common.Bytes.{Bytes}
use madder.Archive.Types.{Result, ok, err, Error, Digest, write_failed}
use madder.Archive.Stream.{Write, Sink, ◌>>=◌, ◌>>◌, pure, write, write_unhashed, pushed}
use madder.Archive.Stream.{write_fits, write_full, write_unhashed_fits, write_unhashed_full}
use madder.Archive.Stream.{bind_ok, bind_err}
use madder.Archive.Index.Writer.{sum, fresh_hasher}
use native.Mathlib.Decide.{dec_le}

-- hasher.Sum and the write of the checksum
abbrev pub seal : Digest → Bytes → Write Bytes
seal digest format = do checksum ← sum digest format; write_unhashed checksum; pure checksum

unfoldable pub sealed_file : Digest → Bytes → Bytes → Bytes
sealed_file digest format image = image ++ digest format image

-- What a write of `image` followed by the checksum comes to.
unfoldable pub sealed : Digest → Bytes → Bytes → Sink → Result (Bytes × Sink)
sealed digest format image s =
    if leb (length (sealed_file digest format image)) s.room
    then ok (
      digest format image,
      record {
        written = s.written ++ sealed_file digest format image;
        hashed = image;
        room = s.room - length (sealed_file digest format image);
      },
    )
    else err write_failed

module _ (digest : Digest) (format image : Bytes) (s : Sink) where
  whole : length (sealed_file digest format image) ≡ length image + length (digest format image)
  unfolding sealed_file
  whole = length-append image (digest format image)

  joined :
      (s.written ++ image) ++ digest format image ≡ s.written ++ sealed_file digest format image
  unfolding sealed_file
  joined = append_assoc s.written image (digest format image)

  left :
      s.room - length image - length (digest format image)
      ≡ s.room - length (sealed_file digest format image)
  left = omega (arith, whole)

  pub seal-sealed :
      (write image >> seal digest format) (fresh_hasher s) ≡ sealed digest format image s
  unfolding sealed sum
  seal-sealed = elim (dec_le (length image) s.room) [
    | no full ↦
        bind_err (write image) (λ _. seal digest format) (fresh_hasher s)
          (write_full image (fresh_hasher s) (omega arith))
        ∙ rw (
          lt→leb (length (sealed_file digest format image)) s.room (omega (arith, whole)),
          if◌then◌else◌,
        )
    | yes fits ↦
        bind_ok (write image) (λ _. seal digest format) (fresh_hasher s)
          (write_fits image (fresh_hasher s) fits)
        ∙ elim (dec_le (length (digest format image)) (s.room - length image)) [
          | no full ↦
              bind_err (write_unhashed (digest format image)) (λ _. pure (digest format image))
                (pushed image (fresh_hasher s))
                (write_unhashed_full (digest format image) (pushed image (fresh_hasher s))
                  (omega arith))
              ∙ rw (
                lt→leb (length (sealed_file digest format image)) s.room (omega (arith, whole)),
                if◌then◌else◌,
              )
          | yes more ↦
              bind_ok (write_unhashed (digest format image)) (λ _. pure (digest format image))
                (pushed image (fresh_hasher s))
                (write_unhashed_fits (digest format image) (pushed image (fresh_hasher s)) more)
              ∙ rw
                  (
                    le→leb (length (sealed_file digest format image)) s.room (omega (arith, whole)),
                    if◌then◌else◌,
                  )
                  (cc (joined, left))
        ]
  ]

pub ne_err : {e : Error} {r : Bytes × Sink} → err e ≡ ok r → ⊥
ne_err h = cc

-- What a successful write left, from the form of its outcome.
pub outcome_sink :
    (b : Bool) (c checksum : Bytes) (t s' : Sink)
    → if◌then◌else◌ {A = Result (Bytes × Sink)} b (ok (c, t)) (err write_failed) ≡ ok (checksum, s')
    → s' ≡ t
outcome_sink true c checksum t s' h = cc
outcome_sink false c checksum t s' h = absurd (ne_err h)
