-- ===== src/Archive/TestDigest.antt =====
-- A digest to run the archive code with: the sum of the bytes, repeated to the format's length.
use madder.Common.{All, ◌<◌, ℕ, zero, suc, ◌+◌, ◌%◌, ◌≡◌, refl, ap, ◌∙◌, [], ◌∷◌, length, replicate}
use madder.Common.Bytes.{Bytes, IsByte}
use madder.Archive.Types.{Result, ok, err, Digest, IsSized, hash_size_for_format}

unfoldable pub total : Bytes → ℕ
total [] = 0
total (b ∷ bs) = b + total bs

unfoldable pub digest_of : Result ℕ → Bytes → Bytes
digest_of (ok n) content = replicate n (total content % 256)
digest_of (err e) content = []

unfoldable pub sum_digest : Digest
unfolding digest_of
sum_digest format content = digest_of (hash_size_for_format format) content

length-replicate : (n b : ℕ) → length (replicate n b) ≡ n
length-replicate zero b = refl
length-replicate (suc n) b = ap suc (length-replicate n b)

pub sum_digest-IsSized : IsSized sum_digest
unfolding sum_digest
sum_digest-IsSized format content n h =
    ap (λ r. length (digest_of r content)) h ∙ length-replicate n _

pub replicate-IsByte : (n b : ℕ) → b < 256 → All IsByte (replicate n b)
replicate-IsByte zero b h = tt
replicate-IsByte (suc n) b h = (h, replicate-IsByte n b h)
