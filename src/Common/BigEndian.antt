-- ===== src/Common/BigEndian.antt =====
-- Unsigned words of `k` bytes, highest byte first: Go's `binary.BigEndian`.
use Prim.Native.Nat.{ℕ, zero, suc, ◌+◌, ◌*◌, ◌/◌, ◌%◌, ◌^◌, ◌<◌}
use mathlib.Core.Path.{◌≡◌, refl, ◌∙◌}
use mathlib.Core.List.{[], ◌∷◌, ◌++◌}
use native.Mathlib.Omega.{arith}
use native.Mathlib.Nat.{pow-suc}
use madder.Common.Lists.{length, length-append}
use madder.Common.Bytes.{Bytes}

unfoldable pub word_bytes : ℕ → ℕ → Bytes
word_bytes zero v = []
word_bytes (suc k) v = word_bytes k (v / 256) ++ (v % 256 ∷ [])

word_from : ℕ → Bytes → ℕ
word_from acc [] = acc
word_from acc (b ∷ bs) = word_from (acc * 256 + b) bs

unfoldable pub bytes_word : Bytes → ℕ
unfolding word_from
bytes_word bs = word_from 0 bs

word_from-append :
    (acc : ℕ) (bs : Bytes) (b : ℕ) → word_from acc (bs ++ (b ∷ [])) ≡ word_from acc bs * 256 + b
unfolding word_from
word_from-append acc [] b = refl
word_from-append acc (c ∷ bs) b = word_from-append (acc * 256 + c) bs b

pub length-word_bytes : (k v : ℕ) → length (word_bytes k v) ≡ k
unfolding word_bytes
length-word_bytes zero v = refl
length-word_bytes (suc k) v =
    length-append (word_bytes k (v / 256)) (v % 256 ∷ [])
    ∙ omega (arith, length-word_bytes k (v / 256))

pub bytes_word-word_bytes : (k v : ℕ) → v < 256 ^ k → bytes_word (word_bytes k v) ≡ v
unfolding bytes_word word_bytes
bytes_word-word_bytes zero v h = omega arith
bytes_word-word_bytes (suc k) v h =
    word_from-append 0 (word_bytes k (v / 256)) (v % 256)
    ∙ omega (arith, bytes_word-word_bytes k (v / 256) (omega (arith, pow-suc 256 k)))
