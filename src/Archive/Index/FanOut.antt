-- ===== src/Archive/Index/FanOut.antt =====
-- The fan-out table of index_v1.go and the first bytes of the hashes.
use madder.Common.{ℕ, zero, suc, ◌+◌, ◌^◌, ◌≤◌, ◌<◌, ◌≡◌, refl, sym, ap, ◌∙◌, arith}
use madder.Common.{List, [], ◌∷◌, ◌++◌, append-nil, append_assoc, length, length-append, replicate}
use madder.Common.{All, leb, if◌then◌else◌, get_or}
use madder.Common.Bytes.{Bytes}
use madder.Archive.Types.{ok, IndexEntryV1}
use madder.Archive.Index.Writer.{bump, first_byte, count_fan_out}

-- The first byte of a hash, for a hash that has one.
abbrev pub first_of : Bytes → ℕ
first_of hash = get_or hash 0 0

-- How many entries begin with a byte at most `j`.
unfoldable pub count_le : ℕ → List IndexEntryV1 → ℕ
count_le j [] = 0
count_le j (e ∷ es) = (if leb (first_of e.hash) j then 1 else 0) + count_le j es

-- The counts for the `n` bytes from `j` on.
unfoldable pub counts_from : ℕ → ℕ → List IndexEntryV1 → List ℕ
counts_from j zero es = []
counts_from j (suc n) es = count_le j es ∷ counts_from (suc j) n es

-- A hash as the index takes them: not empty, and of bytes.
abbrev pub HasFirst : IndexEntryV1 → Type 0
HasFirst e = (0 < length e.hash) × (first_of e.hash < 256)

pub count_le-le-length : (j : ℕ) (es : List IndexEntryV1) → count_le j es ≤ length es
unfolding count_le
count_le-le-length j [] = omega arith
count_le-le-length j (e ∷ es) = ground (arith, count_le-le-length j es)

count_le-append :
    (j : ℕ) (done : List IndexEntryV1) (e : IndexEntryV1)
    → count_le j (done ++ (e ∷ [])) ≡ count_le j done + (if leb (first_of e.hash) j then 1 else 0)
unfolding count_le
count_le-append j [] e = omega arith
count_le-append j (d ∷ done) e = omega (arith, count_le-append j done e)

bump_from_first :
    (j n : ℕ) (done : List IndexEntryV1) (e : IndexEntryV1)
    → first_of e.hash ≤ j
    → length done + 1 < 2 ^ 64
    → bump zero (counts_from j n done) ≡ counts_from j n (done ++ (e ∷ []))
unfolding bump counts_from
bump_from_first j zero done e h room = refl
bump_from_first j (suc n) done e h room = ground (
  arith,
  count_le-append j done e,
  count_le-le-length j done,
  bump_from_first (suc j) n done e (omega arith) room,
)

bump-counts_from :
    (j k n : ℕ) (done : List IndexEntryV1) (e : IndexEntryV1)
    → first_of e.hash ≡ j + k
    → length done + 1 < 2 ^ 64
    → bump k (counts_from j n done) ≡ counts_from j n (done ++ (e ∷ []))
unfolding bump counts_from
bump-counts_from j zero n done e h room = bump_from_first j n done e (omega arith) room
bump-counts_from j (suc k) zero done e h room = refl
bump-counts_from j (suc k) (suc n) done e h room =
    ground (arith, count_le-append j done e, bump-counts_from (suc j) k n done e (omega arith) room)

pub first_byte-first_of : (hash : Bytes) → 0 < length hash → first_byte hash ≡ ok (first_of hash)
unfolding first_byte
first_byte-first_of [] h = absurd (omega arith)
first_byte-first_of (b ∷ bs) h = refl

count_fan_out-append :
    (done es : List IndexEntryV1)
    → All HasFirst es
    → length done + length es < 2 ^ 64
    → count_fan_out (counts_from 0 256 done) es ≡ ok (counts_from 0 256 (done ++ es))
unfolding count_fan_out
count_fan_out-append done [] h room = ap (λ l. ok (counts_from 0 256 l)) (sym (append-nil done))
count_fan_out-append done (e ∷ es) (h, hs) room =
    rw (first_byte-first_of e.hash h.0, count_fan_out)
      (ap (λ t. count_fan_out t es)
          (bump-counts_from 0 (first_of e.hash) 256 done e (omega arith) (omega arith))
        ∙ count_fan_out-append (done ++ (e ∷ [])) es hs (omega (arith, length-append done (e ∷ [])))
        ∙ ap (λ l. ok (counts_from 0 256 l)) (append_assoc done (e ∷ []) es))

replicate-counts_from : (j n : ℕ) → replicate n 0 ≡ counts_from j n []
unfolding counts_from count_le
replicate-counts_from j zero = refl
replicate-counts_from j (suc n) = ap (λ l. 0 ∷ l) (replicate-counts_from (suc j) n)

-- Counting into a table of 256 zeros gives, for each byte, how many of the hashes begin with that byte
-- or a smaller one. The hashes are not empty, and there are fewer of them than 2^64.
pub count_fan_out-counts :
    (es : List IndexEntryV1)
    → All HasFirst es
    → length es < 2 ^ 64
    → count_fan_out (replicate 256 0) es ≡ ok (counts_from 0 256 es)
count_fan_out-counts es h room =
    ap (λ t. count_fan_out t es) (replicate-counts_from 0 256)
    ∙ count_fan_out-append [] es h (omega arith)
