-- ===== src/Archive/Index/Find.antt =====
-- The lookup that the binary search implements: the first entry with a hash, and where it can stand.
use madder.Common.{ℕ, zero, suc, ◌+◌, ◌≤◌, ◌<◌, ◌≡◌, refl, sym, ap, ◌∙◌, arith}
use madder.Common.{List, [], ◌∷◌, get_elem?, get_or, Option, some, none}
use madder.Common.{All, All-get, if◌then◌else◌, Bool-cases, inl, inr, ◌≢◌}
use madder.Common.Bytes.{Bytes, below, same, compare_bytes, equal_bytes, equal_bytes→eq}
use madder.Common.Bytes.{compare_bytes_refl, equal_bytes_refl}
use madder.Archive.Types.{IndexEntryV1}
use madder.Archive.Index.Order.{IsSorted, Precedes}
use madder.Archive.Index.FanOut.{first_of, count_le, counts_from}
use madder.Archive.Index.Decode.{head_eq}
use mathlib.Core.Path.{subst}

unfoldable pub find_entry : Bytes → List IndexEntryV1 → Option IndexEntryV1
find_entry hash [] = none
find_entry hash (e ∷ es) = if equal_bytes e.hash hash then some e else find_entry hash es

-- Every entry with this hash stands at an index from `lo` up to `hi`.
abbrev pub Within : List IndexEntryV1 → Bytes → ℕ → ℕ → Type 0
Within es hash lo hi =
    (i : ℕ) (e : IndexEntryV1) → get_elem? es i ≡ some e → e.hash ≡ hash → (lo ≤ i) × (i < hi)

pub IsSorted-get :
    (es : List IndexEntryV1) (i j : ℕ) {a b : IndexEntryV1}
    → IsSorted es
    → get_elem? es i ≡ some a
    → get_elem? es j ≡ some b
    → i < j
    → Precedes a b
IsSorted-get [] i j s p q h = absurd (cc)
IsSorted-get (x ∷ xs) i zero s p q h = absurd (omega arith)
IsSorted-get (x ∷ xs) zero (suc j) {b = b} (before, s) p q h =
    subst (λ y. Precedes y b) (head_eq p) (All-get (Precedes x) xs j before q)
IsSorted-get (x ∷ xs) (suc i) (suc j) (before, s) p q h = IsSorted-get xs i j s p q (omega arith)

Precedes-ne : (a b : IndexEntryV1) → Precedes a b → a.hash ≢ b.hash
Precedes-ne a b p e =
    below≢same (sym p ∙ ap (λ h. compare_bytes h b.hash) e ∙ compare_bytes_refl b.hash)
  where
    below≢same : below ≡ same → ⊥
    below≢same h = cc

pub find_entry-some :
    (hash : Bytes) (es : List IndexEntryV1) (i : ℕ) (e : IndexEntryV1)
    → IsSorted es
    → get_elem? es i ≡ some e
    → e.hash ≡ hash
    → find_entry hash es ≡ some e
unfolding find_entry
find_entry-some hash [] i e s p h = absurd (cc)
find_entry-some hash (x ∷ xs) zero e s p h = ground (arith, head_eq p, equal_bytes_refl hash)
find_entry-some hash (x ∷ xs) (suc i) e (before, s) p h =
    elim (Bool-cases (equal_bytes x.hash hash)) [
      | inl eq ↦ absurd (
          Precedes-ne x e (All-get (Precedes x) xs i before p)
            (equal_bytes→eq x.hash hash eq ∙ sym h))
      | inr ne ↦ rw (ne, if◌then◌else◌) (find_entry-some hash xs i e s p h)
    ]

pub find_entry-none :
    (hash : Bytes) (es : List IndexEntryV1)
    → ((i : ℕ) (e : IndexEntryV1) → get_elem? es i ≡ some e → e.hash ≢ hash)
    → find_entry hash es ≡ none
unfolding find_entry
find_entry-none hash [] h = refl
find_entry-none hash (x ∷ xs) h = elim (Bool-cases (equal_bytes x.hash hash)) [
  | inl eq ↦ absurd (h 0 x refl (equal_bytes→eq x.hash hash eq))
  | inr ne ↦ rw (ne, if◌then◌else◌) (find_entry-none hash xs (λ i e p. h (suc i) e p))
]

first_of-le : (xs ys : Bytes) → compare_bytes xs ys ≡ below → first_of xs ≤ first_of ys
unfolding compare_bytes
first_of-le [] ys h = omega arith
first_of-le (x ∷ xs) [] h = absurd (cc)
first_of-le (x ∷ xs) (y ∷ ys) h = ground arith

Precedes-first : (a b : IndexEntryV1) → Precedes a b → first_of a.hash ≤ first_of b.hash
Precedes-first a b h = first_of-le a.hash b.hash h

count_le-none :
    (j : ℕ) (a : IndexEntryV1) (es : List IndexEntryV1)
    → j < first_of a.hash
    → All (Precedes a) es
    → count_le j es ≡ 0
unfolding count_le
count_le-none j a [] h p = refl
count_le-none j a (e ∷ es) h (p, ps) =
    ground (arith, Precedes-first a e p, count_le-none j a es h ps)

-- Among sorted entries the count up to `j` parts those that begin with at most `j` from the others.
pub count_le-parts :
    (j : ℕ) (es : List IndexEntryV1) (i : ℕ) {e : IndexEntryV1}
    → IsSorted es
    → get_elem? es i ≡ some e
    → (first_of e.hash ≤ j → i < count_le j es) × (j < first_of e.hash → count_le j es ≤ i)
unfolding count_le
count_le-parts j [] i s p = absurd (cc)
count_le-parts j (x ∷ xs) zero (before, s) p = (
  (λ h. ground (arith, head_eq p)),
  λ h. ground (
    arith,
    head_eq p,
    count_le-none j x xs (omega (arith, ap (λ (y : IndexEntryV1). first_of y.hash) (head_eq p)))
        before,
  ),
)
count_le-parts j (x ∷ xs) (suc i) {e} (before, s) p =
    let (few, many) = count_le-parts j xs i s p in
    let smaller : first_of x.hash ≤ first_of e.hash =
      Precedes-first x e (All-get (Precedes x) xs i before p) in
    ((λ h. ground (arith, few h)), λ h. ground (arith, many h))

pub get_or-counts_from :
    (j n k : ℕ) (es : List IndexEntryV1)
    → k < n
    → get_or (counts_from j n es) k 0 ≡ count_le (j + k) es
unfolding counts_from
get_or-counts_from j zero k es h = absurd (omega arith)
get_or-counts_from j (suc n) zero es h = ap (λ t. count_le t es) (omega arith)
get_or-counts_from j (suc n) (suc k) es h =
    get_or-counts_from (suc j) n k es (omega arith) ∙ ap (λ t. count_le t es) (omega arith)
