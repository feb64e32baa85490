-- ===== src/Packing/ChunkLaws.antt =====
-- The chunks of gear_hash.go, joined and measured.
use madder.Common.{join, ℕ, ◌+◌, ◌-◌, ◌≤◌, ◌<◌, ◌≡◌, refl, sym, ap, ◌∙◌, arith, List, [], ◌∷◌, ◌++◌}
use madder.Common.{Bool, true, false, if◌then◌else◌, length, length-append, append_assoc}
use madder.Common.{◌==◌, le→leb, lt→leb, le→ltb, lt→ltb}
use madder.Common.Bytes.{Bytes}
use madder.Packing.Chunks.{chunks_from, gear_cdc_chunks, next_power_of_two}
use mathlib.Core.Path.{subst}
use madder.Common.{◌*◌, ◌%◌, ◌^◌, get_or, ◌⊎◌, inl, inr}
use madder.Packing.Chunks.{gear_table}
use Prim.Native.Nat.{bit_and}
use native.Mathlib.Decide.{dec_lt, dec_le}

-- Every chunk is within the bounds, but that the last may be short of the lower one.
abbrev pub WithinBounds : ℕ → ℕ → List Bytes → Type 0
WithinBounds low high [] = Unit
WithinBounds low high (c ∷ []) = (0 < length c) × (length c ≤ high)
WithinBounds low high (c ∷ d ∷ ds) =
    (low ≤ length c) × (0 < length c) × (length c ≤ high) × WithinBounds low high (d ∷ ds)

module _ (low high mask : ℕ) where
  -- One byte of the loop: it lengthens the chunk, or ends it.
  module _ (b : ℕ) (bs chunk : Bytes) (fp : ℕ) where
    IsLonger : Type 0
    IsLonger =
        (chunks_from low high mask (b ∷ bs) chunk fp
          ≡ chunks_from low high mask bs (chunk ++ (b ∷ []))
              ((fp * 2 + get_or gear_table b 0) % 2 ^ 64))
        × (low ≤ high → length (chunk ++ (b ∷ [])) < high)

    IsCut : Type 0
    IsCut =
        (chunks_from low high mask (b ∷ bs) chunk fp
          ≡ (chunk ++ (b ∷ [])) ∷ chunks_from low high mask bs [] 0)
        × (low ≤ length (chunk ++ (b ∷ [])))

    step_cases : IsLonger ⊎ IsCut
    unfolding IsLonger IsCut chunks_from
    step_cases = elim (dec_lt (length (chunk ++ (b ∷ []))) low) [
      | yes short ↦ inl (
        rw (chunks_from, lt→ltb (length (chunk ++ (b ∷ []))) low short, if◌then◌else◌),
        λ order. omega arith,
      )
      | no long ↦ elim (dec_le high (length (chunk ++ (b ∷ [])))) [
        | yes full ↦ inr (
          rw (
            chunks_from,
            le→ltb (length (chunk ++ (b ∷ []))) low (omega arith),
            le→leb high (length (chunk ++ (b ∷ []))) full,
            if◌then◌else◌,
          ),
          omega arith,
        )
        | no room ↦
            at_mask (omega arith) (omega arith)
              (bit_and ((fp * 2 + get_or gear_table b 0) % 2 ^ 64) mask == 0) refl
      ]
    ]
      where
        at_mask :
            low ≤ length (chunk ++ (b ∷ []))
            → length (chunk ++ (b ∷ [])) < high
            → (q : Bool) → (bit_and ((fp * 2 + get_or gear_table b 0) % 2 ^ 64) mask == 0) ≡ q
            → IsLonger ⊎ IsCut
        at_mask long room true e = inr (
          rw (
            chunks_from,
            le→ltb (length (chunk ++ (b ∷ []))) low long,
            lt→leb high (length (chunk ++ (b ∷ []))) room,
            e,
            if◌then◌else◌,
          ),
          long,
        )
        at_mask long room false e = inl (
          rw (
            chunks_from,
            le→ltb (length (chunk ++ (b ∷ []))) low long,
            lt→leb high (length (chunk ++ (b ∷ []))) room,
            e,
            if◌then◌else◌,
          ),
          λ order. room,
        )

  chunks_from-join :
      (bs chunk : Bytes) (fp : ℕ) → join (chunks_from low high mask bs chunk fp) ≡ chunk ++ bs
  unfolding chunks_from IsLonger IsCut
  chunks_from-join [] [] fp = refl
  chunks_from-join [] (c ∷ cs) fp = refl
  chunks_from-join (b ∷ bs) chunk fp = elim (step_cases b bs chunk fp) [
    | inl (longer, _) ↦
        ap join longer ∙ chunks_from-join bs (chunk ++ (b ∷ [])) _ ∙ append_assoc chunk (b ∷ []) bs
    | inr (ends, _) ↦
        ap join ends
        ∙ ap (λ l. (chunk ++ (b ∷ [])) ++ l) (chunks_from-join bs [] 0)
        ∙ append_assoc chunk (b ∷ []) bs
  ]

  WithinBounds-cons :
      (c : Bytes) (cs : List Bytes)
      → low ≤ length c
      → 0 < length c
      → length c ≤ high
      → WithinBounds low high cs
      → WithinBounds low high (c ∷ cs)
  WithinBounds-cons c [] a p q rest = (p, q)
  WithinBounds-cons c (d ∷ ds) a p q rest = (a, p, q, rest)

  chunks_from-WithinBounds :
      (bs chunk : Bytes) (fp : ℕ)
      → length chunk < high
      → low ≤ high
      → WithinBounds low high (chunks_from low high mask bs chunk fp)
  unfolding chunks_from IsLonger IsCut
  chunks_from-WithinBounds [] [] fp short order = tt
  chunks_from-WithinBounds [] (c ∷ cs) fp short order = (omega arith, omega arith)
  chunks_from-WithinBounds (b ∷ bs) chunk fp short order = elim (step_cases b bs chunk fp) [
    | inl (longer, room) ↦
        subst (WithinBounds low high) (sym longer)
          (chunks_from-WithinBounds bs (chunk ++ (b ∷ [])) _ (room order) order)
    | inr (ends, long) ↦ subst (WithinBounds low high) (sym ends) (
        WithinBounds-cons (chunk ++ (b ∷ [])) _ long (omega (arith, length-append chunk (b ∷ [])))
          (omega (arith, length-append chunk (b ∷ [])))
          (chunks_from-WithinBounds bs [] 0 (omega arith) order))
  ]

-- The chunks of a blob, one behind the other, are the blob.
pub join-gear_cdc_chunks :
    (blob : Bytes) (low high avg : ℕ) → join (gear_cdc_chunks blob low high avg) ≡ blob
unfolding gear_cdc_chunks
join-gear_cdc_chunks [] low high avg = refl
join-gear_cdc_chunks (b ∷ bs) low high avg =
    chunks_from-join low high (next_power_of_two avg - 1) (b ∷ bs) [] 0

-- Chunks are not empty and not longer than the maximum, and only the last may be shorter than the
-- minimum, for a positive maximum that is no smaller than the minimum.
pub gear_cdc_chunks-WithinBounds :
    (blob : Bytes) (low high avg : ℕ)
    → low ≤ high
    → 0 < high
    → WithinBounds low high (gear_cdc_chunks blob low high avg)
unfolding gear_cdc_chunks
gear_cdc_chunks-WithinBounds [] low high avg order some_room = tt
gear_cdc_chunks-WithinBounds (b ∷ bs) low high avg order some_room =
    chunks_from-WithinBounds low high (next_power_of_two avg - 1) (b ∷ bs) [] 0 some_room order
