-- ===== src/ArchiveStore/Split.antt =====
-- splitBlobChunks of pack_v0.go: the blobs of one Pack, cut into archives.
use madder.Common.{ℕ, suc, ◌+◌, ◌%◌, ◌^◌, ◌≤◌, ◌<◌, ◌≡◌, refl, ap, ◌∙◌, arith, List, []}
use madder.Common.{
  join, lt→ltb, ◌∷◌, ◌++◌, append-nil, append_assoc, length, length-append, All, ltb, ◌==◌,
}
use madder.Common.{Bool, true, false, ◌&&◌, if◌then◌else◌, ◌⊎◌, inl, inr, ltb→lt, ne→==, ◌≢◌}
use madder.ArchiveStore.Types.{PackedBlobMeta}
use native.Mathlib.Nat.{mod-eq_of_lt}

-- The loop, with `current` and `currentSize`.
unfoldable pub split_from :
    ℕ → List PackedBlobMeta → ℕ → List PackedBlobMeta → List (List PackedBlobMeta)
split_from max_pack_size current current_size [] =
    if ltb 0 (length current) then current ∷ [] else []
split_from max_pack_size current current_size (blob ∷ blobs) =
    let grown = (current_size + blob.size) % 2 ^ 64 in
    let cut = split_from max_pack_size (blob ∷ []) blob.size blobs in
    let uncut = split_from max_pack_size (current ++ (blob ∷ [])) grown blobs in
    if ltb 0 (length current) && ltb max_pack_size grown then current ∷ cut else uncut

unfoldable pub split_blob_chunks : List PackedBlobMeta → ℕ → List (List PackedBlobMeta)
split_blob_chunks metas max_pack_size =
    if length metas == 0
    then []
    else if max_pack_size == 0
    then metas ∷ []
    else split_from max_pack_size [] 0 metas

unfoldable pub total_size : List PackedBlobMeta → ℕ
total_size [] = 0
total_size (blob ∷ blobs) = blob.size + total_size blobs

total_size-append :
    (xs ys : List PackedBlobMeta) → total_size (xs ++ ys) ≡ total_size xs + total_size ys
unfolding total_size
total_size-append [] ys = omega arith
total_size-append (x ∷ xs) ys = omega (arith, total_size-append xs ys)

join-split_from :
    (max_pack_size : ℕ) (current : List PackedBlobMeta) (size : ℕ) (metas : List PackedBlobMeta)
    → join (split_from max_pack_size current size metas) ≡ current ++ metas
unfolding split_from
join-split_from m [] size [] = refl
join-split_from m (c ∷ cs) size [] = rw (lt→ltb 0 (suc (length cs)) (omega arith), if◌then◌else◌)
join-split_from m current size (b ∷ bs) =
    let grown = (size + b.size) % 2 ^ 64 in
    go (ltb 0 (length current) && ltb m grown) (join-split_from m (b ∷ []) b.size bs)
      (join-split_from m (current ++ (b ∷ [])) grown bs)
  where
    go :
        (q : Bool)
        → join (split_from m (b ∷ []) b.size bs) ≡ b ∷ bs
        → join (split_from m (current ++ (b ∷ [])) ((size + b.size) % 2 ^ 64) bs)
          ≡ (current ++ (b ∷ [])) ++ bs
        → join (
            if q
            then current ∷ split_from m (b ∷ []) b.size bs
            else split_from m (current ++ (b ∷ [])) ((size + b.size) % 2 ^ 64) bs)
          ≡ current ++ (b ∷ bs)
    go true cut uncut = ap (λ l. current ++ l) cut
    go false cut uncut = uncut ∙ append_assoc current (b ∷ []) bs

not_empty : (b : PackedBlobMeta) (bs : List PackedBlobMeta) → (length (b ∷ bs) == 0) ≡ false
not_empty b bs = ne→== (length (b ∷ bs)) 0 apart
  where
    apart : length (b ∷ bs) ≢ 0
    apart e = omega arith

-- The chunks are the blobs, in their order: none is left out, repeated or moved.
pub join-split_blob_chunks :
    (metas : List PackedBlobMeta) (max_pack_size : ℕ)
    → join (split_blob_chunks metas max_pack_size) ≡ metas
unfolding split_blob_chunks
join-split_blob_chunks [] m = refl
join-split_blob_chunks (b ∷ bs) m =
    rw (not_empty b bs, if◌then◌else◌) (go (m == 0) (join-split_from m [] 0 (b ∷ bs)))
  where
    go :
        (q : Bool)
        → join (split_from m [] 0 (b ∷ bs)) ≡ b ∷ bs
        → join (if q then (b ∷ bs) ∷ [] else split_from m [] 0 (b ∷ bs)) ≡ b ∷ bs
    go true h = append-nil (b ∷ bs)
    go false h = h

-- A chunk that has blobs, and more than one only within the limit.
abbrev pub Fits : ℕ → List PackedBlobMeta → Type 0
Fits m chunk = (0 < length chunk) × ((length chunk ≡ 1) ⊎ (total_size chunk ≤ m))

-- What the loop keeps of `current`.
abbrev Current : ℕ → List PackedBlobMeta → ℕ → Type 0
Current m current size = (size ≡ total_size current) × ((current ≡ []) ⊎ Fits m current)

fits_alone : (m : ℕ) (b : PackedBlobMeta) → Current m (b ∷ []) b.size
unfolding total_size
fits_alone m b = (omega arith, inr (omega arith, inl refl))

fits_grown :
    (m : ℕ) (current : List PackedBlobMeta) (size : ℕ) (b : PackedBlobMeta)
    → size ≡ total_size current
    → total_size current + b.size < 2 ^ 64
    → (length current ≡ 0) ⊎ ((size + b.size) % 2 ^ 64 ≤ m)
    → Current m (current ++ (b ∷ [])) ((size + b.size) % 2 ^ 64)
unfolding total_size
fits_grown m current size b same small within =
    let whole : (size + b.size) % 2 ^ 64 ≡ total_size (current ++ (b ∷ [])) =
      mod-eq_of_lt (omega arith) ∙ omega (arith, total_size-append current (b ∷ [])) in
    (
      whole,
      inr (
        omega (arith, length-append current (b ∷ [])),
        elim within [
          | inl none ↦ inl (omega (arith, length-append current (b ∷ [])))
          | inr fits ↦ inr (omega (arith, whole))
        ],
      ),
    )

split_from-Fits :
    (m : ℕ) (current : List PackedBlobMeta) (size : ℕ) (metas : List PackedBlobMeta)
    → total_size current + total_size metas < 2 ^ 64
    → Current m current size
    → All (Fits m) (split_from m current size metas)
unfolding split_from total_size
split_from-Fits m [] size [] small (same, fits) = tt
split_from-Fits m (c ∷ cs) size [] small (same, inl none) = absurd (cc)
split_from-Fits m (c ∷ cs) size [] small (same, inr fits) =
    rw (lt→ltb 0 (suc (length cs)) (omega arith), if◌then◌else◌) (fits, tt)
split_from-Fits m current size (b ∷ bs) small (same, fits) =
    let grown = (size + b.size) % 2 ^ 64 in
    go (ltb 0 (length current)) (ltb m grown) refl refl
      (split_from-Fits m (b ∷ []) b.size bs (omega arith) (fits_alone m b))
      (λ within.
        split_from-Fits m (current ++ (b ∷ [])) grown bs
          (omega (arith, total_size-append current (b ∷ [])))
          (fits_grown m current size b same (omega arith) within))
  where
    nonempty : ltb 0 (length current) ≡ true → (current ≡ []) ⊎ Fits m current → Fits m current
    nonempty h (inl none) =
        absurd (omega (arith, ltb→lt 0 (length current) h, ap (length {A = PackedBlobMeta}) none))
    nonempty h (inr f) = f

    empty : ltb 0 (length current) ≡ false → length current ≡ 0
    empty h = ground arith

    within_limit : (g : ℕ) → ltb m g ≡ false → g ≤ m
    within_limit g h = ground arith

    go :
        (p q : Bool)
        → ltb 0 (length current) ≡ p
        → ltb m ((size + b.size) % 2 ^ 64) ≡ q
        → All (Fits m) (split_from m (b ∷ []) b.size bs)
        → ((length current ≡ 0) ⊎ ((size + b.size) % 2 ^ 64 ≤ m)
            → All (Fits m) (split_from m (current ++ (b ∷ [])) ((size + b.size) % 2 ^ 64) bs))
        → All (Fits m) (
            if p && q
            then current ∷ split_from m (b ∷ []) b.size bs
            else split_from m (current ++ (b ∷ [])) ((size + b.size) % 2 ^ 64) bs)
    go true true h k cut uncut = (nonempty h fits, cut)
    go true false h k cut uncut = uncut (inr (within_limit ((size + b.size) % 2 ^ 64) k))
    go false q h k cut uncut = uncut (inl (empty h))

-- For a limit that is not 0 and blobs whose sizes sum to less than 2^64, each chunk has a blob, and its
-- sizes sum to at most the limit unless it has just one.
pub split_blob_chunks-Fits :
    (metas : List PackedBlobMeta) (max_pack_size : ℕ)
    → 0 < max_pack_size
    → total_size metas < 2 ^ 64
    → All (Fits max_pack_size) (split_blob_chunks metas max_pack_size)
unfolding split_blob_chunks total_size
split_blob_chunks-Fits [] m limit small = tt
split_blob_chunks-Fits (b ∷ bs) m limit small =
    rw (not_empty b bs, if◌then◌else◌, ne→== m 0 (apart limit))
      (split_from-Fits m [] 0 (b ∷ bs) (omega arith) (refl, inl refl))
  where
    apart : 0 < m → m ≢ 0
    apart h e = omega arith
