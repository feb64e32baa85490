-- ===== src/Multi/Ids.antt =====
-- The order of compareMarklIds.
use madder.Common.{◌≡◌, refl, sym, ap, ◌∙◌, ◌⊎◌, inl, inr}
use madder.Common.Bytes.{Order, below, same, above, compare_bytes, compare_bytes-same}
use madder.Common.Bytes.{compare_bytes_refl, compare_bytes_trans, compare_bytes-flip}
use madder.Multi.Merge.{MarklId, compare_markl_ids}

abbrev pub Less : MarklId → MarklId → Type 0
Less a b = compare_markl_ids a b ≡ below

-- What the order of two ids says of their parts.
Less-cases :
    (a b : MarklId)
    → Less a b
    → (compare_bytes a.format b.format ≡ below)
      ⊎ ((a.format ≡ b.format) × (compare_bytes a.bytes b.bytes ≡ below))
unfolding compare_markl_ids
Less-cases a b h = go (compare_bytes a.format b.format) refl h
  where
    go :
        (o : Order)
        → compare_bytes a.format b.format ≡ o
        → elim o [ same ↦ compare_bytes a.bytes b.bytes | below ↦ below | above ↦ above ] ≡ below
        → (compare_bytes a.format b.format ≡ below)
          ⊎ ((a.format ≡ b.format) × (compare_bytes a.bytes b.bytes ≡ below))
    go below q k = inl q
    go same q k = inr (compare_bytes-same a.format b.format q, k)
    go above q k = absurd (cc)

by_format : (a b : MarklId) → compare_bytes a.format b.format ≡ below → Less a b
unfolding compare_markl_ids
by_format a b h = rw (compare_markl_ids, h)

by_bytes : (a b : MarklId) → a.format ≡ b.format → compare_bytes a.bytes b.bytes ≡ below → Less a b
unfolding compare_markl_ids
by_bytes a b e h =
    rw (compare_markl_ids, ap (compare_bytes a.format) (sym e) ∙ compare_bytes_refl a.format) h

pub Less-trans : (a b c : MarklId) → Less a b → Less b c → Less a c
Less-trans a b c h k = elim (Less-cases a b h) [
  | inl f ↦ elim (Less-cases b c k) [
    | inl g ↦ by_format a c (compare_bytes_trans a.format b.format c.format f g)
    | inr (e, g) ↦ by_format a c (ap (compare_bytes a.format) (sym e) ∙ f)
  ]
  | inr (e, f) ↦ elim (Less-cases b c k) [
    | inl g ↦ by_format a c (ap (λ x. compare_bytes x c.format) e ∙ g)
    | inr (d, g) ↦ by_bytes a c (e ∙ d) (compare_bytes_trans a.bytes b.bytes c.bytes f g)
  ]
]

pub same_ids : (a b : MarklId) → compare_markl_ids a b ≡ same → a ≡ b
unfolding compare_markl_ids
same_ids a b h = go (compare_bytes a.format b.format) refl h
  where
    go :
        (o : Order)
        → compare_bytes a.format b.format ≡ o
        → elim o [ same ↦ compare_bytes a.bytes b.bytes | below ↦ below | above ↦ above ] ≡ same
        → a ≡ b
    go below q k = absurd (cc)
    go same q k =
        let f = compare_bytes-same a.format b.format q in
        let g = compare_bytes-same a.bytes b.bytes k in λ i. record { format = f i; bytes = g i }
    go above q k = absurd (cc)

pub above_ids : (a b : MarklId) → compare_markl_ids a b ≡ above → Less b a
unfolding compare_markl_ids
above_ids a b h = go (compare_bytes a.format b.format) refl h
  where
    go :
        (o : Order)
        → compare_bytes a.format b.format ≡ o
        → elim o [ same ↦ compare_bytes a.bytes b.bytes | below ↦ below | above ↦ above ] ≡ above
        → Less b a
    go below q k = absurd (cc)
    go same q k =
        by_bytes b a (sym (compare_bytes-same a.format b.format q))
          (compare_bytes-flip a.bytes b.bytes k)
    go above q k = by_format b a (compare_bytes-flip a.format b.format q)

pub compare_markl_ids_refl : (a : MarklId) → compare_markl_ids a a ≡ same
unfolding compare_markl_ids
compare_markl_ids_refl a =
    rw (compare_markl_ids, compare_bytes_refl a.format) (compare_bytes_refl a.bytes)
