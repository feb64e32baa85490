-- ===== src/Archive/Index/Lookup.antt =====
-- `lookup_hash` on a written index, by fan-out table and binary search.
use madder.Common.{ℕ, zero, suc, ◌+◌, ◌-◌, ◌/◌, ◌^◌, ◌≤◌, ◌<◌, ◌≡◌, refl, sym, ap, ◌∙◌, arith}
use madder.Common.{List, length, get_elem?, get_elem?-some-lt, get_elem?-of-lt, get_or}
use madder.Common.{Option, some, none, if◌then◌else◌, inl, inr}
use madder.Common.{lt→ltb, le→ltb, le→leb, lt→leb, eq→==, ne→==, ◌≢◌}
use madder.Common.Bytes.{Bytes, below, same, above, compare_bytes, Order-cases, compare_bytes-same}
use madder.Common.Bytes.{compare_bytes_refl, compare_bytes_trans, compare_bytes-flip}
use madder.Archive.Types.{Result, ok, ◌>>=◌, IndexEntryV1, Digest, hash_size_for_format}
use madder.Archive.Index.Reader.{search_range, lookup_hash, Place, place_of}
use madder.Archive.Index.Reader.{lower_bound, IndexReaderV1}
use madder.Archive.Index.Order.{IsSorted}
use madder.Archive.Index.FanOut.{first_of, count_le, first_byte-first_of}
use madder.Archive.Index.FanOut.{count_le-le-length}
use madder.Archive.Index.Written.{IsIndex, index_file}
use madder.Archive.Index.RoundTrip.{opened, read_entry_at-opened}
use madder.Archive.Index.Find.{find_entry, find_entry-some, find_entry-none, Within, IsSorted-get}
use madder.Archive.Index.Find.{count_le-parts, get_or-counts_from}
use madder.Archive.Index.Decode.{head_eq}
use mathlib.Core.Option
use mathlib.Core.Path.{subst}
use native.Mathlib.Decide.{dec_lt, dec_le, ℕ_discrete}
use native.Mathlib.Nat.{pow-suc}

-- What the lookup should answer.
abbrev pub found : Bytes → List IndexEntryV1 → Result (Option Place)
found hash es = ok (Option.map place_of (find_entry hash es))

below_irrefl : (xs : Bytes) → compare_bytes xs xs ≢ below
below_irrefl xs h = apart (sym h ∙ compare_bytes_refl xs)
  where
    apart : below ≡ same → ⊥
    apart e = cc

-- Nothing lies both below and above one hash.
below-asym : (xs ys : Bytes) → compare_bytes xs ys ≡ below → compare_bytes ys xs ≢ below
below-asym xs ys h k = below_irrefl xs (compare_bytes_trans xs ys xs h k)

-- An entry with the searched hash that stands at `mid` or behind it is not above an entry at `mid`.
hash_at_or_after :
    (es : List IndexEntryV1) (sorted : IsSorted es) (hash : Bytes) (mid i : ℕ) {e x : IndexEntryV1}
    → get_elem? es mid ≡ some e
    → get_elem? es i ≡ some x
    → x.hash ≡ hash
    → mid ≤ i
    → compare_bytes hash e.hash ≢ below
hash_at_or_after es sorted hash mid i {e} {x} p q h le c = elim (dec_lt mid i) [
  | yes lt ↦
      below-asym e.hash hash
        (subst (λ k. compare_bytes e.hash k ≡ below) h (IsSorted-get es mid i sorted p q lt)) c
  | no ge ↦
      below_irrefl hash (subst (λ k. compare_bytes hash k ≡ below) (same_place (omega arith)) c)
]
  where
    same_place : mid ≡ i → e.hash ≡ hash
    same_place m = ap (λ (y : IndexEntryV1). y.hash) (head_eq (sym p ∙ ap (get_elem? es) m ∙ q)) ∙ h

hash_at_or_before :
    (es : List IndexEntryV1) (sorted : IsSorted es) (hash : Bytes) (mid i : ℕ) {e x : IndexEntryV1}
    → get_elem? es mid ≡ some e
    → get_elem? es i ≡ some x
    → x.hash ≡ hash
    → i ≤ mid
    → compare_bytes hash e.hash ≢ above
hash_at_or_before es sorted hash mid i {e} {x} p q h le c = elim (dec_lt i mid) [
  | yes lt ↦
      below-asym e.hash hash (compare_bytes-flip hash e.hash c)
        (subst (λ k. compare_bytes k e.hash ≡ below) h (IsSorted-get es i mid sorted q p lt))
  | no ge ↦ below_irrefl hash (
      subst (λ k. compare_bytes k hash ≡ below) (same_place (omega arith))
        (compare_bytes-flip hash e.hash c))
]
  where
    same_place : mid ≡ i → e.hash ≡ hash
    same_place m = ap (λ (y : IndexEntryV1). y.hash) (head_eq (sym p ∙ ap (get_elem? es) m ∙ q)) ∙ h

module _ (es : List IndexEntryV1) (sorted : IsSorted es) (hash : Bytes) (lo hi mid : ℕ)
    {e : IndexEntryV1} (p : get_elem? es mid ≡ some e) (w : Within es hash lo hi) where
  Within-left : compare_bytes hash e.hash ≡ below → Within es hash lo mid
  Within-left c i x q h = (
    (w i x q h).0,
    elim (dec_lt i mid) [
      | yes lt ↦ lt
      | no ge ↦ absurd (hash_at_or_after es sorted hash mid i p q h (omega arith) c)
    ],
  )

  Within-right : compare_bytes hash e.hash ≡ above → Within es hash (mid + 1) hi
  Within-right c i x q h = (
    elim (dec_lt mid i) [
      | yes lt ↦ omega arith
      | no ge ↦ absurd (hash_at_or_before es sorted hash mid i p q h (omega arith) c)
    ],
    (w i x q h).1,
  )

Within-empty :
    (es : List IndexEntryV1) (hash : Bytes) (lo hi : ℕ)
    → hi ≤ lo
    → Within es hash lo hi
    → found hash es ≡ ok none
Within-empty es hash lo hi h w =
    rw (find_entry-none hash es (λ i e p q. absurd (omega (arith, w i e p q))))

-- The branches of `lookup_hash`.
module _ (ir : IndexReaderV1) (hash : Bytes) where
  lookup_hash_no_entries : ir.entry_count ≡ 0 → lookup_hash ir hash ≡ ok none
  unfolding lookup_hash
  lookup_hash_no_entries h = rw (eq→== ir.entry_count 0 h, if◌then◌else◌)

  module _ (some_there : ir.entry_count ≢ 0) (full : 0 < length hash) where
    lookup_hash_no_range :
        get_or ir.fan_out (first_of hash) 0 ≤ lower_bound ir (first_of hash)
        → lookup_hash ir hash ≡ ok none
    unfolding lookup_hash
    lookup_hash_no_range h = rw (
      ne→== ir.entry_count 0 some_there,
      if◌then◌else◌,
      first_byte-first_of hash full,
      le→leb _ _ h,
    )

    lookup_hash_range :
        lower_bound ir (first_of hash) < get_or ir.fan_out (first_of hash) 0
        → lookup_hash ir hash
          ≡ search_range ir hash 65
              (lower_bound ir (first_of hash))
              (get_or ir.fan_out (first_of hash) 0)
    unfolding lookup_hash
    lookup_hash_range h = rw (
      ne→== ir.entry_count 0 some_there,
      if◌then◌else◌,
      first_byte-first_of hash full,
      lt→leb _ _ h,
    )

module _ (digest : Digest) (format : Bytes) (n : ℕ) (es : List IndexEntryV1)
    (sized : hash_size_for_format format ≡ ok n) (v : IsIndex n es)
    (small : length (index_file digest format es) < 2 ^ 63) (hash : Bytes) where
  -- One round, from what the rounds on both halves would answer.
  search_range_step :
      (fuel lo hi : ℕ) (e : IndexEntryV1)
      → lo < hi
      → get_elem? es (lo + (hi - lo) / 2) ≡ some e
      → Within es hash lo hi
      → (Within es hash lo (lo + (hi - lo) / 2)
          → search_range (opened digest format n es) hash fuel lo (lo + (hi - lo) / 2)
            ≡ found hash es)
      → (Within es hash (lo + (hi - lo) / 2 + 1) hi
          → search_range (opened digest format n es) hash fuel (lo + (hi - lo) / 2 + 1) hi
            ≡ found hash es)
      → search_range (opened digest format n es) hash (suc fuel) lo hi ≡ found hash es
  unfolding search_range
  search_range_step fuel lo hi e lt p w left right =
      rw
        (
          lt→ltb lo hi lt,
          if◌then◌else◌,
          read_entry_at-opened digest format n es sized v small (lo + (hi - lo) / 2) e p,
        )
        (elim (Order-cases (compare_bytes hash e.hash)) [
          | inl c ↦ rw (c, ◌>>=◌) (left (Within-left es v.sorted hash lo hi _ p w c))
          | inr (inl c) ↦ rw (
            c,
            ◌>>=◌,
            find_entry-some hash es _ e v.sorted p (sym (compare_bytes-same hash e.hash c)),
          )
          | inr (inr c) ↦ rw (c, ◌>>=◌) (right (Within-right es v.sorted hash lo hi _ p w c))
        ])

  search_range-found :
      (fuel lo hi : ℕ)
      → hi ≤ length es
      → hi - lo < 2 ^ fuel
      → Within es hash lo hi
      → search_range (opened digest format n es) hash fuel lo hi ≡ found hash es
  search_range-found zero lo hi top room w =
      unfold search_range in
      rw (le→ltb lo hi (omega arith), if◌then◌else◌)
        (sym (Within-empty es hash lo hi (omega arith) w))
  search_range-found (suc fuel) lo hi top room w = elim (dec_lt lo hi) [
    | no empty ↦
        unfold search_range in
        rw (le→ltb lo hi (omega arith), if◌then◌else◌)
          (sym (Within-empty es hash lo hi (omega arith) w))
    | yes lt ↦
        let (e, p) = get_elem?-of-lt es (lo + (hi - lo) / 2) (omega arith) in
        search_range_step fuel lo hi e lt p w
          (search_range-found fuel lo (lo + (hi - lo) / 2) (omega arith)
            (omega (arith, pow-suc 2 fuel)))
          (search_range-found fuel (lo + (hi - lo) / 2 + 1) hi top (omega (arith, pow-suc 2 fuel)))
  ]

  module _ (full : 0 < length hash) (first : first_of hash < 256) where
    fan_out_count :
        (b : ℕ) → b < 256 → get_or (opened digest format n es).fan_out b 0 ≡ count_le b es
    unfolding opened
    fan_out_count b h = get_or-counts_from 0 256 b es h ∙ ap (λ t. count_le t es) (omega arith)

    lower_bound-le :
        (b i : ℕ) (e : IndexEntryV1)
        → b < 257
        → get_elem? es i ≡ some e
        → b ≤ first_of e.hash
        → lower_bound (opened digest format n es) b ≤ i
    lower_bound-le zero i e h p k = omega arith
    lower_bound-le (suc b) i e h p k =
        rw (fan_out_count b (omega arith)) ((count_le-parts b es i v.sorted p).1 (omega arith))

    first_eq : (e : IndexEntryV1) → e.hash ≡ hash → first_of e.hash ≡ first_of hash
    first_eq e h = ap first_of h

    Within-fan_out :
        Within es hash
          (lower_bound (opened digest format n es) (first_of hash))
          (get_or (opened digest format n es).fan_out (first_of hash) 0)
    Within-fan_out i e p h = (
      lower_bound-le (first_of hash) i e (omega arith) p (omega (arith, first_eq e h)),
      rw (fan_out_count (first_of hash) first)
          ((count_le-parts (first_of hash) es i v.sorted p).0 (omega (arith, first_eq e h))),
    )

    entry_count-opened : (opened digest format n es).entry_count ≡ length es
    unfolding opened
    entry_count-opened = refl

    range_empty :
        get_or (opened digest format n es).fan_out (first_of hash) 0
          ≤ lower_bound (opened digest format n es) (first_of hash)
        → ok none ≡ found hash es
    range_empty empty = sym (Within-empty es hash _ _ empty Within-fan_out)

    range_searched :
        search_range
          (opened digest format n es)
          hash
          65
          (lower_bound (opened digest format n es) (first_of hash))
          (get_or (opened digest format n es).fan_out (first_of hash) 0)
        ≡ found hash es
    range_searched =
        search_range-found 65 _ _
          (rw (fan_out_count (first_of hash) first) (count_le-le-length (first_of hash) es))
          (omega (
            arith,
            fan_out_count (first_of hash) first,
            count_le-le-length (first_of hash) es,
            v.few,
          ))
          Within-fan_out

    nothing_found : length es ≡ 0 → ok none ≡ found hash es
    nothing_found z = sym (
        Within-empty es hash 0 0 (omega arith)
          (λ i e p h. absurd (omega (arith, get_elem?-some-lt es i p))))

    -- A lookup finds the entry with the hash, or answers that there is none.
    pub lookup_hash-found : lookup_hash (opened digest format n es) hash ≡ found hash es
    lookup_hash-found = elim (ℕ_discrete (length es) 0) [
      | yes z ↦
          lookup_hash_no_entries (opened digest format n es) hash (entry_count-opened ∙ z)
          ∙ nothing_found z
      | no z ↦
          elim (dec_le (get_or (opened digest format n es).fan_out (first_of hash) 0)
            (lower_bound (opened digest format n es) (first_of hash))) [
              | yes empty ↦
                  lookup_hash_no_range (opened digest format n es) hash
                    (λ k. z (sym entry_count-opened ∙ k)) full empty
                  ∙ range_empty empty
              | no range ↦
                  lookup_hash_range (opened digest format n es) hash
                    (λ k. z (sym entry_count-opened ∙ k)) full (omega arith)
                  ∙ range_searched
            ]
    ]
