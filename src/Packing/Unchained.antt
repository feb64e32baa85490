-- ===== src/Packing/Unchained.antt =====
-- The assignments of SizeBasedSelector: a base is never itself assigned.
use madder.Common.{ℕ, suc, ◌≤◌, ◌≡◌, ◌≢◌, refl, sym, ap, ◌∙◌, arith, List, [], ◌∷◌, ◌++◌}
use madder.Common.{
  Bool, true, false, ltb, leb, ◌||◌, if◌then◌else◌, inl, inr, append_assoc, append-nil,
}
use madder.Common.{length}
use madder.Packing.Selector.{BlobMetadata}
use madder.Packing.BySize.{
  SizeBasedSelector, IndexedBlob, insert_by_size, sort_by_size, last_index, assign_group,
  sized_from, assign_groups, assign_sorted, select_bases_by_size,
}
use mathlib.Core.List.{map, Memᴰ, map-append}
use mathlib.Core.List.Memᴰ
use mathlib.Core.Path.{subst}

abbrev indices : List IndexedBlob → List ℕ
indices l = map (λ (b : IndexedBlob). b.original_index) l

abbrev HasNoRepeats : List ℕ → Type 0
HasNoRepeats [] = Unit
HasNoRepeats (x ∷ xs) = (Memᴰ x xs → ⊥) × HasNoRepeats xs

HasNoRepeats-right : (xs ys : List ℕ) → HasNoRepeats (xs ++ ys) → HasNoRepeats ys
HasNoRepeats-right [] ys d = d
HasNoRepeats-right (x ∷ xs) ys (n, d) = HasNoRepeats-right xs ys d

HasNoRepeats-left : (xs ys : List ℕ) → HasNoRepeats (xs ++ ys) → HasNoRepeats xs
HasNoRepeats-left [] ys d = tt
HasNoRepeats-left (x ∷ xs) ys (n, d) = ((λ m. n (Memᴰ.append_left ys m)), HasNoRepeats-left xs ys d)

disjoint : (xs ys : List ℕ) {z : ℕ} → HasNoRepeats (xs ++ ys) → Memᴰ z xs → Memᴰ z ys → ⊥
disjoint [] ys d m k = Memᴰ.not-nil m
disjoint (x ∷ xs) ys (n, d) (Memᴰ.head e) k = n (Memᴰ.append_right xs (Memᴰ.cast (sym e) k))
disjoint (x ∷ xs) ys (n, d) (Memᴰ.tail m) k = disjoint xs ys d m k

last_index-Mem : (b : IndexedBlob) (l : List IndexedBlob) → Memᴰ (last_index b l) (indices (b ∷ l))
last_index-Mem b [] = Memᴰ.head refl
last_index-Mem b (c ∷ l) = Memᴰ.tail (last_index-Mem c l)

-- What an assignment in a group says.
assign_group-last :
    (b : IndexedBlob) (l : List IndexedBlob) {p : ℕ × ℕ}
    → HasNoRepeats (indices (b ∷ l))
    → Memᴰ p (assign_group (b ∷ l))
    → (p.1 ≡ last_index b l) × Memᴰ p.0 (indices (b ∷ l)) × (p.0 ≢ last_index b l)
unfolding assign_group
assign_group-last b [] d m = absurd (Memᴰ.not-nil m)
assign_group-last b (c ∷ l) (n, d) (Memᴰ.head e) = (
  ap (λ (q : ℕ × ℕ). q.1) e,
  Memᴰ.head (ap (λ (q : ℕ × ℕ). q.0) e),
  λ k. n (Memᴰ.cast (sym (ap (λ (q : ℕ × ℕ). q.0) e) ∙ k) (last_index-Mem c l)),
)
assign_group-last b (c ∷ l) (n, d) (Memᴰ.tail m) =
    let (to_last, inside, apart) = assign_group-last c l d m in (to_last, Memᴰ.tail inside, apart)

-- Both blobs of each assignment are of the list, and no base of one is the blob of another.
record AreUnchained (calls : List (ℕ × ℕ)) (l : List ℕ) : Type 0 where
  pub inside : (p : ℕ × ℕ) → Memᴰ p calls → Memᴰ p.0 l × Memᴰ p.1 l
  pub apart : (p q : ℕ × ℕ) → Memᴰ p calls → Memᴰ q calls → p.1 ≢ q.0

assign_group-AreUnchained :
    (group : List IndexedBlob)
    → HasNoRepeats (indices group)
    → AreUnchained (assign_group group) (indices group)
unfolding assign_group
assign_group-AreUnchained [] d = record {
  inside = λ p m. absurd (Memᴰ.not-nil m);
  apart = λ p q m k. absurd (Memᴰ.not-nil m);
}
assign_group-AreUnchained (b ∷ l) d = record {
  inside = λ p m.
      let (to_last, inside, _) = assign_group-last b l d m in
      (inside, Memᴰ.cast to_last (last_index-Mem b l));
  apart = λ p q m k e.
      let (to_last, _, _) = assign_group-last b l d m in
      let (_, _, not_last) = assign_group-last b l d k in not_last (sym e ∙ to_last);
}

joined :
    (xs ys : List (ℕ × ℕ)) (l k : List ℕ)
    → HasNoRepeats (l ++ k)
    → AreUnchained xs l
    → AreUnchained ys k
    → AreUnchained (xs ++ ys) (l ++ k)
joined xs ys l k d a b = record {
  inside = λ p m. elim (Memᴰ.append_cases xs m) [
    | inl h ↦ let (i, j) = a.inside p h in (Memᴰ.append_left k i, Memᴰ.append_left k j)
    | inr h ↦ let (i, j) = b.inside p h in (Memᴰ.append_right l i, Memᴰ.append_right l j)
  ];
  apart = λ p q m n e. elim (Memᴰ.append_cases xs m) [
    | inl h ↦ elim (Memᴰ.append_cases xs n) [
      | inl h' ↦ a.apart p q h h' e
      | inr h' ↦ disjoint l k d (a.inside p h).1 (Memᴰ.cast e (b.inside q h').0)
    ]
    | inr h ↦ elim (Memᴰ.append_cases xs n) [
      | inl h' ↦ disjoint l k d (Memᴰ.cast e (a.inside q h').0) (b.inside p h).1
      | inr h' ↦ b.apart p q h h' e
    ]
  ];
}

module _ (s : SizeBasedSelector) where
  assign_groups-AreUnchained :
      (start : ℕ) (group rest : List IndexedBlob)
      → HasNoRepeats (indices group ++ indices rest)
      → AreUnchained (assign_groups s start group rest) (indices group ++ indices rest)
  unfolding assign_groups
  assign_groups-AreUnchained start group [] d =
      subst (AreUnchained (assign_group group)) (sym (append-nil (indices group)))
        (assign_group-AreUnchained group (HasNoRepeats-left (indices group) [] d))
  assign_groups-AreUnchained start group (b ∷ rest) d =
      let i = b.original_index in
      let regrouped : indices (group ++ (b ∷ [])) ++ indices rest
          ≡ indices group ++ (i ∷ indices rest) =
        ap (λ l. l ++ indices rest)
          (map-append (λ (x : IndexedBlob). x.original_index) group (b ∷ []))
        ∙ append_assoc (indices group) (i ∷ []) (indices rest) in
      go (s.within_ratio b.size start)
        (subst (AreUnchained (assign_groups s start (group ++ (b ∷ [])) rest)) regrouped (
          assign_groups-AreUnchained start (group ++ (b ∷ [])) rest
            (subst HasNoRepeats (sym regrouped) d)))
        (joined (assign_group group) (assign_groups s b.size (b ∷ []) rest) (indices group)
          (i ∷ indices rest) d
          (assign_group-AreUnchained group (HasNoRepeats-left (indices group) (i ∷ indices rest) d))
          (assign_groups-AreUnchained b.size (b ∷ []) rest
            (HasNoRepeats-right (indices group) (i ∷ indices rest) d)))
    where
      go :
          (q : Bool)
          → AreUnchained
              (assign_groups s start (group ++ (b ∷ [])) rest)
              (indices group ++ indices (b ∷ rest))
          → AreUnchained
              (assign_group group ++ assign_groups s b.size (b ∷ []) rest)
              (indices group ++ indices (b ∷ rest))
          → AreUnchained
              (if q
                then assign_groups s start (group ++ (b ∷ [])) rest
                else assign_group group ++ assign_groups s b.size (b ∷ []) rest)
              (indices group ++ indices (b ∷ rest))
      go true x y = x
      go false x y = y

-- Sorting adds no index and repeats none.
insert_by_size-Mem :
    (b : IndexedBlob) (l : List IndexedBlob) {z : ℕ}
    → Memᴰ z (indices (insert_by_size b l))
    → Memᴰ z (b.original_index ∷ indices l)
unfolding insert_by_size
insert_by_size-Mem b [] m = m
insert_by_size-Mem b (c ∷ l) {z} m = go (leb b.size c.size) m (λ k. insert_by_size-Mem b l k)
  where
    go :
        (q : Bool)
        → Memᴰ z (indices (if q then b ∷ c ∷ l else c ∷ insert_by_size b l))
        → (Memᴰ z (indices (insert_by_size b l)) → Memᴰ z (b.original_index ∷ indices l))
        → Memᴰ z (b.original_index ∷ indices (c ∷ l))
    go true k later = k
    go false (Memᴰ.head e) later = Memᴰ.tail (Memᴰ.head e)
    go false (Memᴰ.tail k) later = elim (Memᴰ.cases_cons (later k)) [
      | inl e ↦ Memᴰ.head e
      | inr k' ↦ Memᴰ.tail (Memᴰ.tail k')
    ]

insert_by_size-HasNoRepeats :
    (b : IndexedBlob) (l : List IndexedBlob)
    → HasNoRepeats (b.original_index ∷ indices l)
    → HasNoRepeats (indices (insert_by_size b l))
unfolding insert_by_size
insert_by_size-HasNoRepeats b [] d = d
insert_by_size-HasNoRepeats b (c ∷ l) (n, (n', d)) =
    go (leb b.size c.size) (insert_by_size-HasNoRepeats b l ((λ m. n (Memᴰ.tail m)), d))
  where
    fresh : Memᴰ c.original_index (indices (insert_by_size b l)) → ⊥
    fresh m = elim (Memᴰ.cases_cons (insert_by_size-Mem b l m)) [
      | inl e ↦ n (Memᴰ.head (sym e))
      | inr k ↦ n' k
    ]

    go :
        (q : Bool)
        → HasNoRepeats (indices (insert_by_size b l))
        → HasNoRepeats (indices (if q then b ∷ c ∷ l else c ∷ insert_by_size b l))
    go true later = (n, (n', d))
    go false later = (fresh, later)

sort_by_size-Mem :
    (l : List IndexedBlob) {z : ℕ} → Memᴰ z (indices (sort_by_size l)) → Memᴰ z (indices l)
unfolding sort_by_size
sort_by_size-Mem [] m = m
sort_by_size-Mem (b ∷ l) m = elim (Memᴰ.cases_cons (insert_by_size-Mem b (sort_by_size l) m)) [
  | inl e ↦ Memᴰ.head e
  | inr k ↦ Memᴰ.tail (sort_by_size-Mem l k)
]

sort_by_size-HasNoRepeats :
    (l : List IndexedBlob) → HasNoRepeats (indices l) → HasNoRepeats (indices (sort_by_size l))
unfolding sort_by_size
sort_by_size-HasNoRepeats [] d = tt
sort_by_size-HasNoRepeats (b ∷ l) (n, d) =
    insert_by_size-HasNoRepeats b (sort_by_size l)
      ((λ m. n (sort_by_size-Mem l m)), sort_by_size-HasNoRepeats l d)

module _ (s : SizeBasedSelector) where
  sized_from-le :
      (i : ℕ) (metas : List BlobMetadata) {z : ℕ} → Memᴰ z (indices (sized_from s i metas)) → i ≤ z
  unfolding sized_from
  sized_from-le i [] m = absurd (Memᴰ.not-nil m)
  sized_from-le i (meta ∷ metas) {z} m =
      go (ltb meta.size s.min_blob_size || ltb s.max_blob_size meta.size) m
        (λ k. sized_from-le (suc i) metas k)
    where
      go :
          (q : Bool)
          → Memᴰ z (
              indices (
                if q
                then sized_from s (suc i) metas
                else record { original_index = i; size = meta.size } ∷ sized_from s (suc i) metas))
          → (Memᴰ z (indices (sized_from s (suc i) metas)) → suc i ≤ z)
          → i ≤ z
      go true k later = omega (arith, later k)
      go false (Memᴰ.head e) later = omega arith
      go false (Memᴰ.tail k) later = omega (arith, later k)

  sized_from-HasNoRepeats :
      (i : ℕ) (metas : List BlobMetadata) → HasNoRepeats (indices (sized_from s i metas))
  unfolding sized_from
  sized_from-HasNoRepeats i [] = tt
  sized_from-HasNoRepeats i (meta ∷ metas) =
      go (ltb meta.size s.min_blob_size || ltb s.max_blob_size meta.size)
        (sized_from-HasNoRepeats (suc i) metas)
    where
      fresh : Memᴰ i (indices (sized_from s (suc i) metas)) → ⊥
      fresh m = omega (arith, sized_from-le (suc i) metas m)

      go :
          (q : Bool)
          → HasNoRepeats (indices (sized_from s (suc i) metas))
          → HasNoRepeats (
              indices (
                if q
                then sized_from s (suc i) metas
                else record { original_index = i; size = meta.size } ∷ sized_from s (suc i) metas))
      go true later = later
      go false later = (fresh, later)

  -- No base that the selector chooses is a blob that it assigns.
  pub select_bases_by_size-apart :
      (metas : List BlobMetadata) (p q : ℕ × ℕ)
      → Memᴰ p (select_bases_by_size s metas)
      → Memᴰ q (select_bases_by_size s metas)
      → p.1 ≢ q.0
  unfolding select_bases_by_size
  select_bases_by_size-apart metas p q m k =
      go (ltb (length metas) 2) (sort_by_size (sized_from s 0 metas))
        (sort_by_size-HasNoRepeats (sized_from s 0 metas) (sized_from-HasNoRepeats 0 metas)) m k
    where
      go :
          (t : Bool) (l : List IndexedBlob)
          → HasNoRepeats (indices l)
          → Memᴰ p (if t then [] else assign_sorted s l)
          → Memᴰ q (if t then [] else assign_sorted s l)
          → p.1 ≢ q.0
      go true l d m k = absurd (Memᴰ.not-nil m)
      go false [] d m k = absurd (Memᴰ.not-nil m)
      go false (b ∷ l) d m k = (assign_groups-AreUnchained s b.size (b ∷ []) l d).apart p q m k
