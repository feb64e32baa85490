-- ===== src/Multi/Lossless.antt =====
-- The merge of AllBlobs over children that list their ids in any order, some as objects of their own,
-- some in one object that they fill again and again.
use madder.Common.{ℕ, zero, suc, ◌+◌, ◌≤◌, ◌<◌, ◌≡◌, refl, sym, ap, ◌∙◌, arith, All, List, [], ◌∷◌}
use madder.Common.{length, Option, some, none, Bool, true, false, ◌⊎◌, inl, inr, ◌↔◌}
use madder.Common.Bytes.{Order, below, same, above}
use madder.Multi.Merge.{
  MarklId, given, yielded, Head, pending_errors, past_errors, lesser, minimum_from, advance,
  advance_rest, advance_by, merge, count_items, all_blobs, compare_markl_ids,
}
use madder.Multi.Ids.{same_ids, compare_markl_ids_refl}
use madder.Multi.Heads.{head-kept, head-left, head-length}
use madder.Multi.Least.{least_from-first, least_from-none}
use madder.Multi.Listings.{yields, round, least_from, advance_head}
use madder.Multi.Pooled.{next_of, merge_round}
use mathlib.Core.List.{map, Memᴰ}
use mathlib.Core.List.Memᴰ
use mathlib.Core.Path.{subst}

merge_end :
    (k : ℕ) (heads : List Head)
    → pending_errors heads ≡ []
    → past_errors heads ≡ heads
    → minimum_from none heads ≡ none
    → merge (suc k) heads ≡ []
unfolding merge
merge_end k heads calm past least =
    (λ i. round k (calm i) (past i) ((ap (minimum_from none) past ∙ least) i))

-- A child: whether each id is an object of its own, and the ids.
abbrev pub Child : Type 0
Child = Bool × List MarklId

-- Some child lists the id.
abbrev pub Lists : MarklId → List Child → Type 0
Lists z [] = ⊥
Lists z (c ∷ cs) = Memᴰ z c.1 ⊎ Lists z cs

abbrev ids_of : List Child → List (List MarklId)
ids_of cs = map (λ (c : Child). c.1) cs

total : List Child → ℕ
total [] = 0
total (c ∷ cs) = length c.1 + total cs

first-Lists :
    (cs : List Child) {m : MarklId} {xs : List MarklId} → Memᴰ (m ∷ xs) (ids_of cs) → Lists m cs
first-Lists [] k = absurd (Memᴰ.not-nil k)
first-Lists (c ∷ cs) {m} k = elim (Memᴰ.cases_cons k) [
  | inl e ↦ inl (subst (Memᴰ m) e (Memᴰ.head refl))
  | inr k' ↦ inr (first-Lists cs k')
]

empty-Lists : (cs : List Child) (z : MarklId) → All (λ h. h ≡ []) (ids_of cs) → Lists z cs → ⊥
empty-Lists [] z e k = absurd k
empty-Lists (c ∷ cs) z (e, es) (inl k) = Memᴰ.not-nil (subst (Memᴰ z) e k)
empty-Lists (c ∷ cs) z (e, es) (inr k) = empty-Lists cs z es k

-- A child that is advanced past `m` if it stands at it.
abbrev past : MarklId → Child → Child
past m c = (c.0, advance_head m c.1)

module _ (m : MarklId) where
  past-kept : (cs : List Child) (z : MarklId) → Lists z (map (past m) cs) → Lists z cs
  past-kept [] z k = absurd k
  past-kept (c ∷ cs) z (inl k) = inl (head-kept m c.1 k)
  past-kept (c ∷ cs) z (inr k) = inr (past-kept cs z k)

  past-left : (cs : List Child) (z : MarklId) → Lists z cs → (z ≡ m) ⊎ Lists z (map (past m) cs)
  past-left [] z k = absurd k
  past-left (c ∷ cs) z (inl k) = elim (head-left m c.1 k) [ inl e ↦ inl e | inr k' ↦ inr (inl k') ]
  past-left (c ∷ cs) z (inr k) = elim (past-left cs z k) [ inl e ↦ inl e | inr k' ↦ inr (inr k') ]

  past-total : (cs : List Child) → total (map (past m) cs) ≤ total cs
  unfolding total
  past-total [] = omega arith
  past-total (c ∷ cs) = omega (arith, head-length m c.1, past-total cs)

module _ (reset : MarklId) where
  -- What the object of an id holds once the child is asked for the ids that are left.
  after : Bool → MarklId → List MarklId → MarklId
  after true x xs = x
  after false x xs = next_of reset xs

  pub gives : Bool → List MarklId → Head
  unfolding after
  gives own [] = []
  gives own (x ∷ xs) = given x (after own x xs) ∷ gives own xs

  -- The sequences of the children.
  abbrev pub sequences : List Child → List Head
  sequences cs = map (λ (c : Child). gives c.0 c.1) cs

  pending_errors-sequences : (cs : List Child) → pending_errors (sequences cs) ≡ []
  unfolding pending_errors gives
  pending_errors-sequences [] = refl
  pending_errors-sequences ((own, []) ∷ cs) = pending_errors-sequences cs
  pending_errors-sequences ((own, x ∷ xs) ∷ cs) = pending_errors-sequences cs

  past_errors-sequences : (cs : List Child) → past_errors (sequences cs) ≡ sequences cs
  unfolding past_errors gives
  past_errors-sequences [] = refl
  past_errors-sequences ((own, []) ∷ cs) = ap (λ l. [] ∷ l) (past_errors-sequences cs)
  past_errors-sequences ((own, x ∷ xs) ∷ cs) =
      ap (λ l. gives own (x ∷ xs) ∷ l) (past_errors-sequences cs)

  minimum_from-sequences :
      (l : Option MarklId) (cs : List Child)
      → minimum_from l (sequences cs) ≡ least_from l (ids_of cs)
  unfolding minimum_from least_from gives
  minimum_from-sequences l [] = refl
  minimum_from-sequences l ((own, []) ∷ cs) = minimum_from-sequences l cs
  minimum_from-sequences l ((own, x ∷ xs) ∷ cs) = minimum_from-sequences (lesser l x) cs

  advance_rest-sequences :
      (m : MarklId) (cs : List Child) → advance_rest m (sequences cs) ≡ sequences (map (past m) cs)
  unfolding advance_rest advance_head gives
  advance_rest-sequences m [] = refl
  advance_rest-sequences m ((own, []) ∷ cs) = ap (λ l. [] ∷ l) (advance_rest-sequences m cs)
  advance_rest-sequences m ((own, x ∷ xs) ∷ cs) =
      λ i. go (compare_markl_ids x m) i ∷ advance_rest-sequences m cs i
    where
      go :
          (o : Order)
          → advance_by o (given x (after own x xs)) (gives own xs)
            ≡ gives own (elim o [ same ↦ xs | below ↦ x ∷ xs | above ↦ x ∷ xs ])
      go below = refl
      go same = refl
      go above = refl

  -- What a round that yields `m` makes of the children.
  record Advanced (m : MarklId) (cs : List Child) : Type 0 where
    pub left : List Child
    pub leaves : advance m (sequences cs) ≡ sequences left
    pub kept : (z : MarklId) → Lists z left → Lists z cs
    pub lost : (z : MarklId) → (Lists reset cs → ⊥) → Lists z cs → (z ≡ m) ⊎ Lists z left
    pub fewer : {xs : List MarklId} → Memᴰ (m ∷ xs) (ids_of cs) → total left < total cs

  module _ (m : MarklId) where
    -- A child that stays as it is.
    Advanced-cons :
        (own : Bool) (xs : List MarklId) (cs : List Child)
        → Advanced m cs
        → advance m (gives own xs ∷ sequences cs) ≡ gives own xs ∷ advance m (sequences cs)
        → ((ys : List MarklId) → m ∷ ys ≡ xs → ⊥)
        → Advanced m ((own, xs) ∷ cs)
    unfolding total
    Advanced-cons own xs cs a stays other = record {
      left = (own, xs) ∷ a.left;
      leaves = stays ∙ ap (λ l. gives own xs ∷ l) a.leaves;
      kept = λ z k. elim k [ inl k' ↦ inl k' | inr k' ↦ inr (a.kept z k') ];
      lost = λ z unlisted k. elim k [
        | inl k' ↦ inr (inl k')
        | inr k' ↦ elim (a.lost z (λ u. unlisted (inr u)) k') [
          | inl e ↦ inl e
          | inr k'' ↦ inr (inr k'')
        ]
      ];
      fewer = λ {xs = ys} k. elim (Memᴰ.cases_cons k) [
        | inl e ↦ absurd (other ys e)
        | inr k' ↦ let less = a.fewer k' in omega arith
      ];
    }

    -- The child of minIdx.
    Advanced-first :
        (own : Bool) (x : MarklId) (xs : List MarklId) (cs : List Child)
        → x ≡ m
        → advance m (gives own (x ∷ xs) ∷ sequences cs)
          ≡ gives own xs ∷ advance_rest (after own x xs) (sequences cs)
        → Advanced m ((own, x ∷ xs) ∷ cs)
    unfolding total after next_of
    Advanced-first own x xs cs same_id moves = record {
      left = (own, xs) ∷ map (past (after own x xs)) cs;
      leaves = moves ∙ ap (λ l. gives own xs ∷ l) (advance_rest-sequences (after own x xs) cs);
      kept = λ z k. elim k [
        | inl k' ↦ inl (Memᴰ.tail k')
        | inr k' ↦ inr (past-kept (after own x xs) cs z k')
      ];
      lost = λ z unlisted k. elim k [
        | inl k' ↦ elim (Memᴰ.cases_cons k') [ inl e ↦ inl (e ∙ same_id) | inr k'' ↦ inr (inl k'') ]
        | inr k' ↦ elim (past-left (after own x xs) cs z k') [
          | inl e ↦ standing own xs z e (λ u. unlisted (inr (subst (λ y. Lists y cs) u k')))
          | inr k'' ↦ inr (inr k'')
        ]
      ];
      fewer = λ {xs = ys} k. let fewer = past-total (after own x xs) cs in omega arith;
    }
      where
        -- An id that a child behind stands at and that the object of `x` then holds.
        standing :
            (own : Bool) (xs : List MarklId) (z : MarklId)
            → z ≡ after own x xs
            → (z ≡ reset → ⊥)
            → (z ≡ m) ⊎ (Memᴰ z xs ⊎ Lists z (map (past (after own x xs)) cs))
        standing true xs z e listed = inl (e ∙ same_id)
        standing false [] z e listed = absurd (listed e)
        standing false (y ∷ ys) z e listed = inr (inl (Memᴰ.head e))

    advance-Advanced : (cs : List Child) → Advanced m cs
    unfolding advance gives total
    advance-Advanced [] = record {
      left = [];
      leaves = refl;
      kept = λ z k. k;
      lost = λ z unlisted k. inr k;
      fewer = λ k. absurd (Memᴰ.not-nil k);
    }
    advance-Advanced ((own, []) ∷ cs) =
        Advanced-cons own [] cs (advance-Advanced cs) refl (λ ys e. absurd (apart e))
      where
        apart : {y : MarklId} {ys : List MarklId} → y ∷ ys ≡ [] → ⊥
        apart e = cc
    advance-Advanced ((own, x ∷ xs) ∷ cs) = go (compare_markl_ids x m) refl (advance-Advanced cs)
      where
        as_order :
            (o : Order)
            → compare_markl_ids x m ≡ o
            → advance m (gives own (x ∷ xs) ∷ sequences cs) ≡ elim o as (λ _. List Head) [
              | same ↦ gives own xs ∷ advance_rest (after own x xs) (sequences cs)
              | below ↦ gives own (x ∷ xs) ∷ advance m (sequences cs)
              | above ↦ gives own (x ∷ xs) ∷ advance m (sequences cs)
            ]
        as_order o q =
            ap
              (λ (o' : Order). elim o' as (λ _. List Head) [
                | same ↦ gives own xs ∷ advance_rest (after own x xs) (sequences cs)
                | below ↦ gives own (x ∷ xs) ∷ advance m (sequences cs)
                | above ↦ gives own (x ∷ xs) ∷ advance m (sequences cs)
              ])
              q

        differs :
            {o : Order}
            → compare_markl_ids x m ≡ o
            → (same ≡ o → ⊥)
            → (ys : List MarklId) → m ∷ ys ≡ x ∷ xs
            → ⊥
        differs q apart ys e =
            apart (sym (compare_markl_ids_refl x) ∙ ap (compare_markl_ids x) (first_of e) ∙ q)
          where
            first_of : m ∷ ys ≡ x ∷ xs → x ≡ m
            first_of e = cc

        below_apart : same ≡ below → ⊥
        below_apart e = cc

        above_apart : same ≡ above → ⊥
        above_apart e = cc

        go :
            (o : Order)
            → compare_markl_ids x m ≡ o
            → Advanced m cs
            → Advanced m ((own, x ∷ xs) ∷ cs)
        go same q a = Advanced-first own x xs cs (same_ids x m q) (as_order same q)
        go below q a = Advanced-cons own (x ∷ xs) cs a (as_order below q) (differs q below_apart)
        go above q a = Advanced-cons own (x ∷ xs) cs a (as_order above q) (differs q above_apart)

  merge-sequences :
      (fuel : ℕ) (cs : List Child)
      → (Lists reset cs → ⊥)
      → total cs < fuel
      → (ids : List MarklId) × (merge fuel (sequences cs) ≡ yields ids)
        × ((z : MarklId) → Memᴰ z ids ↔ Lists z cs)
  merge-sequences zero cs unlisted enough = absurd (omega arith)
  merge-sequences (suc fuel) cs unlisted enough = go (least_from none (ids_of cs)) refl (λ m less.
      let a = advance-Advanced m cs in
      merge-sequences fuel a.left (λ k. unlisted (a.kept reset k)) less)
    where
      nothing_at : {m : MarklId} → none ≡ some m → ⊥
      nothing_at e = cc

      go :
          (o : Option MarklId)
          → least_from none (ids_of cs) ≡ o
          → ((m : MarklId)
              → total (advance-Advanced m cs).left < fuel
              → (ids : List MarklId) × (merge fuel (sequences (advance-Advanced m cs).left)
                  ≡ yields ids)
                × ((z : MarklId) → Memᴰ z ids ↔ Lists z (advance-Advanced m cs).left))
          → (ids : List MarklId) × (merge (suc fuel) (sequences cs) ≡ yields ids)
            × ((z : MarklId) → Memᴰ z ids ↔ Lists z cs)
      go none q later =
          let (_, empty) = least_from-none (ids_of cs) none q in
          (
            [],
            merge_end fuel (sequences cs) (pending_errors-sequences cs) (past_errors-sequences cs)
                (minimum_from-sequences none cs ∙ q),
            λ z. (λ k. absurd (Memᴰ.not-nil k), λ k. absurd (empty-Lists cs z empty k)),
          )
      go (some m) q later = elim (least_from-first none (ids_of cs) q) [
        | inl e ↦ absurd (nothing_at e)
        | inr (xs, found) ↦
            let a = advance-Advanced m cs in
            let less = a.fewer found in
            let (ids, merged, listed) = later m (omega arith) in
            (
              m ∷ ids,
              merge_round fuel (sequences cs) (pending_errors-sequences cs)
                    (past_errors-sequences cs) (minimum_from-sequences none cs ∙ q) a.leaves
                  ∙ ap (λ l. yielded m ∷ l) merged,
              λ z. (
                λ k. elim (Memᴰ.cases_cons k) [
                  | inl e ↦ subst (λ y. Lists y cs) (sym e) (first-Lists cs found)
                  | inr k' ↦ a.kept z ((listed z).0 k')
                ],
                λ k. elim (a.lost z unlisted k) [
                  | inl e ↦ Memᴰ.head e
                  | inr k' ↦ Memᴰ.tail ((listed z).1 k')
                ],
              ),
            )
      ]

  -- The merge loses no id and makes up none: over children that list ids without errors, in any order
  -- and with any repetition, each child's ids either objects of their own or one object that it fills
  -- again and again, the merged sequence ends without errors and has an id exactly when some child
  -- lists it. What a child's object holds when it has gone back to its pool is no id that a child lists.
  pub all_blobs-lossless :
      (cs : List Child)
      → (Lists reset cs → ⊥)
      → (ids : List MarklId) × (all_blobs (sequences cs) ≡ yields ids)
        × ((z : MarklId) → Memᴰ z ids ↔ Lists z cs)
  unfolding all_blobs count_items total gives
  all_blobs-lossless cs unlisted =
      merge-sequences _ cs unlisted (omega (arith, count_items-sequences cs))
    where
      length-gives : (own : Bool) (xs : List MarklId) → length (gives own xs) ≡ length xs
      length-gives own [] = refl
      length-gives own (x ∷ xs) = ap suc (length-gives own xs)

      count_items-sequences : (cs : List Child) → count_items (sequences cs) ≡ total cs
      count_items-sequences [] = refl
      count_items-sequences (c ∷ cs) = omega (arith, length-gives c.0 c.1, count_items-sequences cs)
