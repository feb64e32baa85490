-- ===== src/Packing/Acyclic.antt =====
-- What LSHBandingSelector.SelectBases assigns.
use madder.Common.{ℕ, suc, ◌+◌, ◌<◌, ◌≡◌, ◌≢◌, refl, sym, ap, ◌∙◌, arith, List, [], ◌∷◌, ◌++◌}
use madder.Common.{Bool, true, false, ltb, ◌==◌, if◌then◌else◌, ◌||◌, ◌&&◌, All, get_elem?, Option}
use madder.Common.{All-get, none, some, inl, inr, length}
use madder.Packing.Selector.{BlobMetadata, LshBandingSelector, Eligible, Ratio, pool_from}
use madder.Packing.Selector.{candidates_from, assign_base, assign_best, assign_from, select_bases}
use madder.Packing.Assigned.{Precedes, IsGrowing, origin, ascending, best_of-All}
use madder.Packing.Assigned.{candidates_from-All}
use mathlib.Core.Path.{subst}
use native.Mathlib.Decide.{dec_lt}

All-append : (P : ℕ × ℕ → Type 0) (xs ys : List (ℕ × ℕ)) → All P xs → All P ys → All P (xs ++ ys)
All-append P [] ys a b = b
All-append P (x ∷ xs) ys (p, a) b = (p, All-append P xs ys a b)

kept_test :
    (size other i j : ℕ)
    → (ltb other size || ((size == other) && ltb j i)) ≡ false
    → j ≢ i
    → Precedes i size j other
kept_test size other i j h apart = elim (dec_lt size other) [
  | yes smaller ↦ inl smaller
  | no large ↦ inr (same_size large, earlier large)
]
  where
    same_size : (size < other → ⊥) → size ≡ other
    same_size large = ground arith

    earlier : (size < other → ⊥) → i < j
    earlier large = ground arith

module _ (s : LshBandingSelector) (blobs : List BlobMetadata) where
  grown :
      (i j : ℕ) (e base : Eligible)
      → get_elem? (pool_from s 0 blobs) i ≡ some e
      → get_elem? (pool_from s 0 blobs) j ≡ some base
      → Precedes i e.size j base.size
      → IsGrowing s blobs (e.original_index, base.original_index)
  grown i j e base p q before =
      let o = origin s 0 blobs i p in
      let o' = origin s 0 blobs j q in
      record {
        blob = o.blob;
        base = o'.blob;
        at_blob = ap (get_elem? blobs) (o.index ∙ omega arith) ∙ o.found;
        at_base = ap (get_elem? blobs) (o'.index ∙ omega arith) ∙ o'.found;
        blob_eligible = o.eligible;
        base_eligible = o'.eligible;
        precedes = elim before [
          | inl smaller ↦ inl (omega (arith, o.size, o'.size))
          | inr (same, earlier) ↦
              inr (sym o.size ∙ same ∙ o'.size, ascending s 0 blobs i j earlier p q)
        ];
      }

  assign_base-All :
      (i j : ℕ) (e : Eligible)
      → get_elem? (pool_from s 0 blobs) i ≡ some e
      → j ≢ i
      → All (IsGrowing s blobs) (assign_base s i e j (get_elem? (pool_from s 0 blobs) j))
  unfolding assign_base
  assign_base-All i j e p apart = go (get_elem? (pool_from s 0 blobs) j) refl
    where
      kept :
          (base : Eligible) (t : Bool)
          → get_elem? (pool_from s 0 blobs) j ≡ some base
          → (ltb base.size e.size || ((e.size == base.size) && ltb j i)) ≡ t
          → All (IsGrowing s blobs) (if t then [] else (e.original_index, base.original_index) ∷ [])
      kept base true q h = tt
      kept base false q h = (grown i j e base p q (kept_test e.size base.size i j h apart), tt)

      go :
          (o : Option Eligible)
          → get_elem? (pool_from s 0 blobs) j ≡ o
          → All (IsGrowing s blobs) (assign_base s i e j o)
      go none q = tt
      go (some base) q =
          kept base (ltb base.size e.size || ((e.size == base.size) && ltb j i)) q refl

  assign_best-All :
      (i : ℕ) (e : Eligible) (best : Option (ℕ × Ratio))
      → get_elem? (pool_from s 0 blobs) i ≡ some e
      → ((j : ℕ) (r : Ratio) → ◌≡◌ {A = Option (ℕ × Ratio)} best (some (j, r)) → j ≢ i)
      → All (IsGrowing s blobs) (assign_best s (pool_from s 0 blobs) i e best)
  unfolding assign_best
  assign_best-All i e none p other = tt
  assign_best-All i e (some (j, r)) p other =
      go (ltb 0 r.num) _ (assign_base-All i j e p (other j r refl))
    where
      go :
          (t : Bool) (l : List (ℕ × ℕ))
          → All (IsGrowing s blobs) l
          → All (IsGrowing s blobs) (if t then l else [])
      go true l a = a
      go false l a = tt

  module _ (arrange : List ℕ → List ℕ)
      (keeps : (P : ℕ → Type 0) (l : List ℕ) → All P l → All P (arrange l)) where
    assign_from-All :
        (i : ℕ) (rest : List Eligible)
        → ((k : ℕ) (d : Eligible)
            → get_elem? rest k ≡ some d
            → get_elem? (pool_from s 0 blobs) (i + k) ≡ some d)
        → All (IsGrowing s blobs) (assign_from s arrange (pool_from s 0 blobs) i rest)
    unfolding assign_from
    assign_from-All i [] within = tt
    assign_from-All i (e ∷ rest) within =
        let pool = pool_from s 0 blobs in
        All-append (IsGrowing s blobs) _ _
          (assign_best-All i e _
            (subst (λ m. get_elem? pool m ≡ some e) (omega arith) (within 0 e refl))
            (λ j r found.
              best_of-All s (λ k. k ≢ i) pool e none (arrange (candidates_from s i e 0 pool))
                (λ k t h. absurd (nothing h))
                (keeps (λ k. k ≢ i) (candidates_from s i e 0 pool)
                  (candidates_from-All s i e 0 pool))
                found))
          (assign_from-All (i + 1) rest
            (λ k d h. subst (λ m. get_elem? pool m ≡ some d) (omega arith) (within (suc k) d h)))
      where
        nothing : {k : ℕ} {t : Ratio} → ◌≡◌ {A = Option (ℕ × Ratio)} none (some (k, t)) → ⊥
        nothing h = cc

    -- In every assignment both blobs are eligible, and the base is larger, or as large and later in the
    -- list, whatever the order in which the map of candidates is gone through.
    pub select_bases-IsGrowing : All (IsGrowing s blobs) (select_bases s arrange blobs)
    unfolding select_bases
    select_bases-IsGrowing = unless ((s.bands == 0) || (s.rows_per_band == 0)) _ (
        unless (ltb (length blobs) 2) _ (
          unless (ltb (length (pool_from s 0 blobs)) 2) _ (
            assign_from-All 0 (pool_from s 0 blobs)
              (λ k d h. subst (λ m. get_elem? (pool_from s 0 blobs) m ≡ some d) (omega arith) h))))
      where
        unless :
            (t : Bool) (l : List (ℕ × ℕ))
            → All (IsGrowing s blobs) l
            → All (IsGrowing s blobs) (if t then [] else l)
        unless true l a = tt
        unless false l a = a

-- One delta rests on another through a run of assignments.
pub data Rests (l : List (ℕ × ℕ)) : ℕ → ℕ → Type 0 where
  once : {i j : ℕ} (k : ℕ) → get_elem? l k ≡ some (i, j) → Rests l i j
  more : {i j m : ℕ} (k : ℕ) → get_elem? l k ≡ some (i, j) → Rests l j m → Rests l i m

module _ (s : LshBandingSelector) (blobs : List BlobMetadata) (l : List (ℕ × ℕ))
    (growing : All (IsGrowing s blobs) l) where
  -- The two ends of a run of assignments.
  record Ends (i j : ℕ) : Type 0 where
    pub lower : BlobMetadata
    pub upper : BlobMetadata
    pub at_lower : get_elem? blobs i ≡ some lower
    pub at_upper : get_elem? blobs j ≡ some upper
    pub before : Precedes i lower.size j upper.size

  step-Ends : {i j : ℕ} (k : ℕ) → get_elem? l k ≡ some (i, j) → Ends i j
  step-Ends k h =
      let g = All-get (IsGrowing s blobs) l k growing h in
      record {
        lower = g.blob;
        upper = g.base;
        at_lower = g.at_blob;
        at_upper = g.at_base;
        before = g.precedes;
      }

  joined :
      {i j m : ℕ} {a b c d : ℕ} → Precedes i a j b → b ≡ c → Precedes j c m d → Precedes i a m d
  joined (inl h) e (inl k) = inl (omega arith)
  joined (inl h) e (inr (k, t)) = inl (omega arith)
  joined (inr (h, t)) e (inl k) = inl (omega arith)
  joined (inr (h, t)) e (inr (k, u)) = inr (omega arith, omega arith)

  one_blob :
      (i : ℕ) {x y : BlobMetadata}
      → get_elem? blobs i ≡ some x
      → get_elem? blobs i ≡ some y
      → x.size ≡ y.size
  one_blob i {x} {y} p q = ap (λ (b : BlobMetadata). b.size) (same (sym p ∙ q))
    where
      same : some x ≡ some y → x ≡ y
      same h = cc

  run-Ends : {i j : ℕ} → Rests l i j → Ends i j
  run-Ends (once k h) = step-Ends k h
  run-Ends (more k h rest) =
      let a = step-Ends k h in
      let b = run-Ends rest in
      record {
        lower = a.lower;
        upper = b.upper;
        at_lower = a.at_lower;
        at_upper = b.at_upper;
        before = joined a.before (one_blob _ a.at_upper b.at_lower) b.before;
      }

  not_before : {i : ℕ} {a b : ℕ} → a ≡ b → Precedes i a i b → ⊥
  not_before e (inl h) = omega arith
  not_before e (inr (h, t)) = omega arith

  pub no_cycle : (i : ℕ) → Rests l i i → ⊥
  no_cycle i h = let e = run-Ends h in not_before (one_blob i e.at_lower e.at_upper) e.before

-- No run of assignments, each from a blob to its base, leads from a blob back to itself, whatever the
-- order in which the map of candidates is gone through.
pub select_bases-acyclic :
    (s : LshBandingSelector) (blobs : List BlobMetadata) (arrange : List ℕ → List ℕ)
    → ((P : ℕ → Type 0) (l : List ℕ) → All P l → All P (arrange l))
    → (i : ℕ) → ¬ Rests (select_bases s arrange blobs) i i
select_bases-acyclic s blobs arrange keeps i =
    no_cycle s blobs (select_bases s arrange blobs) (select_bases-IsGrowing s blobs arrange keeps) i
