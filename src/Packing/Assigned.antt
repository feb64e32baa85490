-- ===== src/Packing/Assigned.antt =====
-- The pool of base_selector_lsh.go, its candidates, and what an assignment says of two blobs.
use madder.Common.{ℕ, zero, suc, ◌+◌, ◌<◌, ◌≡◌, ◌≢◌, refl, sym, ap, ◌∙◌, arith, List, [], ◌∷◌}
use madder.Common.{Bool, true, false, not, ◌==◌, if◌then◌else◌, ◌&&◌, All, get_elem?, Option}
use madder.Common.{none, some, ◌⊎◌}
use madder.Packing.Selector.{BlobMetadata, LshBandingSelector, Eligible, Ratio, pool_from, best_of}
use madder.Packing.Selector.{candidates_from, share_bucket, better, similarity}
use madder.Packing.Selector.{is_eligible, more_than}
use mathlib.Core.Path.{subst}

-- The blob comes before its base: it is smaller, or as large and earlier.
abbrev pub Precedes : ℕ → ℕ → ℕ → ℕ → Type 0
Precedes i size j larger = (size < larger) ⊎ ((size ≡ larger) × (i < j))

-- What an assignment of the i-th blob to the j-th says of the two.
pub record IsGrowing (s : LshBandingSelector) (blobs : List BlobMetadata) (p : ℕ × ℕ) : Type 0 where
  pub blob : BlobMetadata
  pub base : BlobMetadata
  pub at_blob : get_elem? blobs p.0 ≡ some blob
  pub at_base : get_elem? blobs p.1 ≡ some base
  pub blob_eligible : is_eligible s blob ≡ true
  pub base_eligible : is_eligible s base ≡ true
  pub precedes : Precedes p.0 blob.size p.1 base.size

module _ (s : LshBandingSelector) where
  -- Where an element of the pool comes from.
  pub record Origin (start : ℕ) (blobs : List BlobMetadata) (e : Eligible) : Type 0 where
    pub offset : ℕ
    pub index : e.original_index ≡ start + offset
    pub blob : BlobMetadata
    pub found : get_elem? blobs offset ≡ some blob
    pub size : e.size ≡ blob.size
    pub eligible : is_eligible s blob ≡ true

  pub origin :
      (start : ℕ) (blobs : List BlobMetadata) (k : ℕ) {e : Eligible}
      → get_elem? (pool_from s start blobs) k ≡ some e
      → Origin start blobs e
  unfolding pool_from
  origin start [] k p = absurd (cc)
  origin start (blob ∷ blobs) k {e} p =
      go (is_eligible s blob) refl k p (λ m q. later (origin (start + 1) blobs m q))
    where
      later : Origin (start + 1) blobs e → Origin start (blob ∷ blobs) e
      later o = record {
        offset = suc o.offset;
        index = o.index ∙ omega arith;
        blob = o.blob;
        found = o.found;
        size = o.size;
        eligible = o.eligible;
      }

      same : {x : Eligible} → some x ≡ some e → x ≡ e
      same q = cc

      go :
          (q : Bool)
          → is_eligible s blob ≡ q
          → (k : ℕ)
          → get_elem?
              (if q
                then record { original_index = start; signature = blob.signature; size = blob.size }
                  ∷ pool_from s (start + 1) blobs
                else pool_from s (start + 1) blobs)
              k
            ≡ some e
          → ((m : ℕ)
              → get_elem? (pool_from s (start + 1) blobs) m ≡ some e
              → Origin start (blob ∷ blobs) e)
          → Origin start (blob ∷ blobs) e
      go true yes_eligible zero q rest = record {
        offset = 0;
        index = sym (ap (λ (x : Eligible). x.original_index) (same q)) ∙ omega arith;
        blob = blob;
        found = refl;
        size = sym (ap (λ (x : Eligible). x.size) (same q));
        eligible = yes_eligible;
      }
      go true yes_eligible (suc k) q rest = rest k q
      go false none_eligible k q rest = rest k q

  -- The pool keeps the order of the blobs.
  pub ascending :
      (start : ℕ) (blobs : List BlobMetadata) (j k : ℕ) {d e : Eligible}
      → j < k
      → get_elem? (pool_from s start blobs) j ≡ some d
      → get_elem? (pool_from s start blobs) k ≡ some e
      → d.original_index < e.original_index
  unfolding pool_from
  ascending start [] j k h p q = absurd (cc)
  ascending start (blob ∷ blobs) j k {d} {e} h p q =
      go (is_eligible s blob) j k h p q (λ i m f g r. ascending (start + 1) blobs i m f g r)
    where
      same : {x : Eligible} → some x ≡ some d → x ≡ d
      same r = cc

      go :
          (b : Bool) (j k : ℕ)
          → j < k
          → get_elem?
              (if b
                then record { original_index = start; signature = blob.signature; size = blob.size }
                  ∷ pool_from s (start + 1) blobs
                else pool_from s (start + 1) blobs)
              j
            ≡ some d
          → get_elem?
              (if b
                then record { original_index = start; signature = blob.signature; size = blob.size }
                  ∷ pool_from s (start + 1) blobs
                else pool_from s (start + 1) blobs)
              k
            ≡ some e
          → ((i m : ℕ)
              → i < m
              → get_elem? (pool_from s (start + 1) blobs) i ≡ some d
              → get_elem? (pool_from s (start + 1) blobs) m ≡ some e
              → d.original_index < e.original_index)
          → d.original_index < e.original_index
      go true j zero h p q rest = absurd (omega arith)
      go true zero (suc k) h p q rest =
          let o = origin (start + 1) blobs k q in
          omega (arith, ap (λ (x : Eligible). x.original_index) (same p), o.index)
      go true (suc j) (suc k) h p q rest = rest j k (omega arith) p q
      go false j k h p q rest = rest j k h p q

  -- The loops keep what holds of every candidate.
  module _ {ℓ} (P : ℕ → Type ℓ) where
    pub best_of-All :
        (pool : List Eligible) (e : Eligible) (best : Option (ℕ × Ratio)) (js : List ℕ) {j : ℕ}
        {r : Ratio}
        → ((k : ℕ) (t : Ratio) → best ≡ some (k, t) → P k)
        → All P js
        → best_of s pool e best js ≡ some (j, r)
        → P j
    unfolding best_of
    best_of-All pool e best [] {j} {r} known all found = known j r found
    best_of-All pool e best (k ∷ ks) known (one, rest) found =
        best_of-All pool e (better s (similarity s pool e k) best k) ks
          (chosen (similarity s pool e k) best known) rest found
      where
        chosen :
            (o : Option Ratio) (b : Option (ℕ × Ratio))
            → ((k : ℕ) (t : Ratio) → b ≡ some (k, t) → P k)
            → (i : ℕ) (t : Ratio) → better s o b k ≡ some (i, t)
            → P i
        chosen none b known i t h = known i t h
        chosen (some sim) none known i t h = subst P (same h) one
          where
            same :
                {x : ℕ} {y : Ratio}
                → ◌≡◌ {A = Option (ℕ × Ratio)} (some (x, y)) (some (i, t))
                → x ≡ i
            same q = cc
        chosen (some sim) (some (l, top)) known i t h = go (more_than sim top) h
          where
            same :
                {x : ℕ} {y : Ratio}
                → ◌≡◌ {A = Option (ℕ × Ratio)} (some (x, y)) (some (i, t))
                → x ≡ i
            same q = cc

            go :
                (q : Bool)
                → ◌≡◌ {A = Option (ℕ × Ratio)}
                    (if q then some (k, sim) else some (l, top))
                    (some (i, t))
                → P i
            go true q = subst P (same q) one
            go false q = known i t q

  pub candidates_from-All :
      (i : ℕ) (e : Eligible) (j : ℕ) (pool : List Eligible)
      → All (λ k. k ≢ i) (candidates_from s i e j pool)
  unfolding candidates_from
  candidates_from-All i e j [] = tt
  candidates_from-All i e j (other ∷ rest) =
      go (j == i) (share_bucket s s.bands e other) refl (candidates_from-All i e (j + 1) rest)
    where
      apart : (j == i) ≡ false → j ≢ i
      apart h k = absurd (ground arith)

      go :
          (p q : Bool)
          → (j == i) ≡ p
          → All (λ k. k ≢ i) (candidates_from s i e (j + 1) rest)
          → All
              (λ k. k ≢ i)
              (if not p && q
                then j ∷ candidates_from s i e (j + 1) rest
                else candidates_from s i e (j + 1) rest)
      go true q h later = later
      go false true h later = (apart h, later)
      go false false h later = later
