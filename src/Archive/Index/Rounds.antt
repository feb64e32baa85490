-- ===== src/Archive/Index/Rounds.antt =====
-- The binary search of index_v1.go ends.
use madder.Common.{ℕ, zero, suc, ◌+◌, ◌-◌, ◌/◌, ◌^◌, ◌≤◌, ◌<◌, ◌≡◌, ◌≢◌, sym, ap, ◌∙◌, arith}
use madder.Common.{Bool, true, false, length, take, drop, leb, if◌then◌else◌, some}
use madder.Common.{le→ltb, lt→ltb, Option, none}
use madder.Common.Bytes.{Bytes, Order, below, same, above, compare_bytes}
use madder.Archive.Types.{Result, ok, err, Error, ◌>>=◌, IndexEntryV1, out_of_rounds, short_read}
use madder.Archive.Index.Reader.{
  IndexReaderV1, read_at, decode_entry, search_range, read_entry_at, Place, place_of,
}
use native.Mathlib.Decide.{dec_lt}
use native.Mathlib.Nat.{pow-suc, add-suc}

module _ {A : Type 0} where
  -- A loop that ended.
  abbrev Ends : Result A → Type 0
  Ends r = r ≢ err out_of_rounds

  ok-Ends : (x : A) → Ends (ok x)
  ok-Ends x h = cc

  short-Ends : Ends (err short_read)
  short-Ends h = cc

module _ {A B : Type 0} where
  err-Ends :
      (e : Error)
      → (◌≢◌ {A = Result A} (err e) (err out_of_rounds))
      → ◌≢◌ {A = Result B} (err e) (err out_of_rounds)
  err-Ends e ends h = ends (same_error h)
    where
      same_error :
          ◌≡◌ {A = Result B} (err e) (err out_of_rounds)
          → ◌≡◌ {A = Result A} (err e) (err out_of_rounds)
      same_error h = cc

read_at-Ends : (file : Bytes) (n off : ℕ) → Ends (read_at file n off)
unfolding read_at
read_at-Ends file n off = go (leb (2 ^ 63) off) (leb (off + n) (length file))
  where
    go :
        (far long : Bool)
        → Ends (
            if far
            then err short_read
            else if long
            then ok (take n (drop off file))
            else err short_read)
    go true long = short-Ends
    go false true = ok-Ends _
    go false false = short-Ends

read_entry_at-Ends : (ir : IndexReaderV1) (index : ℕ) → Ends (read_entry_at ir index)
unfolding read_entry_at
read_entry_at-Ends ir index = go (read_at ir.reader _ _) (read_at-Ends ir.reader _ _)
  where
    go : (r : Result Bytes) → Ends r → Ends (r >>= λ buf. ok (decode_entry ir.hash_size buf))
    go (err e) ends = err-Ends e ends
    go (ok buf) ends = ok-Ends _

module _ (ir : IndexReaderV1) (hash : Bytes) where
  search_range_done : (k lo hi : ℕ) → hi ≤ lo → search_range ir hash k lo hi ≡ ok none
  unfolding search_range
  search_range_done zero lo hi h = rw (le→ltb lo hi h, if◌then◌else◌)
  search_range_done (suc k) lo hi h = rw (le→ltb lo hi h, if◌then◌else◌)

  search_range_round :
      (k lo hi : ℕ)
      → lo < hi
      → search_range ir hash (suc k) lo hi ≡ (do
        entry ← read_entry_at ir (lo + (hi - lo) / 2)
        elim (compare_bytes hash entry.hash) [
          | same ↦ ok (some (place_of entry))
          | below ↦ search_range ir hash k lo (lo + (hi - lo) / 2)
          | above ↦ search_range ir hash k (lo + (hi - lo) / 2 + 1) hi
        ])
  unfolding search_range
  search_range_round k lo hi h = rw (lt→ltb lo hi h, if◌then◌else◌)

  search_range_again :
      (fuel more lo hi : ℕ)
      → hi - lo < 2 ^ fuel
      → search_range ir hash (more + fuel) lo hi ≡ search_range ir hash fuel lo hi
  search_range_again zero more lo hi h =
      search_range_done (more + 0) lo hi (omega arith)
      ∙ sym (search_range_done 0 lo hi (omega arith))
  search_range_again (suc fuel) more lo hi h = elim (dec_lt lo hi) [
    | no empty ↦
        search_range_done (more + suc fuel) lo hi (omega arith)
        ∙ sym (search_range_done (suc fuel) lo hi (omega arith))
    | yes lt ↦
        let left =
          search_range_again fuel more lo (lo + (hi - lo) / 2) (omega (arith, pow-suc 2 fuel)) in
        let right =
          search_range_again fuel more (lo + (hi - lo) / 2 + 1) hi
            (omega (arith, pow-suc 2 fuel)) in
        ap (λ k. search_range ir hash k lo hi) (add-suc more fuel)
        ∙ search_range_round (more + fuel) lo hi lt
        ∙ (λ i. do
          entry ← read_entry_at ir (lo + (hi - lo) / 2)
          elim (compare_bytes hash entry.hash) [
            | same ↦ ok (some (place_of entry))
            | below ↦ left i
            | above ↦ right i
          ])
        ∙ sym (search_range_round fuel lo hi lt)
  ]

  after_entry-Ends :
      (lo mid hi k : ℕ) (r : Result IndexEntryV1)
      → Ends r
      → Ends (search_range ir hash k lo mid)
      → Ends (search_range ir hash k (mid + 1) hi)
      → Ends (do
        entry ← r
        elim (compare_bytes hash entry.hash) [
          | same ↦ ok (some (place_of entry))
          | below ↦ search_range ir hash k lo mid
          | above ↦ search_range ir hash k (mid + 1) hi
        ])
  after_entry-Ends lo mid hi k (err e) ends left right = err-Ends e ends
  after_entry-Ends lo mid hi k (ok entry) ends left right = go (compare_bytes hash entry.hash)
    where
      go :
          (o : Order)
          → Ends (elim o as (λ x. Result (Option Place)) [
            | same ↦ ok (some (place_of entry))
            | below ↦ search_range ir hash k lo mid
            | above ↦ search_range ir hash k (mid + 1) hi
          ])
      go same = ok-Ends _
      go below = left
      go above = right

  search_range-Ends : (fuel lo hi : ℕ) → hi - lo < 2 ^ fuel → Ends (search_range ir hash fuel lo hi)
  search_range-Ends zero lo hi h =
      λ e. ok-Ends none (sym (search_range_done 0 lo hi (omega arith)) ∙ e)
  search_range-Ends (suc fuel) lo hi h = elim (dec_lt lo hi) [
    | no empty ↦ λ e. ok-Ends none (sym (search_range_done (suc fuel) lo hi (omega arith)) ∙ e)
    | yes lt ↦ λ e.
        after_entry-Ends lo (lo + (hi - lo) / 2) hi fuel (read_entry_at ir (lo + (hi - lo) / 2))
          (read_entry_at-Ends ir (lo + (hi - lo) / 2))
          (search_range-Ends fuel lo (lo + (hi - lo) / 2) (omega (arith, pow-suc 2 fuel)))
          (search_range-Ends fuel (lo + (hi - lo) / 2 + 1) hi (omega (arith, pow-suc 2 fuel)))
          (sym (search_range_round fuel lo hi lt) ∙ e)
  ]

  -- The binary search between two bounds that are less than 2^fuel apart ends within `fuel` rounds on
  -- any file, sound or not: it does not run out of them, and more of them change nothing.
  pub search_range_rounds :
      (fuel more lo hi : ℕ)
      → hi - lo < 2 ^ fuel
      → (search_range ir hash fuel lo hi ≢ err out_of_rounds)
        × (search_range ir hash (more + fuel) lo hi ≡ search_range ir hash fuel lo hi)
  search_range_rounds fuel more lo hi h =
      (search_range-Ends fuel lo hi h, search_range_again fuel more lo hi h)
