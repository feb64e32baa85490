-- ===== src/Common/Tables.antt =====
-- A Go map from strings: each key stands once, and a store into the map replaces.
pub mod Last
use mathlib.Core.Path.{◌≡◌, refl, ap, ◌∙◌, sym}
use mathlib.Core.Logic.{◌⊎◌, inl, inr}
use mathlib.Core.Bool.{Bool, true, false}
use mathlib.Core.List.{List, [], ◌∷◌}
use mathlib.Core.Option.{Option, none, some}
use Prim.Native.Nat.{ℕ, suc}
use madder.Common.Lists.{get_elem?, All, All-get}
use madder.Common.Tests.{if◌then◌else◌, Bool-cases}
use madder.Common.Bytes.{Bytes, equal_bytes, equal_bytes_refl, equal_bytes→eq}

abbrev pub Table {ℓ} : Type ℓ → Type ℓ
Table V = List (Bytes × V)

module _ {ℓ} {V : Type ℓ} where
  unfoldable pub insert : Bytes → V → Table V → Table V
  insert k v [] = (k, v) ∷ []
  insert k v ((j, w) ∷ rest) =
      let later = insert k v rest in if equal_bytes k j then (k, v) ∷ rest else (j, w) ∷ later

  unfoldable pub lookup : Bytes → Table V → Option V
  lookup k [] = none
  lookup k ((j, w) ∷ rest) = let later = lookup k rest in if equal_bytes k j then some w else later

  pub lookup-insert : (k : Bytes) (v : V) (t : Table V) → lookup k (insert k v t) ≡ some v
  unfolding insert lookup
  lookup-insert k v [] = rw (equal_bytes_refl k, if◌then◌else◌)
  lookup-insert k v ((j, w) ∷ rest) = go (lookup-insert k v rest) (equal_bytes k j) refl
    where
      go :
          lookup k (insert k v rest) ≡ some v
          → (q : Bool) → equal_bytes k j ≡ q
          → lookup k (if q then (k, v) ∷ rest else (j, w) ∷ insert k v rest) ≡ some v
      go later true e = rw (equal_bytes_refl k, if◌then◌else◌)
      go later false e = rw (e, if◌then◌else◌) later

  pub lookup-insert-other :
      (k j : Bytes) (v : V) (t : Table V)
      → equal_bytes j k ≡ false
      → lookup j (insert k v t) ≡ lookup j t
  unfolding insert lookup
  lookup-insert-other k j v [] apart = rw (apart, if◌then◌else◌)
  lookup-insert-other k j v ((i, w) ∷ rest) apart =
      go (lookup-insert-other k j v rest apart) (equal_bytes k i) refl
    where
      replaced : (e : equal_bytes k i ≡ true) → equal_bytes j i ≡ false
      replaced e = sym (ap (equal_bytes j) (equal_bytes→eq k i e)) ∙ apart

      go :
          lookup j (insert k v rest) ≡ lookup j rest
          → (q : Bool) → equal_bytes k i ≡ q
          → lookup j (if q then (k, v) ∷ rest else (i, w) ∷ insert k v rest)
            ≡ (if equal_bytes j i then some w else lookup j rest)
      go later true e = rw (apart, replaced e, if◌then◌else◌)
      go later false e = ap (λ r. if equal_bytes j i then some w else r) later

-- The loop that stores each element of a list under its key.
module _ {ℓ κ} {A : Type ℓ} {V : Type κ} (key : A → Bytes) (value : A → V) where
  unfoldable pub insert_all : List A → Table V → Table V
  insert_all [] t = t
  insert_all (x ∷ xs) t = insert_all xs (insert (key x) (value x) t)

  -- What a lookup finds when it finds an element of the list.
  pub record Found (xs : List A) (k : Bytes) (o : Option V) : Type (ℓ ⊔ κ) where
    pub idx : ℕ
    pub item : A
    pub found : get_elem? xs idx ≡ some item
    pub keyed : key item ≡ k
    pub stored : o ≡ some (value item)

  -- A key of no element keeps what it had.
  insert_all_or :
      (xs : List A) (t : Table V) (k : Bytes)
      → Found xs k (lookup k (insert_all xs t))
        ⊎ ((lookup k (insert_all xs t) ≡ lookup k t) × All (λ x. equal_bytes k (key x) ≡ false) xs)
  unfolding insert_all
  insert_all_or [] t k = inr (refl, tt)
  insert_all_or (x ∷ xs) t k =
      let t' = insert (key x) (value x) t in
      elim (insert_all_or xs t' k) [
        | inl f ↦ inl (record {
          idx = suc f.idx;
          item = f.item;
          found = f.found;
          keyed = f.keyed;
          stored = f.stored;
        })
        | inr (kept, apart) ↦ elim (Bool-cases (equal_bytes k (key x))) [
          | inl same ↦ inl (record {
            idx = 0;
            item = x;
            found = refl;
            keyed = sym (equal_bytes→eq k (key x) same);
            stored =
                kept
                ∙ ap (λ j. lookup j t') (equal_bytes→eq k (key x) same)
                ∙ lookup-insert (key x) (value x) t;
          })
          | inr differs ↦
              inr (kept ∙ lookup-insert-other (key x) k (value x) t differs, (differs, apart))
        ]
      ]

  -- The key of an element is found, as an element with that key.
  pub insert_all-Found :
      (xs : List A) (t : Table V) (i : ℕ) {x : A} (k : Bytes)
      → get_elem? xs i ≡ some x
      → key x ≡ k
      → Found xs k (lookup k (insert_all xs t))
  insert_all-Found xs t i {x} k h same = elim (insert_all_or xs t k) [
    | inl f ↦ f
    | inr (kept, apart) ↦ absurd (clash (All-get (λ y. equal_bytes k (key y) ≡ false) xs i apart h))
  ]
    where
      clash : equal_bytes k (key x) ≡ false → ⊥
      clash q = differ (sym (equal_bytes_refl k) ∙ ap (equal_bytes k) (sym same) ∙ q)
        where
          differ : true ≡ false → ⊥
          differ p = cc
