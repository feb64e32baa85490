-- ===== src/ScopedId/Ordering.antt =====
-- The order of Id.Less, one part of an id after the other.
use madder.Common.{ℕ, ◌<◌, ◌≡◌, refl, sym, ap, ◌∙◌, arith, ◌⊎◌, inl, inr, ◌↔◌}
use madder.Common.{Bool, true, false, not, ltb, ◌==◌, if◌then◌else◌, eq→==}
use madder.Common.Bytes.{Bytes, Order, below, same, above, compare_bytes, equal_bytes}
use madder.Common.Bytes.{equal_bytes_refl, equal_bytes→eq, compare_bytes_refl, compare_bytes_trans}
use mathlib.Core.Path.{subst}
use madder.ScopedId.Id.{rank, Markl, ScopedId, less, is_below}

-- The key decides, and the rest where the keys are equal.
module _ {A K : Type 0} (key : A → K) (lt : K → K → Type 0) (rest : A → A → Type 0) where
  abbrev Lex : A → A → Type 0
  Lex a b = lt (key a) (key b) ⊎ ((key a ≡ key b) × rest a b)

  Lex-trans :
      ((x y z : K) → lt x y → lt y z → lt x z)
      → ((a b c : A) → rest a b → rest b c → rest a c)
      → (a b c : A) → Lex a b
      → Lex b c
      → Lex a c
  Lex-trans t u a b c (inl p) (inl q) = inl (t _ _ _ p q)
  Lex-trans t u a b c (inl p) (inr (e, q)) = inl (subst (lt (key a)) e p)
  Lex-trans t u a b c (inr (e, p)) (inl q) = inl (subst (λ k. lt k (key c)) (sym e) q)
  Lex-trans t u a b c (inr (e, p)) (inr (f, q)) = inr (e ∙ f, u a b c p q)

IsBelow : Bytes → Bytes → Type 0
IsBelow x y = compare_bytes x y ≡ below

IsPlainFirst : Bool → Bool → Type 0
IsPlainFirst a b = (a ≡ false) × (b ≡ true)

false_ne_true : false ≡ true → ⊥
false_ne_true h = cc

-- One part of Less.
layer :
    {P E R : Type 0} (p q r : Bool)
    → (p ≡ true) ↔ E
    → (q ≡ true) ↔ P
    → (E → P → ⊥)
    → (r ≡ true) ↔ R
    → (if not p then q else r) ≡ true ↔ (P ⊎ (E × R))
layer true q r (to_e, of_e) (to_p, of_p) apart (to_r, of_r) = (
  (λ h. inr (to_e refl, to_r h)),
  λ s. elim s [ inl x ↦ absurd (apart (to_e refl) x) | inr (e, x) ↦ of_r x ],
)
layer false q r (to_e, of_e) (to_p, of_p) apart (to_r, of_r) = (
  (λ h. inl (to_p h)),
  λ s. elim s [ inl x ↦ of_p x | inr (e, x) ↦ absurd (false_ne_true (of_e e)) ],
)

eq_test : (x y : ℕ) → ((x == y) ≡ true) ↔ (x ≡ y)
eq_test x y = ((λ h. ground arith), eq→== x y)

lt_test : (x y : ℕ) → (ltb x y ≡ true) ↔ (x < y)
lt_test x y = ((λ h. ground arith), λ h. ground arith)

eq_lt : (x y : ℕ) → x ≡ y → x < y → ⊥
eq_lt x y e h = omega arith

bytes_test : (x y : Bytes) → (equal_bytes x y ≡ true) ↔ (x ≡ y)
bytes_test x y = (equal_bytes→eq x y, λ e. ap (equal_bytes x) (sym e) ∙ equal_bytes_refl x)

below_test : (o : Order) → (is_below o ≡ true) ↔ (o ≡ below)
below_test below = ((λ h. refl), λ h. refl)
below_test same = ((λ h. absurd (false_ne_true h)), λ h. ap is_below h)
below_test above = ((λ h. absurd (false_ne_true h)), λ h. ap is_below h)

eq_below : (x y : Bytes) → x ≡ y → IsBelow x y → ⊥
unfolding IsBelow
eq_below x y e h = apart (sym (compare_bytes_refl x) ∙ ap (compare_bytes x) e ∙ h)
  where
    apart : same ≡ below → ⊥
    apart k = cc

module _ {D : Type 0} (markl : Markl D) where
  ByDigest : ScopedId D → ScopedId D → Type 0
  ByDigest a b = IsBelow (markl.data_bytes a.digest) (markl.data_bytes b.digest)

  ByMark : ScopedId D → ScopedId D → Type 0
  ByMark = Lex (λ (a : ScopedId D). a.remote_first) IsPlainFirst ByDigest

  ByDepth : ScopedId D → ScopedId D → Type 0
  ByDepth = Lex (λ (a : ScopedId D). a.cwd_depth) (λ i j. i < j) ByMark

  ByName : ScopedId D → ScopedId D → Type 0
  ByName = Lex (λ (a : ScopedId D). a.name) IsBelow ByDepth

  ByRank : ScopedId D → ScopedId D → Type 0
  ByRank = Lex (λ (a : ScopedId D). rank a.location) (λ i j. i < j) ByName

  mark_test :
      (x y digests : Bool) {R : Type 0}
      → (digests ≡ true) ↔ R
      → ((elim x as (λ z. Bool) [
        | true ↦ elim y as (λ z. Bool) [ true ↦ digests | false ↦ false ]
        | false ↦ elim y as (λ z. Bool) [ true ↦ true | false ↦ digests ]
      ])
          ≡ true)
        ↔ (IsPlainFirst x y ⊎ ((x ≡ y) × R))
  unfolding IsPlainFirst
  mark_test true true digests (to, of) = (
    (λ h. inr (refl, to h)),
    λ s. elim s [ inl (e, f) ↦ absurd (false_ne_true (sym e)) | inr (e, r) ↦ of r ],
  )
  mark_test true false digests (to, of) = (
    (λ h. absurd (false_ne_true h)),
    λ s. elim s [
      | inl (e, f) ↦ absurd (false_ne_true f)
      | inr (e, r) ↦ absurd (false_ne_true (sym e))
    ],
  )
  mark_test false true digests (to, of) = ((λ h. inl (refl, refl)), λ s. refl)
  mark_test false false digests (to, of) = (
    (λ h. inr (refl, to h)),
    λ s. elim s [ inl (e, f) ↦ absurd (false_ne_true f) | inr (e, r) ↦ of r ],
  )

  less_iff : (a b : ScopedId D) → (less markl a b ≡ true) ↔ ByRank a b
  unfolding less ByRank ByName ByDepth ByMark ByDigest IsBelow
  less_iff a b =
      layer _ _ _ (eq_test (rank a.location) (rank b.location))
        (lt_test (rank a.location) (rank b.location)) (eq_lt (rank a.location) (rank b.location))
        (layer _ _ _ (bytes_test a.name b.name) (below_test (compare_bytes a.name b.name))
          (eq_below a.name b.name)
          (layer _ _ _ (eq_test a.cwd_depth b.cwd_depth) (lt_test a.cwd_depth b.cwd_depth)
            (eq_lt a.cwd_depth b.cwd_depth)
            (mark_test a.remote_first b.remote_first _ (
              below_test (compare_bytes (markl.data_bytes a.digest) (markl.data_bytes b.digest))))))

  ByRank-trans : (a b c : ScopedId D) → ByRank a b → ByRank b c → ByRank a c
  unfolding ByRank ByName ByDepth ByMark ByDigest IsBelow IsPlainFirst
  ByRank-trans =
      Lex-trans (λ (a : ScopedId D). rank a.location) (λ i j. i < j) ByName
        (λ x y z p q. omega arith)
        (Lex-trans (λ (a : ScopedId D). a.name) IsBelow ByDepth
          (λ x y z p q. compare_bytes_trans x y z p q)
          (Lex-trans (λ (a : ScopedId D). a.cwd_depth) (λ i j. i < j) ByMark
            (λ x y z p q. omega arith)
            (Lex-trans (λ (a : ScopedId D). a.remote_first) IsPlainFirst ByDigest
              (λ x y z p q. (p.0, q.1))
              (λ a b c p q.
                compare_bytes_trans (markl.data_bytes a.digest) (markl.data_bytes b.digest)
                  (markl.data_bytes c.digest) p q))))

  -- `Less` is transitive.
  pub less_trans :
      (a b c : ScopedId D) → less markl a b ≡ true → less markl b c ≡ true → less markl a c ≡ true
  less_trans a b c h k =
      (less_iff a c).1 (ByRank-trans a b c ((less_iff a b).0 h) ((less_iff b c).0 k))

  ByRank-irreflexive : (a : ScopedId D) → ByRank a a → ⊥
  unfolding ByRank ByName ByDepth ByMark ByDigest IsBelow IsPlainFirst
  ByRank-irreflexive a (inl h) = omega arith
  ByRank-irreflexive a (inr (_, inl h)) = eq_below a.name a.name refl h
  ByRank-irreflexive a (inr (_, inr (_, inl h))) = omega arith
  ByRank-irreflexive a (inr (_, inr (_, inr (_, inl (e, f))))) = false_ne_true (sym e ∙ f)
  ByRank-irreflexive a (inr (_, inr (_, inr (_, inr (_, h))))) =
      eq_below (markl.data_bytes a.digest) (markl.data_bytes a.digest) refl h

  -- Of two ids at most one is less than the other by `Less`; in particular none is less than itself.
  pub less_asymm : (a b : ScopedId D) → less markl a b ≡ true → less markl b a ≡ false
  less_asymm a b h = go (less markl b a) refl
    where
      go : (t : Bool) → less markl b a ≡ t → less markl b a ≡ false
      go false e = e
      go true e =
          absurd
            (ByRank-irreflexive a (ByRank-trans a b a ((less_iff a b).0 h) ((less_iff b a).0 e)))
