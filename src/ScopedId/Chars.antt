-- ===== src/ScopedId/Chars.antt =====
-- The characters of a name, the prefixes, and the separator of the digest.
use madder.Common.{ℕ, zero, suc, ◌≡◌, refl, sym, ap, ◌∙◌, arith, [], ◌∷◌, ◌++◌, replicate}
use madder.Common.{Bool, true, false, if◌then◌else◌, ne→==, drop, All, none, some}
use madder.Common.Bytes.{Bytes}
use madder.ScopedId.Parse.{is_name_char, validate_name, cut, count_dots, is_prefix}

true_ne_false : true ≡ false → ⊥
true_ne_false h = cc

-- No prefix is a name's character, nor is "@".
module _ (b : ℕ) (h : is_name_char b ≡ true) where
  name_char-ne : (k : ℕ) → is_name_char k ≡ false → b ≡ k → ⊥
  name_char-ne k never e = true_ne_false (sym h ∙ ap is_name_char e ∙ never)

  pub name_char-ne_dot : b ≡ 46 → ⊥
  unfolding is_name_char
  name_char-ne_dot = name_char-ne 46 refl

  pub name_char-ne_slash : b ≡ 47 → ⊥
  unfolding is_name_char
  name_char-ne_slash = name_char-ne 47 refl

  pub name_char-ne_at : b ≡ 64 → ⊥
  unfolding is_name_char
  name_char-ne_at = name_char-ne 64 refl

  name_char-ne_tilde : b ≡ 126 → ⊥
  unfolding is_name_char
  name_char-ne_tilde = name_char-ne 126 refl

  name_char-ne_percent : b ≡ 37 → ⊥
  unfolding is_name_char
  name_char-ne_percent = name_char-ne 37 refl

  -- The underscore is both a character of names and a prefix.
  pub name_char-is_prefix : (b ≡ 95 → ⊥) → is_prefix b ≡ false
  unfolding is_prefix
  name_char-is_prefix other = rw (
    ne→== b 47 name_char-ne_slash,
    ne→== b 126 name_char-ne_tilde,
    ne→== b 46 name_char-ne_dot,
    ne→== b 95 other,
    ne→== b 37 name_char-ne_percent,
    if◌then◌else◌,
  )

pub validate_name-head :
    (b : ℕ) (bs : Bytes)
    → validate_name (b ∷ bs) ≡ true
    → (is_name_char b ≡ true) × (validate_name bs ≡ true)
unfolding validate_name
validate_name-head b bs h = both (is_name_char b) (validate_name bs) h
  where
    both : (p q : Bool) → if◌then◌else◌ {A = Bool} p q false ≡ true → (p ≡ true) × (q ≡ true)
    both true q h = (refl, h)
    both false q h = absurd (true_ne_false (sym h))

abbrev pub NoAt : Bytes → Type 0
NoAt xs = All (λ b. b ≡ 64 → ⊥) xs

pub validate_name-NoAt : (bs : Bytes) → validate_name bs ≡ true → NoAt bs
validate_name-NoAt [] h = tt
validate_name-NoAt (b ∷ bs) h =
    let (one, rest) = validate_name-head b bs h in
    (name_char-ne_at b one, validate_name-NoAt bs rest)

pub cut-none : (xs : Bytes) → NoAt xs → cut xs ≡ (xs, none)
unfolding cut
cut-none [] h = refl
cut-none (b ∷ bs) (one, rest) = rw (ne→== b 64 one, cut-none bs rest, if◌then◌else◌)

pub cut-at : (xs ys : Bytes) → NoAt xs → cut (xs ++ (64 ∷ ys)) ≡ (xs, some ys)
unfolding cut
cut-at [] ys h = refl
cut-at (b ∷ bs) ys (one, rest) = rw (ne→== b 64 one, cut-at bs ys rest, if◌then◌else◌)

pub replicate-NoAt : (n : ℕ) (xs : Bytes) → NoAt xs → NoAt (replicate n 46 ++ xs)
replicate-NoAt zero xs h = h
replicate-NoAt (suc n) xs h = ((λ e. absurd (omega arith)), replicate-NoAt n xs h)

-- The dots in front of a name are counted.
module _ (b : ℕ) (bs : Bytes) (h : is_name_char b ≡ true) where
  pub count_dots-replicate : (n : ℕ) → count_dots (replicate n 46 ++ (b ∷ bs)) ≡ n
  unfolding count_dots
  count_dots-replicate zero = rw (ne→== b 46 (name_char-ne_dot b h), if◌then◌else◌)
  count_dots-replicate (suc n) = ap suc (count_dots-replicate n)

  pub drop-replicate : (n : ℕ) → drop n (replicate n 46 ++ (b ∷ bs)) ≡ b ∷ bs
  drop-replicate zero = refl
  drop-replicate (suc n) = drop-replicate n
