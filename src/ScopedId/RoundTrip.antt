-- ===== src/ScopedId/RoundTrip.antt =====
-- What String and Canonical print, read by Set.
use madder.Common.{ℕ, suc, ◌-◌, ◌≡◌, refl, sym, ap, ◌∙◌, arith, [], ◌∷◌, ◌++◌, replicate}
use madder.Common.{Bool, true, false, if◌then◌else◌, ne→==, some, ◌≢◌}
use madder.Common.Bytes.{Bytes}
use madder.ScopedId.Id.{
  Location, unknown, cwd, xdg_user, xdg_system, xdg_cache, Markl, ScopedId, string,
}
use madder.ScopedId.Id.{located, canonical, with_cwd_depth}
use madder.ScopedId.Parse.{set_to, set, set_cut, set_bare, set_cwd, set_system}
use madder.ScopedId.Parse.{set_other, checked, placed_at, validate_name, count_dots, is_name_char}
use madder.ScopedId.Parse.{is_prefix, set_prefix, with_digest}
use madder.ScopedId.Chars.{
  validate_name-head, name_char-ne_slash, name_char-ne_dot, cut-none, cut-at,
}
use madder.ScopedId.Chars.{NoAt, validate_name-NoAt, replicate-NoAt, count_dots-replicate}
use madder.ScopedId.Chars.{drop-replicate, name_char-is_prefix}

-- What Set makes: a depth only in the current directory, the marker only for the system.
abbrev pub IsScoped : Location → ℕ → Bool → Type 0
IsScoped cwd depth remote_first = remote_first ≡ false
IsScoped xdg_system depth remote_first = depth ≡ 0
IsScoped unknown depth remote_first = (depth ≡ 0) × (remote_first ≡ false)
IsScoped xdg_user depth remote_first = (depth ≡ 0) × (remote_first ≡ false)
IsScoped xdg_cache depth remote_first = (depth ≡ 0) × (remote_first ≡ false)

-- A user's id whose name begins with the prefix of an unknown location is printed without its own.
abbrev pub IsPlain : Location → Bytes → Type 0
IsPlain xdg_user (b ∷ bs) = b ≢ 95
IsPlain _ _ = Unit

module _ {D : Type 0} (digest : D) (b : ℕ) (bs : Bytes)
    (valid : validate_name (b ∷ bs) ≡ true) where
  first : is_name_char b ≡ true
  first = (validate_name-head b bs valid).0

  pub passes :
      (location : Location) (depth : ℕ) (remote_first : Bool)
      → checked (placed_at digest location depth remote_first (b ∷ bs))
        ≡ set_to (placed_at digest location depth remote_first (b ∷ bs))
  unfolding checked
  passes location depth remote_first = rw valid

  set_cwd-dots :
      (depth : ℕ)
      → set_cwd digest (46 ∷ (replicate depth 46 ++ (b ∷ bs)))
        ≡ set_to (placed_at digest cwd depth false (b ∷ bs))
  unfolding set_cwd
  set_cwd-dots depth =
      rw (set_cwd, count_dots-replicate b bs first (suc depth), drop-replicate b bs first depth)
        (ap (λ k. checked (placed_at digest cwd k false (b ∷ bs))) one_less
          ∙ passes cwd depth false)
    where
      one_less : count_dots (replicate (suc depth) 46 ++ (b ∷ bs)) - 1 ≡ depth
      one_less = omega (arith, count_dots-replicate b bs first (suc depth))

  set_bare-cwd :
      (depth : ℕ)
      → set_bare digest (46 ∷ (replicate depth 46 ++ (b ∷ bs)))
        ≡ set_to (placed_at digest cwd depth false (b ∷ bs))
  unfolding set_bare
  set_bare-cwd depth = set_cwd-dots depth

  set_other-user :
      b ≢ 95 → set_other digest b bs ≡ set_to (placed_at digest xdg_user 0 false (b ∷ bs))
  unfolding set_other
  set_other-user plain =
      rw (name_char-is_prefix b first plain, if◌then◌else◌) (passes xdg_user 0 false)

  set_bare-user :
      b ≢ 95 → set_bare digest (b ∷ bs) ≡ set_to (placed_at digest xdg_user 0 false (b ∷ bs))
  unfolding set_bare
  set_bare-user plain =
      rw
        (
          ne→== b 46 (name_char-ne_dot b first),
          ne→== b 47 (name_char-ne_slash b first),
          if◌then◌else◌,
        )
        (set_other-user plain)

  -- The part of an id that is not its digest.
  pub set_bare-located :
      (location : Location) (depth : ℕ) (remote_first : Bool)
      → IsScoped location depth remote_first
      → IsPlain location (b ∷ bs)
      → set_bare digest (located location (b ∷ bs) depth remote_first)
        ≡ set_to (placed_at digest location depth remote_first (b ∷ bs))
  unfolding set_bare set_system set_other is_prefix set_prefix
  set_bare-located cwd depth remote_first scoped plain =
      set_bare-cwd depth ∙ (λ i. set_to (placed_at digest cwd depth (sym scoped i) (b ∷ bs)))
  set_bare-located xdg_system depth true scoped plain =
      rw (ne→== b 47 (name_char-ne_slash b first), if◌then◌else◌)
        (passes xdg_system 0 true
          ∙ (λ i. set_to (placed_at digest xdg_system (sym scoped i) true (b ∷ bs))))
  set_bare-located xdg_system depth false scoped plain =
      passes xdg_system 0 false
      ∙ (λ i. set_to (placed_at digest xdg_system (sym scoped i) false (b ∷ bs)))
  set_bare-located xdg_user depth remote_first (d, r) plain =
      set_bare-user plain ∙ (λ i. set_to (placed_at digest xdg_user (sym d i) (sym r i) (b ∷ bs)))
  set_bare-located unknown depth remote_first (d, r) plain =
      passes unknown 0 false ∙ (λ i. set_to (placed_at digest unknown (sym d i) (sym r i) (b ∷ bs)))
  set_bare-located xdg_cache depth remote_first (d, r) plain =
      passes xdg_cache 0 false
      ∙ (λ i. set_to (placed_at digest xdg_cache (sym d i) (sym r i) (b ∷ bs)))

  pub located-NoAt :
      (location : Location) (depth : ℕ) (remote_first : Bool)
      → NoAt (located location (b ∷ bs) depth remote_first)
  located-NoAt cwd depth remote_first =
      replicate-NoAt (suc depth) (b ∷ bs) (validate_name-NoAt (b ∷ bs) valid)
  located-NoAt xdg_system depth true =
      ((λ e. absurd (omega arith)), validate_name-NoAt (b ∷ bs) valid)
  located-NoAt xdg_system depth false = (
    (λ e. absurd (omega arith)),
    ((λ e. absurd (omega arith)), validate_name-NoAt (b ∷ bs) valid),
  )
  located-NoAt xdg_user depth remote_first = validate_name-NoAt (b ∷ bs) valid
  located-NoAt unknown depth remote_first =
      ((λ e. absurd (omega arith)), validate_name-NoAt (b ∷ bs) valid)
  located-NoAt xdg_cache depth remote_first =
      ((λ e. absurd (omega arith)), validate_name-NoAt (b ∷ bs) valid)

-- What the digests of the other repository promise.
pub record IsMarkl {D : Type 0} (markl : Markl D) : Type 0 where
  pub parse-text : (d : D) → markl.is_null d ≡ false → markl.parse (markl.text d) ≡ some d
  pub null_only : (d : D) → markl.is_null d ≡ true → d ≡ markl.null

-- An id as Set makes it, with a name.
pub record IsParsed {D : Type 0} (id : ScopedId D) : Type 0 where
  pub named : id.name ≢ []
  pub valid : validate_name id.name ≡ true
  pub scoped : IsScoped id.location id.cwd_depth id.remote_first

module _ {D : Type 0} (markl : Markl D) where
  -- A text before "@" and a digest after it.
  pub set-none :
      (b : ℕ) (bs : Bytes) → NoAt (b ∷ bs) → set markl (b ∷ bs) ≡ set_bare markl.null (b ∷ bs)
  unfolding set
  set-none b bs h = ap (set_cut markl) (cut-none (b ∷ bs) h)

  set-at :
      (laws : IsMarkl markl) (b : ℕ) (bs : Bytes) (d : D)
      → NoAt (b ∷ bs)
      → markl.is_null d ≡ false
      → set markl ((b ∷ bs) ++ (64 ∷ markl.text d)) ≡ set_bare d (b ∷ bs)
  unfolding set
  set-at laws b bs d h k =
      ap (set_cut markl) (cut-at (b ∷ bs) (markl.text d) h)
      ∙ ap (λ o. with_digest o (b ∷ bs)) (laws.parse-text d k)

  -- Both forms of a text.
  unfoldable pub suffixed : D → Bytes → Bytes
  suffixed d bare = if markl.is_null d then bare else bare ++ (64 ∷ markl.text d)

  pub set-suffixed :
      (laws : IsMarkl markl) (text : Bytes) (d : D)
      → text ≢ []
      → NoAt text
      → set markl (suffixed d text) ≡ set_bare d text
  unfolding suffixed
  set-suffixed laws [] d full h = absurd (full refl)
  set-suffixed laws (b ∷ bs) d full h = go (markl.is_null d) refl
    where
      go :
          (q : Bool)
          → markl.is_null d ≡ q
          → set markl (if q then b ∷ bs else (b ∷ bs) ++ (64 ∷ markl.text d)) ≡ set_bare d (b ∷ bs)
      go true e = set-none b bs h ∙ ap (λ x. set_bare x (b ∷ bs)) (sym (laws.null_only d e))
      go false e = set-at laws b bs d h e

pub located_full :
    (location : Location) (b : ℕ) (bs : Bytes) (depth : ℕ) (remote_first : Bool)
    → located location (b ∷ bs) depth remote_first ≢ []
located_full cwd b bs depth remote_first h = cc
located_full xdg_system b bs depth true h = cc
located_full xdg_system b bs depth false h = cc
located_full xdg_user b bs depth remote_first h = cc
located_full unknown b bs depth remote_first h = cc
located_full xdg_cache b bs depth remote_first h = cc

undeep :
    (location : Location) (depth : ℕ) (remote_first : Bool)
    → IsScoped location depth remote_first
    → IsScoped location 0 remote_first
undeep cwd depth remote_first h = h
undeep xdg_system depth remote_first h = refl
undeep xdg_user depth remote_first (d, r) = (refl, r)
undeep unknown depth remote_first (d, r) = (refl, r)
undeep xdg_cache depth remote_first (d, r) = (refl, r)

module _ {D : Type 0} (markl : Markl D) (laws : IsMarkl markl) where
  round_trip :
      (location : Location) (name : Bytes) (depth : ℕ) (remote_first : Bool) (d : D)
      → IsParsed (placed_at d location depth remote_first name)
      → IsPlain location name
      → set markl (canonical markl (placed_at d location depth remote_first name))
        ≡ set_to (placed_at d location 0 remote_first name)
  unfolding canonical string suffixed
  round_trip location [] depth remote_first d parsed plain = absurd (parsed.named refl)
  round_trip location (b ∷ bs) depth remote_first d parsed plain =
      set-suffixed markl laws (located location (b ∷ bs) 0 remote_first) d
        (located_full location b bs 0 remote_first)
        (located-NoAt d b bs parsed.valid location 0 remote_first)
      ∙ set_bare-located d b bs parsed.valid location 0 remote_first
          (undeep location depth remote_first parsed.scoped) plain

  -- The text of a config file gives the id back, its depth set to 0.
  pub set-canonical :
      (id : ScopedId D)
      → IsParsed id
      → IsPlain id.location id.name
      → set markl (canonical markl id) ≡ set_to (with_cwd_depth id 0)
  set-canonical id parsed plain =
      round_trip id.location id.name id.cwd_depth id.remote_first id.digest parsed plain
