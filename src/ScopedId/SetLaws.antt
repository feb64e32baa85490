-- ===== src/ScopedId/SetLaws.antt =====
-- What Set accepts, and canonical text read back.
use madder.Common.{ℕ, ◌-◌, ◌≡◌, ◌≢◌, refl, ◌∙◌, arith, [], ◌∷◌}
use madder.Common.{Bool, true, false, ◌==◌, if◌then◌else◌, drop, none, some, Option}
use madder.Common.Bytes.{Bytes}
use madder.ScopedId.Id.{
  Location, unknown, cwd, xdg_user, xdg_system, xdg_cache, Markl, ScopedId, string,
}
use madder.ScopedId.Id.{canonical, with_cwd_depth}
use madder.ScopedId.Parse.{Parsed, set_to, fails, set, set_cut, set_bare, set_cwd, set_system, cut}
use madder.ScopedId.Parse.{set_other, checked, placed_at, validate_name, with_digest, set_prefix}
use madder.ScopedId.Parse.{count_dots, is_prefix, ParseError, bad_name, all_dots, all_slashes}
use madder.ScopedId.Parse.{unsupported_first_char}
use madder.ScopedId.RoundTrip.{IsScoped, IsMarkl, IsPlain, set-canonical, set-suffixed}
use madder.ScopedId.RoundTrip.{suffixed}
use madder.ScopedId.Chars.{validate_name-NoAt}
use mathlib.Core.Path.{subst}

-- A parsed id has a valid name, a depth only in the current directory, and the remote-first marker
-- only for the system.
abbrev pub IsWellFormed : {D : Type 0} → ScopedId D → Type 0
IsWellFormed id = (validate_name id.name ≡ true) × IsScoped id.location id.cwd_depth id.remote_first

unmarked-IsScoped : (location : Location) → IsScoped location 0 false
unmarked-IsScoped unknown = (refl, refl)
unmarked-IsScoped cwd = refl
unmarked-IsScoped xdg_user = (refl, refl)
unmarked-IsScoped xdg_system = refl
unmarked-IsScoped xdg_cache = (refl, refl)

module _ {D : Type 0} where
  fails-apart : {e : ParseError} {id : ScopedId D} → fails e ≡ set_to id → ⊥
  fails-apart h = cc

  same_id : {x id : ScopedId D} → set_to x ≡ set_to id → x ≡ id
  same_id h = cc

  checked-IsWellFormed :
      (x : ScopedId D) {id : ScopedId D}
      → IsScoped x.location x.cwd_depth x.remote_first
      → checked x ≡ set_to id
      → IsWellFormed id
  unfolding checked
  checked-IsWellFormed x {id} scoped h = go (validate_name x.name) refl h
    where
      go :
          (v : Bool)
          → validate_name x.name ≡ v
          → if◌then◌else◌ {A = Parsed D} v (set_to x) (fails bad_name) ≡ set_to id
          → IsWellFormed id
      go true e k = subst IsWellFormed (same_id k) (e, scoped)
      go false e k = absurd (fails-apart k)

  module _ (digest : D) {id : ScopedId D} where
    set_cwd-IsWellFormed : (value : Bytes) → set_cwd digest value ≡ set_to id → IsWellFormed id
    unfolding set_cwd
    set_cwd-IsWellFormed value h = go (drop (count_dots value) value) h
      where
        go :
            (name : Bytes)
            → elim name as (λ n. Parsed D) [
              | [] ↦ fails all_dots
              | b ∷ bs ↦ checked (placed_at digest cwd (count_dots value - 1) false (b ∷ bs))
            ]
              ≡ set_to id
            → IsWellFormed id
        go [] k = absurd (fails-apart k)
        go (b ∷ bs) k = checked-IsWellFormed _ refl k

    set_system-IsWellFormed :
        (value : Bytes) → set_system digest value ≡ set_to id → IsWellFormed id
    unfolding set_system
    set_system-IsWellFormed [] h = checked-IsWellFormed _ refl h
    set_system-IsWellFormed (b ∷ bs) h = go (b == 47) bs h
      where
        go :
            (q : Bool) (rest : Bytes)
            → (if q
                then elim rest as (λ n. Parsed D) [
                  | [] ↦ fails all_slashes
                  | c ∷ cs ↦ checked (placed_at digest xdg_system 0 false (c ∷ cs))
                ]
                else checked (placed_at digest xdg_system 0 true (b ∷ bs)))
              ≡ set_to id
            → IsWellFormed id
        go true [] k = absurd (fails-apart k)
        go true (c ∷ cs) k = checked-IsWellFormed _ refl k
        go false rest k = checked-IsWellFormed _ refl k

    set_other-IsWellFormed :
        (b : ℕ) (bs : Bytes) → set_other digest b bs ≡ set_to id → IsWellFormed id
    unfolding set_other
    set_other-IsWellFormed b bs h = go (is_prefix b) (set_prefix b) h
      where
        go :
            (q : Bool) (l : Option Location)
            → (if q
                then elim l as (λ o. Parsed D) [
                  | some location ↦ checked (placed_at digest location 0 false bs)
                  | none ↦ fails unsupported_first_char
                ]
                else checked (placed_at digest xdg_user 0 false (b ∷ bs)))
              ≡ set_to id
            → IsWellFormed id
        go true none k = absurd (fails-apart k)
        go true (some location) k = checked-IsWellFormed _ (unmarked-IsScoped location) k
        go false l k = checked-IsWellFormed _ (refl, refl) k

    set_bare-IsWellFormed : (value : Bytes) → set_bare digest value ≡ set_to id → IsWellFormed id
    unfolding set_bare
    set_bare-IsWellFormed [] h = absurd (fails-apart h)
    set_bare-IsWellFormed (b ∷ bs) h = go (b == 46) (b == 47) h
      where
        go :
            (p q : Bool)
            → (if p
                then set_cwd digest (b ∷ bs)
                else if q
                then set_system digest bs
                else set_other digest b bs)
              ≡ set_to id
            → IsWellFormed id
        go true q k = set_cwd-IsWellFormed (b ∷ bs) k
        go false true k = set_system-IsWellFormed bs k
        go false false k = set_other-IsWellFormed b bs k

  module _ (markl : Markl D) {id : ScopedId D} where
    set_cut-IsWellFormed :
        (c : Bytes × Option Bytes) → set_cut markl c ≡ set_to id → IsWellFormed id
    set_cut-IsWellFormed (left, none) h = set_bare-IsWellFormed markl.null left h
    set_cut-IsWellFormed ([], some text) h = absurd (fails-apart h)
    set_cut-IsWellFormed (b ∷ bs, some text) h = go (markl.parse text) h
      where
        go : (o : Option D) → with_digest o (b ∷ bs) ≡ set_to id → IsWellFormed id
        go none k = absurd (fails-apart k)
        go (some digest) k = set_bare-IsWellFormed digest (b ∷ bs) k

    -- Whatever `Set` accepts has a name of the permitted characters, a depth only in the current
    -- directory, and the remote-first marker only for the system.
    pub set-IsWellFormed : (value : Bytes) → set markl value ≡ set_to id → IsWellFormed id
    unfolding set
    set-IsWellFormed [] h = absurd (fails-apart h)
    set-IsWellFormed (b ∷ bs) h = set_cut-IsWellFormed (cut (b ∷ bs)) h

underscore_prefix :
    {D : Type 0} (d : D) (bs : Bytes)
    → validate_name bs ≡ true
    → set_bare d (95 ∷ bs) ≡ set_to (placed_at d unknown 0 false bs)
unfolding set_bare set_other is_prefix set_prefix checked
underscore_prefix d bs valid = rw valid

module _ {D : Type 0} (markl : Markl D) (laws : IsMarkl markl) where
  -- An id that `Set` made, printed by `MarshalText` and parsed again, is the same but for its depth,
  -- which becomes 0. The id has a name, which for a user's store does not begin with an underscore,
  -- and digests that are not null come back from their text.
  pub set-canonical-set :
      (value : Bytes) (id : ScopedId D)
      → set markl value ≡ set_to id
      → id.name ≢ []
      → IsPlain id.location id.name
      → set markl (canonical markl id) ≡ set_to (with_cwd_depth id 0)
  set-canonical-set value id h named plain =
      let (valid, scoped) = set-IsWellFormed markl value h in
      set-canonical markl laws id (record { named = named; valid = valid; scoped = scoped }) plain

  -- The canonical text of a user's store whose name begins with an underscore is read back as the store
  -- of an unknown location without the underscore, for digests that come back from their text.
  pub set-canonical-underscore :
      (bs : Bytes) (d : D)
      → validate_name bs ≡ true
      → set markl (canonical markl (placed_at d xdg_user 0 false (95 ∷ bs)))
        ≡ set_to (placed_at d unknown 0 false bs)
  unfolding canonical string suffixed
  set-canonical-underscore bs d valid =
      set-suffixed markl laws (95 ∷ bs) d (λ e. absurd (cc e))
        ((λ e. absurd (omega arith)), validate_name-NoAt bs valid)
      ∙ underscore_prefix d bs valid
