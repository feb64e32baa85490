-- ===== src/ScopedId/Unambiguous.antt =====
-- Id.DisambiguatedString: the form that no file of the same name hides.
use madder.Common.{ℕ, ◌≡◌, ◌≢◌, refl, sym, ◌∙◌, arith, [], ◌∷◌, Bool, true, false}
use madder.Common.Bytes.{Bytes}
use madder.ScopedId.Id.{Location, unknown, cwd, xdg_user, xdg_system, xdg_cache, Markl, ScopedId}
use madder.ScopedId.Id.{located, string, disambiguated_string}
use madder.ScopedId.Parse.{set_to, set, set_bare, set_other, is_prefix, set_prefix}
use madder.ScopedId.Parse.{placed_at, validate_name}
use madder.ScopedId.Chars.{NoAt, validate_name-NoAt}
use madder.ScopedId.RoundTrip.{
  IsScoped, IsPlain, IsParsed, set_bare-located, located-NoAt, set-none,
}
use madder.ScopedId.RoundTrip.{located_full, passes}

module _ {D : Type 0} (digest : D) (b : ℕ) (bs : Bytes)
    (valid : validate_name (b ∷ bs) ≡ true) where
  tilde : set_bare digest (126 ∷ b ∷ bs) ≡ set_to (placed_at digest xdg_user 0 false (b ∷ bs))
  unfolding set_bare set_other is_prefix set_prefix
  tilde = passes digest b bs valid xdg_user 0 false

module _ {D : Type 0} (markl : Markl D) where
  set-text : (text : Bytes) → text ≢ [] → NoAt text → set markl text ≡ set_bare markl.null text
  set-text [] full h = absurd (full refl)
  set-text (b ∷ bs) full h = set-none markl b bs h

  other_location :
      (location : Location) (b : ℕ) (bs : Bytes) (depth : ℕ) (m : Bool)
      → validate_name (b ∷ bs) ≡ true
      → IsScoped location depth m
      → IsPlain location (b ∷ bs)
      → set markl (located location (b ∷ bs) depth m)
        ≡ set_to (placed_at markl.null location depth m (b ∷ bs))
  other_location location b bs depth m valid scoped plain =
      set-text (located location (b ∷ bs) depth m) (located_full location b bs depth m)
        (located-NoAt markl.null b bs valid location depth m)
      ∙ set_bare-located markl.null b bs valid location depth m scoped plain

  by_location :
      (location : Location) (name : Bytes) (depth : ℕ) (m : Bool) (d : D)
      → IsParsed (placed_at d location depth m name)
      → set markl (disambiguated_string (placed_at d location depth m name))
        ≡ set_to (placed_at markl.null location depth m name)
  unfolding disambiguated_string string
  by_location location [] depth m d parsed = absurd (parsed.named refl)
  by_location xdg_user (b ∷ bs) depth m d parsed =
      set-text (126 ∷ b ∷ bs) (λ e. absurd (cc e))
        ((λ e. absurd (omega arith)), validate_name-NoAt (b ∷ bs) parsed.valid)
      ∙ tilde markl.null b bs parsed.valid
      ∙ (λ i.
          set_to (
            placed_at markl.null xdg_user (sym parsed.scoped.0 i) (sym parsed.scoped.1 i) (b ∷ bs)))
  by_location unknown (b ∷ bs) depth m d parsed =
      other_location unknown b bs depth m parsed.valid parsed.scoped tt
  by_location cwd (b ∷ bs) depth m d parsed =
      other_location cwd b bs depth m parsed.valid parsed.scoped tt
  by_location xdg_system (b ∷ bs) depth m d parsed =
      other_location xdg_system b bs depth m parsed.valid parsed.scoped tt
  by_location xdg_cache (b ∷ bs) depth m d parsed =
      other_location xdg_cache b bs depth m parsed.valid parsed.scoped tt

  -- What `DisambiguatedString` prints for an id as `Set` makes it, with a name, `Set` reads as the same
  -- id but for the digest, which is not printed. An underscore in front of the name does no harm.
  pub set-disambiguated_string :
      (id : ScopedId D)
      → IsParsed id
      → set markl (disambiguated_string id) ≡ set_to (record id { digest = markl.null })
  set-disambiguated_string id parsed =
      by_location id.location id.name id.cwd_depth id.remote_first id.digest parsed
