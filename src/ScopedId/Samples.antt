-- ===== src/ScopedId/Samples.antt =====
-- Runs of the scoped ids, with digests that are numbers of one digit.
use madder.Common.{ℕ, ◌+◌, ◌-◌, ◌≡◌, ◌≢◌, refl, ap, arith, [], ◌∷◌, true, false, ◌==◌, some, none}
use madder.Common.{Option}
use madder.Common.Bytes.{Bytes, codes}
use madder.ScopedId.Id.{Markl, ScopedId, cwd, xdg_user, unknown, canonical, with_cwd_depth}
use madder.ScopedId.Parse.{
  set, set_to, placed_at, validate_name, is_name_char, cut, set_bare, set_cwd,
}
use madder.ScopedId.Parse.{checked, count_dots}
use madder.ScopedId.RoundTrip.{IsMarkl}
use madder.ScopedId.SetLaws.{set-canonical-set, set-canonical-underscore, set-IsWellFormed}
use madder.ScopedId.Id.{less, disambiguated_string}
use madder.ScopedId.Parse.{set_other, set_prefix, is_prefix}
use madder.ScopedId.Ordering.{less_trans}
use madder.ScopedId.Unambiguous.{set-disambiguated_string}
use madder.Common.Bytes.{compare_bytes, equal_bytes}

abbrev digit : Bytes → Option ℕ
digit [] = none
digit (b ∷ bs) = some (b - 48)

-- The null digest is 0; digit k stands for k.
abbrev digits : Markl ℕ
digits = record {
  null = 0;
  is_null = λ d. d == 0;
  parse = digit;
  text = λ d. (48 + d) ∷ [];
  data_bytes = λ d. d ∷ [];
}

digits-IsMarkl : IsMarkl digits
digits-IsMarkl = record { parse-text = λ d full. parsed d; null_only = λ d h. ground arith }
  where
    parsed : (d : ℕ) → some (48 + d - 48) ≡ some d
    parsed d = ap some (omega arith)

-- `..blobs@5`: the store of the directory above, with its digest.
abbrev above : ScopedId ℕ
above = placed_at 5 cwd 1 false (codes "blobs")

above-set : set digits (codes "..blobs@5") ≡ set_to above
unfolding set cut set_bare set_cwd count_dots checked validate_name is_name_char
above-set = refl

set-IsWellFormed_example : (validate_name (codes "blobs") ≡ true) × (false ≡ false)
set-IsWellFormed_example = set-IsWellFormed digits (codes "..blobs@5") above-set

named : codes "blobs" ≢ []
named h = cc

set-canonical-set_example : set digits (canonical digits above) ≡ set_to (with_cwd_depth above 0)
set-canonical-set_example =
    set-canonical-set digits digits-IsMarkl (codes "..blobs@5") above above-set named tt

tail_valid : validate_name (codes "blobs") ≡ true
unfolding validate_name is_name_char
tail_valid = refl

set-canonical-underscore_example :
    set digits (canonical digits (placed_at 5 xdg_user 0 false (codes "_blobs")))
    ≡ set_to (placed_at 5 unknown 0 false (codes "blobs"))
set-canonical-underscore_example =
    set-canonical-underscore digits digits-IsMarkl (codes "blobs") 5 tail_valid

-- `.zoo`, `..blobs` and `blobs`: the name comes before the depth, and the directory before the user.
abbrev zoo : ScopedId ℕ
zoo = placed_at 0 cwd 0 false (codes "zoo")

abbrev users : ScopedId ℕ
users = placed_at 0 xdg_user 0 false (codes "blobs")

above-zoo : less digits above zoo ≡ true
unfolding less compare_bytes equal_bytes
above-zoo = refl

zoo-users : less digits zoo users ≡ true
unfolding less compare_bytes equal_bytes
zoo-users = refl

less_trans_example : less digits above users ≡ true
less_trans_example = less_trans digits above zoo users above-zoo zoo-users

abbrev hidden : ScopedId ℕ
hidden = placed_at 5 xdg_user 0 false (codes "_blobs")

underscored : set digits (codes "~_blobs") ≡ set_to (placed_at 0 xdg_user 0 false (codes "_blobs"))
unfolding set cut set_bare set_other set_prefix is_prefix checked validate_name is_name_char
underscored = refl

underscored_valid : validate_name (codes "_blobs") ≡ true
unfolding validate_name is_name_char
underscored_valid = refl

set-disambiguated_string_example :
    set digits (disambiguated_string hidden)
    ≡ set_to (placed_at 0 xdg_user 0 false (codes "_blobs"))
set-disambiguated_string_example =
    set-disambiguated_string digits hidden
      (record { named = full; valid = underscored_valid; scoped = (refl, refl) })
  where
    full : codes "_blobs" ≢ []
    full h = cc
