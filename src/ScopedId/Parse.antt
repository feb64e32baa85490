-- ===== src/ScopedId/Parse.antt =====
-- Id.Set and its checks. A failed Set gives the error, and leaves out what it did to the receiver.
use madder.Common.{ℕ, suc, ◌-◌, [], ◌∷◌, drop, Option, some, none}
use madder.Common.{Bool, true, false, leb, ◌==◌, if◌then◌else◌}
use madder.Common.Bytes.{Bytes}
use madder.ScopedId.Id.{Location, unknown, cwd, xdg_user, xdg_system, xdg_cache, Markl, ScopedId}

pub data ParseError : Type 0 where
  empty_id empty_before_at bad_digest all_dots all_slashes unsupported_first_char bad_name :
      ParseError

pub data Parsed (D : Type 0) : Type 0 where
  set_to : ScopedId D → Parsed D
  fails : ParseError → Parsed D

-- Typee.IsPrefix
unfoldable pub is_prefix : ℕ → Bool
is_prefix r =
    if r == 47
    then true
    else if r == 126
    then true
    else if r == 46
    then true
    else if r == 95
    then true
    else r == 37

-- Typee.SetPrefix
unfoldable pub set_prefix : ℕ → Option Location
set_prefix r =
    if r == 47
    then some xdg_system
    else if r == 126
    then some xdg_user
    else if r == 46
    then some cwd
    else if r == 95
    then some unknown
    else if r == 37
    then some xdg_cache
    else none

abbrev between : ℕ → ℕ → ℕ → Bool
between low high b = if leb low b then leb b high else false

-- One byte of validateName: those of a rune that is not ASCII all fail.
unfoldable pub is_name_char : ℕ → Bool
is_name_char b =
    if between 97 122 b
    then true
    else if between 65 90 b
    then true
    else if between 48 57 b
    then true
    else if b == 95
    then true
    else b == 45

unfoldable pub validate_name : Bytes → Bool
validate_name [] = true
validate_name (b ∷ bs) = let rest = validate_name bs in if is_name_char b then rest else false

-- strings.Cut(value, "@")
unfoldable pub cut : Bytes → Bytes × Option Bytes
cut [] = ([], none)
cut (b ∷ bs) = let rest = cut bs in if b == 64 then ([], some bs) else (b ∷ rest.0, rest.1)

unfoldable pub count_dots : Bytes → ℕ
count_dots [] = 0
count_dots (b ∷ bs) = let rest = count_dots bs in if b == 46 then suc rest else 0

module _ {D : Type 0} where
  -- return validateName(id.id)
  unfoldable pub checked : ScopedId D → Parsed D
  checked id = if validate_name id.name then set_to id else fails bad_name

  abbrev pub placed_at : D → Location → ℕ → Bool → Bytes → ScopedId D
  placed_at digest location depth remote_first name = record {
    location = location;
    name = name;
    cwd_depth = depth;
    remote_first = remote_first;
    digest = digest;
  }

  unfoldable pub set_cwd : D → Bytes → Parsed D
  set_cwd digest value = elim (drop (count_dots value) value) [
    | [] ↦ fails all_dots
    | b ∷ bs ↦ checked (placed_at digest cwd (count_dots value - 1) false (b ∷ bs))
  ]

  -- What follows the first slash.
  unfoldable pub set_system : D → Bytes → Parsed D
  set_system digest [] = checked (placed_at digest xdg_system 0 false [])
  set_system digest (b ∷ bs) =
      if b == 47
      then elim bs [
        | [] ↦ fails all_slashes
        | c ∷ cs ↦ checked (placed_at digest xdg_system 0 false (c ∷ cs))
      ]
      else checked (placed_at digest xdg_system 0 true (b ∷ bs))

  unfoldable pub set_other : D → ℕ → Bytes → Parsed D
  set_other digest b bs =
      if is_prefix b
      then elim (set_prefix b) [
        | some location ↦ checked (placed_at digest location 0 false bs)
        | none ↦ fails unsupported_first_char
      ]
      else checked (placed_at digest xdg_user 0 false (b ∷ bs))

  -- Set, past the digest.
  unfoldable pub set_bare : D → Bytes → Parsed D
  -- Set has returned before for an empty value.
  set_bare digest [] = fails empty_before_at
  set_bare digest (b ∷ bs) =
      if b == 46
      then set_cwd digest (b ∷ bs)
      else if b == 47
      then set_system digest bs
      else set_other digest b bs

  abbrev pub with_digest : Option D → Bytes → Parsed D
  with_digest none left = fails bad_digest
  with_digest (some digest) left = set_bare digest left

module _ {D : Type 0} (markl : Markl D) where
  abbrev pub set_cut : Bytes × Option Bytes → Parsed D
  set_cut (left, none) = set_bare markl.null left
  set_cut ([], some text) = fails empty_before_at
  set_cut (b ∷ bs, some text) = with_digest (markl.parse text) (b ∷ bs)

  unfoldable pub set : Bytes → Parsed D
  set [] = fails empty_id
  set (b ∷ bs) = set_cut (cut (b ∷ bs))
