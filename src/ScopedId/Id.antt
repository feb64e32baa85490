-- ===== src/ScopedId/Id.antt =====
-- The id, its printed forms, its order, and its rebasing (scoped_id/main.go, effective.go,
-- xdg_location_type/main.go).
use madder.Common.{ℕ, suc, ◌+◌, ◌%◌, ◌^◌, [], ◌∷◌, ◌++◌, replicate, Option}
use madder.Common.{Bool, true, false, not, ltb, ◌==◌, if◌then◌else◌}
use madder.Common.Bytes.{Bytes, codes, Order, below, same, above, compare_bytes, equal_bytes}

pub data Location : Type 0 where
  unknown cwd xdg_user xdg_system xdg_cache : Location

-- The number behind the constant.
abbrev pub rank : Location → ℕ
rank unknown = 0
rank cwd = 1
rank xdg_user = 2
rank xdg_system = 3
rank xdg_cache = 4

-- The rune, 0 for none.
abbrev pub get_prefix : Location → ℕ
get_prefix xdg_system = 47
get_prefix xdg_user = 0
get_prefix cwd = 46
get_prefix unknown = 95
get_prefix xdg_cache = 37

-- markl.Id of another repository: a digest is set from its text, and printed.
pub record Markl (D : Type 0) : Type 0 where
  pub null : D
  pub is_null : D → Bool
  pub parse : Bytes → Option D
  pub text : D → Bytes
  pub data_bytes : D → Bytes

pub record ScopedId (D : Type 0) : Type 0 where
  pub location : Location
  pub name : Bytes
  pub cwd_depth : ℕ
  pub remote_first : Bool
  pub digest : D

module _ {D : Type 0} (markl : Markl D) where
  abbrev pub make : Bytes → ScopedId D
  make name = record {
    location = xdg_user;
    name = name;
    cwd_depth = 0;
    remote_first = false;
    digest = markl.null;
  }

  abbrev pub make_with_location : Bytes → Location → ScopedId D
  make_with_location name location = record {
    location = location;
    name = name;
    cwd_depth = 0;
    remote_first = false;
    digest = markl.null;
  }

  abbrev pub effective_name : ScopedId D → Bytes
  effective_name id = elim id.name [ [] ↦ codes "default" | b ∷ bs ↦ b ∷ bs ]

  abbrev pub effective_id : ScopedId D → ScopedId D
  effective_id id = make_with_location (effective_name id) id.location

-- String, once the id is known to have a name. A depth of 2^63 or more, which no walk up reaches,
-- overflows an int in the source and is not modelled.
abbrev pub located : Location → Bytes → ℕ → Bool → Bytes
located cwd name depth remote_first = replicate (suc depth) 46 ++ name
located xdg_system name depth true = 47 ∷ name
located xdg_system name depth false = 47 ∷ 47 ∷ name
located xdg_user name depth remote_first = name
located unknown name depth remote_first = get_prefix unknown ∷ name
located xdg_cache name depth remote_first = get_prefix xdg_cache ∷ name

abbrev pub string_of : Bytes → Bytes → Bytes
string_of [] whole = []
string_of (b ∷ bs) whole = whole

-- bytes.Compare(a, b) < 0
abbrev pub is_below : Order → Bool
is_below below = true
is_below same = false
is_below above = false

module _ {D : Type 0} where
  -- Id.String
  unfoldable pub string : ScopedId D → Bytes
  string id = string_of id.name (located id.location id.name id.cwd_depth id.remote_first)

  unfoldable pub disambiguated_string : ScopedId D → Bytes
  disambiguated_string id = elim id.location [
    | xdg_user ↦ 126 ∷ string id
    | unknown ↦ string id
    | cwd ↦ string id
    | xdg_system ↦ string id
    | xdg_cache ↦ string id
  ]

  abbrev pub with_cwd_depth : ScopedId D → ℕ → ScopedId D
  with_cwd_depth id depth = record id { cwd_depth = depth }

  -- A uint wraps around.
  unfoldable pub resolve_from : ScopedId D → ℕ → ScopedId D
  resolve_from id config_cwd_depth = elim id.location [
    | cwd ↦ record id { cwd_depth = (id.cwd_depth + config_cwd_depth) % 2 ^ 64 }
    | unknown ↦ id
    | xdg_user ↦ id
    | xdg_system ↦ id
    | xdg_cache ↦ id
  ]

module _ {D : Type 0} (markl : Markl D) where
  -- MarshalText is Canonical.
  unfoldable pub canonical : ScopedId D → Bytes
  canonical id =
      let bare = string (with_cwd_depth id 0) in
      if markl.is_null id.digest then bare else bare ++ (64 ∷ markl.text id.digest)

  unfoldable pub less : ScopedId D → ScopedId D → Bool
  less id other =
      if not (rank id.location == rank other.location)
      then ltb (rank id.location) (rank other.location)
      else if not (equal_bytes id.name other.name)
      then is_below (compare_bytes id.name other.name)
      else if not (id.cwd_depth == other.cwd_depth)
      then ltb id.cwd_depth other.cwd_depth
      else elim id.remote_first [
        | true ↦ elim other.remote_first [
          | true ↦
              is_below (compare_bytes (markl.data_bytes id.digest) (markl.data_bytes other.digest))
          | false ↦ false
        ]
        | false ↦ elim other.remote_first [
          | true ↦ true
          | false ↦
              is_below (compare_bytes (markl.data_bytes id.digest) (markl.data_bytes other.digest))
        ]
      ]
