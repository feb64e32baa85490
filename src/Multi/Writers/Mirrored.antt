-- ===== src/Multi/Writers/Mirrored.antt =====
-- The members of a mirror hold the same bytes under the same id.
use madder.Common.{ℕ, ◌≡◌, refl, ap, ◌∙◌, List, [], ◌∷◌}
use madder.Common.{suc, arith, length, if◌then◌else◌, All, Option, none, some}
use madder.Common.Bytes.{Bytes, equal_bytes_refl}
use madder.Multi.Store.{mode_mirror}
use madder.Multi.Tee.{Answer}
use madder.Multi.Tee.{MarklId}
use madder.Multi.Writers.{
  Result, ok, err, BlobWriter, WriteStore, mirrored, first_default, make_writers, add_writer,
  as_mirrored, or_default, make_mirror, make_blob_writer, read_from, markl_id_of, same_id, agree,
  get_markl_id,
}
use mathlib.Core.Path.{subst}
use madder.Multi.Writers.Copies.{Holds, IsHonest, contents_of, read_from-Holds, read_from-length}

ok_inj : {ws ws' : List BlobWriter} → ok ws ≡ ok ws' → ws ≡ ws'
ok_inj e = cc

mirrored_inj :
    (r : Result (List BlobWriter)) {ws : List BlobWriter}
    → as_mirrored r ≡ ok (mirrored ws)
    → r ≡ ok ws
mirrored_inj (ok ws') e = cc
mirrored_inj (err x) e = absurd (cc)

-- The writers that were made.
record MadeFor (format : Bytes) (ss : List WriteStore) (ws : List BlobWriter) : Type 0 where
  pub holds : All (Holds format []) ws
  pub count : length ws ≡ length ss

make_writers-MadeFor :
    (format : Bytes) (ss : List WriteStore) (ws : List BlobWriter)
    → All IsHonest ss
    → make_writers format ss ≡ ok ws
    → MadeFor format ss ws
unfolding make_writers
make_writers-MadeFor format [] ws h e =
    subst (MadeFor format []) (ok_inj e) (record { holds = tt; count = refl })
make_writers-MadeFor format (s ∷ ss) ws (honest, h) e =
    go (s.make_blob_writer_of (some format)) (make_writers format ss) (honest format)
      (λ later. make_writers-MadeFor format ss later h) e
  where
    go :
        (r : Result BlobWriter) (rs : Result (List BlobWriter))
        → ((w : BlobWriter) → r ≡ ok w → Holds format [] w)
        → ((later : List BlobWriter) → rs ≡ ok later → MadeFor format ss later)
        → add_writer r rs ≡ ok ws
        → MadeFor format (s ∷ ss) ws
    go (err x) rs p q e = absurd (cc)
    go (ok w) (err x) p q e = absurd (cc)
    go (ok w) (ok later) p q e =
        subst (MadeFor format (s ∷ ss)) (ok_inj e)
          (record { holds = (p w refl, (q later refl).holds); count = ap suc (q later refl).count })

module _ (digest : Bytes → Bytes → Bytes) (format bytes : Bytes) where
  id_of : MarklId
  id_of = record { format = format; digest = digest format bytes }

  Holds-id : (w : BlobWriter) → Holds format bytes w → markl_id_of digest w ≡ id_of
  unfolding id_of
  Holds-id w (f, h) = λ i. record { format = f i; digest = digest (f i) (h i) }

  agree-Holds :
      (ws : List BlobWriter) → All (Holds format bytes) ws → agree digest id_of ws ≡ ok (some id_of)
  unfolding agree
  agree-Holds [] h = refl
  agree-Holds (w ∷ ws) (h, hs) =
      rw
        (
          ap (same_id digest id_of) (Holds-id w h),
          equal_bytes_refl id_of.format,
          equal_bytes_refl id_of.digest,
          if◌then◌else◌,
        )
        (agree-Holds ws hs)

  get_markl_id-Holds :
      (ws : List BlobWriter) (n : ℕ)
      → length ws ≡ suc n
      → All (Holds format bytes) ws
      → get_markl_id digest ws
        ≡ ok (some (record { format = format; digest = digest format bytes }))
  unfolding get_markl_id id_of
  get_markl_id-Holds [] n c h = absurd (omega arith)
  get_markl_id-Holds (w ∷ ws) n c (h, hs) =
      ap (λ x. agree digest x ws) (Holds-id w h) ∙ agree-Holds ws hs

-- What a mirror's copy has done.
pub record Mirrors (digest : Bytes → Bytes → Bytes) (asked : Option Bytes) (ss : List WriteStore)
    (bytes : Bytes) (ws : List BlobWriter) : Type 0 where
  pub format : Bytes
  pub resolved : or_default asked (first_default ss) ≡ some format
  pub holds : All (Holds format bytes) ws
  pub count : length ws ≡ length ss
  pub id :
      get_markl_id digest ws ≡ ok (some (record { format = format; digest = digest format bytes }))

-- If a mirror of one member at least makes a writer, and a copy from a source into it ends without an
-- error, then every member holds exactly the contents of the source under one hash type, the one that
-- was asked for or else the first member's default, and the id is the digest of the contents, without
-- the panic over differing ids. Each store makes an empty writer of the hash type that it is asked for.
pub read_from-Mirrors :
    (digest : Bytes → Bytes → Bytes) (asked : Option Bytes) (s : WriteStore) (ss : List WriteStore)
    (unused : WriteStore) (src : List Answer) (ws : List BlobWriter)
    → All IsHonest (s ∷ ss)
    → make_blob_writer
        (record { mode = mode_mirror; child_stores = s ∷ ss; write_store = unused })
        asked
      ≡ ok (mirrored ws)
    → (read_from src ws).1 ≡ none
    → Mirrors digest asked (s ∷ ss) (contents_of src) (read_from src ws).0
unfolding make_blob_writer
read_from-Mirrors digest asked s ss unused src ws honest made copied =
    go (or_default asked s.default_hash_type) refl made
  where
    finish :
        (format : Bytes)
        → or_default asked s.default_hash_type ≡ some format
        → MadeFor format (s ∷ ss) ws
        → Mirrors digest asked (s ∷ ss) (contents_of src) (read_from src ws).0
    finish format resolved m =
        let holds = read_from-Holds format [] src ws m.holds copied in
        let count = read_from-length src ws ∙ m.count in
        record {
          format = format;
          resolved = resolved;
          holds = holds;
          count = count;
          id =
              get_markl_id-Holds digest format (contents_of src) (read_from src ws).0 (length ss)
                count holds;
        }

    go :
        (o : Option Bytes)
        → or_default asked s.default_hash_type ≡ o
        → make_mirror (s ∷ ss) o ≡ ok (mirrored ws)
        → Mirrors digest asked (s ∷ ss) (contents_of src) (read_from src ws).0
    go none resolved e = absurd (cc)
    go (some format) resolved e = finish format resolved (
        make_writers-MadeFor format (s ∷ ss) ws honest
          (mirrored_inj (make_writers format (s ∷ ss)) e))
