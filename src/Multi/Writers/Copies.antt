-- ===== src/Multi/Writers/Copies.antt =====
-- What a copy into the writer of a mirror leaves in its members.
use madder.Common.{◌≡◌, refl, sym, ap, ◌∙◌, List, [], ◌∷◌, ◌++◌, append_assoc, append-nil}
use madder.Common.{suc, length, All, Option, none, some}
use madder.Common.Bytes.{Bytes}
use madder.Multi.Tee.{Outcome, fine, at_end, failed, Answer, Took, all_of_it, fewer, refused}
use madder.Multi.Tee.{next_took, later_took}
use madder.Multi.Writers.{
  WriteError, ok, BlobWriter, WriteStore, take_in, write_child, multi_write, copy_on, write_some,
  read_from,
}
use mathlib.Core.Path.{subst}

-- A writer of the hash type that was asked for, with nothing in it yet.
abbrev pub Holds : Bytes → Bytes → BlobWriter → Type 0
Holds format bytes w = (w.format ≡ format) × (w.written ≡ bytes)

-- A store makes the writer that it is asked for.
abbrev pub IsHonest : WriteStore → Type 0
IsHonest s =
    (format : Bytes) (w : BlobWriter)
    → s.make_blob_writer_of (some format) ≡ ok w
    → Holds format [] w

-- The bytes up to the end of the source.
abbrev pub contents_of : List Answer → Bytes
contents_of [] = []
contents_of (a ∷ later) = elim a.outcome [
  | fine ↦ a.bytes ++ contents_of later
  | at_end ↦ a.bytes
  | failed e ↦ a.bytes
]

module _ (format : Bytes) where
  write_child-Holds :
      (s bytes : Bytes) (w : BlobWriter)
      → Holds format s w
      → (write_child bytes w).1 ≡ none
      → Holds format (s ++ bytes) (write_child bytes w).0
  unfolding write_child
  write_child-Holds s bytes w (f, h) e = go (next_took w.accepts) e
    where
      go :
          (k : Took)
          → (take_in k bytes (record w { accepts = later_took w.accepts })).1 ≡ none
          → Holds format
              (s ++ bytes)
              (take_in k bytes (record w { accepts = later_took w.accepts })).0
      go all_of_it e = (f, ap (λ l. l ++ bytes) h)
      go (fewer n) e = absurd (cc)
      go (refused n x) e = absurd (cc)

  multi_write-Holds :
      (s bytes : Bytes) (ws : List BlobWriter)
      → All (Holds format s) ws
      → (multi_write bytes ws).1 ≡ none
      → All (Holds format (s ++ bytes)) (multi_write bytes ws).0
  unfolding multi_write
  multi_write-Holds s bytes [] h e = tt
  multi_write-Holds s bytes (w ∷ ws) (h, hs) e =
      go (write_child bytes w).1 (write_child-Holds s bytes w h) (multi_write-Holds s bytes ws hs) e
    where
      go :
          (o : Option WriteError)
          → (o ≡ none → Holds format (s ++ bytes) (write_child bytes w).0)
          → ((multi_write bytes ws).1 ≡ none
              → All (Holds format (s ++ bytes)) (multi_write bytes ws).0)
          → (elim o as (λ x. List BlobWriter × Option WriteError) [
            | some x ↦ ((write_child bytes w).0 ∷ ws, some x)
            | none ↦ ((write_child bytes w).0 ∷ (multi_write bytes ws).0, (multi_write bytes ws).1)
          ]).1
            ≡ none
          → All
              (Holds format (s ++ bytes))
              (elim o as (λ x. List BlobWriter × Option WriteError) [
                | some x ↦ ((write_child bytes w).0 ∷ ws, some x)
                | none ↦
                    ((write_child bytes w).0 ∷ (multi_write bytes ws).0, (multi_write bytes ws).1)
              ]).0
      go (some x) first rest e = absurd (cc)
      go none first rest e = (first refl, rest e)

  write_some-Holds :
      (s bytes : Bytes) (ws : List BlobWriter)
      → All (Holds format s) ws
      → (write_some bytes ws).1 ≡ none
      → All (Holds format (s ++ bytes)) (write_some bytes ws).0
  write_some-Holds s [] ws h e = subst (λ l. All (Holds format l) ws) (sym (append-nil s)) h
  write_some-Holds s (b ∷ bs) ws h e = multi_write-Holds s (b ∷ bs) ws h e

  -- A copy without an error leaves the contents of the source in every member.
  pub read_from-Holds :
      (s : Bytes) (src : List Answer) (ws : List BlobWriter)
      → All (Holds format s) ws
      → (read_from src ws).1 ≡ none
      → All (Holds format (s ++ contents_of src)) (read_from src ws).0
  unfolding read_from
  read_from-Holds s [] ws h e = subst (λ l. All (Holds format l) ws) (sym (append-nil s)) h
  read_from-Holds s (a ∷ later) ws h e =
      go a.outcome (write_some a.bytes ws) (write_some-Holds s a.bytes ws h)
        (λ ws' h'. read_from-Holds (s ++ a.bytes) later ws' h') e
    where
      go :
          (o : Outcome) (r : List BlobWriter × Option WriteError)
          → (r.1 ≡ none → All (Holds format (s ++ a.bytes)) r.0)
          → ((ws' : List BlobWriter)
              → All (Holds format (s ++ a.bytes)) ws'
              → (read_from later ws').1 ≡ none
              → All (Holds format ((s ++ a.bytes) ++ contents_of later)) (read_from later ws').0)
          → (copy_on o (read_from later) r).1 ≡ none
          → All
              (Holds format (
                s ++ (elim o as (λ x. Bytes) [
                  | fine ↦ a.bytes ++ contents_of later
                  | at_end ↦ a.bytes
                  | failed x ↦ a.bytes
                ])))
              (copy_on o (read_from later) r).0
      go o (ws', some x) kept rest e = absurd (cc)
      go fine (ws', none) kept rest e =
          subst (λ l. All (Holds format l) (read_from later ws').0)
            (append_assoc s a.bytes (contents_of later)) (rest ws' (kept refl) e)
      go at_end (ws', none) kept rest e = kept refl
      go (failed x) (ws', none) kept rest e = absurd (cc)

multi_write-length :
    (bytes : Bytes) (ws : List BlobWriter) → length (multi_write bytes ws).0 ≡ length ws
unfolding multi_write
multi_write-length bytes [] = refl
multi_write-length bytes (w ∷ ws) = go (write_child bytes w).1 (multi_write-length bytes ws)
  where
    go :
        (o : Option WriteError)
        → length (multi_write bytes ws).0 ≡ length ws
        → length
            (elim o as (λ x. List BlobWriter × Option WriteError) [
              | some x ↦ ((write_child bytes w).0 ∷ ws, some x)
              | none ↦
                  ((write_child bytes w).0 ∷ (multi_write bytes ws).0, (multi_write bytes ws).1)
            ]).0
          ≡ suc (length ws)
    go (some x) ih = refl
    go none ih = ap suc ih

write_some-length :
    (bytes : Bytes) (ws : List BlobWriter) → length (write_some bytes ws).0 ≡ length ws
write_some-length [] ws = refl
write_some-length (b ∷ bs) ws = multi_write-length (b ∷ bs) ws

pub read_from-length :
    (src : List Answer) (ws : List BlobWriter) → length (read_from src ws).0 ≡ length ws
unfolding read_from
read_from-length [] ws = refl
read_from-length (a ∷ later) ws =
    go a.outcome (write_some a.bytes ws) (write_some-length a.bytes ws) (read_from-length later)
  where
    go :
        (o : Outcome) (r : List BlobWriter × Option WriteError)
        → length r.0 ≡ length ws
        → ((ws' : List BlobWriter) → length (read_from later ws').0 ≡ length ws')
        → length (copy_on o (read_from later) r).0 ≡ length ws
    go o (ws', some x) same ih = same
    go fine (ws', none) same ih = ih ws' ∙ same
    go at_end (ws', none) same ih = same
    go (failed x) (ws', none) same ih = same
