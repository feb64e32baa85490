-- ===== src/Multi/Reads.antt =====
-- Which store answers a read.
use madder.Common.{
  ◌≡◌, ◌≢◌, ◌↔◌, ◌⊎◌, inl, inr, refl, sym, ap, ◌∙◌, List, [], ◌∷◌, ◌++◌, Bool, true, false,
}
use madder.Common.{if◌then◌else◌, All}
use madder.Multi.Store.{BlobStore, Multi, MultiMode, mode_unset, mode_mirror, mode_write_through}
use madder.Multi.Store.{Reading, opened, refused, unavailable, any_has, has_blob}
use madder.Multi.Store.{or_next, walk_readers, unchanged, fill, make_blob_reader, all_blob_sources}
use mathlib.Core.Path.{subst}

module _ {K R : Type 0} where
  -- A store that cannot give the blob: it lacks it, or is out of reach.
  abbrev pub Passes : K → BlobStore K R → Type 0
  Passes id store =
      (store.has_blob_of id ≡ false) ⊎ (store.make_blob_reader_of id ≡ refused unavailable)

  pub record Gives (id : K) (store : BlobStore K R) (reader : R) : Type 0 where
    pub has : store.has_blob_of id ≡ true
    pub gives : store.make_blob_reader_of id ≡ opened reader

  module _ (finish : R → R) (id : K) (store : BlobStore K R) where
    passed_over :
        (later : Reading R)
        → Passes id store
        → (if store.has_blob_of id
            then or_next (store.make_blob_reader_of id) finish later
            else later)
          ≡ later
    passed_over later (inl lacks) = rw (lacks, if◌then◌else◌)
    passed_over later (inr away) = go (store.has_blob_of id)
      where
        go :
            (t : Bool)
            → (if t then or_next (store.make_blob_reader_of id) finish later else later) ≡ later
        go true = ap (λ a. or_next a finish later) away
        go false = refl

    passed :
        (stores : List (BlobStore K R))
        → Passes id store
        → walk_readers finish (store ∷ stores) id ≡ walk_readers finish stores id
    unfolding walk_readers
    passed stores p = passed_over (walk_readers finish stores id) p

    answered :
        (stores : List (BlobStore K R)) (reader : R)
        → Gives id store reader
        → walk_readers finish (store ∷ stores) id ≡ opened (finish reader)
    unfolding walk_readers
    answered stores reader g = rw (walk_readers, g.has, if◌then◌else◌, g.gives)

  walk_readers-first :
      (finish : R → R) (id : K) (before after : List (BlobStore K R)) (store : BlobStore K R)
      (reader : R)
      → All (Passes id) before
      → Gives id store reader
      → walk_readers finish (before ++ (store ∷ after)) id ≡ opened (finish reader)
  walk_readers-first finish id [] after store reader pass g =
      answered finish id store after reader g
  walk_readers-first finish id (s ∷ before) after store reader (p, pass) g =
      passed finish id s (before ++ (store ∷ after)) p
      ∙ walk_readers-first finish id before after store reader pass g

  -- One of the stores has the blob.
  abbrev pub HasOne : K → List (BlobStore K R) → Type 0
  HasOne id [] = ⊥
  HasOne id (store ∷ stores) = (store.has_blob_of id ≡ true) ⊎ HasOne id stores

  any_has_iff :
      (id : K) (stores : List (BlobStore K R)) → (any_has stores id ≡ true) ↔ HasOne id stores
  unfolding any_has
  any_has_iff id [] = ((λ h. cc), λ h. absurd h)
  any_has_iff id (store ∷ stores) = go (store.has_blob_of id) (any_has_iff id stores)
    where
      go :
          (t : Bool)
          → (any_has stores id ≡ true) ↔ HasOne id stores
          → ((if t then true else any_has stores id) ≡ true) ↔ ((t ≡ true) ⊎ HasOne id stores)
      go true later = ((λ h. inl refl), λ h. refl)
      go false (to, of) =
          ((λ h. inr (to h)), λ h. elim h [ inl e ↦ absurd (cc e) | inr rest ↦ of rest ])

  head_of : {x y : BlobStore K R} {xs ys : List (BlobStore K R)} → x ∷ xs ≡ y ∷ ys → x ≡ y
  head_of h = cc

  tail_of : {x y : BlobStore K R} {xs ys : List (BlobStore K R)} → x ∷ xs ≡ y ∷ ys → xs ≡ ys
  tail_of h = cc

  -- What becomes of a reader: one from a read store of a write-through goes through the tee.
  abbrev pub handed_out : Multi K R → MultiMode → List (BlobStore K R) → R → R
  handed_out multi mode_unset before reader = reader
  handed_out multi mode_mirror before reader = reader
  handed_out multi mode_write_through [] reader = reader
  handed_out multi mode_write_through (s ∷ before) reader =
      fill multi.read_fill multi.write_store.make_default_writer reader

  module _ (multi : Multi K R) (id : K) where
    pub mirror_walk :
        multi.mode ≡ mode_mirror
        → make_blob_reader multi id ≡ walk_readers unchanged multi.child_stores id
    unfolding make_blob_reader
    mirror_walk mode = rw mode refl

    write_through_walk :
        multi.mode ≡ mode_write_through
        → Passes id multi.write_store
        → make_blob_reader multi id
          ≡ walk_readers
              (fill multi.read_fill multi.write_store.make_default_writer)
              multi.read_stores
              id
    unfolding make_blob_reader
    write_through_walk mode p = rw mode (passed_over unchanged id multi.write_store _ p)

    write_through_answered :
        (reader : R)
        → multi.mode ≡ mode_write_through
        → Gives id multi.write_store reader
        → make_blob_reader multi id ≡ opened reader
    unfolding make_blob_reader
    write_through_answered reader mode g = rw (mode, g.has, if◌then◌else◌, g.gives) refl

    pub mirror_sources : multi.mode ≡ mode_mirror → all_blob_sources multi ≡ multi.child_stores
    unfolding all_blob_sources
    mirror_sources mode = rw mode refl

    pub write_through_sources :
        multi.mode ≡ mode_write_through
        → all_blob_sources multi ≡ multi.write_store ∷ multi.read_stores
    unfolding all_blob_sources
    write_through_sources mode = rw mode refl

    unset_has : multi.mode ≡ mode_unset → has_blob multi id ≡ any_has (all_blob_sources multi) id
    unfolding has_blob all_blob_sources any_has
    unset_has mode = rw mode refl

    mirror_has : multi.mode ≡ mode_mirror → has_blob multi id ≡ any_has multi.child_stores id
    unfolding has_blob
    mirror_has mode = rw mode refl

    write_through_has :
        multi.mode ≡ mode_write_through
        → has_blob multi id ≡ any_has (multi.write_store ∷ multi.read_stores) id
    unfolding has_blob any_has
    write_through_has mode = rw mode refl

    -- The first store of a mirror or a write-through that gives the blob answers the read, when each
    -- before it lacks the blob or is out of reach. Its reader is handed out as it is, but one from a
    -- read store of a write-through goes through the tee if that is asked for.
    pub make_blob_reader-first :
        (before after : List (BlobStore K R)) (store : BlobStore K R) (reader : R)
        → multi.mode ≢ mode_unset
        → all_blob_sources multi ≡ before ++ (store ∷ after)
        → All (Passes id) before
        → Gives id store reader
        → make_blob_reader multi id ≡ opened (handed_out multi multi.mode before reader)
    make_blob_reader-first before after store reader known split pass g =
        go multi.mode refl before split pass
      where
        go :
            (m : MultiMode)
            → multi.mode ≡ m
            → (front : List (BlobStore K R)) → all_blob_sources multi ≡ front ++ (store ∷ after)
            → All (Passes id) front
            → make_blob_reader multi id ≡ opened (handed_out multi m front reader)
        go mode_unset e front split pass = absurd (known e)
        go mode_mirror e front split pass =
            mirror_walk e
            ∙ ap (λ l. walk_readers unchanged l id) (sym (mirror_sources e) ∙ split)
            ∙ walk_readers-first unchanged id front after store reader pass g
        go mode_write_through e [] split pass = write_through_answered reader e (
            subst (λ x. Gives id x reader) (sym (head_of (sym (write_through_sources e) ∙ split)))
              g)
        go mode_write_through e (s ∷ front) (split) (p, pass) =
            let same = sym (write_through_sources e) ∙ split in
            write_through_walk e (subst (Passes id) (sym (head_of same)) p)
            ∙ ap
                (λ l.
                  walk_readers (fill multi.read_fill multi.write_store.make_default_writer) l id)
                (tail_of same)
            ∙ walk_readers-first (fill multi.read_fill multi.write_store.make_default_writer) id
                front after store reader pass g

    sources_have : has_blob multi id ≡ any_has (all_blob_sources multi) id
    sources_have = go multi.mode refl
      where
        go :
            (m : MultiMode)
            → multi.mode ≡ m
            → has_blob multi id ≡ any_has (all_blob_sources multi) id
        go mode_unset e = unset_has e
        go mode_mirror e = mirror_has e ∙ ap (λ l. any_has l id) (sym (mirror_sources e))
        go mode_write_through e =
            write_through_has e ∙ ap (λ l. any_has l id) (sym (write_through_sources e))

    -- A multi store has a blob exactly when one of the stores whose blobs it lists has it.
    pub has_blob_iff : (has_blob multi id ≡ true) ↔ HasOne id (all_blob_sources multi)
    has_blob_iff = rw sources_have (any_has_iff id (all_blob_sources multi))
