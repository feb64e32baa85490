-- ===== src/Multi/Missing.antt =====
-- When a read of multi.go reports a missing blob.
use madder.Common.{
  ◌≡◌, ◌≢◌, ◌↔◌, ◌⊎◌, inl, inr, refl, List, [], ◌∷◌, Bool, true, false, if◌then◌else◌,
}
use madder.Multi.Store.{BlobStore, Multi, MultiMode, mode_unset, mode_mirror, mode_write_through}
use madder.Multi.Store.{
  Reading, opened, refused, unavailable, blob_missing, other_error, unknown_mode, or_next,
  walk_readers, unchanged, fill, make_blob_reader, all_blob_sources,
}
use madder.Multi.Reads.{Passes, mirror_walk, mirror_sources, write_through_sources}

in_step : {P Q S T U : Type 0} → (P ↔ ((S × Q) ⊎ U)) → (Q ↔ T) → P ↔ ((S × T) ⊎ U)
in_step (to, of) (there, back) = (
  λ p. elim (to p) [ inl (s, q) ↦ inl (s, there q) | inr u ↦ inr u ],
  λ h. of (elim h [ inl (s, t) ↦ inl (s, back t) | inr u ↦ inr u ]),
)

module _ {R : Type 0} where
  -- What one store does to a walk, if the rest of the walk is `later`.
  step-missing_iff :
      (finish : R → R) (has : Bool) (reading later : Reading R)
      → ((if has then or_next reading finish later else later) ≡ refused blob_missing) ↔ (
          (((has ≡ false) ⊎ (reading ≡ refused unavailable)) × (later ≡ refused blob_missing))
          ⊎ ((has ≡ true) × (reading ≡ refused blob_missing)))
  step-missing_iff finish false reading later =
      (λ h. inl (inl refl, h), λ h. elim h [ inl (_, e) ↦ e | inr (e, _) ↦ absurd (apart e) ])
    where
      apart : false ≡ true → ⊥
      apart e = cc
  step-missing_iff finish true (opened reader) later = (
    (λ h. absurd (apart h)),
    λ h. elim h [
      | inl (inl e, _) ↦ absurd (apart_tests e)
      | inl (inr e, _) ↦ absurd (apart_away e)
      | inr (_, e) ↦ absurd (apart_missing e)
    ],
  )
    where
      apart : opened (finish reader) ≡ refused blob_missing → ⊥
      apart e = cc

      apart_tests : true ≡ false → ⊥
      apart_tests e = cc

      apart_away : opened reader ≡ refused unavailable → ⊥
      apart_away e = cc

      apart_missing : opened reader ≡ refused blob_missing → ⊥
      apart_missing e = cc
  step-missing_iff finish true (refused unavailable) later =
      (λ h. inl (inr refl, h), λ h. elim h [ inl (_, e) ↦ e | inr (_, e) ↦ absurd (apart e) ])
    where
      apart : ◌≡◌ {A = Reading R} (refused unavailable) (refused blob_missing) → ⊥
      apart e = cc
  step-missing_iff finish true (refused blob_missing) later = ((λ h. inr (refl, refl)), λ h. refl)
  step-missing_iff finish true (refused (other_error e)) later = (
    (λ h. absurd (apart h)),
    λ h. elim h [
      | inl (inl q, _) ↦ absurd (apart_tests q)
      | inl (inr q, _) ↦ absurd (apart_away q)
      | inr (_, q) ↦ absurd (apart q)
    ],
  )
    where
      apart : ◌≡◌ {A = Reading R} (refused (other_error e)) (refused blob_missing) → ⊥
      apart q = cc

      apart_tests : true ≡ false → ⊥
      apart_tests q = cc

      apart_away : ◌≡◌ {A = Reading R} (refused (other_error e)) (refused unavailable) → ⊥
      apart_away q = cc
  step-missing_iff finish true (refused unknown_mode) later = (
    (λ h. absurd (apart h)),
    λ h. elim h [
      | inl (inl q, _) ↦ absurd (apart_tests q)
      | inl (inr q, _) ↦ absurd (apart_away q)
      | inr (_, q) ↦ absurd (apart q)
    ],
  )
    where
      apart : ◌≡◌ {A = Reading R} (refused unknown_mode) (refused blob_missing) → ⊥
      apart q = cc

      apart_tests : true ≡ false → ⊥
      apart_tests q = cc

      apart_away : ◌≡◌ {A = Reading R} (refused unknown_mode) (refused unavailable) → ⊥
      apart_away q = cc

module _ {K R : Type 0} where
  -- A walk that comes to no reader and no other error: each store is passed over, up to the end or to
  -- one that has the blob and yet answers that it is missing.
  abbrev pub Misses : K → List (BlobStore K R) → Type 0
  Misses id [] = Unit
  Misses id (store ∷ stores) =
      (Passes id store × Misses id stores)
      ⊎ ((store.has_blob_of id ≡ true) × (store.make_blob_reader_of id ≡ refused blob_missing))

  walk_readers-missing_iff :
      (finish : R → R) (id : K) (stores : List (BlobStore K R))
      → (walk_readers finish stores id ≡ refused blob_missing) ↔ Misses id stores
  unfolding walk_readers
  walk_readers-missing_iff finish id [] = ((λ h. tt), λ h. refl)
  walk_readers-missing_iff finish id (s ∷ stores) =
      in_step
        (step-missing_iff finish (s.has_blob_of id) (s.make_blob_reader_of id)
          (walk_readers finish stores id))
        (walk_readers-missing_iff finish id stores)

  module _ (multi : Multi K R) (id : K) where
    write_step :
        multi.mode ≡ mode_write_through
        → (make_blob_reader multi id ≡ refused blob_missing)
          ↔ Misses id (multi.write_store ∷ multi.read_stores)
    unfolding make_blob_reader
    write_step mode = rw mode (
        in_step
          (step-missing_iff unchanged (multi.write_store.has_blob_of id)
            (multi.write_store.make_blob_reader_of id) _)
          (walk_readers-missing_iff (fill multi.read_fill multi.write_store.make_default_writer) id
            multi.read_stores))

    -- A read from a mirror or a write-through reports a missing blob exactly when, in the order of the
    -- stores, each lacks the blob or is out of reach, either all of them, or those before a store that
    -- has the blob and yet answers that it is missing.
    pub make_blob_reader-missing_iff :
        multi.mode ≢ mode_unset
        → (make_blob_reader multi id ≡ refused blob_missing) ↔ Misses id (all_blob_sources multi)
    make_blob_reader-missing_iff known = go multi.mode refl
      where
        go :
            (m : MultiMode)
            → multi.mode ≡ m
            → (make_blob_reader multi id ≡ refused blob_missing)
              ↔ Misses id (all_blob_sources multi)
        go mode_unset e = absurd (known e)
        go mode_mirror e =
            rw (mirror_walk multi id e, mirror_sources multi id e)
              (walk_readers-missing_iff unchanged id multi.child_stores)
        go mode_write_through e = rw (write_through_sources multi id e) (write_step e)
