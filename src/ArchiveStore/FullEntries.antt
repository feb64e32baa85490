-- ===== src/ArchiveStore/FullEntries.antt =====
-- The entries of an archive that hold whole blobs, as validateArchiveV1 collects them.
use madder.Common.{ℕ, zero, suc, ◌≡◌, refl, sym, ap, ◌∙◌, List, []}
use madder.Common.{◌∷◌, get_elem?, some, some_inj}
use madder.Common.{Bool, true, false, if◌then◌else◌, ◌==◌, eq→==, ==→eq}
use madder.Archive.Types.{DataEntryV1}
use madder.Archive.Types.{entry_type_full}
use madder.ArchiveStore.Validator.{full_entries}

pub full_entries-get :
    (es : List DataEntryV1) (k : ℕ) {e : DataEntryV1}
    → get_elem? (full_entries es) k ≡ some e
    → (m : ℕ) × (get_elem? es m ≡ some e) × (e.entry_type ≡ entry_type_full)
unfolding full_entries
full_entries-get [] k h = absurd (cc)
full_entries-get (x ∷ es) k {e} h =
    go (x.entry_type == entry_type_full) refl k h (λ i q. full_entries-get es i q)
  where
    go :
        (q : Bool)
        → (x.entry_type == entry_type_full) ≡ q
        → (k : ℕ) → get_elem? (if q then x ∷ full_entries es else full_entries es) k ≡ some e
        → ((i : ℕ)
            → get_elem? (full_entries es) i ≡ some e
            → (m : ℕ) × (get_elem? es m ≡ some e) × (e.entry_type ≡ entry_type_full))
        → (m : ℕ) × (get_elem? (x ∷ es) m ≡ some e) × (e.entry_type ≡ entry_type_full)
    go true s zero q later = (
      0,
      q,
      ap (λ (y : DataEntryV1). y.entry_type) (sym (some_inj q))
          ∙ ==→eq x.entry_type entry_type_full s,
    )
    go true s (suc i) q later = let (m, found, full) = later i q in (suc m, found, full)
    go false s i q later = let (m, found, full) = later i q in (suc m, found, full)

pub get-full_entries :
    (es : List DataEntryV1) (m : ℕ) {e : DataEntryV1}
    → get_elem? es m ≡ some e
    → e.entry_type ≡ entry_type_full
    → (k : ℕ) × (get_elem? (full_entries es) k ≡ some e)
unfolding full_entries
get-full_entries [] m h full = absurd (cc)
get-full_entries (x ∷ es) zero {e} h full = go (x.entry_type == entry_type_full) (
    eq→== x.entry_type entry_type_full (ap (λ (y : DataEntryV1). y.entry_type) (some_inj h) ∙ full))
  where
    go :
        (q : Bool)
        → q ≡ true
        → (k : ℕ) × (get_elem? (if q then x ∷ full_entries es else full_entries es) k ≡ some e)
    go true s = (0, h)
    go false s = absurd (cc)
get-full_entries (x ∷ es) (suc m) {e} h full =
    go (x.entry_type == entry_type_full) (get-full_entries es m h full)
  where
    go :
        (q : Bool)
        → (k : ℕ) × (get_elem? (full_entries es) k ≡ some e)
        → (k : ℕ) × (get_elem? (if q then x ∷ full_entries es else full_entries es) k ≡ some e)
    go true (k, found) = (suc k, found)
    go false later = later
