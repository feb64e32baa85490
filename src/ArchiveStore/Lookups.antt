-- ===== src/ArchiveStore/Lookups.antt =====
-- The calls of a data file and its entries, one for one.
use madder.Common.{ℕ, zero, suc, ◌≡◌, refl, List, [], ◌∷◌}
use madder.Common.{get_elem?, some, some_inj}
use madder.Common.Bytes.{Bytes}
use madder.Archive.Types.{DataEntryV1}
use madder.Archive.Data.Session.{Call, full, delta, AllHold, Holds}
use mathlib.Core.Path.{subst}

-- The digest that a call is for.
abbrev pub digest_of_call : Call → Bytes
digest_of_call (full entry_hash plain) = entry_hash
digest_of_call (delta entry_hash alg base_hash logical_size payload) = entry_hash

pub Holds-hash : (c : Call) (e : DataEntryV1) → Holds c e → e.hash ≡ digest_of_call c
Holds-hash (full entry_hash plain) e h = h.0
Holds-hash (delta entry_hash alg base_hash logical_size payload) e h = h.0

-- The entry of a call, and the call of an entry.
pub AllHold-entry :
    (cs : List Call) (es : List DataEntryV1) (k : ℕ) {c : Call}
    → AllHold cs es
    → get_elem? cs k ≡ some c
    → (e : DataEntryV1) × (get_elem? es k ≡ some e) × Holds c e
AllHold-entry [] es k held h = absurd (cc)
AllHold-entry (c ∷ cs) [] k held h = absurd held
AllHold-entry (c ∷ cs) (e ∷ es) zero (held, rest) h =
    (e, refl, subst (λ x. Holds x e) (some_inj h) held)
AllHold-entry (c ∷ cs) (e ∷ es) (suc k) (held, rest) h = AllHold-entry cs es k rest h

pub AllHold-call :
    (cs : List Call) (es : List DataEntryV1) (k : ℕ) {e : DataEntryV1}
    → AllHold cs es
    → get_elem? es k ≡ some e
    → (c : Call) × (get_elem? cs k ≡ some c) × Holds c e
AllHold-call [] [] k held h = absurd (cc)
AllHold-call [] (e ∷ es) k held h = absurd held
AllHold-call (c ∷ cs) [] k held h = absurd held
AllHold-call (c ∷ cs) (e ∷ es) zero (held, rest) h =
    (c, refl, subst (λ x. Holds c x) (some_inj h) held)
AllHold-call (c ∷ cs) (e ∷ es) (suc k) (held, rest) h = AllHold-call cs es k rest h
