-- ===== src/ArchiveStore/Assignments.antt =====
-- The map of delta assignments: its keys ascend, so a blob has one base.
use madder.Common.{ℕ, zero, suc, ◌<◌, ◌≡◌, ◌≢◌, refl, sym, ap, arith, List, [], ◌∷◌, All}
use madder.Common.{get_elem?, some, Bool, true, false, ◌==◌, ltb, if◌then◌else◌}
use madder.Common.{eq→==, ne→==, ==→eq, All-get, some_inj}
use madder.ArchiveStore.Deltas.{assign, assign_all, base_of}
use mathlib.Core.Path.{subst}

abbrev pub Above : ℕ → List (ℕ × ℕ) → Type 0
Above i = All (λ p. i < p.0)

abbrev pub IsAscending : List (ℕ × ℕ) → Type 0
IsAscending [] = Unit
IsAscending (p ∷ rest) = Above p.0 rest × IsAscending rest

Above-trans : (i j : ℕ) (l : List (ℕ × ℕ)) → i < j → Above j l → Above i l
Above-trans i j [] h a = tt
Above-trans i j (p ∷ rest) h (a, as') = (omega arith, Above-trans i j rest h as')

assign-Above : (l i j : ℕ) (m : List (ℕ × ℕ)) → l < i → Above l m → Above l (assign i j m)
unfolding assign
assign-Above l i j [] h a = (h, tt)
assign-Above l i j ((k, base) ∷ rest) h (a, later) =
    go (i == k) (ltb i k) (assign-Above l i j rest h later)
  where
    go :
        (p q : Bool)
        → Above l (assign i j rest)
        → Above l (
            if p
            then (i, j) ∷ rest
            else if q
            then (i, j) ∷ (k, base) ∷ rest
            else (k, base) ∷ assign i j rest)
    go true q r = (h, later)
    go false true r = (h, (a, later))
    go false false r = (a, r)

assign-IsAscending : (i j : ℕ) (m : List (ℕ × ℕ)) → IsAscending m → IsAscending (assign i j m)
unfolding assign
assign-IsAscending i j [] a = (tt, tt)
assign-IsAscending i j ((k, base) ∷ rest) (a, later) =
    go (i == k) (ltb i k) refl refl (assign-IsAscending i j rest later)
  where
    same : (i == k) ≡ true → Above i rest
    same e = subst (λ x. Above x rest) (sym (==→eq i k e)) a

    go :
        (p q : Bool)
        → (i == k) ≡ p
        → ltb i k ≡ q
        → IsAscending (assign i j rest)
        → IsAscending (
            if p
            then (i, j) ∷ rest
            else if q
            then (i, j) ∷ (k, base) ∷ rest
            else (k, base) ∷ assign i j rest)
    go true q e f r = (same e, later)
    go false true e f r = ((below f, Above-trans i k rest (below f) a), (a, later))
      where
        below : ltb i k ≡ true → i < k
        below g = ground arith
    go false false e f r = (assign-Above k i j rest (above e f) a, r)
      where
        above : (i == k) ≡ false → ltb i k ≡ false → k < i
        above g h = ground arith

pub assign_all-IsAscending :
    (calls m : List (ℕ × ℕ)) → IsAscending m → IsAscending (assign_all calls m)
unfolding assign_all
assign_all-IsAscending [] m a = a
assign_all-IsAscending ((i, j) ∷ calls) m a =
    assign_all-IsAscending calls (assign i j m) (assign-IsAscending i j m a)

pub base_of-get :
    (m : List (ℕ × ℕ)) (k : ℕ) {i j : ℕ}
    → IsAscending m
    → get_elem? m k ≡ some (i, j)
    → base_of m i ≡ some j
unfolding base_of
base_of-get [] k a h = absurd (cc)
base_of-get ((l, base) ∷ rest) zero {i} {j} a h =
    rw (eq→== i l (sym (ap (λ p. p.0) (some_inj h))), if◌then◌else◌)
      (ap (λ p. some p.1) (some_inj h))
base_of-get ((l, base) ∷ rest) (suc k) {i} {j} (a, later) h =
    rw (ne→== i l (apart (All-get (λ p. l < p.0) rest k a h)), if◌then◌else◌)
      (base_of-get rest k later h)
  where
    apart : l < i → i ≢ l
    apart below e = omega arith

pub get-base_of :
    (m : List (ℕ × ℕ)) (i : ℕ) {j : ℕ}
    → base_of m i ≡ some j
    → (k : ℕ) × (get_elem? m k ≡ some (i, j))
unfolding base_of
get-base_of [] i h = absurd (cc)
get-base_of ((l, base) ∷ rest) i {j} h = go (i == l) refl h (λ r. get-base_of rest i r)
  where
    go :
        (q : Bool)
        → (i == l) ≡ q
        → (if q then some base else base_of rest i) ≡ some j
        → (base_of rest i ≡ some j → (k : ℕ) × (get_elem? rest k ≡ some (i, j)))
        → (k : ℕ) × (get_elem? ((l, base) ∷ rest) k ≡ some (i, j))
    go true e r later = (0, λ t. some (sym (==→eq i l e) t, some_inj r t))
    go false e r later = let (k, found) = later r in (suc k, found)
