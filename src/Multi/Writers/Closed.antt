-- ===== src/Multi/Writers/Closed.antt =====
-- How the Close of a mirror's writer ends.
use madder.Common.{ℕ, ◌≡◌, ap, ◌∙◌, List, [], ◌∷◌, ◌++◌, true, All, Option, none, some}
use madder.Multi.Writers.{WriteError, BlobWriter, close_failed, close}
use mathlib.Core.List.{map}

abbrev pub shut : BlobWriter → BlobWriter
shut w = record w { closed = true }

abbrev pub ClosesWell : BlobWriter → Type 0
ClosesWell w = w.close_error ≡ none

close-first :
    (w : BlobWriter) (ws : List BlobWriter)
    → ClosesWell w
    → close (w ∷ ws) ≡ (shut w ∷ (close ws).0, (close ws).1)
unfolding close
close-first w ws e = λ i. elim (e i) as (λ o. List BlobWriter × Option WriteError) [
  | some x ↦ (shut w ∷ ws, some (close_failed x))
  | none ↦ (shut w ∷ (close ws).0, (close ws).1)
]

-- The Close of a mirror's writer closes its members in turn. Where the first that fails stands behind
-- members that do not, those and it are closed, the error is that one's, and all members behind it are
-- left open.
pub close-failed :
    (before : List BlobWriter) (w : BlobWriter) (behind : List BlobWriter) (e : ℕ)
    → All ClosesWell before
    → w.close_error ≡ some e
    → close (before ++ (w ∷ behind)) ≡ (map shut before ++ (shut w ∷ behind), some (close_failed e))
close-failed [] w behind e well fails =
    unfold close in
    λ i. elim (fails i) as (λ o. List BlobWriter × Option WriteError) [
      | some x ↦ (shut w ∷ behind, some (close_failed x))
      | none ↦ (shut w ∷ (close behind).0, (close behind).1)
    ]
close-failed (v ∷ before) w behind e (p, well) fails =
    close-first v (before ++ (w ∷ behind)) p
    ∙ ap (λ (r : List BlobWriter × Option WriteError). (shut v ∷ r.0, r.1))
        (close-failed before w behind e well fails)
