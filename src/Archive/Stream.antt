-- ===== src/Archive/Stream.antt =====
-- io.Writer and io.MultiWriter(w, hasher): a sink that takes a bounded number of bytes.
-- An error leaves no state: what a failed write put into the sink is not modelled.
use madder.Common.{ℕ, ◌-◌, ◌≤◌, ◌<◌, ◌≡◌, ap, arith, leb, if◌then◌else◌, length}
use madder.Common.{length-append, [], ◌++◌, append-nil, append_assoc}
use madder.Common.{le→leb, lt→leb, ◌∙◌, sym}
use madder.Common.Bytes.{Bytes}
use madder.Archive.Types.{ok, err, write_failed}
pub use madder.Archive.Exec.{◌>>=◌, ◌>>◌, pure, raise, lift, bind_ok, bind_err}
use madder.Archive.Exec.{Exec, continue_assoc}
use mathlib.Core.Path.{fun_ext}
use native.Mathlib.Decide.{dec_le}

pub record Sink : Type 0 where
  pub written : Bytes
  -- the bytes that the hasher has seen
  pub hashed : Bytes
  -- the bytes that the writer will still take
  pub room : ℕ

abbrev pub Write {ℓ} : Type ℓ → Type ℓ
Write A = Exec Sink A

-- A write to the writer and the hasher.
unfoldable pub write : Bytes → Write (Unit {0})
write bs s =
    if leb (length bs) s.room
    then ok (
      tt,
      record { written = s.written ++ bs; hashed = s.hashed ++ bs; room = s.room - length bs },
    )
    else err write_failed

-- A write to the writer alone.
unfoldable pub write_unhashed : Bytes → Write (Unit {0})
write_unhashed bs s =
    if leb (length bs) s.room
    then ok (tt, record s { written = s.written ++ bs; room = s.room - length bs })
    else err write_failed

-- The sink after a write that fits.
abbrev pub pushed : Bytes → Sink → Sink
pushed bs s = record {
  written = s.written ++ bs;
  hashed = s.hashed ++ bs;
  room = s.room - length bs;
}

pub write_fits : (bs : Bytes) (s : Sink) → length bs ≤ s.room → write bs s ≡ ok (tt, pushed bs s)
unfolding write
write_fits bs s h = rw (le→leb (length bs) s.room h, if◌then◌else◌)

pub write_full : (bs : Bytes) (s : Sink) → s.room < length bs → write bs s ≡ err write_failed
unfolding write
write_full bs s h = rw (lt→leb (length bs) s.room h, if◌then◌else◌)

pub write_unhashed_fits :
    (bs : Bytes) (s : Sink)
    → length bs ≤ s.room
    → write_unhashed bs s
      ≡ ok (tt, record s { written = s.written ++ bs; room = s.room - length bs })
unfolding write_unhashed
write_unhashed_fits bs s h = rw (le→leb (length bs) s.room h, if◌then◌else◌)

pub write_unhashed_full :
    (bs : Bytes) (s : Sink) → s.room < length bs → write_unhashed bs s ≡ err write_failed
unfolding write_unhashed
write_unhashed_full bs s h = rw (lt→leb (length bs) s.room h, if◌then◌else◌)

pushed-pushed : (xs ys : Bytes) (s : Sink) → pushed ys (pushed xs s) ≡ pushed (xs ++ ys) s
pushed-pushed xs ys s = cc (append_assoc s.written xs ys, append_assoc s.hashed xs ys, room_left)
  where
    room_left : s.room - length xs - length ys ≡ s.room - length (xs ++ ys)
    room_left = omega (arith, length-append xs ys)

-- Two writes in a row are one write of both.
write-append_at : (xs ys : Bytes) (s : Sink) → (write xs >> write ys) s ≡ write (xs ++ ys) s
write-append_at xs ys s = elim (dec_le (length xs) s.room) [
  | yes fits ↦ elim (dec_le (length ys) (s.room - length xs)) [
    | yes more ↦
        bind_ok (write xs) (λ _. write ys) s (write_fits xs s fits)
        ∙ write_fits ys (pushed xs s) more
        ∙ ap (λ t. ok (tt, t)) (pushed-pushed xs ys s)
        ∙ sym (write_fits (xs ++ ys) s (omega (arith, length-append xs ys)))
    | no full ↦
        bind_ok (write xs) (λ _. write ys) s (write_fits xs s fits)
        ∙ write_full ys (pushed xs s) (omega arith)
        ∙ sym (write_full (xs ++ ys) s (omega (arith, length-append xs ys)))
  ]
  | no full ↦
      bind_err (write xs) (λ _. write ys) s (write_full xs s (omega arith))
      ∙ sym (write_full (xs ++ ys) s (omega (arith, length-append xs ys)))
]

pub write-append : (xs ys : Bytes) → (write xs >> write ys) ≡ write (xs ++ ys)
write-append xs ys = fun_ext (write-append_at xs ys)

-- Procedures that amount to one write compose to one write.
pub then-write :
    {m k : Write (Unit {0})} (xs ys : Bytes)
    → m ≡ write xs
    → k ≡ write ys
    → (m >> k) ≡ write (xs ++ ys)
then-write xs ys p q = (λ i. p i >> q i) ∙ write-append xs ys

pub pure-eq-write-nil : pure tt ≡ write []
pure-eq-write-nil =
    fun_ext λ s. sym (write_fits [] s (omega arith) ∙ ap (λ t. ok (tt, t)) (unchanged s))
  where
    unchanged : (s : Sink) → pushed [] s ≡ s
    unchanged s = cc (append-nil s.written, append-nil s.hashed, room_left s)
      where
        room_left : (s : Sink) → s.room - 0 ≡ s.room
        room_left s = omega arith

module _ {ℓ} {B : Type ℓ} where
  -- A procedure that amounts to one write, before others that begin with a write.
  pub write-then-write :
      {m : Write (Unit {0})} (xs ys : Bytes) {k : Write B} (t : Write B)
      → m ≡ write xs
      → k ≡ (write ys >> t)
      → (m >> k) ≡ (write (xs ++ ys) >> t)
  write-then-write xs ys t p q =
      (λ i. p i >> q i)
      ∙ sym (fun_ext (λ s. continue_assoc (write xs s) (write ys) t))
      ∙ (λ i. write-append xs ys i >> t)

-- What a success says of the first write.
pub write-ok :
    {B : Type 0} (bs : Bytes) (f : Unit {0} → Write B) (s : Sink) {x : B × Sink}
    → (write bs >>= f) s ≡ ok x
    → f tt (pushed bs s) ≡ ok x
write-ok {B} bs f s h = elim (dec_le (length bs) s.room) [
  | yes fits ↦ sym (bind_ok (write bs) f s (write_fits bs s fits)) ∙ h
  | no full ↦ absurd (apart (sym (bind_err (write bs) f s (write_full bs s (omega arith))) ∙ h))
]
  where
    apart : {x : B × Sink} → err write_failed ≡ ok x → ⊥
    apart k = cc

pub write_unhashed-ok :
    {B : Type 0} (bs : Bytes) (f : Unit {0} → Write B) (s : Sink) {x : B × Sink}
    → (write_unhashed bs >>= f) s ≡ ok x
    → f tt (record s { written = s.written ++ bs; room = s.room - length bs }) ≡ ok x
write_unhashed-ok {B} bs f s h = elim (dec_le (length bs) s.room) [
  | yes fits ↦ sym (bind_ok (write_unhashed bs) f s (write_unhashed_fits bs s fits)) ∙ h
  | no full ↦
      absurd (
        apart (sym (bind_err (write_unhashed bs) f s (write_unhashed_full bs s (omega arith))) ∙ h))
]
  where
    apart : {x : B × Sink} → err write_failed ≡ ok x → ⊥
    apart k = cc
