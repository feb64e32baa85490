-- ===== src/Archive/Exec.antt =====
-- Code that changes a state and may fail: an error leaves no state behind.
use madder.Common.{◌≡◌, refl, ap}
use madder.Archive.Types.{Result, ok, err, Error}

abbrev pub Exec {ℓ κ} : Type ℓ → Type κ → Type (ℓ ⊔ κ)
Exec S A = S → Result (A × S)

module _ {σ ℓ κ} {S : Type σ} {A : Type ℓ} {B : Type κ} where
  abbrev pub continue : Result (A × S) → (A → Exec S B) → Result (B × S)
  continue (ok (a, s)) f = f a s
  continue (err e) f = err e

  infixl 5 ◌>>=◌
  abbrev pub ◌>>=◌ : Exec S A → (A → Exec S B) → Exec S B
  ◌>>=◌ m f s = continue (m s) f

module _ {σ ℓ} {S : Type σ} {A : Type ℓ} where
  infixl 5 ◌>>◌
  abbrev pub ◌>>◌ : Exec S (Unit {0}) → Exec S A → Exec S A
  m >> k = m >>= λ _. k

  abbrev pub pure : A → Exec S A
  pure a s = ok (a, s)

  abbrev pub raise : Error → Exec S A
  raise e s = err e

  abbrev pub lift : Result A → Exec S A
  lift (ok a) s = ok (a, s)
  lift (err e) s = err e

module _ {σ ℓ κ} {S : Type σ} {A : Type ℓ} {B : Type κ} (m : Exec S A) (f : A → Exec S B)
    (s : S) where
  pub bind_ok : {a : A} {s' : S} → m s ≡ ok (a, s') → (m >>= f) s ≡ f a s'
  bind_ok h = ap (λ r. continue r f) h

  pub bind_err : {e : Error} → m s ≡ err e → (m >>= f) s ≡ err e
  bind_err h = ap (λ r. continue r f) h

module _ {σ ℓ κ} {S : Type σ} {A : Type ℓ} {B : Type κ} where
  -- What a success says of the first step.
  pub lift-ok :
      (r : Result A) (f : A → Exec S B) (s : S) {x : B × S}
      → (lift r >>= f) s ≡ ok x
      → (a : A) × (r ≡ ok a) × (f a s ≡ ok x)
  lift-ok (ok a) f s h = (a, refl, h)
  lift-ok (err e) f s h = absurd (apart h)
    where
      apart : {x : B × S} → err e ≡ ok x → ⊥
      apart k = cc

module _ {σ ℓ κ} {S : Type σ} {A : Type ℓ} {B : Type κ} where
  continue-ok :
      (r : Result (A × S)) (f : A → Exec S B) {x : B × S}
      → continue r f ≡ ok x
      → (a : A) × (s : S) × (r ≡ ok (a, s)) × (f a s ≡ ok x)
  continue-ok (ok (a, s)) f h = (a, s, refl, h)
  continue-ok (err e) f h = absurd (apart h)
    where
      apart : {x : B × S} → err e ≡ ok x → ⊥
      apart k = cc

  pub then-ok :
      (m : Exec S A) (f : A → Exec S B) (s : S) {x : B × S}
      → (m >>= f) s ≡ ok x
      → (a : A) × (s' : S) × (m s ≡ ok (a, s')) × (f a s' ≡ ok x)
  then-ok m f s h = continue-ok (m s) f h

module _ {σ ℓ} {S : Type σ} {B : Type ℓ} where
  pub continue_assoc :
      (r : Result (Unit {0} × S)) (k : Exec S (Unit {0})) (t : Exec S B)
      → continue (continue r (λ _. k)) (λ _. t) ≡ continue r (λ _. k >> t)
  continue_assoc (ok (a, s)) k t = refl
  continue_assoc (err e) k t = refl
