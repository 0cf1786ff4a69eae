-- ===== src/Prelude/Steps.antt =====
-- Code that passes a state on and may return an error early, with the state as it is then. Not among
-- the names that Prelude passes on: results and connections have a `◌>>=◌` of their own.
use mathlib.Core.Path.{◌≡◌, sym, ap, ◌∙◌}
use mathlib.Core.Logic.{inl, inr}
use wsn.Prelude.Results.{Result, ok, err, Result-cases}

abbrev pub Steps {ℓ} : Type 0 → Type 0 → Type ℓ → Type ℓ
Steps S E A = S → Result E A × S

abbrev continue {ℓ κ} :
    {S E : Type 0} {A : Type ℓ} {B : Type κ} → Result E A → (A → Steps S E B) → S → Result E B × S
continue (ok a) f s = f a s
continue (err e) f s = (err e, s)

infixl 5 ◌>>=◌ ◌>>◌
abbrev pub ◌>>=◌ {ℓ κ} :
    {S E : Type 0} {A : Type ℓ} {B : Type κ} → Steps S E A → (A → Steps S E B) → Steps S E B
◌>>=◌ m f s = continue (m s).0 f (m s).1

abbrev pub ◌>>◌ {ℓ} : {S E : Type 0} {B : Type ℓ} → Steps S E (Unit {0}) → Steps S E B → Steps S E B
m >> k = m >>= λ _. k

abbrev pub lift {ℓ} : {S E : Type 0} {A : Type ℓ} → Result E A → Steps S E A
lift r s = (r, s)

err≢ok {ℓ} : {E : Type 0} {A : Type ℓ} (e : E) (a : A) → ¬ (err e ≡ ok a)
err≢ok e a h = cc

module _ {ℓ κ} {S E : Type 0} {A : Type ℓ} {B : Type κ} where
  -- Steps that end without an error ran to their end.
  pub bind-ok :
      (m : Steps S E A) (f : A → Steps S E B) (s : S) (b : B)
      → ((m >>= f) s).0 ≡ ok b
      → (a : A) × ((m s).0 ≡ ok a) × ((f a (m s).1).0 ≡ ok b) × ((m >>= f) s ≡ f a (m s).1)
  bind-ok m f s b h = elim (Result-cases (m s).0) [
    | inl (e, failed) ↦ absurd (err≢ok e b (sym (ap (λ r. (continue r f (m s).1).0) failed) ∙ h))
    | inr (a, good) ↦
        let e = ap (λ r. continue r f (m s).1) good in (a, good, sym (ap (λ r. r.0) e) ∙ h, e)
  ]

  pub bind-err :
      (m : Steps S E A) (f : A → Steps S E B) (s : S) (e : E)
      → (m s).0 ≡ err e
      → (m >>= f) s ≡ (err e, (m s).1)
  bind-err m f s e h = ap (λ r. continue r f (m s).1) h

  pub bind-good :
      (m : Steps S E A) (f : A → Steps S E B) (s : S) (a : A)
      → (m s).0 ≡ ok a
      → (m >>= f) s ≡ f a (m s).1
  bind-good m f s a h = ap (λ r. continue r f (m s).1) h
