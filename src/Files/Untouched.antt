-- ===== src/Files/Untouched.antt =====
-- Steps that leave a file as it is, whatever their outcome.
use wsn.Prelude.{lookup, bytes_key, ◌≡◌, ap, ◌∙◌, Result-cases, inl, inr, nat_eq}
use wsn.Prelude.Steps.{Steps, ◌>>=◌, bind-err, bind-good}
use wsn.Protocol.{Bytes}
use wsn.Files.{FileSystem}

abbrev pub Untouched {ℓ} : {E : Type 0} {A : Type ℓ} → Bytes → Steps FileSystem E A → Type 0
Untouched p m = (fs : FileSystem) → lookup p (m fs).1.files ≡ lookup p fs.files

module _ {ℓ κ} {E : Type 0} {A : Type ℓ} {B : Type κ} (p : Bytes) where
  pub bind-Untouched :
      (m : Steps FileSystem E A) (f : A → Steps FileSystem E B)
      → Untouched p m
      → ((a : A) → Untouched p (f a))
      → Untouched p (m >>= f)
  bind-Untouched m f first rest fs = elim (Result-cases (m fs).0) [
    | inl (e, failed) ↦ ap (λ r. lookup p r.1.files) (bind-err m f fs e failed) ∙ first fs
    | inr (a, good) ↦
        ap (λ r. lookup p r.1.files) (bind-good m f fs a good) ∙ (rest a (m fs).1 ∙ first fs)
  ]
