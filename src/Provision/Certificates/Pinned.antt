-- ===== src/Provision/Certificates/Pinned.antt =====
-- `Fingerprint` of internal/provision/provision.go, the text by which a bundle pins the authority.
use mathlib.Core.Option
use mathlib.Core.Path.{ap₂}
use wsn.Protocol.{Bytes, IsByte}
use wsn.Prelude.{
  Option-cases, inl, inr, sym, ◌∙◌, All, Option, [], arith, if◌then◌else◌, leb, ltb, map, none,
  refl, some, ℕ, ◌%◌, ◌&&◌, ◌+◌, ◌-◌, ◌/◌, ◌<◌, ◌∷◌, ◌≡◌,
}
use wsn.Provision.Certificates.{Certificate, Crypto}

-- A digit of `hex.EncodeToString`.
abbrev hex_lower : ℕ → ℕ
hex_lower d = if ltb d 10 then b'0' + d else b'a' + (d - 10)

-- `strings.ToUpper`, on ASCII.
abbrev to_upper : ℕ → ℕ
to_upper c = if leb b'a' c && leb c b'z' then c - 32 else c

unfoldable pub hex_text : Bytes → Bytes
hex_text [] = []
hex_text (b ∷ s) = hex_lower (b / 16) ∷ hex_lower (b % 16) ∷ hex_text s

module _ (crypto : Crypto) (public_key_info sha256 : Bytes → Bytes) where
  fingerprint_of : Option Certificate → Option Bytes
  unfolding hex_text
  fingerprint_of none = none
  fingerprint_of (some certificate) =
      some (map to_upper (hex_text (sha256 (public_key_info certificate.raw))))

  -- From what `os.ReadFile` returned.
  unfoldable pub fingerprint : Option Bytes → Option Bytes
  unfolding fingerprint_of Option.bind
  fingerprint file =
      fingerprint_of (Option.bind (Option.bind file crypto.pem_decode) crypto.parse_certificate)

digit-injective :
    (d e : ℕ) → d < 16 → e < 16 → to_upper (hex_lower d) ≡ to_upper (hex_lower e) → d ≡ e
digit-injective d e h k same = ground arith

cons_parts : {x y : ℕ} {s t : Bytes} → ◌≡◌ {A = Bytes} (x ∷ s) (y ∷ t) → (x ≡ y) × (s ≡ t)
cons_parts e = (cc, cc)

-- Two sums of bytes with one text are the same.
hex_text-injective :
    (s t : Bytes)
    → All IsByte s
    → All IsByte t
    → map to_upper (hex_text s) ≡ map to_upper (hex_text t)
    → s ≡ t
unfolding hex_text
hex_text-injective [] [] bs bt e = refl
hex_text-injective [] (b ∷ t) bs bt e = ground arith
hex_text-injective (a ∷ s) [] bs bt e = ground arith
hex_text-injective (a ∷ s) (b ∷ t) bs bt e =
    let (first, behind) = cons_parts e in
    let (second, others) = cons_parts behind in
    let high =
      digit-injective (a / 16) (b / 16) (omega (arith, bs.0)) (omega (arith, bt.0)) first in
    let low = digit-injective (a % 16) (b % 16) (omega arith) (omega arith) second in
    let more = hex_text-injective s t bs.1 bt.1 others in
    let same : a ≡ b = omega arith in ap₂ ◌∷◌ same more

module _ (crypto : Crypto) (public_key_info sha256 : Bytes → Bytes) where
  -- The certificate that a file holds.
  abbrev certificate_in : Option Bytes → Option Certificate
  certificate_in file = Option.bind (Option.bind file crypto.pem_decode) crypto.parse_certificate

  fingerprint-eq_some :
      (file : Option Bytes) (text : Bytes)
      → fingerprint crypto public_key_info sha256 file ≡ some text
      → (c : Certificate) × (certificate_in file ≡ some c)
        × (text ≡ map to_upper (hex_text (sha256 (public_key_info c.raw))))
  unfolding fingerprint
  fingerprint-eq_some file text e = elim (Option-cases (certificate_in file)) [
    | inl none_there ↦ cc (rw none_there at e)
    | inr (c, held) ↦ (c, held, sym (Option.some-injective _ _ (rw held at e)))
  ]

  -- Two files with one fingerprint hold certificates whose public keys have the same sum.
  pub fingerprint-same_key :
      (file other : Option Bytes) (text : Bytes)
      → ((message : Bytes) → All IsByte (sha256 message))
      → fingerprint crypto public_key_info sha256 file ≡ some text
      → fingerprint crypto public_key_info sha256 other ≡ some text
      → (c c' : Certificate) × (certificate_in file ≡ some c)
        × (certificate_in other ≡ some c')
        × (sha256 (public_key_info c.raw) ≡ sha256 (public_key_info c'.raw))
  fingerprint-same_key file other text bytes e e' =
      let (c, held, printed) = fingerprint-eq_some file text e in
      let (c', held', printed') = fingerprint-eq_some other text e' in
      (c, c', held, held', hex_text-injective _ _ (bytes _) (bytes _) (sym printed ∙ printed'))
