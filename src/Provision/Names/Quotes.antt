-- ===== src/Provision/Names/Quotes.antt =====
-- The names that internal/provision/provision.go accepts have no quote.
use wsn.Text.{all_bytes, all_bytes_iff, cons_first, is_alphanumeric, split, to_lower}
use wsn.Provision.Names.{all_labels, safe_domain_name, safe_interface_name, safe_label}
use wsn.Protocol.{Bytes}
use wsn.Prelude.{All, Bool-cases, List, [], arith, false, inl, inr, true, ℕ, ◌==◌, ◌||◌, ◌∷◌, ◌≡◌}
use wsn.Config.{is_id_char}

-- No single quote stands in the text.
abbrev pub IsPlain : Bytes → Type 0
IsPlain s = All (λ c. (c == 39) ≡ false) s

id_char-plain : (c : ℕ) → is_id_char c ≡ true → (c == 39) ≡ false
id_char-plain c h = ground arith

id_chars-IsPlain : (s : Bytes) → All (λ c. is_id_char c ≡ true) s → IsPlain s
id_chars-IsPlain [] h = tt
id_chars-IsPlain (c ∷ s) h = (id_char-plain c h.0, id_chars-IsPlain s h.1)

pub safe_name-IsPlain : (s : Bytes) → safe_interface_name s ≡ true → IsPlain s
unfolding safe_interface_name
safe_name-IsPlain s h = id_chars-IsPlain s ((all_bytes_iff is_id_char s).0 (ground arith))

label_chars-IsPlain :
    (s : Bytes) → all_bytes (λ c. is_alphanumeric c || (c == b'-')) s ≡ true → IsPlain s
label_chars-IsPlain [] h = tt
label_chars-IsPlain (c ∷ s) h = (ground arith, label_chars-IsPlain s (ground arith))

labels-IsPlain : (labels : List Bytes) → all_labels labels ≡ true → All IsPlain labels
unfolding safe_label
labels-IsPlain [] h = tt
labels-IsPlain (label ∷ labels) h =
    (label_chars-IsPlain label (ground arith), labels-IsPlain labels (ground arith))

cons_first-IsPlain :
    (c : ℕ) (parts : List Bytes)
    → All IsPlain (cons_first c parts)
    → ((c == 39) ≡ false) × All IsPlain parts
cons_first-IsPlain c [] h = (h.0.0, tt)
cons_first-IsPlain c (part ∷ parts) h = (h.0.0, (h.0.1, h.1))

split-IsPlain : (s : Bytes) → All IsPlain (split b'.' s) → IsPlain s
unfolding split
split-IsPlain [] h = tt
split-IsPlain (c ∷ s) h = elim (Bool-cases (c == b'.')) [
  | inl dot ↦ (ground arith, split-IsPlain s (rw dot at h).1)
  | inr other ↦
      let (first, rest) = cons_first-IsPlain c (split b'.' s) (rw other at h) in
      (first, split-IsPlain s rest)
]

to_lower-IsPlain : (s : Bytes) → IsPlain s → IsPlain (to_lower s)
unfolding to_lower
to_lower-IsPlain [] h = tt
to_lower-IsPlain (c ∷ s) h = (let plain = h.0 in ground arith, to_lower-IsPlain s h.1)

-- A domain in lower case.
pub safe_domain-IsPlain : (s : Bytes) → safe_domain_name s ≡ true → IsPlain (to_lower s)
unfolding safe_domain_name
safe_domain-IsPlain s h =
    to_lower-IsPlain s (split-IsPlain s (labels-IsPlain (split b'.' s) (ground arith)))
