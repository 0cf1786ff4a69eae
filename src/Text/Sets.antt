-- ===== src/Text/Sets.antt =====
-- A Go map with no values whose keys are collected and sorted by `sort.Strings`, as
-- internal/provision/provision.go uses it twice: the texts in their order, each once.
use wsn.Prelude.{
  if◌then◌else◌, Bool-cases, bytes_eq, bytes_eq_iff, Elem, All, ◌≡◌, ◌↔◌, ◌⊎◌, inl, inr, true, List,
  [], ◌∷◌, subst,
}
use wsn.Protocol.{Bytes}
use wsn.Text.Order.{bytes_lt, bytes_lt_trans, bytes_lt_total, IsRising}

unfoldable pub add_text : Bytes → List Bytes → List Bytes
add_text s [] = s ∷ []
add_text s (t ∷ l) =
    let more = add_text s l in
    if bytes_eq s t then t ∷ l else if bytes_lt s t then s ∷ t ∷ l else t ∷ more

-- The texts rise, and so each stands once.
abbrev pub AreRising : List Bytes → Type 0
AreRising l = IsRising (λ (s : Bytes). s) l

below-All :
    (k m : Bytes) (l : List Bytes)
    → bytes_lt k m ≡ true
    → All (λ b. bytes_lt m b ≡ true) l
    → All (λ b. bytes_lt k b ≡ true) l
below-All k m [] h t = tt
below-All k m (b ∷ l) h t = (bytes_lt_trans k m b h t.0, below-All k m l h t.1)

pub All-add_text :
    (P : Bytes → Type 0) (s : Bytes) (l : List Bytes) → P s → All P l → All P (add_text s l)
unfolding add_text
All-add_text P s [] p h = (p, tt)
All-add_text P s (t ∷ l) p h = elim (Bool-cases (bytes_eq s t)) [
  | inl same ↦ rw same h
  | inr apart ↦ elim (Bool-cases (bytes_lt s t)) [
    | inl less ↦ rw (apart, less) (p, h)
    | inr more ↦ rw (apart, more) (h.0, All-add_text P s l p h.1)
  ]
]

pub add_text-AreRising : (s : Bytes) (l : List Bytes) → AreRising l → AreRising (add_text s l)
unfolding add_text
add_text-AreRising s [] r = (tt, tt)
add_text-AreRising s (t ∷ l) r = elim (Bool-cases (bytes_eq s t)) [
  | inl same ↦ rw same r
  | inr apart ↦ elim (Bool-cases (bytes_lt s t)) [
    | inl less ↦ rw (apart, less) ((less, below-All s t l less r.0), r)
    | inr more ↦
        let less = bytes_lt_total s t more (λ e. cc ((bytes_eq_iff s t).1 e)) in
        rw (apart, more) (All-add_text _ s l less r.0, add_text-AreRising s l r.1)
  ]
]

-- `or` with the first two disjuncts swapped, through an equivalence.
behind : {A S T L : Type 0} → A ↔ (S ⊎ L) → T ⊎ A → S ⊎ (T ⊎ L)
behind {S = S} {T = T} {L = L} e (inl t) = inr (inl t)
behind {S = S} {T = T} {L = L} e (inr a) = sort_out (e.0 a)
  where
    sort_out : S ⊎ L → S ⊎ (T ⊎ L)
    sort_out (inl x) = inl x
    sort_out (inr x) = inr (inr x)

in_front : {A S T L : Type 0} → A ↔ (S ⊎ L) → S ⊎ (T ⊎ L) → T ⊎ A
in_front e (inl x) = inr (e.1 (inl x))
in_front e (inr (inl t)) = inl t
in_front e (inr (inr x)) = inr (e.1 (inr x))

equal_first : (d s t : Bytes) {L : Type 0} → s ≡ t → (d ≡ s) ⊎ ((d ≡ t) ⊎ L) → (d ≡ t) ⊎ L
equal_first d s t e (inl h) = inl (subst (λ (x : Bytes). d ≡ x) e h)
equal_first d s t e (inr h) = h

-- What is added is in the list afterwards, and nothing else comes or goes.
pub Elem-add_text : (d s : Bytes) (l : List Bytes) → Elem d (add_text s l) ↔ ((d ≡ s) ⊎ Elem d l)
unfolding add_text
Elem-add_text d s [] = (λ h. h, λ h. h)
Elem-add_text d s (t ∷ l) =
    let rest = Elem-add_text d s l in
    elim (Bool-cases (bytes_eq s t)) [
      | inl same ↦ rw same (λ h. inr h, equal_first d s t ((bytes_eq_iff s t).0 same))
      | inr apart ↦ elim (Bool-cases (bytes_lt s t)) [
        | inl less ↦ rw (apart, less) (λ h. h, λ h. h)
        | inr more ↦ rw (apart, more) (behind rest, in_front rest)
      ]
    ]
