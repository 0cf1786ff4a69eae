-- ===== src/Text/Order.antt =====
-- The order of Go strings, byte by byte, and `sort` by it.
use wsn.Prelude.{
  ltb, ◌==◌, if◌then◌else◌, Bool-cases, bytes_eq, bytes_eq_iff, nat_eq, bytes_key, All, ◌≡◌, refl,
  ap, ◌∙◌, ◌≢◌, inl, inr, Bool, true, false, ◌&&◌, ◌||◌, List, [], ◌∷◌, ◌++◌, arith,
}
use wsn.Protocol.{Bytes}

-- `a < b` on strings.
abbrev pub bytes_lt : Bytes → Bytes → Bool
bytes_lt [] [] = false
bytes_lt [] (y ∷ ys) = true
bytes_lt (x ∷ xs) [] = false
bytes_lt (x ∷ xs) (y ∷ ys) = ltb x y || ((x == y) && bytes_lt xs ys)

pub bytes_lt_irrefl : (xs : Bytes) → bytes_lt xs xs ≡ false
bytes_lt_irrefl [] = refl
bytes_lt_irrefl (x ∷ xs) = ground (arith, bytes_lt_irrefl xs)

pub bytes_lt_trans :
    (xs ys zs : Bytes) → bytes_lt xs ys ≡ true → bytes_lt ys zs ≡ true → bytes_lt xs zs ≡ true
bytes_lt_trans [] [] zs h k = cc
bytes_lt_trans [] (y ∷ ys) [] h k = cc
bytes_lt_trans [] (y ∷ ys) (z ∷ zs) h k = refl
bytes_lt_trans (x ∷ xs) [] zs h k = cc
bytes_lt_trans (x ∷ xs) (y ∷ ys) [] h k = cc
bytes_lt_trans (x ∷ xs) (y ∷ ys) (z ∷ zs) h k = ground (arith, bytes_lt_trans xs ys zs)

pub bytes_lt_total : (xs ys : Bytes) → bytes_lt xs ys ≡ false → xs ≢ ys → bytes_lt ys xs ≡ true
bytes_lt_total [] [] h n = absurd (n refl)
bytes_lt_total [] (y ∷ ys) h n = cc
bytes_lt_total (x ∷ xs) [] h n = refl
bytes_lt_total (x ∷ xs) (y ∷ ys) h n = elim (Bool-cases (x == y)) [
  | inl same ↦
      let rest = bytes_lt_total xs ys (ground arith) (λ e. n (ground arith)) in ground arith
  | inr apart ↦ ground arith
]

-- Insertion by a key, and the sort that it gives. The sort of Go leaves the order of equal keys
-- open; it is used where keys differ.
module _ {A : Type 0} (key : A → Bytes) where
  abbrev pub insert_by : A → List A → List A
  insert_by a [] = a ∷ []
  insert_by a (b ∷ l) = if bytes_lt (key b) (key a) then b ∷ insert_by a l else a ∷ b ∷ l

  unfoldable pub sort_by : List A → List A
  sort_by [] = []
  sort_by (a ∷ l) = insert_by a (sort_by l)

  -- The keys rise, and so differ.
  abbrev pub IsRising : List A → Type 0
  IsRising [] = Unit
  IsRising (a ∷ l) = All (λ b. bytes_lt (key a) (key b) ≡ true) l × IsRising l

module _ {A : Type 0} (key : A → Bytes) where
  abbrev pub IsFresh : Bytes → List A → Type 0
  IsFresh k l = All (λ b. bytes_eq (key b) k ≡ false) l

  above-insert_by :
      (k : Bytes) (a : A) (l : List A)
      → bytes_lt k (key a) ≡ true
      → All (λ b. bytes_lt k (key b) ≡ true) l
      → All (λ b. bytes_lt k (key b) ≡ true) (insert_by key a l)
  above-insert_by k a [] h t = (h, tt)
  above-insert_by k a (b ∷ l) h t = elim (Bool-cases (bytes_lt (key b) (key a))) [
    | inl less ↦ rw less (t.0, above-insert_by k a l h t.1)
    | inr more ↦ rw more (h, t)
  ]

  less_than-All :
      (k m : Bytes) (l : List A)
      → bytes_lt k m ≡ true
      → All (λ b. bytes_lt m (key b) ≡ true) l
      → All (λ b. bytes_lt k (key b) ≡ true) l
  less_than-All k m [] h t = tt
  less_than-All k m (b ∷ l) h t = (bytes_lt_trans k m (key b) h t.0, less_than-All k m l h t.1)

  smaller : (x y : Bytes) → bytes_lt x y ≡ false → bytes_eq x y ≡ false → bytes_lt y x ≡ true
  smaller x y h n = bytes_lt_total x y h (λ e. cc ((bytes_eq_iff x y).1 e))

  -- Insertion of a fresh key keeps the keys rising.
  pub insert_by-IsRising :
      (a : A) (l : List A) → IsFresh (key a) l → IsRising key l → IsRising key (insert_by key a l)
  insert_by-IsRising a [] n r = (tt, tt)
  insert_by-IsRising a (b ∷ l) n r = elim (Bool-cases (bytes_lt (key b) (key a))) [
    | inl less ↦ rw less (above-insert_by (key b) a l less r.0, insert_by-IsRising a l n.1 r.1)
    | inr more ↦
        let less = smaller (key b) (key a) more n.0 in
        rw more ((less, less_than-All (key a) (key b) l less r.0), r)
  ]

  -- An element below all others goes to the front.
  insert_by_front :
      (x : A) (m : List A)
      → All (λ b. bytes_lt (key x) (key b) ≡ true) m
      → insert_by key x m ≡ x ∷ m
  insert_by_front x [] h = refl
  insert_by_front x (b ∷ m) h = elim (Bool-cases (bytes_lt (key b) (key x))) [
    | inr more ↦ rw more
    | inl less ↦
        let loop = bytes_lt_trans (key x) (key b) (key x) h.0 less in
        absurd (cc (bytes_lt_irrefl (key x)))
  ]

  insert_past :
      (x c : A) (l : List A)
      → bytes_eq (key x) (key c) ≡ false
      → All (λ b. bytes_lt (key x) (key b) ≡ true) l
      → insert_by key x (insert_by key c l) ≡ insert_by key c (x ∷ l)
  insert_past x c l n r = elim (Bool-cases (bytes_lt (key x) (key c))) [
    | inl less ↦
        rw less (insert_by_front x (insert_by key c l) (above-insert_by (key x) c l less r))
    | inr more ↦
        let less = smaller (key x) (key c) more n in
        rw more (
          ap (insert_by key x) (insert_by_front c l (less_than-All (key c) (key x) l less r))
          ∙ rw less (ap (◌∷◌ c) (insert_by_front x l r)))
  ]

  -- Appending one element with a fresh key to a list with rising keys and sorting is inserting it.
  pub sort_by-append :
      (c : A) (l : List A)
      → IsFresh (key c) l
      → IsRising key l
      → sort_by key (l ++ c ∷ []) ≡ insert_by key c l
  unfolding sort_by
  sort_by-append c [] n r = refl
  sort_by-append c (x ∷ l) n r =
      ap (insert_by key x) (sort_by-append c l n.1 r.1) ∙ insert_past x c l n.0 r.0
