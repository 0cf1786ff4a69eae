-- ===== src/Prelude/Maps.antt =====
-- Go maps as association lists: `lookup` is `m[k]`, `insert` is `m[k] = v`, `remove` is
-- `delete(m, k)`, and `for k, v := range m` goes through the list. Go leaves the order of a range
-- open, so no statement depends on the order of the list.
use mathlib.Core.Path.{◌≡◌, refl}
use mathlib.Core.Logic.{◌⊎◌, inl, inr}
use mathlib.Core.List.{List, [], ◌∷◌}
use mathlib.Core.Option.{Option, none, some}
use native.Mathlib.Omega.{arith}
use wsn.Prelude.Tests.{Eq, if◌then◌else◌}

abbrev pub Map : Type 0 → Type 0 → Type 0
Map K V = List (K × V)

module _ {K V : Type 0} ⦃e : Eq K⦄ where
  abbrev pub lookup : K → Map K V → Option V
  lookup k [] = none
  lookup k ((j, v) ∷ m) = if e.beq j k then some v else lookup k m

  abbrev pub insert : K → V → Map K V → Map K V
  insert k v [] = (k, v) ∷ []
  insert k v ((j, w) ∷ m) = if e.beq j k then (k, v) ∷ m else (j, w) ∷ insert k v m

  abbrev pub remove : K → Map K V → Map K V
  remove k [] = []
  remove k ((j, w) ∷ m) = if e.beq j k then remove k m else (j, w) ∷ remove k m

  -- No key stands twice.
  abbrev pub Distinct : Map K V → Type 0
  Distinct [] = Unit
  Distinct ((j, v) ∷ m) = (lookup j m ≡ none) × Distinct m

  abbrev pub Entry : K → V → Map K V → Type 0
  Entry k v [] = ⊥
  Entry k v ((j, w) ∷ m) = ((j ≡ k) × (w ≡ v)) ⊎ Entry k v m

module _ {K V : Type 0} ⦃e : Eq K⦄ where
  pub lookup-insert :
      (k j : K) (v : V) (m : Map K V)
      → lookup j (insert k v m) ≡ (if e.beq k j then some v else lookup j m)
  lookup-insert k j v [] = refl
  lookup-insert k j v ((i, w) ∷ m) =
      ground (arith, e.beq_iff k j, e.beq_iff i k, e.beq_iff i j, lookup-insert k j v m)

  pub lookup-remove :
      (k j : K) (m : Map K V) → lookup j (remove k m) ≡ (if e.beq k j then none else lookup j m)
  lookup-remove k j [] = ground arith
  lookup-remove k j ((i, w) ∷ m) =
      ground (arith, e.beq_iff k j, e.beq_iff i k, e.beq_iff i j, lookup-remove k j m)

  pub insert-Distinct : (k : K) (v : V) (m : Map K V) → Distinct m → Distinct (insert k v m)
  insert-Distinct k v [] d = (refl, tt)
  insert-Distinct k v ((j, w) ∷ m) d =
      ground (arith, e.beq_iff j k, e.beq_iff k j, lookup-insert k j v m, insert-Distinct k v m d.1)

  pub remove-Distinct : (k : K) (m : Map K V) → Distinct m → Distinct (remove k m)
  remove-Distinct k [] d = tt
  remove-Distinct k ((j, w) ∷ m) d =
      ground (arith, e.beq_iff j k, lookup-remove k j m, remove-Distinct k m d.1)

  -- A range visits exactly what a lookup finds.
  pub Entry-of_lookup : (k : K) (v : V) (m : Map K V) → lookup k m ≡ some v → Entry k v m
  Entry-of_lookup k v [] h = cc
  Entry-of_lookup k v ((j, w) ∷ m) h = ground (arith, e.beq_iff j k, Entry-of_lookup k v m)

  pub lookup-of_Entry :
      (k : K) (v : V) (m : Map K V) → Distinct m → Entry k v m → lookup k m ≡ some v
  lookup-of_Entry k v [] d h = absurd h
  lookup-of_Entry k v ((j, w) ∷ m) d (inl p) = ground (arith, e.beq_iff j k)
  lookup-of_Entry k v ((j, w) ∷ m) d (inr p) =
      ground (arith, e.beq_iff j k, lookup-of_Entry k v m d.1 p)
