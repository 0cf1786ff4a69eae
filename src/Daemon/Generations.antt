-- ===== src/Daemon/Generations.antt =====
-- What `rotatingFile` of internal/daemon/daemon_windows.go keeps.
use wsn.Protocol.{Bytes}
use wsn.Prelude.{
  All, List, ◌≤◌, Result, if◌then◌else◌, none, subst, Bool-cases, [], ap, arith, inl, inr,
  length-append, ltb, refl, take, ℕ, ◌&&◌, ◌∙◌, ◌∷◌, length, ok, some, true, ◌++◌, ◌+◌, ◌<◌, ◌≡◌,
  ◌⊎◌,
}
use wsn.Daemon.{write_all, LogError, Calls, RotatingFile, append, move, restore, rotate, write}

-- The counted size is that of the file.
abbrev pub IsCounted : RotatingFile → Type 0
IsCounted f = (f.is_open ≡ true) × (f.size ≡ length f.current)

-- The record is written at the end of the generation, behind what was there or in a new one.
abbrev pub IsWritten : Bytes → RotatingFile → RotatingFile → Type 0
IsWritten p f f' =
    (f'.current ≡ f.current ++ p)
    ⊎ ((f'.current ≡ p) × (f'.previous ≡ some f.current) × (f.limit < length f.current + length p))

take-length : (p : Bytes) → take (length p) p ≡ p
take-length [] = refl
take-length (b ∷ p) = ap (◌∷◌ b) (take-length p)

append-IsWritten :
    (c : Calls) (p : Bytes) (f : RotatingFile)
    → c.taken ≡ length p
    → IsCounted f
    → ((append c p f).0 ≡ ok (length p))
      × IsCounted (append c p f).1
      × ((append c p f).1.current ≡ f.current ++ p)
      × ((append c p f).1.previous ≡ f.previous)
unfolding append
append-IsWritten c p f taken (live, counted) =
    let whole : take c.taken p ≡ p = ap (λ (n : ℕ). take n p) taken ∙ take-length p in
    let longer = length-append f.current p in
    (ground arith, (live, ground arith), ap (λ (s : Bytes). f.current ++ s) whole, refl)

-- A record is written whatever fails in a rotation, if the log can be opened again and its size read,
-- and if the system takes the whole record: Write returns its length, the log stays open with its
-- size, and the record stands behind what was there or, where both do not fit, in a new generation
-- behind which the old one is kept.
pub write-IsWritten :
    (c : Calls) (p : Bytes) (f : RotatingFile)
    → c.reopens ≡ true
    → c.stats ≡ true
    → c.taken ≡ length p
    → IsCounted f
    → ((write c p f).0 ≡ ok (length p)) × IsCounted (write c p f).1 × IsWritten p f (write c p f).1
unfolding write append rotate move restore
write-IsWritten c p f reopens stats taken (live, counted) =
    elim (Bool-cases (ltb 0 f.size && ltb f.limit (f.size + length p))) [
      | inr fits ↦
          subst Outcome {x = append c p f} {y = write c p f} (rw (live, fits) refl)
            (staying f (live, counted) refl)
      | inl full ↦ elim (Bool-cases c.closes) [
        | inr stuck ↦
            subst Outcome {x = append c p (reopened f)} {y = write c p f}
              (rw (live, full, stuck, reopens, stats) refl) (staying (reopened f) (refl, refl) refl)
        | inl shut ↦ elim (Bool-cases c.renames) [
          | inr held ↦
              let g : RotatingFile =
                reopened (record f { previous = if c.removes then none else f.previous }) in
              subst Outcome {x = append c p g} {y = write c p f}
                (rw (live, full, shut, held, reopens, stats) refl) (staying g (refl, refl) refl)
          | inl moved ↦
              let g : RotatingFile =
                reopened (record f { current = []; previous = some f.current }) in
              let (done, now, behind, kept) = append-IsWritten c p g taken (refl, refl) in
              subst Outcome {x = append c p g} {y = write c p f}
                (rw (live, full, shut, moved, reopens, stats) refl)
                (done, now, inr (behind, kept, ground arith))
        ]
      ]
    ]
  where
    Outcome : Result LogError ℕ × RotatingFile → Type 0
    Outcome x = (x.0 ≡ ok (length p)) × IsCounted x.1 × IsWritten p f x.1

    reopened : RotatingFile → RotatingFile
    reopened g = record g { is_open = true; size = length g.current }

    staying : (g : RotatingFile) → IsCounted g → g.current ≡ f.current → Outcome (append c p g)
    staying g now same =
        let (done, now', behind, kept) = append-IsWritten c p g taken now in
        (done, now', inl (behind ∙ ap (λ (s : Bytes). s ++ p) same))

-- Every call succeeds and takes the whole record.
abbrev pub IsSmooth : Calls → Bytes → Type 0
IsSmooth c p =
    (c.closes ≡ true)
    × (c.renames ≡ true)
    × (c.reopens ≡ true)
    × (c.stats ≡ true)
    × (c.taken ≡ length p)

-- The limit of the log is `limit`, and its generation is within it.
abbrev pub IsWithin : ℕ → RotatingFile → Type 0
IsWithin limit f = (f.limit ≡ limit) × (length f.current ≤ limit)

write-IsWithin :
    (c : Calls) (p : Bytes) (f : RotatingFile) (limit : ℕ)
    → IsSmooth c p
    → length p ≤ limit
    → IsCounted f
    → IsWithin limit f
    → IsWithin limit (write c p f).1
unfolding write append rotate move restore
write-IsWithin c p f limit (closes, renames, reopens, stats, taken) short (live, counted)
      (same, low) =
    let longer = length-append f.current p in
    let whole : take c.taken p ≡ p = ap (λ (n : ℕ). take n p) taken ∙ take-length p in
    elim (Bool-cases (ltb 0 f.size && ltb f.limit (f.size + length p))) [
      | inr fits ↦ rw (live, fits, whole) (same, ground arith)
      | inl full ↦ rw (live, full, closes, renames, reopens, stats, whole) (same, short)
    ]

-- A log that is opened on a generation within the limit stays within it, however many records are
-- written that are no longer than the limit, while every call succeeds.
pub write_all-IsWithin :
    (writes : List (Calls × Bytes)) (f : RotatingFile) (limit : ℕ)
    → All (λ (w : Calls × Bytes). IsSmooth w.0 w.1 × (length w.1 ≤ limit)) writes
    → IsCounted f
    → IsWithin limit f
    → IsCounted (write_all writes f) × IsWithin limit (write_all writes f)
unfolding write_all
write_all-IsWithin [] f limit h n b = (n, b)
write_all-IsWithin ((c, p) ∷ rest) f limit ((smooth, short), more) n b =
    let next = write-IsWritten c p f smooth.2 smooth.3 smooth.4 n in
    write_all-IsWithin rest (write c p f).1 limit more next.1
      (write-IsWithin c p f limit smooth short n b)
