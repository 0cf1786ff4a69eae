-- ===== src/Client/Backoff/Bounds.antt =====
-- The bounds of the delays of internal/client/client.go.
use wsn.Prelude.{
  Bool-cases, nat_eq, bytes_key, All, ℕ, ◌+◌, ◌/◌, ◌≤◌, ◌<◌, inl, inr, ◌||◌, List, [], ◌∷◌, arith,
}
use wsn.Client.Backoff.{
  Attempt, minimum_backoff, maximum_backoff, after_session, next_backoff, delay, delays, run,
}

-- `rand.Int63n` of the standard library returns a number below its bound, which is positive.
abbrev pub DrawsBelow : Attempt → Type 0
DrawsBelow a = (n : ℕ) → a.int63n (n + 1) < n + 1

abbrev pub IsDelay : ℕ → Type 0
IsDelay d = (minimum_backoff ≤ d) × (d ≤ maximum_backoff + maximum_backoff / 2)

abbrev IsBackoff : ℕ → Type 0
IsBackoff b = (minimum_backoff ≤ b) × (b ≤ maximum_backoff)

after_session-IsBackoff : (elapsed b : ℕ) → IsBackoff b → IsBackoff (after_session elapsed b)
after_session-IsBackoff elapsed b h = ground arith

next_backoff-IsBackoff : (b : ℕ) → IsBackoff b → IsBackoff (next_backoff b)
unfolding next_backoff
next_backoff-IsBackoff b h = ground arith

delay-IsDelay : (a : Attempt) (b : ℕ) → DrawsBelow a → IsBackoff b → IsDelay (delay a b)
delay-IsDelay a b h i = let drawn = h (b / 2) in (omega arith, omega arith)

delays-IsDelay :
    (attempts : List Attempt) (b : ℕ)
    → All DrawsBelow attempts
    → IsBackoff b
    → All IsDelay (delays attempts b)
unfolding delays
delays-IsDelay [] b h i = tt
delays-IsDelay (a ∷ rest) b h i =
    let now : ℕ = after_session a.elapsed b in
    let fits = after_session-IsBackoff a.elapsed b i in
    let more = delays-IsDelay rest (next_backoff now) h.1 (next_backoff-IsBackoff now fits) in
    let first = delay-IsDelay a now h.0 fits in
    elim (Bool-cases (a.cancelled_before || a.cancelled_after)) [
      | inl stops ↦ rw stops tt
      | inr goes ↦ elim (Bool-cases a.cancelled_waiting) [
        | inl stops ↦ rw (goes, stops) (first, tt)
        | inr waits ↦ rw (goes, waits) (first, more)
      ]
    ]

-- However the sessions of a client end, it waits at least one and at most 45 seconds before each
-- reconnection, given that the random draws are below their bounds.
pub run-IsDelay : (attempts : List Attempt) → All DrawsBelow attempts → All IsDelay (run attempts)
unfolding run
run-IsDelay attempts h = delays-IsDelay attempts minimum_backoff h (omega arith, omega arith)
