-- ===== src/Client/Backoff.antt =====
-- `Run` of internal/client/client.go: the delays between the sessions of a client. Times are in
-- nanoseconds.
pub mod Bounds
use wsn.Prelude.{
  ltb, leb, ◌==◌, if◌then◌else◌, ltb→lt, leb→le, ==_iff, Bool-cases, Option-cases, bytes_eq,
  bytes_eq_iff, bytes_eq_refl, among, Eq, nat_eq, bytes_key, length, take, drop, Elem,
  length-append, take-append-drop, length-take, length-drop, All, All-append, Map, lookup, insert,
  remove, Distinct, Entry, lookup-insert, lookup-remove, insert-Distinct, remove-Distinct,
  Entry-of_lookup, lookup-of_Entry, Result, ◌>>=◌, ◌>>◌, refuse_if, or_err, Result-cases, ok, err,
  ℕ, zero, suc, ◌+◌, ◌-◌, ◌*◌, ◌/◌, ◌%◌, ◌^◌, ◌≤◌, ◌<◌, ◌≡◌, refl, sym, ap, subst, ◌∙◌, ◌≢◌, ◌↔◌,
  ◌⊎◌, inl, inr, Bool, true, false, not, ◌&&◌, ◌||◌, Option, none, some, List, [], ◌∷◌, ◌++◌, map,
  append_assoc, append-nil, arith,
}

abbrev pub minimum_backoff : ℕ
minimum_backoff = 1_000_000_000

abbrev pub maximum_backoff : ℕ
maximum_backoff = 30 * 1_000_000_000

abbrev pub healthy_session : ℕ
healthy_session = 60 * 1_000_000_000

-- One round of `Run`: whether the context is cancelled before the session, after it and while the
-- client waits, how long the session lasted, and what the round's call of `rand.Int63n` returns for
-- its bound.
pub record Attempt : Type 0 where
  pub cancelled_before : Bool
  pub elapsed : ℕ
  pub cancelled_after : Bool
  pub int63n : ℕ → ℕ
  pub cancelled_waiting : Bool

-- `if time.Since(started) >= healthySession { backoff = minimumBackoff }`.
abbrev pub after_session : ℕ → ℕ → ℕ
after_session elapsed backoff = if leb healthy_session elapsed then minimum_backoff else backoff

abbrev pub doubled : ℕ → ℕ
doubled backoff = if ltb backoff maximum_backoff then backoff * 2 else backoff

-- The backoff of the next round.
unfoldable pub next_backoff : ℕ → ℕ
next_backoff backoff =
    if ltb maximum_backoff (doubled backoff) then maximum_backoff else doubled backoff

abbrev pub delay : Attempt → ℕ → ℕ
delay a backoff = backoff + a.int63n (backoff / 2 + 1)

-- The delays that the client waits for, from a backoff on.
unfoldable pub delays : List Attempt → ℕ → List ℕ
unfolding next_backoff
delays [] backoff = []
delays (a ∷ rest) backoff =
    let b = after_session a.elapsed backoff in
    let more = delays rest (next_backoff b) in
    if a.cancelled_before || a.cancelled_after
    then []
    else if a.cancelled_waiting
    then delay a b ∷ []
    else delay a b ∷ more

unfoldable pub run : List Attempt → List ℕ
unfolding delays
run attempts = delays attempts minimum_backoff
