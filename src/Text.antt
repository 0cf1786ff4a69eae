-- ===== src/Text.antt =====
-- What the repository uses of Go's `strings` and `sort`, over ASCII texts as lists of bytes.
pub mod Order
pub mod Sets
pub use Order.*
use wsn.Prelude.{
  ltb, leb, ◌==◌, if◌then◌else◌, ltb→lt, leb→le, ==_iff, Bool-cases, Option-cases, bytes_eq,
  bytes_eq_iff, bytes_eq_refl, among, Eq, nat_eq, bytes_key, length, take, drop, Elem,
  length-append, take-append-drop, length-take, length-drop, All, All-append, Map, lookup, insert,
  remove, Distinct, Entry, lookup-insert, lookup-remove, insert-Distinct, remove-Distinct,
  Entry-of_lookup, lookup-of_Entry, Result, ◌>>=◌, ◌>>◌, refuse_if, or_err, Result-cases, ok, err,
  ℕ, zero, suc, ◌+◌, ◌-◌, ◌*◌, ◌/◌, ◌%◌, ◌^◌, ◌≤◌, ◌<◌, ◌≡◌, refl, sym, ap, subst, ◌∙◌, ◌≢◌, ◌↔◌,
  ◌⊎◌, inl, inr, Bool, true, false, not, ◌&&◌, ◌||◌, Option, none, some, List, [], ◌∷◌, ◌++◌, map,
  append_assoc, append-nil, arith,
}
use wsn.Protocol.{Bytes}

-- `strings.TrimSpace` on ASCII.
abbrev pub is_space : ℕ → Bool
is_space c = (c == 32) || (leb 9 c && leb c 13)

abbrev pub drop_while : (ℕ → Bool) → Bytes → Bytes
drop_while test [] = []
drop_while test (c ∷ s) = if test c then drop_while test s else c ∷ s

-- A text without what passes the test at its end.
abbrev pub drop_while_end : (ℕ → Bool) → Bytes → Bytes
drop_while_end test [] = []
drop_while_end test (c ∷ s) =
    let rest = drop_while_end test s in
    elim rest [ [] ↦ if test c then [] else c ∷ [] | d ∷ r ↦ c ∷ d ∷ r ]

unfoldable pub trim_space : Bytes → Bytes
trim_space s = drop_while_end is_space (drop_while is_space s)

-- `strings.Trim(s, ".")`.
unfoldable pub trim_dots : Bytes → Bytes
trim_dots s = drop_while_end (λ c. c == b'.') (drop_while (λ c. c == b'.') s)

-- `strings.ToLower` on ASCII.
unfoldable pub to_lower : Bytes → Bytes
to_lower s = map (λ c. if leb b'A' c && leb c b'Z' then c + 32 else c) s

-- The letters and digits that the repository's tests of characters name.
abbrev pub is_alphanumeric : ℕ → Bool
is_alphanumeric c =
    leb b'a' c && leb c b'z' || (leb b'A' c && leb c b'Z') || (leb b'0' c && leb c b'9')

abbrev pub cons_first : ℕ → List Bytes → List Bytes
cons_first c [] = (c ∷ []) ∷ []
cons_first c (part ∷ parts) = (c ∷ part) ∷ parts

-- `strings.Split` at a separator of one byte: never an empty list.
unfoldable pub split : ℕ → Bytes → List Bytes
split sep [] = [] ∷ []
split sep (c ∷ s) = let parts = split sep s in if c == sep then [] ∷ parts else cons_first c parts

abbrev pub all_bytes : (ℕ → Bool) → Bytes → Bool
all_bytes test [] = true
all_bytes test (c ∷ s) = test c && all_bytes test s

pub all_bytes_iff :
    (test : ℕ → Bool) (s : Bytes) → (all_bytes test s ≡ true) ↔ All (λ c. test c ≡ true) s
all_bytes_iff test [] = (λ h. tt, λ h. refl)
all_bytes_iff test (c ∷ s) = (
  λ h. (ground arith, (all_bytes_iff test s).0 (ground arith)),
  λ h. let rest = (all_bytes_iff test s).1 h.1 in ground arith,
)
