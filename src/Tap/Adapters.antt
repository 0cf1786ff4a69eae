-- ===== src/Tap/Adapters.antt =====
-- `isTapComponent` and `findAdapter` of internal/tap/tap_windows.go. The registry is an argument: what
-- the reads of it return. A value that cannot be read is the empty text, as in the source.
use wsn.Prelude.{
  nat_eq, bytes_key, bytes_eq, Bool, true, false, ◌||◌, not, List, [], ◌∷◌, Option, none, some,
  if◌then◌else◌, Result, ok, err, or_err, ◌>>=◌, ◌≡◌, ◌⊎◌, inl, inr, Elem, arith, refl, ◌==◌,
  Option-cases, Bool-cases, subst, Result-cases,
}
use wsn.Protocol.{Bytes, codes}
use wsn.Text.{to_lower}
use wsn.Tap.{TapError, no_registry, no_adapter}

-- The values `ComponentId` and `NetCfgInstanceId` of an adapter's key.
pub record Adapter : Type 0 where
  pub component_id : Bytes
  pub guid : Bytes

-- The names of the subkeys of the class, if it opens and lists them; the adapter of a subkey that
-- opens; the friendly name of the connection of a GUID, if its key opens.
pub record Registry : Type 0 where
  pub subkeys : Option (List Bytes)
  pub adapter : Bytes → Option Adapter
  pub connection : Bytes → Option Bytes

-- `strings.TrimPrefix`.
unfoldable pub trim_prefix : Bytes → Bytes → Option Bytes
trim_prefix [] s = some s
trim_prefix (c ∷ p) [] = none
trim_prefix (c ∷ p) (d ∷ s) = let rest = trim_prefix p s in if c == d then rest else none

abbrev or_whole : Option Bytes → Bytes → Bytes
or_whole none s = s
or_whole (some rest) s = rest

unfoldable pub is_tap_component : Bytes → Bool
is_tap_component component_id =
    bytes_eq
      (or_whole (trim_prefix (codes "root\\") (to_lower component_id)) (to_lower component_id))
      (codes "tap0901")

-- `strings.EqualFold` on ASCII.
unfoldable pub equal_fold : Bytes → Bytes → Bool
equal_fold s t = bytes_eq (to_lower s) (to_lower t)

abbrev pub is_empty : Bytes → Bool
is_empty [] = true
is_empty (c ∷ s) = false

abbrev pub named : Bytes → Bytes → Option Bytes → Bool
named wanted guid none = false
named wanted guid (some friendly_name) = equal_fold wanted friendly_name || equal_fold wanted guid

-- One round of the loop: the GUID of the adapter, where it is the one that is wanted.
is_wanted : Registry → Bytes → Option Adapter → Option Bytes
is_wanted r wanted none = none
is_wanted r wanted (some a) =
    if not (is_tap_component a.component_id) || is_empty a.guid
    then none
    else if named wanted a.guid (r.connection a.guid)
    then some a.guid
    else none

search_from : Registry → Bytes → List Bytes → Result TapError Bytes
unfolding is_wanted
search_from r wanted [] = err no_adapter
search_from r wanted (subkey ∷ subkeys) =
    let rest = search_from r wanted subkeys in
    elim (is_wanted r wanted (r.adapter subkey)) [ none ↦ rest | some guid ↦ ok guid ]

unfoldable pub find_adapter : Registry → Bytes → Result TapError Bytes
unfolding search_from
find_adapter r wanted = do names ← or_err r.subkeys no_registry; search_from r wanted names

-- The subkey is that of a TAP adapter with this GUID, whose connection has a key that opens; the wanted
-- name is that of the connection or the GUID, up to case.
pub record IsAdapter (r : Registry) (wanted guid subkey : Bytes) : Type 0 where
  pub component_id : Bytes
  pub friendly_name : Bytes
  pub reads : r.adapter subkey ≡ some (record { component_id = component_id; guid = guid })
  pub component : is_tap_component component_id ≡ true
  pub present : is_empty guid ≡ false
  pub connected : r.connection guid ≡ some friendly_name
  pub means : (equal_fold wanted friendly_name ≡ true) ⊎ (equal_fold wanted guid ≡ true)

named-connected :
    (wanted guid : Bytes) (o : Option Bytes)
    → named wanted guid o ≡ true
    → (friendly_name : Bytes) × (o ≡ some friendly_name)
      × ((equal_fold wanted friendly_name ≡ true) ⊎ (equal_fold wanted guid ≡ true))
named-connected wanted guid none h = cc
named-connected wanted guid (some name) h = elim (Bool-cases (equal_fold wanted name)) [
  | inl same ↦ (name, refl, inl same)
  | inr other ↦ (name, refl, inr (ground arith))
]

connected-named :
    (wanted guid name : Bytes)
    → (equal_fold wanted name ≡ true) ⊎ (equal_fold wanted guid ≡ true)
    → named wanted guid (some name) ≡ true
connected-named wanted guid name (inl same) = rw same refl
connected-named wanted guid name (inr same) = ground arith

module _ (r : Registry) (wanted : Bytes) where
  is_wanted-IsAdapter :
      (guid subkey : Bytes)
      → is_wanted r wanted (r.adapter subkey) ≡ some guid
      → IsAdapter r wanted guid subkey
  unfolding is_wanted
  is_wanted-IsAdapter guid subkey h = elim (Option-cases (r.adapter subkey)) [
    | inl none_there ↦ ground arith
    | inr (a, e) ↦
        let same : a.guid ≡ guid = ground arith in
        let passed : named wanted guid (r.connection guid) ≡ true = ground arith in
        let (name, connected, means) = named-connected wanted guid (r.connection guid) passed in
        record {
          component_id = a.component_id;
          friendly_name = name;
          reads = ground arith;
          component = ground arith;
          present = ground arith;
          connected = connected;
          means = means;
        }
  ]

  IsAdapter-is_wanted :
      (guid subkey : Bytes)
      → IsAdapter r wanted guid subkey
      → is_wanted r wanted (r.adapter subkey) ≡ some guid
  unfolding is_wanted
  IsAdapter-is_wanted guid subkey h =
      let passed : named wanted guid (r.connection guid) ≡ true =
        rw h.connected (connected-named wanted guid h.friendly_name h.means) in
      ground (arith, h.reads, h.component, h.present, passed)

  search_from_sound :
      (guid : Bytes) (subkeys : List Bytes)
      → search_from r wanted subkeys ≡ ok guid
      → (subkey : Bytes) × Elem subkey subkeys × IsAdapter r wanted guid subkey
  unfolding search_from
  search_from_sound guid [] h = ground arith
  search_from_sound guid (k ∷ subkeys) h = elim (Option-cases (is_wanted r wanted (r.adapter k))) [
    | inl passed ↦ let (j, e, a) = search_from_sound guid subkeys (ground arith) in (j, inr e, a)
    | inr (g, e) ↦
        let same : g ≡ guid = ground arith in
        (k, inl refl, is_wanted-IsAdapter guid k (ground arith))
  ]

  search_from_complete :
      (subkeys : List Bytes) (e : TapError)
      → search_from r wanted subkeys ≡ err e
      → (e ≡ no_adapter)
        × ((guid subkey : Bytes) → Elem subkey subkeys → ¬ IsAdapter r wanted guid subkey)
  unfolding search_from
  search_from_complete [] e h = (ground arith, λ guid subkey m a. m)
  search_from_complete (k ∷ subkeys) e h = elim (Option-cases (is_wanted r wanted (r.adapter k))) [
    | inl passed ↦
        let (same, others) = search_from_complete subkeys e (ground arith) in
        (
          same,
          λ guid subkey m a. elim m [
            | inl first ↦
                let wrong = IsAdapter-is_wanted guid k (subst (IsAdapter r wanted guid) first a) in
                ground arith
            | inr rest ↦ others guid subkey rest a
          ],
        )
    | inr (g, found) ↦ ground arith
  ]

  -- Where the subkeys of the class can be listed, findAdapter returns a GUID that one of them has as a
  -- TAP adapter whose Connection key opens, and whose own GUID or whose connection's friendly name is
  -- the wanted one up to case; or it reports that there is no adapter, and then no subkey has such a
  -- one, though an adapter may have the wanted GUID whose Connection key does not open.
  pub find_adapter-IsAdapter :
      (subkeys : List Bytes)
      → r.subkeys ≡ some subkeys
      → ((guid subkey : Bytes) × (find_adapter r wanted ≡ ok guid)
          × Elem subkey subkeys
          × IsAdapter r wanted guid subkey)
        ⊎ ((find_adapter r wanted ≡ err no_adapter)
            × ((guid subkey : Bytes) → Elem subkey subkeys → ¬ IsAdapter r wanted guid subkey))
  unfolding find_adapter
  find_adapter-IsAdapter subkeys listed = elim (Result-cases (search_from r wanted subkeys)) [
    | inl (e, failed) ↦
        let (same, others) = search_from_complete subkeys e failed in inr (ground arith, others)
    | inr (guid, found) ↦
        let (subkey, stands, adapter) = search_from_sound guid subkeys found in
        inl (guid, subkey, ground arith, stands, adapter)
  ]
