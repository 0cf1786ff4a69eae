-- ===== src/Commands/Lists/Joined.antt =====
-- The lists of routes and domains that the options of cmd/wsnctl/main.go carry.
use wsn.Prelude.{
  List, [], ◌∷◌, ◌++◌, map, false, All, ◌≡◌, refl, sym, ap, ◌∙◌, arith, ◌==◌, nat_eq, ℕ, append-nil,
}
use mathlib.Core.Path.{ap₂}
use wsn.Protocol.{Bytes}
use wsn.Text.{trim_space, split, is_space, drop_while_end}
use wsn.Provision.Render.{join}
use wsn.Commands.Lists.{split_list, is_blank}

-- A character that stands in an item of a list.
abbrev pub IsItemChar : ℕ → Type 0
IsItemChar c = (is_space c ≡ false) × ((c == b',') ≡ false)

-- An item: a text that is not empty, with no comma and no white space.
abbrev pub IsItem : Bytes → Type 0
IsItem s = (is_blank s ≡ false) × All IsItemChar s

drop_while_end-item : (s : Bytes) → All IsItemChar s → drop_while_end is_space s ≡ s
drop_while_end-item [] h = refl
drop_while_end-item (c ∷ []) h = let plain = h.0.0 in ground arith
drop_while_end-item (c ∷ d ∷ s) h = rw (drop_while_end-item (d ∷ s) h.1) refl

trim_space-item : (s : Bytes) → All IsItemChar s → trim_space s ≡ s
unfolding trim_space
trim_space-item [] h = refl
trim_space-item (c ∷ s) h = rw h.0.0 (drop_while_end-item (c ∷ s) h)

split-item : (s : Bytes) → All IsItemChar s → split b',' s ≡ s ∷ []
unfolding split
split-item [] h = refl
split-item (c ∷ s) h = let plain = h.0.1 in rw (split-item s h.1, plain) refl

split-append : (s t : Bytes) → All IsItemChar s → split b',' (s ++ b',' ∷ t) ≡ s ∷ split b',' t
unfolding split
split-append [] t h = refl
split-append (c ∷ s) t h = let plain = h.0.1 in rw (split-append s t h.1, plain) refl

split-join :
    (item : Bytes) (items : List Bytes)
    → All IsItem (item ∷ items)
    → split b',' (join (b',' ∷ []) (item ∷ items)) ≡ item ∷ items
unfolding join
split-join item [] h = split-item item h.0.1
split-join item (next ∷ items) h =
    split-append item (join (b',' ∷ []) (next ∷ items)) h.0.1
    ∙ ap (◌∷◌ item) (split-join next items h.1)

map-trim_space : (items : List Bytes) → All IsItem items → map trim_space items ≡ items
map-trim_space [] h = refl
map-trim_space (item ∷ items) h = ap₂ ◌∷◌ (trim_space-item item h.0.1) (map-trim_space items h.1)

kept_end :
    (c : ℕ) (s : Bytes) → is_space c ≡ false → is_blank (drop_while_end is_space (c ∷ s)) ≡ false
kept_end c s h = ground arith

starts_plain : (item t : Bytes) → IsItem item → is_blank (trim_space (item ++ t)) ≡ false
unfolding trim_space
starts_plain [] t h = absurd (ground (arith, h.0))
starts_plain (c ∷ s) t h = rw h.1.0.0 (kept_end c (s ++ t) h.1.0.0)

join-starts :
    (item : Bytes) (items : List Bytes)
    → (t : Bytes) × (join (b',' ∷ []) (item ∷ items) ≡ item ++ t)
unfolding join
join-starts item [] = ([], sym (append-nil item))
join-starts item (next ∷ items) = (b',' ∷ join (b',' ∷ []) (next ∷ items), refl)

-- A list of items that are not empty and have no comma and no white space, joined by commas as the usage
-- of wsnctl says, is split into the same items.
split_list-join :
    (item : Bytes) (items : List Bytes)
    → All IsItem (item ∷ items)
    → split_list (join (b',' ∷ []) (item ∷ items)) ≡ item ∷ items
unfolding split_list
split_list-join item items h =
    let (t, e) = join-starts item items in
    let present : is_blank (trim_space (join (b',' ∷ []) (item ∷ items))) ≡ false =
      ap (λ s. is_blank (trim_space s)) e ∙ starts_plain item t h.0 in
    rw present (ap (map trim_space) (split-join item items h) ∙ map-trim_space (item ∷ items) h)
