-- ===== src/Relay/Server/Spared.antt =====
-- A reload of internal/relay/relay.go leaves a session alone whose client both configurations have.
use wsn.Prelude.{
  nat_eq, bytes_key, All, Bool-cases, Elem, List, [], arith, bytes_eq, bytes_eq_iff, inl, inr,
  lookup, refl, some, subst, sym, true, ℕ, ◌∷◌, ◌≡◌,
}
use wsn.Protocol.{Bytes}
use wsn.Formats.{Formats}
use wsn.Config.{RelayClient, is_seen}
use wsn.Config.Valid.{ids_of}
use wsn.Relay.Hub.{Hub, retain_authorized}
use wsn.Relay.Hub.Registry.{IsRegistry}
use wsn.Relay.Hub.Authorized.{IsAuthorized, retain_authorized_lem}
use wsn.Relay.Server.{Clients}
use wsn.Relay.Server.Table.{IsListed, IsTable}

-- An identity of the list belongs to one of its clients.
pub seen-Elem :
    (id : Bytes) (l : List RelayClient)
    → is_seen id (ids_of l) ≡ true
    → (c : RelayClient) × Elem c l × (c.id ≡ id)
seen-Elem id [] h = cc
seen-Elem id (c ∷ l) h = elim (Bool-cases (bytes_eq c.id id)) [
  | inl same ↦ (c, inl refl, (bytes_eq_iff c.id id).0 same)
  | inr differs ↦ let (e, inside, same) = seen-Elem id l (ground arith) in (e, inr inside, same)
]

module _ (f : Formats) where
  listed-Elem :
      (clients : Clients) (l : List RelayClient) (c : RelayClient)
      → All (IsListed f clients) l
      → Elem c l
      → IsListed f clients c
  listed-Elem clients [] c h e = absurd e
  listed-Elem clients (x ∷ l) c h (inl same) = subst (IsListed f clients) (sym same) h.0
  listed-Elem clients (x ∷ l) c h (inr e) = listed-Elem clients l c h.1 e

  -- An identity that a table lists belongs to a client of its configuration.
  pub lookup-Elem :
      (clients : Clients) (l : List RelayClient) (id mac : Bytes)
      → IsTable f clients l
      → IsAuthorized clients id mac
      → (c : RelayClient) × Elem c l × (c.id ≡ id)
  lookup-Elem clients l id mac t (a, found, same) = elim (Bool-cases (is_seen id (ids_of l))) [
    | inl seen ↦ seen-Elem id l seen
    | inr new ↦ let missing = t.nobody_else id new in ground arith
  ]

  IsAuthorized-kept :
      (before after : Clients) (l l' : List RelayClient) (c : RelayClient) (mac : Bytes)
      → IsTable f before l
      → IsTable f after l'
      → Elem c l
      → Elem c l'
      → IsAuthorized before c.id mac
      → IsAuthorized after c.id mac
  IsAuthorized-kept before after l l' c mac t t' e e' (a, found, same) =
      let (b, at_b, _, _, _, _, mac_b) = listed-Elem before l c t.listed e in
      let (a', at_a, _, _, _, _, mac_a) = listed-Elem after l' c t'.listed e' in
      (a', at_a, ground arith)

  -- A registered peer whose client stands in both configurations is left as it was.
  pub retain_authorized-spares :
      (before after : Clients) (l l' : List RelayClient) (h : Hub) (c : RelayClient) (q : ℕ)
      → IsTable f before l
      → IsTable f after l'
      → Elem c l
      → Elem c l'
      → IsRegistry h
      → lookup c.id h.by_id ≡ some q
      → IsAuthorized before c.id (h.peers q).mac
      → (retain_authorized after h).0.peers q ≡ h.peers q
  retain_authorized-spares before after l l' h c q t t' e e' r at a =
      elim (retain_authorized_lem after h r c.id q at) [
        | inl (_, same) ↦ same
        | inr (unlisted, _) ↦
            absurd (unlisted (IsAuthorized-kept before after l l' c (h.peers q).mac t t' e e' a))
      ]
