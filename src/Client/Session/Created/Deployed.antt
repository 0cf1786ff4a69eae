-- ===== src/Client/Session/Created/Deployed.antt =====
-- The client of a bundle of internal/provision/provision.go, started by internal/client/client.go.
use wsn.Prelude.{
  Bool, true, Option, some, ok, [], ◌∷◌, ◌++◌, ◌≡◌, refl, ap, sym, ◌∙◌, arith, Bool-cases, inl, inr,
  nat_eq,
}
use wsn.Protocol.{Bytes, codes}
use wsn.Text.{trim_space, drop_while_end, is_space}
use wsn.Formats.{Formats, ReadsBack}
use wsn.Config.{decode_key, parse_mac}
use wsn.Config.Valid.{parse_mac-print_mac}
use wsn.Provision.Plan.{State, ProvisionedClient}
use wsn.Provision.Deployment.{IsProvisioned}
use wsn.Provision.Render.{client_config}
use wsn.Client.Session.Created.{new_runner}

-- A newline at the end of a text goes with its other spaces.
drop_while_end-newline :
    (s : Bytes) → drop_while_end is_space (s ++ 10 ∷ []) ≡ drop_while_end is_space s
drop_while_end-newline [] = refl
drop_while_end-newline (c ∷ s) = rw (drop_while_end-newline s) refl

trim_space-newline : (s : Bytes) → trim_space (s ++ 10 ∷ []) ≡ trim_space s
unfolding trim_space
trim_space-newline [] = refl
trim_space-newline (c ∷ s) =
    let rest = trim_space-newline s in
    let end = drop_while_end-newline (c ∷ s) in
    elim (Bool-cases (is_space c)) [ inl space ↦ rw space rest | inr letter ↦ rw letter end ]

module _ (f : Formats) (r : ReadsBack f) where
  -- The text of a key, with the newline that the bundle adds, is read as the key.
  key-file-decodes :
      (c : ProvisionedClient) (v : IsProvisioned f c)
      → decode_key f (trim_space (c.key ++ codes "\n")) ≡ ok v.key
  unfolding decode_key
  key-file-decodes c v =
      let text : trim_space c.key ≡ c.key =
        ap trim_space v.key_printed ∙ (r.key_trimmed v.key ∙ sym v.key_printed) in
      let trimmed : trim_space (c.key ++ codes "\n") ≡ c.key = trim_space-newline c.key ∙ text in
      let read : f.decode_base64 c.key ≡ some v.key =
        ap f.decode_base64 v.key_printed ∙ r.key_reads v.key in
      let size = v.key_size in rw (trimmed, text, read) (ground arith)

  -- A machine that holds the files of a client's bundle where its configuration names them starts the
  -- client: `New` accepts the configuration, and the client gets the key and the address that were
  -- drawn for it and trusts the certificate of the bundle, if that is one.
  pub new_runner-client_config :
      (files : Bytes → Option Bytes) (append_certs : Bytes → Bool) (state : State)
      (c : ProvisionedClient) (v : IsProvisioned f c) (ca : Bytes)
      → files (client_config state c).key_file ≡ some (c.key ++ codes "\n")
      → files (client_config state c).ca_file ≡ some ca
      → append_certs ca ≡ true
      → new_runner f files append_certs (client_config state c)
        ≡ ok (record { cfg = client_config state c; key = v.key; mac = v.mac; roots = ca })
  unfolding new_runner client_config
  new_runner-client_config files append_certs state c v ca key_file ca_file certs =
      let key = key-file-decodes c v in
      let mac : parse_mac f c.mac ≡ ok v.mac =
        ap (parse_mac f) v.mac_printed
        ∙ parse_mac-print_mac f r v.mac v.mac_six v.mac_bytes v.mac_unicast in
      rw (key_file, key, mac, ca_file, certs) refl
