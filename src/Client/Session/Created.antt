-- ===== src/Client/Session/Created.antt =====
-- `New` of internal/client/client.go and `LoadKey` of internal/config/config.go. The files of the
-- client's machine and `AppendCertsFromPEM`, which says whether it found a certificate, are parameters.
pub mod Deployed
use wsn.Prelude.{Bool, Option, none, some, Result, ok, err, or_err, refuse_if, not, ◌>>=◌, ◌>>◌}
use wsn.Protocol.{Bytes}
use wsn.Text.{trim_space}
use wsn.Formats.{Formats}
use wsn.Config.{ConfigError, decode_key, parse_mac}
use wsn.Config.Client.{ClientConfig}
use wsn.Client.Session.{Runner}

pub data NewError : Type 0 where
  no_key_file no_ca_file no_certificate : NewError
  bad_key bad_mac : ConfigError → NewError

abbrev or_bad : {A : Type 0} → (ConfigError → NewError) → Result ConfigError A → Result NewError A
or_bad bad (ok a) = ok a
or_bad bad (err e) = err (bad e)

module _ (f : Formats) (files : Bytes → Option Bytes) (append_certs : Bytes → Bool) where
  -- `LoadKey`; DecodeKey trims the text again.
  unfoldable pub load_key : Bytes → Result NewError Bytes
  load_key path = do
    contents ← or_err (files path) no_key_file
    or_bad bad_key (decode_key f (trim_space contents))

  unfoldable pub new_runner : ClientConfig → Result NewError Runner
  unfolding load_key
  new_runner cfg = do
    key ← load_key cfg.key_file
    mac ← or_bad bad_mac (parse_mac f cfg.mac)
    ca_pem ← or_err (files cfg.ca_file) no_ca_file
    refuse_if (not (append_certs ca_pem)) no_certificate
    ok (record { cfg = cfg; key = key; mac = mac; roots = ca_pem })
