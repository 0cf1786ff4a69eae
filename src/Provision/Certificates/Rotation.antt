-- ===== src/Provision/Certificates/Rotation.antt =====
-- `RotateCertificate` of internal/provision/provision.go. How state.json decodes is a parameter.
pub mod Same
use wsn.Prelude.{
  ℕ, Option, none, some, Result, ok, err, Map, lookup, bytes_key, or_err, ◌>>=◌, ◌>>◌, ◌==◌, nat_eq,
  if◌then◌else◌,
}
use wsn.Prelude.Steps.{Steps}
use wsn.Protocol.{Bytes, codes}
use wsn.Formats.{Formats}
use wsn.Files.{File, FileSystem}
use wsn.Provision.Plan.{State}
use wsn.Provision.Certificates.{
  CertificateError, Certificate, Crypto, Draw, PrivateKey, ed25519, other_kind, no_state,
  unsupported_version, bad_public_ip, no_ca, invalid_ca, no_ca_key, invalid_ca_key, unsupported_key,
  ca_file, ca_key_file, generate_leaf,
}

abbrev content_of : Option File → Option Bytes
content_of none = none
content_of (some f) = some f.content

-- `os.ReadFile`.
abbrev pub contents : Bytes → FileSystem → Option Bytes
contents path fs = content_of (lookup path fs.files)

abbrev pub ed25519_key : PrivateKey → Result CertificateError Bytes
ed25519_key (ed25519 key) = ok key
ed25519_key other_kind = err unsupported_key

abbrev checked_version : State → Result CertificateError State
checked_version state = if state.version == 1 then ok state else err unsupported_version

-- `loadState` on the text of the file; a text that does not decode is `none`.
unfoldable pub state_from : Option State → Result CertificateError State
state_from none = err no_state
state_from (some state) = checked_version state

module _ (f : Formats) (unmarshal : Bytes → Option State) (c : Crypto) where
  abbrev unmarshalled : Option Bytes → Option State
  unmarshalled none = none
  unmarshalled (some text) = unmarshal text

  -- The address of the state, and the authority's certificate and key from their files.
  unfoldable pub load_authority : FileSystem → Result CertificateError (ℕ × Certificate × Bytes)
  unfolding state_from
  load_authority fs = do
    state ← state_from (unmarshalled (contents (codes "state.json") fs))
    public_ip ← or_err (f.parse_addr state.public_ip) bad_public_ip
    ca_pem ← or_err (contents ca_file fs) no_ca
    ca_der ← or_err (c.pem_decode ca_pem) invalid_ca
    ca_certificate ← or_err (c.parse_certificate ca_der) invalid_ca
    key_pem ← or_err (contents ca_key_file fs) no_ca_key
    key_der ← or_err (c.pem_decode key_pem) invalid_ca_key
    key ← or_err (c.parse_key key_der) invalid_ca_key
    ca_private ← ed25519_key key
    ok (public_ip, ca_certificate, ca_private)

  abbrev with_authority :
      Draw
      → Result CertificateError (ℕ × Certificate × Bytes)
      → Steps FileSystem CertificateError (Unit {0})
  with_authority draw (err e) fs = (err e, fs)
  with_authority draw (ok (public_ip, ca_certificate, ca_private)) fs =
      generate_leaf c draw public_ip ca_certificate ca_private fs

  unfoldable pub rotate_certificate : Draw → Steps FileSystem CertificateError (Unit {0})
  unfolding load_authority
  rotate_certificate draw fs = with_authority draw (load_authority fs) fs
