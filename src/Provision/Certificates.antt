-- ===== src/Provision/Certificates.antt =====
-- The certificates of internal/provision/provision.go: generateCertificates, generateLeafCertificate,
-- RotateCertificate, randomSerial and writePEM. Ed25519, X.509 and PEM are parameters, and so is what
-- the random source returns. A file is named without the deployment's directory.
pub mod Kept
pub mod Rotation
pub mod Pinned
mod Examples
use wsn.Prelude.{
  ℕ, List, [], ◌∷◌, Option, none, some, Result, ok, err, Map, lookup, insert, Bool, true, false,
  if◌then◌else◌, bytes_key, not, or_err, refuse_if, ◌==◌, ◌*◌, ◌+◌,
}
use wsn.Prelude.Steps.{Steps, ◌>>=◌, ◌>>◌, lift}
use wsn.Protocol.{Bytes, codes}
use wsn.Files.{
  Outcome, FileError, File, FileSystem, calls, no_change, put_part, is_done, succeeds, fails, stops,
}
use wsn.Provision.Plan.{State}

pub data CertificateError : Type 0 where
  no_state unsupported_version bad_public_ip no_ca invalid_ca no_ca_key invalid_ca_key :
      CertificateError
  unsupported_key no_random not_signed : CertificateError
  of_file : FileError → CertificateError

pub data KeyUsage : Type 0 where
  cert_sign crl_sign digital_signature : KeyUsage

-- `x509.Certificate`, as a template and as it is parsed; `raw` is what it was parsed from.
pub record Certificate : Type 0 where
  pub serial : ℕ
  pub common_name : Bytes
  pub not_before : ℕ
  pub years : ℕ
  pub is_ca : Bool
  pub usage : List KeyUsage
  pub server_auth : Bool
  pub addresses : List ℕ
  pub raw : Bytes

-- What a key file holds: an Ed25519 key, or one of another kind.
pub data PrivateKey : Type 0 where
  ed25519 : Bytes → PrivateKey
  other_kind : PrivateKey

pub record Crypto : Type 0 where
  pub create_certificate : Certificate → Certificate → Bytes → Bytes → Option Bytes
  pub parse_certificate : Bytes → Option Certificate
  pub marshal_key : Bytes → Option Bytes
  pub parse_key : Bytes → Option PrivateKey
  pub pem_encode : Bytes → Bytes → Bytes
  pub pem_decode : Bytes → Option Bytes

-- What a certificate is made of: the time five minutes before, and from the random source a public and
-- a private key, and a serial's bytes.
pub record Draw : Type 0 where
  pub now : ℕ
  pub keys : Option (Bytes × Bytes)
  pub serial : Option Bytes

-- `big.Int.SetBytes`.
unfoldable pub number_from : ℕ → Bytes → ℕ
number_from n [] = n
number_from n (b ∷ s) = number_from (n * 256 + b) s

-- `randomSerial`: zero is no serial.
unfoldable pub random_serial : Option Bytes → Result CertificateError ℕ
unfolding number_from
random_serial none = err no_random
random_serial (some value) = ok (if number_from 0 value == 0 then 1 else number_from 0 value)

mode_or : ℕ → Option File → ℕ
mode_or mode none = mode
mode_or mode (some f) = f.mode

-- `os.WriteFile` opens the file, which makes or empties it and keeps the mode that it has.
emptied : Bytes → ℕ → Outcome → Map Bytes File → Map Bytes File
unfolding mode_or
emptied path mode o files =
    if is_done o
    then insert path (record { content = []; mode = mode_or mode (lookup path files) }) files
    else files

written : Bytes → ℕ → Bytes → Outcome → Map Bytes File → Map Bytes File
unfolding mode_or
written path mode value o files = put_part path (mode_or mode (lookup path files)) value o files

unfoldable pub write_file : Bytes → Bytes → ℕ → Steps FileSystem FileError (Unit {0})
unfolding emptied written no_change
write_file path value mode = do
  calls (emptied path mode)
  calls (written path mode value)
  no_change

abbrev wrapped :
    Result FileError (Unit {0}) × FileSystem → Result CertificateError (Unit {0}) × FileSystem
wrapped (ok t, fs) = (ok t, fs)
wrapped (err e, fs) = (err (of_file e), fs)

abbrev pub ca_file : Bytes
ca_file = codes "relay-ca.crt"

abbrev pub ca_key_file : Bytes
ca_key_file = codes "relay-ca.key"

abbrev pub leaf_file : Bytes
leaf_file = codes "relay.crt"

abbrev pub leaf_key_file : Bytes
leaf_key_file = codes "relay.key"

-- The templates of the two certificates.
unfoldable pub ca_template : ℕ → ℕ → Certificate
ca_template now serial = record {
  serial = serial;
  common_name = codes "WSN deployment CA";
  not_before = now;
  years = 10;
  is_ca = true;
  usage = cert_sign ∷ crl_sign ∷ digital_signature ∷ [];
  server_auth = false;
  addresses = [];
  raw = [];
}

unfoldable pub leaf_template : ℕ → ℕ → ℕ → Certificate
leaf_template now serial public_ip = record {
  serial = serial;
  common_name = codes "WSN relay";
  not_before = now;
  years = 2;
  is_ca = false;
  usage = digital_signature ∷ [];
  server_auth = true;
  addresses = public_ip ∷ [];
  raw = [];
}

module _ (c : Crypto) where
  -- `writePEM`.
  unfoldable pub write_pem :
      Bytes → Bytes → Bytes → ℕ → Steps FileSystem CertificateError (Unit {0})
  write_pem path block_type der mode fs =
      wrapped (write_file path (c.pem_encode block_type der) mode fs)

  -- `generateLeafCertificate`.
  unfoldable pub generate_leaf :
      Draw → ℕ → Certificate → Bytes → Steps FileSystem CertificateError (Unit {0})
  generate_leaf draw public_ip ca_certificate ca_private = do
    keys ← lift (or_err draw.keys no_random)
    serial ← lift (random_serial draw.serial)
    der ← lift (
        or_err
          (c.create_certificate (leaf_template draw.now serial public_ip) ca_certificate keys.0
            ca_private)
          not_signed)
    write_pem leaf_file (codes "CERTIFICATE") der 0o644
    key ← lift (or_err (c.marshal_key keys.1) not_signed)
    write_pem leaf_key_file (codes "PRIVATE KEY") key 0o600

  -- `generateCertificates`, with the draws for the authority and for the relay.
  unfoldable pub generate_certificates :
      Draw → Draw → ℕ → Steps FileSystem CertificateError (Unit {0})
  generate_certificates ca_draw leaf_draw public_ip = do
    keys ← lift (or_err ca_draw.keys no_random)
    serial ← lift (random_serial ca_draw.serial)
    der ← lift (
        or_err
          (c.create_certificate (ca_template ca_draw.now serial) (ca_template ca_draw.now serial)
            keys.0 keys.1)
          not_signed)
    write_pem ca_file (codes "CERTIFICATE") der 0o644
    key ← lift (or_err (c.marshal_key keys.1) not_signed)
    write_pem ca_key_file (codes "PRIVATE KEY") key 0o600
    generate_leaf leaf_draw public_ip (ca_template ca_draw.now serial) keys.1
