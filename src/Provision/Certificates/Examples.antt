-- ===== src/Provision/Certificates/Examples.antt =====
-- A deployment whose relay gets a second certificate, with packages whose texts are the values.
use wsn.Prelude.{
  ℕ, Option, some, ok, err, [], ◌∷◌, ◌≡◌, refl, nat_eq, bytes_key, replicate, bytes_eq, lookup, ◌+◌,
  ◌++◌, arith, false,
}
use wsn.Protocol.{Bytes, codes}
use wsn.Formats.Raw.{raw}
use wsn.Files.{FileSystem, succeeds, fails, call_failed, no_change}
use wsn.Provision.Plan.{State}
use wsn.Provision.Certificates.{
  Certificate, Crypto, Draw, ed25519, generate_certificates, generate_leaf, leaf_file,
  leaf_key_file, random_serial, number_from, write_file, write_pem, of_file,
}
use wsn.Provision.Certificates.Rotation.{rotate_certificate, load_authority, state_from}
use wsn.Provision.Certificates.Rotation.Same.{IsCrypto, rotate_certificate-generate_certificates}

abbrev any_certificate : Certificate
any_certificate = record {
  serial = 1;
  common_name = [];
  not_before = 0;
  years = 1;
  is_ca = false;
  usage = [];
  server_auth = false;
  addresses = [];
  raw = [];
}

-- A certificate is the public key and the key that signed it.
abbrev crypto : Crypto
crypto = record {
  create_certificate = λ template parent public private. some (private ++ public);
  parse_certificate = λ der. some any_certificate;
  marshal_key = λ key. some key;
  parse_key = λ der. some (ed25519 der);
  pem_encode = λ block_type der. der;
  pem_decode = λ text. some text;
}

crypto-IsCrypto : IsCrypto crypto
crypto-IsCrypto = record {
  pem_reads = λ block_type der. refl;
  key_reads = λ key der e. ground arith;
  certificate_reads = λ template parent public private der e. (any_certificate, refl);
}

abbrev draw : ℕ → Draw
draw n = record { now = 5; keys = some (n ∷ [], (n + 1) ∷ []); serial = some (replicate 16 0) }

abbrev state : State
state = record {
  version = 1;
  public_ip = 192 ∷ 0 ∷ 2 ∷ 1 ∷ [];
  overlay = [];
  gateway = [];
  dns = [];
  search = [];
  clients = [];
}

abbrev unmarshal : Bytes → Option State
unmarshal text = some state

abbrev disk : FileSystem
disk = record {
  outcomes = replicate 16 succeeds;
  files = (codes "state.json", record { content = []; mode = 0o600 }) ∷ [];
}

abbrev made : FileSystem
made = (generate_certificates crypto (draw 1) (draw 3) 7 disk).1

was_made : (generate_certificates crypto (draw 1) (draw 3) 7 disk).0 ≡ ok tt
unfolding generate_certificates generate_leaf write_pem write_file no_change random_serial
    number_from
was_made = refl

was_stored : lookup (codes "state.json") made.files ≡ some (record { content = []; mode = 0o600 })
unfolding generate_certificates generate_leaf write_pem write_file no_change random_serial
    number_from
was_stored = refl

rotate_certificate-generate_certificates_example :
    (keys : Bytes × Bytes) × (certificate : Certificate) × ((draw 1).keys ≡ some keys)
    × (rotate_certificate raw unmarshal crypto (draw 5) made
        ≡ generate_leaf crypto (draw 5) 3221225985 certificate keys.1 made)
    × ((p : Bytes)
        → bytes_eq leaf_file p ≡ false
        → bytes_eq leaf_key_file p ≡ false
        → lookup p (rotate_certificate raw unmarshal crypto (draw 5) made).1.files
          ≡ lookup p made.files)
unfolding state_from
rotate_certificate-generate_certificates_example =
    rotate_certificate-generate_certificates crypto raw unmarshal crypto-IsCrypto (draw 1) (draw 3)
      (draw 5) 7 3221225985 state disk made was_made refl refl (rw was_stored refl) refl

-- The write of the new key fails after the new certificate was written: the old key stays beside it.
abbrev failing : FileSystem
failing = record { outcomes = succeeds ∷ succeeds ∷ succeeds ∷ fails 0 ∷ []; files = made.files }

test_mismatch :
    (rotate_certificate raw unmarshal crypto (draw 5) failing).0 ≡ err (of_file call_failed)
unfolding rotate_certificate load_authority state_from generate_certificates generate_leaf write_pem
    write_file no_change random_serial number_from
test_mismatch = refl
