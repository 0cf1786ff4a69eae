-- ===== src/Provision/Certificates/Rotation/Same.antt =====
-- RotateCertificate of internal/provision/provision.go after generateCertificates: the new certificate
-- comes from the authority that the deployment was made with.
use wsn.Prelude.{
  ℕ, Option, none, some, Result, ok, err, lookup, insert, false, bytes_key, or_err, ◌≡◌, refl, ap,
  ◌∙◌, bytes_eq, bytes_eq_refl, lookup-insert, arith, nat_eq,
}
use wsn.Prelude.Steps.{lift, bind-ok}
use wsn.Protocol.{Bytes, codes}
use wsn.Files.{
  FileError, File, FileSystem, calls, no_change, next_outcome, written_part, returned-ok,
}
use wsn.Provision.Certificates.{
  CertificateError, Certificate, Crypto, Draw, write_file, write_pem, emptied, written, mode_or,
  generate_leaf, generate_certificates, random_serial, leaf_file, leaf_key_file, wrapped,
  ca_template, ca_file, ca_key_file, no_random, not_signed, ed25519,
}
use wsn.Provision.Certificates.Kept.{generate_leaf-Untouched, write_pem-Untouched}
use wsn.Provision.Certificates.Rotation.{
  contents, content_of, load_authority, rotate_certificate, with_authority, unmarshalled,
  state_from,
}
use wsn.Formats.{Formats}
use wsn.Provision.Plan.{State}

-- What the packages say of their functions: what is encoded or created is decoded or parsed again.
pub record IsCrypto (c : Crypto) : Type 0 where
  pub pem_reads : (block_type der : Bytes) → c.pem_decode (c.pem_encode block_type der) ≡ some der
  pub key_reads :
      (key der : Bytes) → c.marshal_key key ≡ some der → c.parse_key der ≡ some (ed25519 key)
  pub certificate_reads :
      (template parent : Certificate) (public private der : Bytes)
      → c.create_certificate template parent public private ≡ some der
      → (certificate : Certificate) × (c.parse_certificate der ≡ some certificate)

-- A write that returned no error wrote all of the data.
write_file-contents :
    (path value : Bytes) (mode : ℕ) (fs : FileSystem)
    → (write_file path value mode fs).0 ≡ ok tt
    → contents path (write_file path value mode fs).1 ≡ some value
unfolding write_file no_change written
write_file-contents path value mode fs h =
    let (t, opened, h', e) = bind-ok (calls (emptied path mode)) _ fs tt h in
    let fs' : FileSystem = (calls (emptied path mode) fs).1 in
    let (u, wrote, _, e') = bind-ok (calls (written path mode value)) (λ v. no_change) fs' tt h' in
    let all = returned-ok (next_outcome fs'.outcomes) wrote in
    let kept : ℕ = mode_or mode (lookup path fs'.files) in
    let file : File = record {
      content = written_part (next_outcome fs'.outcomes) value;
      mode = kept;
    } in
    let found : lookup path (insert path file fs'.files) ≡ some file =
      lookup-insert path path file fs'.files ∙ rw (bytes_eq_refl path) refl in
    ap (λ r. contents path r.1) (e ∙ e')
    ∙ (ap content_of found ∙ ap (λ o. some (written_part o value)) all)

wrapped-ok :
    (r : Result FileError (Unit {0}) × FileSystem)
    → (wrapped r).0 ≡ ok tt
    → (r.0 ≡ ok tt) × ((wrapped r).1 ≡ r.1)
wrapped-ok (ok t, fs) h = (refl, refl)
wrapped-ok (err e, fs) h = ground arith

module _ (c : Crypto) where
  write_pem-contents :
      (path block_type der : Bytes) (mode : ℕ) (fs : FileSystem)
      → (write_pem c path block_type der mode fs).0 ≡ ok tt
      → contents path (write_pem c path block_type der mode fs).1
        ≡ some (c.pem_encode block_type der)
  unfolding write_pem
  write_pem-contents path block_type der mode fs h =
      let (good, same) = wrapped-ok (write_file path (c.pem_encode block_type der) mode fs) h in
      ap (contents path) same ∙ write_file-contents path (c.pem_encode block_type der) mode fs good

  -- The authority of a deployment, as its two files hold it.
  record IsAuthority (keys : Bytes × Bytes) (fs : FileSystem) : Type 0 where
    template : Certificate
    ca_der : Bytes
    signed : c.create_certificate template template keys.0 keys.1 ≡ some ca_der
    ca_saved : contents ca_file fs ≡ some (c.pem_encode (codes "CERTIFICATE") ca_der)
    key_der : Bytes
    marshalled : c.marshal_key keys.1 ≡ some key_der
    key_saved : contents ca_key_file fs ≡ some (c.pem_encode (codes "PRIVATE KEY") key_der)

  or_err-ok :
      {A : Type 0} (o : Option A) (e : CertificateError) (a : A) → or_err o e ≡ ok a → o ≡ some a
  or_err-ok none e a h = ground arith
  or_err-ok (some b) e a h = ground arith

  generate_certificates-IsAuthority :
      (ca_draw leaf_draw : Draw) (public_ip : ℕ) (fs : FileSystem)
      → (generate_certificates c ca_draw leaf_draw public_ip fs).0 ≡ ok tt
      → (keys : Bytes × Bytes) × (ca_draw.keys ≡ some keys)
        × IsAuthority keys (generate_certificates c ca_draw leaf_draw public_ip fs).1
  unfolding generate_certificates
  generate_certificates-IsAuthority ca_draw leaf_draw public_ip fs h =
      let (keys, drawn, h1, e1) = bind-ok (lift (or_err ca_draw.keys no_random)) _ fs tt h in
      let (serial, numbered, h2, e2) = bind-ok (lift (random_serial ca_draw.serial)) _ fs tt h1 in
      let template : Certificate = ca_template ca_draw.now serial in
      let (der, signed, h3, e3) =
        bind-ok (lift (or_err (c.create_certificate template template keys.0 keys.1) not_signed)) _
          fs tt h2 in
      let (t, wrote, h4, e4) =
        bind-ok (write_pem c ca_file (codes "CERTIFICATE") der 0o644) _ fs tt h3 in
      let fs' : FileSystem = (write_pem c ca_file (codes "CERTIFICATE") der 0o644 fs).1 in
      let (key, marshalled, h5, e5) =
        bind-ok (lift (or_err (c.marshal_key keys.1) not_signed)) _ fs' tt h4 in
      let (u, wrote', h6, e6) =
        bind-ok (write_pem c ca_key_file (codes "PRIVATE KEY") key 0o600) _ fs' tt h5 in
      let fs'' : FileSystem = (write_pem c ca_key_file (codes "PRIVATE KEY") key 0o600 fs').1 in
      let all = e1 ∙ (e2 ∙ (e3 ∙ (e4 ∙ (e5 ∙ e6)))) in
      let kept : (p : Bytes)
          → bytes_eq leaf_file p ≡ false
          → bytes_eq leaf_key_file p ≡ false
          → contents p (generate_certificates c ca_draw leaf_draw public_ip fs).1
            ≡ contents p fs'' =
        λ p a b.
          ap (λ r. contents p r.1) all
          ∙ ap content_of
              (generate_leaf-Untouched c leaf_draw public_ip template keys.1 p a b fs'') in
      (
        keys,
        or_err-ok ca_draw.keys no_random keys drawn,
        record {
          template = template;
          ca_der = der;
          signed =
              or_err-ok (c.create_certificate template template keys.0 keys.1) not_signed der
                signed;
          ca_saved =
              kept ca_file refl refl
              ∙ (ap content_of (
                    write_pem-Untouched ca_file ca_key_file refl c (codes "PRIVATE KEY") key 0o600
                      fs')
                  ∙ write_pem-contents ca_file (codes "CERTIFICATE") der 0o644 fs wrote);
          key_der = key;
          marshalled = or_err-ok (c.marshal_key keys.1) not_signed key marshalled;
          key_saved =
              kept ca_key_file refl refl
              ∙ write_pem-contents ca_key_file (codes "PRIVATE KEY") key 0o600 fs' wrote';
        },
      )

  module _ (f : Formats) (unmarshal : Bytes → Option State) (laws : IsCrypto c) where
    load_authority-IsAuthority :
        (keys : Bytes × Bytes) (state : State) (public_ip : ℕ) (fs : FileSystem)
        → IsAuthority keys fs
        → state_from (unmarshalled f unmarshal c (contents (codes "state.json") fs)) ≡ ok state
        → f.parse_addr state.public_ip ≡ some public_ip
        → (certificate : Certificate) × (load_authority f unmarshal c fs
            ≡ ok (public_ip, certificate, keys.1))
    unfolding load_authority
    load_authority-IsAuthority keys state public_ip fs a stated parsed =
        let (certificate, reads) =
          laws.certificate_reads a.template a.template keys.0 keys.1 a.ca_der a.signed in
        let key = laws.key_reads keys.1 a.key_der a.marshalled in
        let ca_pem = laws.pem_reads (codes "CERTIFICATE") a.ca_der in
        let key_pem = laws.pem_reads (codes "PRIVATE KEY") a.key_der in
        (
          certificate,
          rw (stated, parsed, a.ca_saved, ca_pem, reads, a.key_saved, key_pem, key) refl,
        )

    -- After generateCertificates returned no error, and as long as the two files of the authority hold
    -- what it wrote, RotateCertificate of a state that loads makes the relay's new certificate as
    -- generateLeafCertificate does with the private key that was drawn for the authority, and leaves
    -- every file but relay.crt and relay.key as it is; given packages that read back what they write.
    pub rotate_certificate-generate_certificates :
        (ca_draw leaf_draw draw : Draw) (first_ip public_ip : ℕ) (state : State)
        (fs later : FileSystem)
        → (generate_certificates c ca_draw leaf_draw first_ip fs).0 ≡ ok tt
        → contents ca_file later
          ≡ contents ca_file (generate_certificates c ca_draw leaf_draw first_ip fs).1
        → contents ca_key_file later
          ≡ contents ca_key_file (generate_certificates c ca_draw leaf_draw first_ip fs).1
        → state_from (unmarshalled f unmarshal c (contents (codes "state.json") later)) ≡ ok state
        → f.parse_addr state.public_ip ≡ some public_ip
        → (keys : Bytes × Bytes) × (certificate : Certificate) × (ca_draw.keys ≡ some keys)
          × (rotate_certificate f unmarshal c draw later
              ≡ generate_leaf c draw public_ip certificate keys.1 later)
          × ((p : Bytes)
              → bytes_eq leaf_file p ≡ false
              → bytes_eq leaf_key_file p ≡ false
              → lookup p (rotate_certificate f unmarshal c draw later).1.files
                ≡ lookup p later.files)
    unfolding rotate_certificate
    rotate_certificate-generate_certificates ca_draw leaf_draw draw first_ip public_ip state fs
          later made same_ca same_key stated parsed =
        let (keys, drawn, a) =
          generate_certificates-IsAuthority ca_draw leaf_draw first_ip fs made in
        let held : IsAuthority keys later = record {
          template = a.template;
          ca_der = a.ca_der;
          signed = a.signed;
          ca_saved = same_ca ∙ a.ca_saved;
          key_der = a.key_der;
          marshalled = a.marshalled;
          key_saved = same_key ∙ a.key_saved;
        } in
        let (certificate, loads) =
          load_authority-IsAuthority keys state public_ip later held stated parsed in
        let runs = ap (λ r. with_authority f unmarshal c draw r later) loads in
        (
          keys,
          certificate,
          drawn,
          runs,
          λ p cert key.
              ap (λ r. lookup p r.1.files) runs
              ∙ generate_leaf-Untouched c draw public_ip certificate keys.1 p cert key later,
        )
