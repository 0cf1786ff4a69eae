-- ===== src/Provision/Certificates/Kept.antt =====
-- Which files the certificate commands of internal/provision/provision.go write, and what is in them.
use wsn.Prelude.{
  ℕ, [], Result, ok, err, Map, lookup, false, bytes_key, or_err, ◌≡◌, refl, ◌∙◌, bytes_eq,
  lookup-insert, arith, nat_eq,
}
use wsn.Prelude.Steps.{lift}
use wsn.Protocol.{Bytes, codes}
use wsn.Files.{Outcome, FileError, File, FileSystem, calls, no_change, written_part}
use wsn.Files.Untouched.{Untouched, bind-Untouched}
use wsn.Provision.Certificates.{
  Certificate, Crypto, Draw, write_file, write_pem, emptied, written, mode_or, generate_leaf,
  random_serial, leaf_file, leaf_key_file, wrapped, leaf_template, no_random, not_signed,
}

module _ (p path : Bytes) (apart : bytes_eq path p ≡ false) where
  emptied-lookup :
      (mode : ℕ) (o : Outcome) (files : Map Bytes File)
      → lookup p (emptied path mode o files) ≡ lookup p files
  unfolding emptied
  emptied-lookup mode o files = ground (
    arith,
    lookup-insert path p (record { content = []; mode = mode_or mode (lookup path files) }) files,
  )

  written-lookup :
      (mode : ℕ) (value : Bytes) (o : Outcome) (files : Map Bytes File)
      → lookup p (written path mode value o files) ≡ lookup p files
  unfolding written
  written-lookup mode value o files =
      lookup-insert path p
        (record { content = written_part o value; mode = mode_or mode (lookup path files) }) files
      ∙ rw apart refl

  write_file-Untouched : (value : Bytes) (mode : ℕ) → Untouched p (write_file path value mode)
  unfolding write_file no_change
  write_file-Untouched value mode =
      bind-Untouched p (calls (emptied path mode)) _ (λ fs. emptied-lookup mode _ fs.files)
        λ t.
          bind-Untouched p (calls (written path mode value)) _
            (λ fs. written-lookup mode value _ fs.files) λ t fs. refl

  wrapped-lookup :
      (r : Result FileError (Unit {0}) × FileSystem)
      → lookup p (wrapped r).1.files ≡ lookup p r.1.files
  wrapped-lookup (ok t, fs) = refl
  wrapped-lookup (err e, fs) = refl

  pub write_pem-Untouched :
      (c : Crypto) (block_type der : Bytes) (mode : ℕ)
      → Untouched p (write_pem c path block_type der mode)
  unfolding write_pem
  write_pem-Untouched c block_type der mode fs =
      wrapped-lookup (write_file path (c.pem_encode block_type der) mode fs)
      ∙ write_file-Untouched (c.pem_encode block_type der) mode fs

-- A new certificate for the relay leaves every file but its own two as it is.
pub generate_leaf-Untouched :
    (c : Crypto) (draw : Draw) (public_ip : ℕ) (ca : Certificate) (ca_private p : Bytes)
    → bytes_eq leaf_file p ≡ false
    → bytes_eq leaf_key_file p ≡ false
    → Untouched p (generate_leaf c draw public_ip ca ca_private)
unfolding generate_leaf
generate_leaf-Untouched c draw public_ip ca ca_private p cert key =
    bind-Untouched p (lift (or_err draw.keys no_random)) _ (λ fs. refl)
      λ keys.
        bind-Untouched p (lift (random_serial draw.serial)) _ (λ fs. refl)
          λ serial.
            bind-Untouched p
              (lift (
                or_err
                  (c.create_certificate (leaf_template draw.now serial public_ip) ca keys.0
                    ca_private)
                  not_signed))
              _ (λ fs. refl)
              λ der.
                bind-Untouched p (write_pem c leaf_file (codes "CERTIFICATE") der 0o644) _
                  (write_pem-Untouched p leaf_file cert c (codes "CERTIFICATE") der 0o644)
                  λ t.
                    bind-Untouched p (lift (or_err (c.marshal_key keys.1) not_signed)) _
                      (λ fs. refl)
                      λ k. write_pem-Untouched p leaf_key_file key c (codes "PRIVATE KEY") k 0o600
