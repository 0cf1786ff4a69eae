-- ===== src/Config/Saved/Atomic.antt =====
-- SaveJSON of internal/config/config.go against the write that it stands for: at every step the target
-- holds what it held before, or all of the new text.
pub mod Stepwise
pub mod Refined
use wsn.Prelude.{
  ℕ, List, [], ◌∷◌, ◌++◌, Option, none, some, Result, ok, err, Map, lookup, insert, remove, Bool,
  true, false, if◌then◌else◌, bytes_key, not, or_err, bytes_eq, bytes_eq_iff, bytes_eq_refl, ◌≡◌,
  refl, sym, ◌∙◌, ap, ◌&&◌, lookup-insert, lookup-remove, Result-cases, inl, inr, arith, nat_eq,
  Option-cases, ◌≢◌, Bool-cases, ◌⊎◌,
}
use wsn.Prelude.Steps.{Steps, ◌>>=◌, ◌>>◌, lift}
use wsn.Protocol.{Bytes, codes}
use wsn.Files.{
  Outcome, FileError, File, FileSystem, calls, no_change, put_part, is_done, remove_file, returned,
  not_encoded, stopped, call_failed, next_outcome, succeeds, fails, stops, removed, returned-ok,
}
use wsn.Config.Saved.{
  Save, created, chmod, write, rename, renamed, or_close, replace, cleaned, save_json, content_of,
  mode_of, close_after,
}

module _ (tmp : Bytes) where
  -- No file but the temporary one differs.
  abbrev pub Keeps : Map Bytes File → Map Bytes File → Type 0
  Keeps before after = (p : Bytes) → bytes_eq tmp p ≡ false → lookup p after ≡ lookup p before

  created-Keeps : (o : Outcome) (files : Map Bytes File) → Keeps files (created tmp o files)
  unfolding created
  created-Keeps o files p h =
      ground (arith, lookup-insert tmp p (record { content = []; mode = 0o600 }) files)

  chmod-Keeps :
      (mode : ℕ) (o : Outcome) (files : Map Bytes File) → Keeps files (chmod tmp mode o files)
  unfolding chmod
  chmod-Keeps mode o files p h = ground (
    arith,
    lookup-insert tmp p (record { content = content_of (lookup tmp files); mode = mode }) files,
  )

  write-Keeps :
      (value : Bytes) (o : Outcome) (files : Map Bytes File) → Keeps files (write tmp value o files)
  unfolding write
  write-Keeps value o files p h = lookup-insert tmp p _ files ∙ rw h refl

  removed-Keeps : (o : Outcome) (files : Map Bytes File) → Keeps files (removed tmp o files)
  removed-Keeps o files p h = ground (arith, lookup-remove tmp p files)

  module _ (path : Bytes) (target : File) where
    -- What a sequence of steps may do: the target is written or not, which an error or a success tells,
    -- and no other file but the temporary one differs.
    pub record IsAtomic (before : Map Bytes File) (r : Result FileError (Unit {0}) × FileSystem)
        : Type 0 where
      pub committed : Bool
      pub files_after :
          (p : Bytes)
          → bytes_eq tmp p ≡ false
          → lookup p r.1.files
            ≡ (if committed && bytes_eq path p then some target else lookup p before)
      pub on_success : r.0 ≡ ok tt → committed ≡ true
      pub on_failure : r.0 ≡ err call_failed → committed ≡ false
      pub encoded : r.0 ≢ err not_encoded

    -- A step that keeps the files and may fail, and what follows it.
    seq-IsAtomic :
        (m k : Steps FileSystem FileError (Unit {0})) (fs : FileSystem)
        → Keeps fs.files (m fs).1.files
        → (m fs).0 ≢ err not_encoded
        → ((m fs).0 ≡ ok tt → IsAtomic (m fs).1.files (k (m fs).1))
        → IsAtomic fs.files ((m >> k) fs)
    seq-IsAtomic m k fs keeps able next = elim (Result-cases (m fs).0) [
      | inl (e, failed) ↦ rw failed (record {
        committed = false;
        files_after = keeps;
        on_success = λ h. ground arith;
        on_failure = λ h. refl;
        encoded = λ h. able (failed ∙ h);
      })
      | inr (t, good) ↦
          let rest = next good in
          rw good (record {
            committed = rest.committed;
            files_after = λ p h. ground (arith, rest.files_after p h, keeps p h);
            on_success = rest.on_success;
            on_failure = rest.on_failure;
            encoded = rest.encoded;
          })
    ]

returned-encoded : (o : Outcome) → returned o ≢ err not_encoded
returned-encoded succeeds h = ground arith
returned-encoded (fails n) h = ground arith
returned-encoded (stops n) h = ground arith

module _ (m : Steps FileSystem FileError (Unit {0})) (fs : FileSystem) where
  or_close-files : (or_close m fs).1.files ≡ (m fs).1.files
  unfolding or_close no_change
  or_close-files = ground arith

  or_close-ok : (or_close m fs).0 ≡ ok tt → (m fs).0 ≡ ok tt
  unfolding or_close no_change close_after
  or_close-ok h = ground arith

  or_close-encoded : (m fs).0 ≢ err not_encoded → (or_close m fs).0 ≢ err not_encoded
  unfolding or_close no_change close_after
  or_close-encoded able h = ground arith

module _ (save : Save) (value : Bytes) where
  abbrev pub target : File
  target = record { content = value; mode = save.mode }

  rename-IsAtomic :
      (fs : FileSystem)
      → lookup save.tmp_name fs.files ≡ some target
      → IsAtomic save.tmp_name save.path target fs.files (calls (rename save.tmp_name save.path) fs)
  unfolding rename renamed
  rename-IsAtomic fs there = record {
    committed = is_done (next_outcome fs.outcomes);
    files_after = λ p h. ground (
      arith,
      there,
      lookup-insert save.path p target (remove save.tmp_name fs.files),
      lookup-remove save.tmp_name p fs.files,
    );
    on_success = λ h. ground arith;
    on_failure = λ h. ground arith;
    encoded = λ h. returned-encoded (next_outcome fs.outcomes) h;
  }

  chmod-target :
      (o : Outcome) (files : Map Bytes File)
      → o ≡ succeeds
      → mode_of (lookup save.tmp_name (chmod save.tmp_name save.mode o files)) ≡ save.mode
  unfolding chmod mode_of
  chmod-target o files done = rw done (
      ground (
        arith,
        lookup-insert save.tmp_name save.tmp_name
            (record { content = content_of (lookup save.tmp_name files); mode = save.mode }) files,
        bytes_eq_refl save.tmp_name,
      ))

  write-target :
      (o : Outcome) (files : Map Bytes File)
      → o ≡ succeeds
      → mode_of (lookup save.tmp_name files) ≡ save.mode
      → lookup save.tmp_name (write save.tmp_name value o files) ≡ some target
  unfolding write
  write-target o files done mode =
      rw (done, mode)
        (lookup-insert save.tmp_name save.tmp_name target files
          ∙ rw (bytes_eq_refl save.tmp_name) refl)
