-- ===== src/Config/Saved/Atomic/Stepwise.antt =====
-- The steps of SaveJSON of internal/config/config.go, each of which leaves the target as IsAtomic says.
use wsn.Prelude.{
  ◌++◌, some, Result, ok, err, Map, lookup, bytes_key, ◌≡◌, refl, ◌∙◌, ap, arith, nat_eq, ◌≢◌,
}
use wsn.Prelude.Steps.{Steps, ◌>>◌}
use wsn.Protocol.{Bytes, codes}
use wsn.Files.{
  FileError, File, FileSystem, calls, no_change, remove_file, not_encoded, stopped, call_failed,
  next_outcome, returned-ok,
}
use wsn.Config.Saved.{
  Save, created, chmod, write, rename, or_close, replace, cleaned, save_text, mode_of,
}
use wsn.Config.Saved.Atomic.{
  Keeps, IsAtomic, created-Keeps, chmod-Keeps, write-Keeps, removed-Keeps, seq-IsAtomic,
  returned-encoded, or_close-files, or_close-ok, or_close-encoded, target, rename-IsAtomic,
  chmod-target, write-target,
}

module _ (save : Save) (value : Bytes) where
  abbrev pub Step : Type 0
  Step = Steps FileSystem FileError (Unit {0})

  abbrev first : Step
  first = calls (chmod save.tmp_name save.mode)

  abbrev second : Step
  second = calls (write save.tmp_name value)

  or_close-Keeps :
      (m : Step) (fs : FileSystem)
      → Keeps save.tmp_name fs.files (m fs).1.files
      → Keeps save.tmp_name fs.files (or_close m fs).1.files
  or_close-Keeps m fs keeps p h = ap (lookup p) (or_close-files m fs) ∙ keeps p h

  abbrev renaming : Step
  renaming = calls (rename save.tmp_name save.path)

  abbrev closing : Step
  closing = no_change >> renaming

  abbrev syncing : Step
  syncing = or_close no_change >> closing

  abbrev writing : Step
  writing = or_close second >> syncing

  abbrev Atomic : Step → FileSystem → Type 0
  Atomic k fs = IsAtomic save.tmp_name save.path (target save value) fs.files (k fs)

  -- A step of the sequence, as `seq-IsAtomic` takes it.
  abbrev then_atomic :
      (m k : Step) (fs : FileSystem)
      → Keeps save.tmp_name fs.files (m fs).1.files
      → (m fs).0 ≢ err not_encoded
      → ((m fs).0 ≡ ok tt → Atomic k (m fs).1)
      → Atomic (m >> k) fs
  then_atomic = seq-IsAtomic save.tmp_name save.path (target save value)

  closing-IsAtomic :
      (fs : FileSystem)
      → lookup save.tmp_name fs.files ≡ some (target save value)
      → Atomic closing fs
  unfolding no_change
  closing-IsAtomic fs there =
      then_atomic no_change renaming fs (λ p h. refl) (returned-encoded (next_outcome fs.outcomes))
        λ closed. rename-IsAtomic save value (no_change fs).1 there

  syncing-IsAtomic :
      (fs : FileSystem)
      → lookup save.tmp_name fs.files ≡ some (target save value)
      → Atomic syncing fs
  unfolding no_change
  syncing-IsAtomic fs there =
      then_atomic (or_close no_change) closing fs (or_close-Keeps no_change fs (λ p h. refl))
        (or_close-encoded no_change fs (returned-encoded (next_outcome fs.outcomes)))
        λ synced.
          closing-IsAtomic (or_close no_change fs).1
            (ap (lookup save.tmp_name) (or_close-files no_change fs) ∙ there)

  writing-IsAtomic :
      (fs : FileSystem) → mode_of (lookup save.tmp_name fs.files) ≡ save.mode → Atomic writing fs
  writing-IsAtomic fs mode =
      then_atomic (or_close second) syncing fs
        (or_close-Keeps second fs
          (write-Keeps save.tmp_name value (next_outcome fs.outcomes) fs.files))
        (or_close-encoded second fs (returned-encoded (next_outcome fs.outcomes)))
        λ wrote. syncing-IsAtomic (or_close second fs).1 (
          ap (lookup save.tmp_name) (or_close-files second fs)
          ∙ write-target save value (next_outcome fs.outcomes) fs.files
              (returned-ok (next_outcome fs.outcomes) (or_close-ok second fs wrote)) mode)

  replace-IsAtomic : (fs : FileSystem) → Atomic (replace save value) fs
  unfolding replace
  replace-IsAtomic fs =
      then_atomic (or_close first) writing fs
        (or_close-Keeps first fs
          (chmod-Keeps save.tmp_name save.mode (next_outcome fs.outcomes) fs.files))
        (or_close-encoded first fs (returned-encoded (next_outcome fs.outcomes)))
        λ changed. writing-IsAtomic (or_close first fs).1 (
          ap (λ files. mode_of (lookup save.tmp_name files)) (or_close-files first fs)
          ∙ chmod-target save value (next_outcome fs.outcomes) fs.files
              (returned-ok (next_outcome fs.outcomes) (or_close-ok first fs changed)))

module _ (tmp path : Bytes) (file : File) (before : Map Bytes File) where
  cleaned-IsAtomic :
      (r : Result FileError (Unit {0}) × FileSystem)
      → IsAtomic tmp path file before r
      → IsAtomic tmp path file before (cleaned tmp r)
  unfolding cleaned remove_file
  cleaned-IsAtomic (err stopped, fs) a = a
  cleaned-IsAtomic (err not_encoded, fs) a = absurd (a.encoded refl)
  cleaned-IsAtomic (err call_failed, fs) a = record {
    committed = a.committed;
    files_after = λ p h. removed-Keeps tmp _ fs.files p h ∙ a.files_after p h;
    on_success = λ h. ground arith;
    on_failure = λ h. a.on_failure refl;
    encoded = λ h. ground arith;
  }
  cleaned-IsAtomic (ok t, fs) a = record {
    committed = a.committed;
    files_after = λ p h. removed-Keeps tmp _ fs.files p h ∙ a.files_after p h;
    on_success = λ h. a.on_success refl;
    on_failure = λ h. ground arith;
    encoded = λ h. ground arith;
  }

-- What SaveJSON writes: the text and a newline.
abbrev pub saved_file : Save → Bytes → File
saved_file save text = target save (text ++ codes "\n")

module _ (save : Save) (text : Bytes) where
  abbrev ending : Step save text
  ending fs = cleaned save.tmp_name (replace save (text ++ codes "\n") fs)

  abbrev creating : Step save text
  creating = calls (created save.tmp_name) >> ending

  creating-IsAtomic : (fs : FileSystem) → Atomic save (text ++ codes "\n") creating fs
  creating-IsAtomic fs =
      then_atomic save (text ++ codes "\n") (calls (created save.tmp_name)) ending fs
        (created-Keeps save.tmp_name (next_outcome fs.outcomes) fs.files)
        (returned-encoded (next_outcome fs.outcomes))
        λ there.
          let made : FileSystem = (calls (created save.tmp_name) fs).1 in
          cleaned-IsAtomic save.tmp_name save.path (saved_file save text) made.files
            (replace save (text ++ codes "\n") made)
            (replace-IsAtomic save (text ++ codes "\n") made)

  pub save_text-IsAtomic :
      (fs : FileSystem) → Atomic save (text ++ codes "\n") (save_text save text) fs
  unfolding save_text no_change
  save_text-IsAtomic fs =
      then_atomic save (text ++ codes "\n") no_change creating fs (λ p h. refl)
        (returned-encoded (next_outcome fs.outcomes)) λ made. creating-IsAtomic (no_change fs).1
