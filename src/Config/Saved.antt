-- ===== src/Config/Saved.antt =====
-- `SaveJSON` and `loadJSON` of internal/config/config.go on a file system. The JSON encoder and decoder
-- are parameters: the encoder gives the text of a value, or an error; the decoder gives the value at the
-- start of a text and what follows it, with unknown fields refused.
pub mod Atomic
pub mod Loaded
mod Examples
use wsn.Prelude.{
  ℕ, List, [], ◌∷◌, ◌++◌, Option, none, some, Result, ok, err, Map, lookup, insert, remove, Bool,
  true, false, if◌then◌else◌, bytes_key, not, or_err, refuse_if, bytes_eq,
}
use wsn.Prelude.Steps.{Steps, ◌>>=◌, ◌>>◌, lift}
use wsn.Protocol.{Bytes, codes}
use wsn.Files.{
  Outcome, FileError, File, FileSystem, calls, no_change, put_part, is_done, remove_file, returned,
  not_encoded, stopped, call_failed, next_outcome, succeeds, fails, stops,
}

-- A call of SaveJSON: the encoded value, the path, the name that CreateTemp makes and the mode.
pub record Save : Type 0 where
  pub encoded : Option Bytes
  pub path : Bytes
  pub tmp_name : Bytes
  pub mode : ℕ

-- CreateTemp makes an empty file that only its owner can read.
created : Bytes → Outcome → Map Bytes File → Map Bytes File
created tmp o files =
    if is_done o then insert tmp (record { content = []; mode = 0o600 }) files else files

content_of : Option File → Bytes
content_of none = []
content_of (some f) = f.content

mode_of : Option File → ℕ
mode_of none = 0
mode_of (some f) = f.mode

chmod : Bytes → ℕ → Outcome → Map Bytes File → Map Bytes File
unfolding content_of
chmod tmp mode o files =
    if is_done o
    then insert tmp (record { content = content_of (lookup tmp files); mode = mode }) files
    else files

write : Bytes → Bytes → Outcome → Map Bytes File → Map Bytes File
unfolding mode_of
write tmp value o files = put_part tmp (mode_of (lookup tmp files)) value o files

-- `os.Rename` replaces the target at once.
renamed : Bytes → Bytes → Option File → Map Bytes File → Map Bytes File
renamed tmp path none files = files
renamed tmp path (some f) files = insert path f (remove tmp files)

rename : Bytes → Bytes → Outcome → Map Bytes File → Map Bytes File
unfolding renamed
rename tmp path o files = if is_done o then renamed tmp path (lookup tmp files) files else files

-- `tmp.Close()` before an error is returned.
close_after : FileError → Result FileError (Unit {0}) → Result FileError (Unit {0})
close_after stopped r = err stopped
close_after e (err stopped) = err stopped
close_after e r = err e

or_close : Steps FileSystem FileError (Unit {0}) → Steps FileSystem FileError (Unit {0})
unfolding no_change close_after
or_close m fs = elim (m fs).0 [
  | ok t ↦ m fs
  | err stopped ↦ m fs
  | err call_failed ↦ (close_after call_failed (no_change (m fs).1).0, (no_change (m fs).1).1)
  | err not_encoded ↦ m fs
]

-- The steps on the temporary file, once it is there.
unfoldable pub replace : Save → Bytes → Steps FileSystem FileError (Unit {0})
unfolding chmod write rename or_close no_change
replace save value = do
  or_close (calls (chmod save.tmp_name save.mode))
  or_close (calls (write save.tmp_name value))
  or_close no_change
  no_change
  calls (rename save.tmp_name save.path)

-- `defer os.Remove(tmpName)`: its error is dropped, and a process that has stopped does not get to it.
unfoldable pub cleaned :
    Bytes → Result FileError (Unit {0}) × FileSystem → Result FileError (Unit {0}) × FileSystem
unfolding remove_file
cleaned tmp (err stopped, fs) = (err stopped, fs)
cleaned tmp (r, fs) = (
  elim (next_outcome fs.outcomes) [ stops n ↦ err stopped | succeeds ↦ r | fails n ↦ r ],
  (remove_file tmp fs).1,
)

-- The steps once the value is encoded.
unfoldable pub save_text : Save → Bytes → Steps FileSystem FileError (Unit {0})
unfolding created cleaned replace no_change
save_text save text = do
  no_change
  calls (created save.tmp_name)
  λ fs. cleaned save.tmp_name (replace save (text ++ codes "\n") fs)

unfoldable pub save_json : Save → Steps FileSystem FileError (Unit {0})
unfolding save_text
save_json save = do text ← lift (or_err save.encoded not_encoded); save_text save text

pub data LoadError : Type 0 where
  no_file not_decoded trailing_data : LoadError

module _ {A : Type 0} (decode : Bytes → Option (A × Bytes)) (at_end : Bytes → Bool) where
  -- The second `Decode` gives io.EOF where nothing but white space is left.
  abbrev ended : Option (A × Bytes) → Result LoadError A
  ended none = err not_decoded
  ended (some (value, rest)) = if at_end rest then ok value else err trailing_data

  abbrev decoded : Option File → Result LoadError A
  decoded none = err no_file
  decoded (some f) = ended (decode f.content)

  -- `loadJSON`.
  unfoldable pub load_json : Bytes → FileSystem → Result LoadError A
  load_json path fs = decoded (lookup path fs.files)
