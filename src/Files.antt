-- ===== src/Files.antt =====
-- The file system as internal/config/config.go and internal/provision/provision.go write it. What each
-- call does is a list, in the order of the calls, and any list is possible: a call succeeds, fails, or
-- is the one in which the process stops. A call that writes data and does not succeed has written some
-- of it; a list that ends stands for a call that fails.
pub mod Untouched
use wsn.Prelude.{
  ℕ, zero, suc, List, [], ◌∷◌, ◌++◌, Option, none, some, Result, ok, err, Map, lookup, insert,
  remove, take, Bool, true, false, if◌then◌else◌, bytes_key, not, ◌≡◌, refl,
}
use wsn.Prelude.Steps.{Steps, ◌>>=◌, ◌>>◌, lift}
use wsn.Protocol.{Bytes}

pub data Outcome : Type 0 where
  succeeds : Outcome
  fails stops : ℕ → Outcome

pub data FileError : Type 0 where
  call_failed stopped not_encoded : FileError

pub record File : Type 0 where
  pub content : Bytes
  pub mode : ℕ

pub record FileSystem : Type 0 where
  pub outcomes : List Outcome
  pub files : Map Bytes File

abbrev pub next_outcome : List Outcome → Outcome
next_outcome [] = fails 0
next_outcome (o ∷ rest) = o

abbrev pub later_outcomes : List Outcome → List Outcome
later_outcomes [] = []
later_outcomes (o ∷ rest) = rest

-- What the call returns, if the process is there to see it.
abbrev pub returned : Outcome → Result FileError (Unit {0})
returned succeeds = ok tt
returned (fails n) = err call_failed
returned (stops n) = err stopped

-- A call that changes the files as its outcome says.
abbrev pub calls :
    (Outcome → Map Bytes File → Map Bytes File) → Steps FileSystem FileError (Unit {0})
calls change fs = (
  returned (next_outcome fs.outcomes),
  record {
    outcomes = later_outcomes fs.outcomes;
    files = change (next_outcome fs.outcomes) fs.files;
  },
)

abbrev unchanged : Outcome → Map Bytes File → Map Bytes File
unchanged o files = files

-- A call that changes no file, such as Sync.
unfoldable pub no_change : Steps FileSystem FileError (Unit {0})
no_change = calls unchanged

-- What a write of data leaves in the file.
abbrev pub written_part : Outcome → Bytes → Bytes
written_part succeeds value = value
written_part (fails n) value = take n value
written_part (stops n) value = take n value

abbrev pub put_part : Bytes → ℕ → Bytes → Outcome → Map Bytes File → Map Bytes File
put_part path mode value o files =
    insert path (record { content = written_part o value; mode = mode }) files

-- Whether a call that is not divisible was carried out: one in which the process stops may have been.
abbrev pub is_done : Outcome → Bool
is_done succeeds = true
is_done (fails n) = false
is_done (stops zero) = false
is_done (stops (suc n)) = true

abbrev pub removed : Bytes → Outcome → Map Bytes File → Map Bytes File
removed path o files = if is_done o then remove path files else files

unfoldable pub remove_file : Bytes → Steps FileSystem FileError (Unit {0})
remove_file path = calls (removed path)

pub returned-ok : (o : Outcome) → returned o ≡ ok tt → o ≡ succeeds
returned-ok succeeds h = refl
returned-ok (fails n) h = cc
returned-ok (stops n) h = cc
