-- ===== src/Config/Saved/Atomic/Refined.antt =====
-- SaveJSON of internal/config/config.go as a write to the abstract files: a function from paths, with no
-- temporary files in it.
use wsn.Prelude.{
  List, [], ◌∷◌, Option, none, some, Result, ok, err, lookup, Bool, true, false, if◌then◌else◌,
  bytes_key, bytes_eq, bytes_eq_iff, ◌≡◌, refl, sym, subst, ◌∙◌, ap, ◌&&◌, inl, inr, arith,
  Option-cases, Bool-cases, nat_eq, All, ◌≢◌,
}
use mathlib.Core.Path.{fun_ext}
use wsn.Protocol.{Bytes}
use wsn.Files.{FileError, File, FileSystem, not_encoded, stopped, call_failed}
use wsn.Config.Saved.{Save, save_json, save_text}
use wsn.Config.Saved.Atomic.Stepwise.{saved_file, save_text-IsAtomic}

abbrev pub View : Type 0
View = Bytes → Option File

-- The calls, one after the other, and what each returned; a process that stopped is started again.
unfoldable pub run_saves : List Save → FileSystem → List (Result FileError (Unit {0})) × FileSystem
run_saves [] fs = ([], fs)
run_saves (save ∷ saves) fs =
    let (r, fs') = save_json save fs in let (rs, end) = run_saves saves fs' in (r ∷ rs, end)

module _ (is_temp : Bytes → Bool) where
  -- The files that are not temporary.
  abbrev pub view : FileSystem → View
  view fs p = if is_temp p then none else lookup p fs.files

  abbrev pub IsNamed : Save → Type 0
  IsNamed save = (is_temp save.tmp_name ≡ true) × (is_temp save.path ≡ false)

-- The abstract write: the file at the path is the text and a newline, with the mode.
abbrev pub store : Save → View → View
store save v p = elim save.encoded [
  | none ↦ v p
  | some text ↦ if bytes_eq save.path p then some (saved_file save text) else v p
]

abbrev pub store_if : Bool → Save → View → View
store_if true save v = store save v
store_if false save v = v

-- The abstract writes of those calls whose flag says so.
abbrev pub replay : List Save → List Bool → View → View
replay [] flags v = v
replay (save ∷ saves) [] v = v
replay (save ∷ saves) (b ∷ flags) v = replay saves flags (store_if b save v)

-- A call that returned no error was carried out, one that returned an error was not; where the process
-- stopped, either may be.
abbrev pub Tells : Result FileError (Unit {0}) → Bool → Type 0
Tells (ok t) b = b ≡ true
Tells (err call_failed) b = b ≡ false
Tells (err not_encoded) b = b ≡ false
Tells (err stopped) b = Unit

abbrev pub AllTell : List (Result FileError (Unit {0})) → List Bool → Type 0
AllTell [] [] = Unit
AllTell [] (b ∷ flags) = ⊥
AllTell (r ∷ rs) [] = ⊥
AllTell (r ∷ rs) (b ∷ flags) = Tells r b × AllTell rs flags

tells :
    (r : Result FileError (Unit {0})) (b : Bool)
    → (r ≡ ok tt → b ≡ true)
    → (r ≡ err call_failed → b ≡ false)
    → r ≢ err not_encoded
    → Tells r b
tells (ok t) b s f e = s refl
tells (err call_failed) b s f e = f refl
tells (err not_encoded) b s f e = absurd (e refl)
tells (err stopped) b s f e = tt

pub save_json-text :
    (save : Save) (text : Bytes) (fs : FileSystem)
    → save.encoded ≡ some text
    → save_json save fs ≡ save_text save text fs
unfolding save_json
save_json-text save text fs e = ground arith

pub save_json-refused :
    (save : Save) (fs : FileSystem)
    → save.encoded ≡ none
    → save_json save fs ≡ (err not_encoded, fs)
unfolding save_json
save_json-refused save fs e = ground arith

module _ (is_temp : Bytes → Bool) where
  temp_differs : (tmp p : Bytes) → is_temp tmp ≡ true → is_temp p ≡ false → bytes_eq tmp p ≡ false
  temp_differs tmp p h k = elim (Bool-cases (bytes_eq tmp p)) [
    | inr differs ↦ differs
    | inl same ↦ let e = ap is_temp ((bytes_eq_iff tmp p).0 same) in ground arith
  ]

  module _ (save : Save) (text : Bytes) (fs after : FileSystem) (encoded : save.encoded ≡ some text)
      (named : IsNamed is_temp save) where
    elsewhere : (p : Bytes) → is_temp p ≡ true → bytes_eq save.path p ≡ false
    elsewhere p temporary = elim (Bool-cases (bytes_eq save.path p)) [
      | inr differs ↦ differs
      | inl same ↦ let e = ap is_temp ((bytes_eq_iff save.path p).0 same) in ground arith
    ]

    -- What a view shows after a call, from what a lookup finds.
    view-store_if :
        (b : Bool)
        → ((p : Bytes)
            → bytes_eq save.tmp_name p ≡ false
            → lookup p after.files ≡ (
                if b && bytes_eq save.path p
                then some (saved_file save text)
                else lookup p fs.files))
        → (p : Bytes) → view is_temp after p ≡ store_if b save (view is_temp fs) p
    view-store_if true found p = elim (Bool-cases (is_temp p)) [
      | inl temporary ↦ rw (encoded, temporary, elsewhere p temporary) refl
      | inr kept ↦
          let at = found p (temp_differs save.tmp_name p named.0 kept) in rw (encoded, kept) at
    ]
    view-store_if false found p = elim (Bool-cases (is_temp p)) [
      | inl temporary ↦ rw temporary refl
      | inr kept ↦ let at = found p (temp_differs save.tmp_name p named.0 kept) in rw kept at
    ]

  -- What one call does to the view.
  abbrev pub Refines : Save → FileSystem → Result FileError (Unit {0}) × FileSystem → Type 0
  Refines save fs r =
      (b : Bool) × (view is_temp r.1 ≡ store_if b save (view is_temp fs)) × Tells r.0 b

  save_json-Refines :
      (save : Save) (fs : FileSystem) → IsNamed is_temp save → Refines save fs (save_json save fs)
  save_json-Refines save fs named = elim (Option-cases save.encoded) [
    | inl failed ↦
        subst (Refines save fs) (sym (save_json-refused save fs failed)) (false, refl, refl)
    | inr (text, e) ↦
        let a = save_text-IsAtomic save text fs in
        subst (Refines save fs) (sym (save_json-text save text fs e)) (
          a.committed,
          fun_ext (
              view-store_if save text fs (save_text save text fs).1 e named a.committed
                a.files_after),
          tells (save_text save text fs).0 a.committed a.on_success a.on_failure a.encoded,
        )
  ]

  -- The files that a reader sees after any number of calls of SaveJSON are those of the abstract writes
  -- of the calls that were carried out: every call that returned no error was, none that returned an
  -- error was, and where the process stopped in a call its target is the old file or the whole new one;
  -- given that CreateTemp makes names which are told apart from the names of the targets.
  pub run_saves-refines :
      (saves : List Save) (fs : FileSystem)
      → All (IsNamed is_temp) saves
      → (flags : List Bool) × (view is_temp (run_saves saves fs).1
          ≡ replay saves flags (view is_temp fs))
        × AllTell (run_saves saves fs).0 flags
  unfolding run_saves
  run_saves-refines [] fs named = ([], refl, tt)
  run_saves-refines (save ∷ saves) fs (named, rest) =
      let (b, one, told) = save_json-Refines save fs named in
      let (flags, more, all) = run_saves-refines saves (save_json save fs).1 rest in
      (b ∷ flags, more ∙ ap (replay saves flags) one, (told, all))
