-- ===== src/Config/Saved/Loaded.antt =====
-- `LoadRelay` and `LoadClient` of internal/config/config.go from the file, and what they read after
-- SaveJSON.
use wsn.Prelude.{
  ◌++◌, Option, some, Result, ok, err, lookup, Bool, true, false, bytes_key, bytes_eq,
  bytes_eq_refl, ◌≡◌, refl, sym, ◌∙◌, ap, inl, inr, arith, Option-cases, nat_eq,
}
use wsn.Protocol.{Bytes, codes}
use wsn.Formats.{Formats}
use wsn.Files.{FileSystem, call_failed}
use wsn.Config.{RelayConfig, ConfigError, load_relay}
use wsn.Config.Client.{ClientConfig, ClientConfigError, load_client}
use wsn.Config.Saved.{Save, save_json, LoadError, load_json, decoded, ended}
use wsn.Config.Saved.Atomic.Stepwise.{saved_file, save_text-IsAtomic}
use wsn.Config.Saved.Atomic.Refined.{save_json-text, save_json-refused}

-- encoding/json for values of one type.
pub record Json (A : Type 0) : Type 0 where
  pub encode : A → Option Bytes
  pub decode : Bytes → Option (A × Bytes)
  pub at_end : Bytes → Bool

-- What its documentation says of a value: its text decodes to it, and nothing is left of the text but
-- the newline after it.
pub record IsReadable {A : Type 0} (json : Json A) (value : A) : Type 0 where
  pub reads :
      (text : Bytes)
      → json.encode value ≡ some text
      → (rest : Bytes) × (json.decode (text ++ codes "\n") ≡ some (value, rest))
        × (json.at_end rest ≡ true)

pub data FileConfigError (E : Type 0) : Type 0 where
  unreadable : LoadError → FileConfigError E
  refused : E → FileConfigError E

abbrev of_check : {E A : Type 0} → Result E A → Result (FileConfigError E) A
of_check (ok a) = ok a
of_check (err e) = err (refused e)

abbrev pub checked :
    {E A : Type 0} → (A → Result E A) → Result LoadError A → Result (FileConfigError E) A
checked check (err e) = err (unreadable e)
checked check (ok a) = of_check (check a)

pub checked-ok :
    {E A : Type 0} (check : A → Result E A) (a : A) → check a ≡ ok a → checked check (ok a) ≡ ok a
checked-ok check a h = ap of_check h

-- `LoadRelay`.
abbrev pub load_relay_file :
    Formats
    → Json RelayConfig
    → Bytes
    → FileSystem
    → Result (FileConfigError ConfigError) RelayConfig
load_relay_file f json path fs = checked (load_relay f) (load_json json.decode json.at_end path fs)

-- `LoadClient`.
abbrev pub load_client_file :
    Formats
    → (Bytes → Bool)
    → Json ClientConfig
    → Bytes
    → FileSystem
    → Result (FileConfigError ClientConfigError) ClientConfig
load_client_file f is_abs json path fs =
    checked (load_client f is_abs) (load_json json.decode json.at_end path fs)

module _ {A : Type 0} (json : Json A) (save : Save) (fs : FileSystem)
    (differs : bytes_eq save.tmp_name save.path ≡ false) where
  saved-lookup :
      (text : Bytes)
      → save.encoded ≡ some text
      → (save_json save fs).0 ≡ ok tt
      → lookup save.path (save_json save fs).1.files ≡ some (saved_file save text)
  saved-lookup text e good =
      let same = save_json-text save text fs e in
      let a = save_text-IsAtomic save text fs in
      let done = a.on_success (ap (λ r. r.0) (sym same) ∙ good) in
      let found = a.files_after save.path differs in
      rw (same, found, done, bytes_eq_refl save.path) refl

  failed-lookup :
      (text : Bytes)
      → save.encoded ≡ some text
      → (save_json save fs).0 ≡ err call_failed
      → lookup save.path (save_json save fs).1.files ≡ lookup save.path fs.files
  failed-lookup text e bad =
      let same = save_json-text save text fs e in
      let a = save_text-IsAtomic save text fs in
      let kept = a.on_failure (ap (λ r. r.0) (sym same) ∙ bad) in
      let found = a.files_after save.path differs in rw (same, found, kept) refl

  -- Where SaveJSON of a value returned no error, loadJSON of the path gives that value; where a call of it
  -- failed, loadJSON gives what it gave before; given a decoder that reads what the encoder prints,
  -- and a temporary name other than the path.
  pub load_json-save_json :
      (value : A)
      → IsReadable json value
      → save.encoded ≡ json.encode value
      → ((save_json save fs).0 ≡ ok tt
          → load_json json.decode json.at_end save.path (save_json save fs).1 ≡ ok value)
        × ((save_json save fs).0 ≡ err call_failed
            → load_json json.decode json.at_end save.path (save_json save fs).1
              ≡ load_json json.decode json.at_end save.path fs)
  unfolding load_json
  load_json-save_json value r e = elim (Option-cases (json.encode value)) [
    | inl failed ↦
        let refused_save = save_json-refused save fs (e ∙ failed) in
        (λ good. ground arith, λ bad. ground arith)
    | inr (text, encoded) ↦
        let (rest, reads, ends) = r.reads text encoded in
        (
          λ good.
              ap (decoded json.decode json.at_end) (saved-lookup text (e ∙ encoded) good)
              ∙ (ap (ended json.decode json.at_end) reads ∙ rw ends refl),
          λ bad. ap (decoded json.decode json.at_end) (failed-lookup text (e ∙ encoded) bad),
        )
  ]
