-- ===== src/Config/Saved/Examples.antt =====
-- A file that is saved twice, the second time on a full disk, with a JSON of texts that is the text
-- itself.
use wsn.Prelude.{List, [], ◌∷◌, some, ok, err, ◌≡◌, refl, Bool, false, bytes_key, nat_eq, ltb}
use wsn.Protocol.{Bytes, codes}
use wsn.Files.{File, FileSystem, succeeds, fails, call_failed, no_change, remove_file}
use wsn.Config.Saved.{Save, save_json, save_text, replace, cleaned}
use wsn.Config.Saved.Atomic.Refined.{run_saves, run_saves-refines, view, replay, AllTell}

abbrev is_temp : Bytes → Bool
is_temp [] = false
is_temp (c ∷ s) = ltb c 50

abbrev old : File
old = record { content = codes "old"; mode = 0o600 }

abbrev save : Save
save = record {
  encoded = some (codes "new");
  path = codes "state.json";
  tmp_name = codes ".wsn-1.tmp";
  mode = 0o600;
}

-- The calls of a first save that succeeds and of a second whose write stops after one byte.
abbrev disk : FileSystem
disk = record {
  outcomes =
      succeeds
      ∷ succeeds
      ∷ succeeds
      ∷ succeeds
      ∷ succeeds
      ∷ succeeds
      ∷ succeeds
      ∷ fails 0
      ∷ succeeds
      ∷ succeeds
      ∷ succeeds
      ∷ fails 1
      ∷ succeeds
      ∷ succeeds
      ∷ [];
  files = (codes "state.json", old) ∷ [];
}

run_saves-refines_example :
    (flags : List Bool) × (view is_temp (run_saves (save ∷ save ∷ []) disk).1
      ≡ replay (save ∷ save ∷ []) flags (view is_temp disk))
    × AllTell (run_saves (save ∷ save ∷ []) disk).0 flags
run_saves-refines_example =
    run_saves-refines is_temp (save ∷ save ∷ []) disk ((refl, refl), ((refl, refl), tt))

test_results : (run_saves (save ∷ save ∷ []) disk).0 ≡ ok tt ∷ err call_failed ∷ []
unfolding run_saves save_json save_text replace cleaned no_change remove_file
test_results = refl

test_files :
    (run_saves (save ∷ save ∷ []) disk).1.files
    ≡ (codes "state.json", record { content = codes "new\n"; mode = 0o600 }) ∷ []
unfolding run_saves save_json save_text replace cleaned no_change remove_file
test_files = refl
