-- ===== src/Provision/Stored/Examples.antt =====
-- The relay's configuration of a deployment with one client, saved and loaded.
use wsn.Prelude.{some, ok, ◌≡◌, refl, [], true, nat_eq, bytes_key, replicate}
use wsn.Protocol.{codes}
use wsn.Formats.Raw.{raw-ReadsBack, raw}
use wsn.Files.{FileSystem, succeeds, no_change, remove_file}
use wsn.Config.{RelayConfig}
use wsn.Config.Saved.{save_json, save_text, replace, cleaned}
use wsn.Config.Saved.Loaded.{Json, IsReadable, load_relay_file}
use wsn.Provision.{relay_config}
use wsn.Provision.Examples.{state, state-IsDeployment}
use wsn.Provision.Stored.{relay_save, load_relay_file-relay_save}

-- A JSON that knows one value.
abbrev one_value : RelayConfig → Json RelayConfig
one_value value = record {
  encode = λ v. some [];
  decode = λ text. some (value, []);
  at_end = λ rest. true;
}

one_value-IsReadable : (value : RelayConfig) → IsReadable (one_value value) value
one_value-IsReadable value = record { reads = λ text e. ([], refl, refl) }

abbrev disk : FileSystem
disk = record { outcomes = replicate 8 succeeds; files = [] }

abbrev json : Json RelayConfig
json = one_value (relay_config state.clients)

was_saved : (save_json (relay_save json (codes "/w") (codes "/w/t") state.clients) disk).0 ≡ ok tt
unfolding save_json save_text replace cleaned no_change remove_file relay_save
was_saved = refl

load_relay_file-relay_save_example :
    load_relay_file raw json
      (codes "/w/server.json")
      (save_json (relay_save json (codes "/w") (codes "/w/t") state.clients) disk).1
    ≡ ok (relay_config state.clients)
unfolding relay_config
load_relay_file-relay_save_example =
    load_relay_file-relay_save raw json (codes "/w") (codes "/w/t") state disk raw-ReadsBack
      (one_value-IsReadable (relay_config state.clients)) state-IsDeployment (tt, tt) refl was_saved
