-- ===== src/Provision/Stored.antt =====
-- The files of a deployment on a file system: what internal/provision/provision.go saves, and the relay
-- of internal/config/config.go loads.
mod Examples
use wsn.Prelude.{
  List, some, ok, err, ◌≡◌, refl, bytes_eq, false, subst, sym, ap, ◌++◌, ◌∷◌, [], ◌∙◌,
}
use wsn.Protocol.{Bytes, codes}
use wsn.Formats.{Formats, ReadsBack}
use wsn.Files.{FileSystem}
use wsn.Config.{RelayConfig, load_relay}
use wsn.Config.Valid.{AreDistinct, macs_of}
use wsn.Config.Saved.{Save, save_json, load_json}
use wsn.Config.Saved.Loaded.{
  Json, IsReadable, load_relay_file, load_json-save_json, checked, checked-ok,
}
use wsn.Provision.Plan.{State, ProvisionedClient}
use wsn.Provision.{relay_config}
use wsn.Provision.Deployment.{IsDeployment}
use wsn.Provision.Bundle.Loads.{relay_config-load_relay}

-- `saveState`, as a call of SaveJSON.
unfoldable pub state_save : Json State → Bytes → Bytes → State → Save
state_save json directory tmp_name state = record {
  encoded = json.encode state;
  path = directory ++ codes "/state.json";
  tmp_name = tmp_name;
  mode = 0o600;
}

-- `writeRelayConfig`, as a call of SaveJSON.
unfoldable pub relay_save : Json RelayConfig → Bytes → Bytes → List ProvisionedClient → Save
relay_save json directory tmp_name clients = record {
  encoded = json.encode (relay_config clients);
  path = directory ++ codes "/server.json";
  tmp_name = tmp_name;
  mode = 0o600;
}

-- Where writeRelayConfig of a sound deployment, no two of whose virtual MACs are the same, returned no
-- error, LoadRelay of the file that it wrote gives the relay the configuration of the deployment,
-- whatever lay there before and whatever the deferred removal did; given formats and JSON that read
-- back what they print.
pub load_relay_file-relay_save :
    (f : Formats) (json : Json RelayConfig) (directory tmp_name : Bytes) (state : State)
    (fs : FileSystem)
    → ReadsBack f
    → IsReadable json (relay_config state.clients)
    → IsDeployment f state
    → AreDistinct (macs_of (relay_config state.clients).clients)
    → bytes_eq tmp_name (directory ++ codes "/server.json") ≡ false
    → (save_json (relay_save json directory tmp_name state.clients) fs).0 ≡ ok tt
    → load_relay_file f json
        (directory ++ codes "/server.json")
        (save_json (relay_save json directory tmp_name state.clients) fs).1
      ≡ ok (relay_config state.clients)
unfolding relay_save
load_relay_file-relay_save f json directory tmp_name state fs r readable sound distinct differs
      good =
    let read =
      (load_json-save_json json (relay_save json directory tmp_name state.clients) fs differs
          (relay_config state.clients) readable refl).0
        good in
    let loads = relay_config-load_relay f r state sound distinct in
    ap (checked (load_relay f)) read ∙ checked-ok (load_relay f) (relay_config state.clients) loads
