-- ===== src/Storage/Config/Store/Tests.antt =====
-- Node ids across a failed write and a restart.
use rs_matter_server.Prelude.{true, false, none, some, List, [], ◌∷◌}
use rs_matter_server.Prelude.Text.{text}
use rs_matter_server.Storage.Config.Store.{ConfigStore, missing, Op, allocates, restarts, reserves}

abbrev store : ConfigStore
store = record {
  config = record {
    fabric_label = text "Home";
    next_node_id = 7;
    wifi_ssid = none;
    wifi_credentials = none;
    thread_dataset = none;
    additional_wifi = [];
    additional_thread = [];
    icd_registrations = [];
  };
  path = some (text "config.json");
  file = missing;
}

-- A failed write, a restart, and a reservation.
abbrev ops : List Op
ops = allocates false ∷ restarts ∷ reserves true 20 ∷ []
