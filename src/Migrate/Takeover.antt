-- ===== src/Migrate/Takeover.antt =====
-- server/src/migrate/mod.rs: writing the nodes and the settings that were read. The date of a node, and
-- whether each write to disk succeeds, are arguments.
pub mod Settings
pub mod Reserved
use mathlib.Core.Option
use rs_matter_server.Prelude.{
  ℕ, suc, ◌-◌, Bool, true, false, Option, none, some, List, [], ◌∷◌, ◌++◌, nat_ord, map, unwrap_or,
  if◌then◌else◌, Result, ok, err, ◌>>=◌,
}
use rs_matter_server.Prelude.Text.{Text, text}
use rs_matter_server.Prelude.Map.{Map, insert}
use rs_matter_server.Protocol.Model.{MatterNodeData}
use rs_matter_server.Protocol.Model
use rs_matter_server.Storage.Nodes.{StoredNode, Nodes, upsert}
use rs_matter_server.Storage.Nodes
use rs_matter_server.Storage.Nodes.Persistence.{Store, save}
use rs_matter_server.Storage.Nodes.Persistence
use rs_matter_server.Storage.Config.{set_wifi_credentials, set_thread_dataset}
use rs_matter_server.Storage.Config.Store.{
  ConfigStore, mutate_checked, set_fabric_label, reserve_above,
}
use rs_matter_server.Storage.Config.Store
use rs_matter_server.Migrate.Value.{Formats}
use rs_matter_server.Protocol.Json.{Numbers}
use rs_matter_server.Migrate.Namespaces.{Directory, MatterJsStorage, Namespace, open_dirs}
use rs_matter_server.Migrate.Import.{
  ImportedFabric, ImportedNode, ImportedConfig, find_controller_namespace, read_fabric,
}
use rs_matter_server.Migrate.Commissioned.{read_nodes, read_config}

pub record Import : Type 0 where
  pub fabric : ImportedFabric
  pub nodes : List ImportedNode
  pub config : ImportedConfig
  pub namespace : Text

-- Everything is read before anything is written.
unfoldable pub read :
    {N F : Type 0} ⦃num : Numbers N⦄ (fmt : Formats N F)
    → List Directory
    → Option Text
    → Result Text Import
unfolding open_dirs find_controller_namespace read_fabric read_nodes read_config
read fmt directories requested = do
  storage ← open_dirs fmt directories []
  controller ← find_controller_namespace storage requested
  fabric ← read_fabric fmt controller
  config ← read_config fmt storage
  ok (record {
    fabric = fabric;
    nodes = read_nodes fmt controller;
    config = config;
    namespace = controller.name;
  })

-- The changes of the configuration, in the order in which they are made.
pub data Setting : Type 0 where
  fabric_label : Text → Setting
  reserved : ℕ → Setting
  wifi : Text → Text → Text → Setting
  thread : Text → Text → Setting

abbrev pub optional : Option Setting → List Setting
optional none = []
optional (some s) = s ∷ []

unfoldable pub settings : Import → List Setting
settings import =
    optional (Option.map fabric_label import.config.fabric_label)
    ++ (optional (Option.map (λ n. reserved (n - 1)) import.config.next_node_id)
        ++ (map (λ n. reserved n.node_id) import.nodes
            ++ (map (λ e. wifi e.0 e.1 e.2) import.config.wifi
                ++ map (λ e. thread e.0 e.1) import.config.thread)))

abbrev pub unit_of :
    {T : Type 0} → Result Text T × ConfigStore → Result Text (Unit {0}) × ConfigStore
unit_of (ok t, store) = (ok tt, store)
unit_of (err e, store) = (err e, store)

unfoldable pub apply_setting : Bool → Setting → ConfigStore → Result Text (Unit {0}) × ConfigStore
apply_setting written (fabric_label label) store = unit_of (set_fabric_label written label store)
apply_setting written (reserved id) store = reserve_above written id store
apply_setting written (wifi id ssid credentials) store =
    mutate_checked written (set_wifi_credentials (some id) ssid (some credentials)) store
apply_setting written (thread id dataset) store =
    mutate_checked written (set_thread_dataset (some id) dataset) store

abbrev pub then_settings :
    Result Text (Unit {0}) × ConfigStore
    → (ConfigStore → Result Text (Unit {0}) × ConfigStore)
    → Result Text (Unit {0}) × ConfigStore
then_settings (ok u, store) next = next store
then_settings (err e, store) next = (err e, store)

-- The first error ends it; `written n` says whether the write of the n-th change succeeds.
unfoldable pub apply_settings :
    (ℕ → Bool) → ℕ → List Setting → ConfigStore → Result Text (Unit {0}) × ConfigStore
apply_settings written n [] store = (ok tt, store)
apply_settings written n (s ∷ more) store =
    then_settings (apply_setting (written n) s store) (apply_settings written (suc n) more)

-- What is answered, and what is on disk then.
pub record Applied (N : Type 0) : Type 0 where
  pub result : Result Text (Unit {0})
  pub nodes_file : Persistence.File N
  pub config_file : Store.File

pub with_config :
    {N : Type 0} → (ℕ → Bool) → List Setting → Persistence.File N → Store.File → Applied N
unfolding apply_settings
with_config written changes nodes_file config_file =
    elim (Store.load (text "config.json") config_file) [
      | err e ↦ record { result = err e; nodes_file = nodes_file; config_file = config_file }
      | ok store ↦
          let done = apply_settings written 0 changes store in
          record { result = done.0; nodes_file = nodes_file; config_file = done.1.file }
    ]

module _ {N : Type 0} (commissioned_at : Option ℕ → Text) where
  -- Nothing was read from the device yet, so it is not available.
  unfoldable pub stored_node : ImportedNode → StoredNode N
  stored_node n = record {
    node = record (Model.new n.node_id (commissioned_at n.commissioned_at)) { available = false };
    ip_addresses = n.addresses;
    device_fabric_index = n.fabric_index_on_peer;
  }

  unfoldable pub take_nodes : List ImportedNode → Nodes N → Nodes N
  unfolding stored_node
  take_nodes [] nodes = nodes
  take_nodes (n ∷ more) nodes = take_nodes more (upsert nodes (stored_node n))

  pub with_nodes :
      Bool → (ℕ → Bool) → ℕ → Import → Store N → Persistence.File N → Store.File → Applied N
  unfolding with_config settings take_nodes
  with_nodes saved written now import store nodes_file config_file =
      let kept =
        save saved now (record store { nodes = take_nodes import.nodes store.nodes }) nodes_file in
      if kept.2 then with_config written (settings import) kept.1 config_file else record {
        result = err (text "writing node state");
        nodes_file = kept.1;
        config_file = config_file;
      }

  unfoldable pub apply_state :
      Bool → (ℕ → Bool) → ℕ → Import → Persistence.File N → Store.File → Applied N
  unfolding with_nodes
  apply_state saved written now import nodes_file config_file =
      elim (Persistence.load nodes_file now) [
        | err e ↦ record {
          result = err (text "parsing node state");
          nodes_file = nodes_file;
          config_file = config_file;
        }
        | ok store ↦ with_nodes saved written now import store nodes_file config_file
      ]
