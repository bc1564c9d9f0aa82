-- ===== src/Migrate/Commissioned.antt =====
-- server/src/migrate/model.rs: the commissioned nodes and the settings of a matterjs-server.
use rs_matter_server.Prelude.{
  and_then, ℕ, Option, none, some, List, [], ◌∷◌, ◌++◌, ◌==◌, nat_ord, text_ord, length, leb,
  if◌then◌else◌, unwrap_or, Result, ok, ◌>>=◌,
}
use rs_matter_server.Prelude.Text.{Text, text, parse_uint}
use rs_matter_server.Prelude.Text.Affix.{strip_prefix}
use rs_matter_server.Prelude.Map.{Map, get, insert, values, contains_key}
use rs_matter_server.Protocol.Json.{u64_max}
use rs_matter_server.Migrate.Value.{Formats, MjValue, mj_items, mj_str, mj_array, mj_get, mj_u64}
use rs_matter_server.Migrate.Namespaces.{
  Namespace, MatterJsStorage, namespace, has_namespace, context_of, value_of, child_contexts,
}
use rs_matter_server.Migrate.Import.{ImportedNode, ImportedConfig, no_config}

abbrev pub bare : ℕ → ImportedNode
bare node_id = record {
  node_id = node_id;
  commissioned_at = none;
  fabric_index_on_peer = none;
  addresses = [];
}

abbrev pub Found : Type 0
Found = Map ℕ ImportedNode

-- The entry for a node, bare where this is its first mention.
unfoldable pub record_node : ℕ → Found → Found
record_node node_id nodes =
    if contains_key node_id nodes then nodes else insert node_id (bare node_id) nodes

module _ {N F : Type 0} (fmt : Formats N F) where
  unfoldable pub listed_id : MjValue F → Option ℕ
  listed_id (MjValue.array vs) = elim (mj_items vs) [ [] ↦ none | v ∷ more ↦ mj_u64 fmt v ]
  listed_id value = mj_u64 fmt value

  unfoldable pub record_listed : List (MjValue F) → Found → Found
  unfolding listed_id
  record_listed [] nodes = nodes
  record_listed (entry ∷ more) nodes =
      record_listed more
        (elim (listed_id entry) [ none ↦ nodes | some node_id ↦ record_node node_id nodes ])

  abbrev pub u8_of : Option ℕ → Option ℕ
  u8_of o = and_then o (λ n. if leb n 0xff then some n else none)

  pub address_of : MjValue F → Option Text
  address_of address = and_then (mj_get (text "ip") address) mj_str

  pub addresses_of : List (MjValue F) → List Text
  unfolding address_of
  addresses_of [] = []
  addresses_of (a ∷ more) = elim (address_of a) [
    | none ↦ addresses_of more
    | some ip ↦ ip ∷ addresses_of more
  ]

  pub peer_id : Map Text (MjValue F) → Option ℕ
  peer_id commissioning =
      and_then (and_then (get (text "peerAddress") commissioning) (mj_get (text "nodeId")))
        (mj_u64 fmt)

  pub peer_node : ℕ → Map Text (MjValue F) → ImportedNode
  unfolding addresses_of
  peer_node node_id commissioning = record {
    node_id = node_id;
    commissioned_at = and_then (get (text "commissionedAt") commissioning) (mj_u64 fmt);
    fabric_index_on_peer =
        u8_of (and_then (get (text "fabricIndexOnPeer") commissioning) (mj_u64 fmt));
    addresses =
        addresses_of (unwrap_or (and_then (get (text "addresses") commissioning) mj_array) []);
  }

  pub record_peer : Namespace F → Text → Found → Found
  unfolding peer_id peer_node
  record_peer n peer nodes =
      elim (context_of n
        (text "nodes" ∷ peer ∷ text "endpoints" ∷ text "0" ∷ text "commissioning" ∷ [])) [
          | none ↦ nodes
          | some commissioning ↦ elim (peer_id commissioning) [
            | none ↦ nodes
            | some node_id ↦ insert node_id (peer_node node_id commissioning) nodes
          ]
        ]

  unfoldable pub record_peers : Namespace F → List Text → Found → Found
  unfolding record_peer
  record_peers n [] nodes = nodes
  record_peers n (peer ∷ peers) nodes = record_peers n peers (record_peer n peer nodes)

-- The older layout has a context for each node.
abbrev pub old_id : Text → Option ℕ
old_id context = and_then (strip_prefix (text "node-") context) (parse_uint 10 u64_max)

unfoldable pub record_old : List Text → Found → Found
record_old [] nodes = nodes
record_old (context ∷ more) nodes =
    record_old more
      (elim (old_id context) [ none ↦ nodes | some node_id ↦ record_node node_id nodes ])

module _ {N F : Type 0} (fmt : Formats N F) where
  unfoldable pub listed : Namespace F → List (MjValue F)
  listed n =
      unwrap_or (and_then (value_of n (text "nodes" ∷ []) (text "commissionedNodes")) mj_array) []

  unfoldable pub found_nodes : Namespace F → Found
  unfolding listed
  found_nodes n =
      record_old (child_contexts n []) (
        record_peers fmt n (child_contexts n (text "nodes" ∷ [])) (record_listed fmt (listed n) []))

  unfoldable pub read_nodes : Namespace F → List ImportedNode
  unfolding found_nodes
  read_nodes n = values (found_nodes n)

  -- A setting that is a text and not empty.
  abbrev pub setting : Text → Map Text (MjValue F) → Option Text
  setting key settings =
      and_then (and_then (get key settings) mj_str) (λ s. if length s == 0 then none else some s)

  abbrev pub entry_text : Text → MjValue F → Option Text
  entry_text key entry = and_then (mj_get key entry) mj_str

  abbrev wifi_entry : MjValue F → Option (Text × Text × Text)
  wifi_entry e = and_then (entry_text (text "id") e) (λ id.
      and_then (entry_text (text "ssid") e)
        (λ ssid. and_then (entry_text (text "credentials") e) (λ c. some (id, ssid, c))))

  pub wifi_entries : List (MjValue F) → List (Text × Text × Text)
  wifi_entries [] = []
  wifi_entries (e ∷ more) = elim (wifi_entry e) [
    | none ↦ wifi_entries more
    | some entry ↦ entry ∷ wifi_entries more
  ]

  abbrev thread_entry : MjValue F → Option (Text × Text)
  thread_entry e =
      and_then (entry_text (text "id") e)
        (λ id. and_then (entry_text (text "dataset") e) (λ d. some (id, d)))

  pub thread_entries : List (MjValue F) → List (Text × Text)
  thread_entries [] = []
  thread_entries (e ∷ more) = elim (thread_entry e) [
    | none ↦ thread_entries more
    | some entry ↦ entry ∷ thread_entries more
  ]

  abbrev pub entries_of : Text → Map Text (MjValue F) → List (MjValue F)
  entries_of key settings = unwrap_or (and_then (get key settings) mj_array) []

  pub config_of : Map Text (MjValue F) → ImportedConfig
  unfolding wifi_entries thread_entries
  config_of settings = record {
    fabric_label = setting (text "fabricLabel") settings;
    next_node_id = and_then (get (text "nextNodeId") settings) (mj_u64 fmt);
    wifi =
        unwrap_or
          (and_then (setting (text "wifiSsid") settings) (λ ssid.
            and_then (setting (text "wifiCredentials") settings)
              (λ c. some ((text "default", ssid, c) ∷ []))))
          []
        ++ wifi_entries (entries_of (text "additionalWifiCredentials") settings);
    thread =
        unwrap_or
          (and_then (setting (text "threadDataset") settings)
            (λ d. some ((text "default", d) ∷ [])))
          []
        ++ thread_entries (entries_of (text "additionalThreadCredentials") settings);
  }

  unfoldable pub read_config : MatterJsStorage F → Result Text ImportedConfig
  unfolding config_of
  read_config storage =
      if has_namespace (text "config") storage
      then (namespace (text "config") storage >>= λ n. elim (context_of n (text "values" ∷ [])) [
        | none ↦ ok no_config
        | some settings ↦ ok (config_of settings)
      ])
      else ok no_config
