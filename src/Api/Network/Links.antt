-- ===== src/Api/Network/Links.antt =====
-- server/src/api/network.rs: the links of the graph, and the whole of it.
use rs_matter_server.Prelude.{
  and_then, or_else, ℕ, ◌^◌, true, Option, none, some, List, [], ◌∷◌, ◌++◌, nat_ord, text_ord, any,
  if◌then◌else◌, unwrap_or,
}
use rs_matter_server.Prelude.Int.{ℤ, wrap}
use rs_matter_server.Prelude.Text.{Text, text, show}
use rs_matter_server.Prelude.Text.Affix.{without}
use rs_matter_server.Protocol.Json
use rs_matter_server.Protocol.Json.{Numbers, Value, as_str, as_array, as_u64}
use rs_matter_server.Protocol.Model.{MatterNodeData}
use rs_matter_server.Storage.Config.Registrations.{Base64}
use rs_matter_server.Api.Network.{
  NetworkTopologyConnection, NetworkTopology, thread_strength, wifi_strength, links_same_pair,
  merge_connection, add_node, low, access_point,
}
use rs_matter_server.Api.Network.Nodes.{
  decode_ext_address, thread_attribute, wifi_attribute, format_bssid, index_addresses, number_of,
  matter_node, resolve_target,
}

module _ {N : Type 0} ⦃num : Numbers N⦄ ⦃base64 : Base64⦄ (as_i64 : N → Option ℤ) where
  abbrev pub rssi_of : Option (Value N) → Option ℤ
  rssi_of (some (Value.number n)) = and_then (as_i64 n) (λ i. some (wrap 16 i))
  rssi_of _ = none

  unfoldable pub wifi_link : MatterNodeData N → Text → NetworkTopologyConnection
  unfolding wifi_strength
  wifi_link node bssid =
      let rssi = rssi_of (wifi_attribute node 4) in
      let strength = unwrap_or (and_then rssi (λ r. some (wifi_strength r))) (text "unknown") in
      record {
        source = show node.node_id;
        target = text "ap_" ++ without b':' bssid;
        network = text "wifi";
        strength = strength;
        source_to_target = some (record { strength = strength; lqi = none; rssi = rssi });
        target_to_source = none;
        via_route_table = none;
        path_cost = none;
      }

  -- A Wi-Fi station hangs off its access point, of which there is one for a BSSID.
  unfoldable pub add_station : MatterNodeData N → Option Text → NetworkTopology → NetworkTopology
  unfolding wifi_link add_node
  add_station node none t = t
  add_station node (some bssid) t = record {
    nodes = add_node (access_point bssid) t.nodes;
    connections = t.connections ++ (wifi_link node bssid ∷ []);
  }

  unfoldable pub add_matter_node : MatterNodeData N → NetworkTopology → NetworkTopology
  unfolding add_station matter_node format_bssid
  add_matter_node node t =
      let bssid = and_then (wifi_attribute node 0) format_bssid in
      add_station node bssid (record t { nodes = t.nodes ++ (matter_node node bssid ∷ []) })

  unfoldable pub add_matter_nodes : List (MatterNodeData N) → NetworkTopology → NetworkTopology
  unfolding add_matter_node
  add_matter_nodes [] t = t
  add_matter_nodes (node ∷ nodes) t = add_matter_nodes nodes (add_matter_node node t)

  abbrev pub address_in : Value N → Option Text
  address_in entry = and_then (and_then (Json.get (text "0") entry) as_str) decode_ext_address

  unfoldable pub neighbour_link : MatterNodeData N → Value N → Text → NetworkTopologyConnection
  unfolding thread_strength
  neighbour_link node neighbour target =
      let lqi = low 256 (number_of (Json.get (text "5") neighbour)) in
      let rssi = rssi_of (Json.get (text "6") neighbour) in
      let strength = unwrap_or (and_then lqi (λ q. some (thread_strength q))) (text "unknown") in
      record {
        source = show node.node_id;
        target = target;
        network = text "thread";
        strength = strength;
        source_to_target = some (record { strength = strength; lqi = lqi; rssi = rssi });
        target_to_source = none;
        via_route_table = none;
        path_cost = none;
      }

  unfoldable pub add_neighbour :
      List (Text × Text) → MatterNodeData N → Value N → NetworkTopology → NetworkTopology
  unfolding resolve_target neighbour_link merge_connection decode_ext_address
  add_neighbour by_ext node neighbour t = elim (address_in neighbour) [
    | none ↦ t
    | some ext ↦
        let rloc = low (2 ^ 16) (number_of (Json.get (text "2") neighbour)) in
        let found = resolve_target ext by_ext t.nodes rloc node in
        record {
          nodes = found.1;
          connections = merge_connection t.connections (neighbour_link node neighbour found.0);
        }
  ]

  unfoldable pub add_neighbours :
      List (Text × Text) → MatterNodeData N → List (Value N) → NetworkTopology → NetworkTopology
  unfolding add_neighbour
  add_neighbours by_ext node [] t = t
  add_neighbours by_ext node (v ∷ vs) t =
      add_neighbours by_ext node vs (add_neighbour by_ext node v t)

  unfoldable pub route_link : MatterNodeData N → Value N → Text → NetworkTopologyConnection
  unfolding thread_strength
  route_link node route target =
      let lqi =
        low 256 (number_of (or_else (Json.get (text "5") route) (Json.get (text "6") route))) in
      record {
        source = show node.node_id;
        target = target;
        network = text "thread";
        strength = unwrap_or (and_then lqi (λ q. some (thread_strength q))) (text "unknown");
        source_to_target = none;
        target_to_source = none;
        via_route_table = some true;
        path_cost = low (2 ^ 32) (number_of (Json.get (text "4") route));
      }

  -- A route adds a link only where no link joins the two.
  unfoldable pub add_route :
      List (Text × Text) → MatterNodeData N → Value N → NetworkTopology → NetworkTopology
  unfolding resolve_target route_link links_same_pair decode_ext_address
  add_route by_ext node route t = elim (address_in route) [
    | none ↦ t
    | some ext ↦
        let found = resolve_target ext by_ext t.nodes none node in
        if any (λ c. links_same_pair c (show node.node_id) found.0) t.connections
        then record t { nodes = found.1 }
        else record {
          nodes = found.1;
          connections = t.connections ++ (route_link node route found.0 ∷ []);
        }
  ]

  unfoldable pub add_routes :
      List (Text × Text) → MatterNodeData N → List (Value N) → NetworkTopology → NetworkTopology
  unfolding add_route
  add_routes by_ext node [] t = t
  add_routes by_ext node (v ∷ vs) t = add_routes by_ext node vs (add_route by_ext node v t)

  abbrev pub table : MatterNodeData N → ℕ → List (Value N)
  table node attribute = unwrap_or (and_then (thread_attribute node attribute) as_array) []

  unfoldable pub add_thread_links :
      List (Text × Text) → List (MatterNodeData N) → NetworkTopology → NetworkTopology
  unfolding add_neighbours add_routes
  add_thread_links by_ext [] t = t
  add_thread_links by_ext (node ∷ nodes) t =
      add_thread_links by_ext nodes
        (add_routes by_ext node (table node 8) (add_neighbours by_ext node (table node 7) t))

  unfoldable pub build_topology : List (MatterNodeData N) → NetworkTopology
  unfolding add_matter_nodes add_thread_links index_addresses
  build_topology nodes =
      add_thread_links (index_addresses nodes) nodes
        (add_matter_nodes nodes (record { nodes = []; connections = [] }))
