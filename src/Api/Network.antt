-- ===== src/Api/Network.antt =====
-- server/src/api/network.rs: the network graph that is derived from what the nodes reported. Base64 and
-- a JSON number's `as_i64` are parameters.
pub mod Nodes
pub mod Links
pub mod Graph
pub mod Simple
pub mod Station
pub mod Build
mod Tests
use rs_matter_server.Prelude.{
  and_then, or_else, ℕ, zero, suc, ◌+◌, ◌*◌, ◌/◌, ◌%◌, ◌^◌, Bool, true, false, not, ◌&&◌, ◌||◌,
  Option, none, some, List, [], ◌∷◌, ◌++◌, ◌==◌, nat_ord, text_ord, any, all, find, length, ltb,
  leb, if◌then◌else◌, unwrap_or, is_some, map,
}
use rs_matter_server.Prelude.Int.{ℤ, pos, negsuc, leb_ℤ, wrap}
use rs_matter_server.Prelude.Text.{Text, text, show, eq_ignore_ascii_case}
use rs_matter_server.Prelude.Text.Hex.{to_hex_upper}
use rs_matter_server.Prelude.Text.Affix.{join, without}
use rs_matter_server.Prelude.Map.{get}
use rs_matter_server.Protocol.Json
use rs_matter_server.Protocol.Json.{Numbers, Value, as_str, as_array, as_u64}
use rs_matter_server.Protocol.Model.{MatterNodeData, vendor_name, product_name}
use rs_matter_server.Storage.Config.Registrations.{Base64}

pub record TopologyDirectionInfo : Type 0 where
  pub strength : Text
  pub lqi : Option ℕ
  pub rssi : Option ℤ

pub record NetworkTopologyConnection : Type 0 where
  pub source : Text
  pub target : Text
  pub network : Text
  pub strength : Text
  pub source_to_target : Option TopologyDirectionInfo
  pub target_to_source : Option TopologyDirectionInfo
  pub via_route_table : Option Bool
  pub path_cost : Option ℕ

pub record NetworkTopologyNode : Type 0 where
  pub id : Text
  pub kind : Text
  pub network_type : Text
  pub node_id : Option ℕ
  pub role : Option Text
  pub available : Option Bool
  pub is_bridge : Option Bool
  pub ext_address : Option Text
  pub rloc16 : Option ℕ
  pub ext_pan_id : Option Text
  pub network_name : Option Text
  pub ssid : Option Text
  pub bssid : Option Text
  pub host_name : Option Text
  pub vendor_name : Option Text
  pub model_name : Option Text
  pub last_seen : Option ℕ

-- A node of the graph with nothing known of it.
abbrev pub blank : Text → Text → Text → NetworkTopologyNode
blank id kind network_type = record {
  id = id;
  kind = kind;
  network_type = network_type;
  node_id = none;
  role = none;
  available = none;
  is_bridge = none;
  ext_address = none;
  rloc16 = none;
  ext_pan_id = none;
  network_name = none;
  ssid = none;
  bssid = none;
  host_name = none;
  vendor_name = none;
  model_name = none;
  last_seen = none;
}

pub record NetworkTopology : Type 0 where
  pub nodes : List NetworkTopologyNode
  pub connections : List NetworkTopologyConnection

unfoldable pub strength_rank : Text → ℕ
strength_rank strength =
    if strength == text "strong"
    then 4
    else if strength == text "medium"
    then 3
    else if strength == text "weak"
    then 2
    else if strength == text "none"
    then 1
    else 0

unfoldable pub strongest : Text → Text → Text
unfolding strength_rank
strongest a b = if leb (strength_rank b) (strength_rank a) then a else b

-- The link quality of Thread, 0 to 3.
unfoldable pub thread_strength : ℕ → Text
thread_strength lqi =
    if lqi == 0
    then text "none"
    else if lqi == 1
    then text "weak"
    else if lqi == 2
    then text "medium"
    else text "strong"

unfoldable pub wifi_strength : ℤ → Text
wifi_strength rssi =
    if leb_ℤ (negsuc 54) rssi
    then text "strong"
    else if leb_ℤ (negsuc 66) rssi
    then text "medium"
    else if leb_ℤ (negsuc 79) rssi
    then text "weak"
    else text "none"

unfoldable pub routing_role : ℕ → Text
routing_role role =
    if role == 2
    then text "sleepy_end_device"
    else if role == 3
    then text "end_device"
    else if role == 4
    then text "reed"
    else if role == 5
    then text "router"
    else if role == 6
    then text "leader"
    else text "unassigned"

unfoldable pub links_same_pair : NetworkTopologyConnection → Text → Text → Bool
links_same_pair c a b = (c.source == a && c.target == b) || (c.source == b && c.target == a)

-- The second sighting of a link is folded into the first.
unfoldable pub fold_in :
    NetworkTopologyConnection → NetworkTopologyConnection → NetworkTopologyConnection
unfolding strongest
fold_in c existing =
    let stronger = strongest existing.strength c.strength in
    if existing.source == c.source
    then record existing { source_to_target = c.source_to_target; strength = stronger }
    else record existing { target_to_source = c.source_to_target; strength = stronger }

unfoldable pub merge_connection :
    List NetworkTopologyConnection → NetworkTopologyConnection → List NetworkTopologyConnection
unfolding fold_in
merge_connection [] c = c ∷ []
merge_connection (existing ∷ more) c =
    let rest = merge_connection more c in
    if links_same_pair existing c.source c.target
    then fold_in c existing ∷ more
    else existing ∷ rest

-- Added at the end, unless there is one with its id.
unfoldable pub add_node : NetworkTopologyNode → List NetworkTopologyNode → List NetworkTopologyNode
add_node n nodes = if any (λ e. e.id == n.id) nodes then nodes else nodes ++ (n ∷ [])

abbrev pub low : ℕ → Option ℕ → Option ℕ
low modulus o = and_then o (λ n. some (n % modulus))

abbrev pub access_point : Text → NetworkTopologyNode
access_point bssid =
    record (blank (text "ap_" ++ without b':' bssid) (text "wifi_ap") (text "wifi")) {
      role = some (text "ap");
      network_name = some bssid;
      bssid = some bssid;
    }
