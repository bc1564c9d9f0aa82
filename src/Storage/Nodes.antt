-- ===== src/Storage/Nodes.antt =====
-- server/src/storage/nodes.rs: the commissioned-node store. The nodes' mutex holds a map from node
-- ids, on which each operation here acts; what is persisted and when is in `Persistence`.
pub mod Detect
pub mod Invariant
pub mod Lookup
pub mod Diffs
pub mod Persistence
mod Tests
use rs_matter_server.Prelude.{
  ℕ, ◌+◌, ◌%◌, ◌^◌, Bool, true, false, not, ◌&&◌, ◌||◌, Option, none, some, List, [], ◌∷◌, ◌==◌,
  nat_ord, text_ord, ltb, keep, any, is_some, map, length, unwrap_or, if◌then◌else◌, find,
}
use mathlib.Core.List.{reverse}
use rs_matter_server.Prelude.Text.{Text}
use rs_matter_server.Prelude.Map.{Map, get, insert, remove, extend, keys, values, contains_key}
use rs_matter_server.Protocol.Json.{Numbers, Value, value_eq}
use rs_matter_server.Protocol.Model.{MatterNodeData, AttributesData, endpoints, test_node_start}
use Detect.{detect_bridge, detect_matter_version}

-- A node plus what only the controller keeps.
pub record StoredNode (N : Type 0) : Type 0 where
  pub node : MatterNodeData N
  pub ip_addresses : List Text
  pub device_fabric_index : Option ℕ

abbrev pub Nodes : Type 0 → Type 0
Nodes N = Map ℕ (StoredNode N)

module _ {N : Type 0} where
  unfoldable pub new : MatterNodeData N → StoredNode N
  new node = record { node = node; ip_addresses = []; device_fabric_index = none }

  abbrev pub node_of : Option (StoredNode N) → Option (MatterNodeData N)
  node_of none = none
  node_of (some s) = some s.node

  unfoldable pub get_node : Nodes N → ℕ → Option (MatterNodeData N)
  get_node nodes node_id = node_of (get node_id nodes)

  unfoldable pub all : Nodes N → List (MatterNodeData N)
  all nodes = map (λ s. s.node) (values nodes)

  unfoldable pub all_filtered : Nodes N → Bool → List (MatterNodeData N)
  all_filtered nodes only_available =
      map (λ s. s.node) (keep (λ s. not only_available || s.node.available) (values nodes))

  -- `keys().rev().find(..)`: the first from the end that is no test node.
  unfoldable pub highest_node_id : Nodes N → Option ℕ
  highest_node_id nodes = find (λ id. ltb id test_node_start) (reverse (keys nodes))

  never_read : Option (StoredNode N) → Bool
  never_read none = false
  never_read (some s) = length s.node.attributes == 0 && s.node.interview_version == 0

  unfoldable pub awaiting_first_interview : Nodes N → ℕ → Bool
  unfolding never_read
  awaiting_first_interview nodes node_id = never_read (get node_id nodes)

  unfoldable pub upsert : Nodes N → StoredNode N → Nodes N
  upsert nodes s = insert s.node.node_id s nodes

  -- The map without the node, and whether it was there.
  unfoldable pub remove_node : Nodes N → ℕ → Nodes N × Bool
  remove_node nodes node_id = (remove node_id nodes, is_some (get node_id nodes))

  update_found :
      ℕ
      → (StoredNode N → StoredNode N)
      → Nodes N
      → Option (StoredNode N)
      → Nodes N × Option (MatterNodeData N)
  update_found node_id f nodes none = (nodes, none)
  update_found node_id f nodes (some s) = (insert node_id (f s) nodes, some (f s).node)

  unfoldable pub update :
      Nodes N → ℕ → (StoredNode N → StoredNode N) → Nodes N × Option (MatterNodeData N)
  unfolding update_found
  update nodes node_id f = update_found node_id f nodes (get node_id nodes)

  available_found :
      ℕ → Bool → Nodes N → Option (StoredNode N) → Nodes N × Option (MatterNodeData N × Bool)
  available_found node_id available nodes none = (nodes, none)
  available_found node_id available nodes (some s) =
      let node : MatterNodeData N = record s.node { available = available } in
      (
        insert node_id (record s { node = node }) nodes,
        some (node, if s.node.available then not available else available),
      )

  -- The node as it is now, and whether its availability changed.
  unfoldable pub set_available : Nodes N → ℕ → Bool → Nodes N × Option (MatterNodeData N × Bool)
  unfolding available_found
  set_available nodes node_id available =
      available_found node_id available nodes (get node_id nodes)

  unfoldable pub set_ip_addresses : Nodes N → ℕ → List Text → Nodes N
  unfolding update_found
  set_ip_addresses nodes node_id addresses =
      (update_found node_id (λ s. record s { ip_addresses = addresses }) nodes
        (get node_id nodes)).0

  addresses_of : Option (StoredNode N) → List Text
  addresses_of none = []
  addresses_of (some s) = s.ip_addresses

  unfoldable pub ip_addresses : Nodes N → ℕ → List Text
  unfolding addresses_of
  ip_addresses nodes node_id = addresses_of (get node_id nodes)

-- Whether values are everything a node has, or only what changed.
pub data Coverage : Type 0 where
  complete partial : Coverage

pub record InterviewDiff (N : Type 0) : Type 0 where
  pub node : MatterNodeData N
  pub changed_attributes : List (Text × Value N)
  pub removed_attributes : List Text
  pub endpoints_added : List ℕ
  pub endpoints_removed : List ℕ

-- `a.iter().filter(|e| !b.contains(e))`.
unfoldable pub difference : List ℕ → List ℕ → List ℕ
difference a b = keep (λ e. not (any (λ n. n == e) b)) a

module _ {N : Type 0} ⦃num : Numbers N⦄ where
  unfoldable pub is_value : Option (Value N) → Value N → Bool
  is_value none v = false
  is_value (some w) v = value_eq w v

  unfoldable pub changed : AttributesData N → AttributesData N → List (Text × Value N)
  unfolding is_value
  changed old attributes = keep (λ e. not (is_value (get e.0 old) e.1)) attributes

  unfoldable pub removed : AttributesData N → AttributesData N → List Text
  removed old attributes = keep (λ path. not (contains_key path attributes)) (keys old)

  diff_of :
      AttributesData N → MatterNodeData N → List (Text × Value N) → List Text → InterviewDiff N
  diff_of old node changes removals = record {
    node = node;
    changed_attributes = changes;
    removed_attributes = removals;
    endpoints_added = difference (endpoints node.attributes) (endpoints old);
    endpoints_removed = difference (endpoints old) (endpoints node.attributes);
  }

  -- The node with new attributes, and with what is detected from them.
  with_attributes : MatterNodeData N → AttributesData N → MatterNodeData N
  with_attributes node attributes = record node {
    attributes = attributes;
    is_bridge = detect_bridge attributes;
    matter_version = detect_matter_version attributes;
  }

  interviewed : MatterNodeData N → AttributesData N → Text → MatterNodeData N
  unfolding with_attributes
  interviewed node attributes at = record (with_attributes node attributes) {
    last_interview = at;
    interview_version = (node.interview_version + 1) % 2 ^ 64;
    available = true;
  }

  unfoldable pub diff_found :
      ℕ
      → (MatterNodeData N → MatterNodeData N)
      → (MatterNodeData N → InterviewDiff N)
      → Nodes N
      → Option (StoredNode N)
      → Nodes N × Option (InterviewDiff N)
  diff_found node_id f d nodes none = (nodes, none)
  diff_found node_id f d nodes (some s) =
      (insert node_id (record s { node = f s.node }) nodes, some (d s.node))

  unfoldable pub apply_interview :
      Nodes N → ℕ → AttributesData N → Text → Nodes N × Option (InterviewDiff N)
  unfolding diff_found interviewed diff_of changed removed difference
  apply_interview nodes node_id attributes at =
      diff_found node_id (λ node. interviewed node attributes at)
        (λ node.
          diff_of node.attributes (interviewed node attributes at)
            (changed node.attributes attributes) (removed node.attributes attributes))
        nodes (get node_id nodes)

  unfoldable pub merged : Coverage → AttributesData N → AttributesData N → AttributesData N
  merged complete old attributes = attributes
  merged partial old attributes = extend old attributes

  removals : Coverage → AttributesData N → AttributesData N → List Text
  removals complete old attributes = removed old attributes
  removals partial old attributes = []

  unfoldable pub merge_attributes :
      Nodes N → ℕ → AttributesData N → Coverage → Nodes N × Option (InterviewDiff N)
  unfolding diff_found with_attributes merged removals diff_of changed removed difference
  merge_attributes nodes node_id attributes coverage =
      diff_found node_id (λ node. with_attributes node (merged coverage node.attributes attributes))
        (λ node.
          diff_of node.attributes
            (with_attributes node (merged coverage node.attributes attributes))
            (changed node.attributes attributes) (removals coverage node.attributes attributes))
        nodes (get node_id nodes)

  set_found :
      ℕ → Text → Value N → Nodes N → Option (StoredNode N) → Nodes N × Option (MatterNodeData N)
  set_found node_id path value nodes none = (nodes, none)
  set_found node_id path value nodes (some s) =
      let node : MatterNodeData N = record s.node {
        attributes = insert path value s.node.attributes;
      } in
      if is_value (get path s.node.attributes) value
      then (nodes, none)
      else (insert node_id (record s { node = node }) nodes, some node)

  -- One value; the node is answered only where the value changed.
  unfoldable pub set_attribute : Nodes N → ℕ → Text → Value N → Nodes N × Option (MatterNodeData N)
  unfolding set_found is_value
  set_attribute nodes node_id path value = set_found node_id path value nodes (get node_id nodes)
