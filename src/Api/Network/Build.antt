-- ===== src/Api/Network/Build.antt =====
-- server/src/api/network.rs: the graph that is built of the store's nodes.
use rs_matter_server.Prelude.{
  ◌≡◌, refl, true, false, Option, List, [], ◌∷◌, ◌==◌, nat_ord, text_ord, All, inl, inr,
  Option-cases,
}
use rs_matter_server.Prelude.Text.{Text, show}
use rs_matter_server.Prelude.Int.{ℤ}
use rs_matter_server.Protocol.Json.{Numbers}
use rs_matter_server.Protocol.Model.{MatterNodeData}
use rs_matter_server.Storage.Config.Registrations.{Base64}
use rs_matter_server.Api.Network.{NetworkTopology}
use rs_matter_server.Api.Network.Nodes.{thread_string, index_addresses}
use rs_matter_server.Api.Network.Links.{add_matter_node, add_matter_nodes, build_topology}
use rs_matter_server.Prelude.Distinct.{has}
use rs_matter_server.Api.Network.Graph.{ids, IsGraph, Extends, Extends-trans, Extends-refl}
use rs_matter_server.Api.Network.Simple.{
  AreNodes, AreNodes-widen, IsIndex, add_thread_links-Extends,
}
use rs_matter_server.Api.Network.Station.{IsAdded, add_matter_node-IsAdded}

-- Two nodes of the store differ in their ids.
module _ {N : Type 0} where
  abbrev pub HaveDistinctIds : List (MatterNodeData N) → Type 0
  HaveDistinctIds [] = Unit {0}
  HaveDistinctIds (n ∷ ns) = All (λ m. (n.node_id == m.node_id) ≡ false) ns × HaveDistinctIds ns

module _ {N : Type 0} where
  -- No node is one of the graph yet.
  abbrev AreNew : List (MatterNodeData N) → List Text → Type 0
  AreNew nodes is = All (λ n. has (show n.node_id) is ≡ false) nodes

module _ {N : Type 0} ⦃num : Numbers N⦄ ⦃base64 : Base64⦄ (as_i64 : N → Option ℤ) where
  AreNew-add :
      (node : MatterNodeData N) (before after : NetworkTopology)
      → IsAdded as_i64 node before after
      → (ns : List (MatterNodeData N)) → All (λ m. (node.node_id == m.node_id) ≡ false) ns
      → AreNew ns (ids before.nodes)
      → AreNew ns (ids after.nodes)
  AreNew-add node before after added [] d h = tt
  AreNew-add node before after added (n ∷ ns) (o, d) (k, h) =
      (added.others n.node_id o k, AreNew-add node before after added ns d h)

  -- The first pass: a graph, of which every node of the store is a node.
  record IsFilled (nodes : List (MatterNodeData N)) (before after : NetworkTopology) : Type 0 where
    extends : Extends before after
    known : AreNodes nodes (ids after.nodes)

  add_matter_nodes-IsFilled :
      (nodes : List (MatterNodeData N)) (t : NetworkTopology)
      → HaveDistinctIds nodes
      → AreNew nodes (ids t.nodes)
      → IsGraph t
      → IsFilled nodes t (add_matter_nodes as_i64 nodes t)
  unfolding add_matter_nodes
  add_matter_nodes-IsFilled [] t d h g = record { extends = Extends-refl t g; known = tt }
  add_matter_nodes-IsFilled (n ∷ ns) t (o, d) (k, h) g =
      let next = add_matter_node as_i64 n t in
      let first = add_matter_node-IsAdded as_i64 n t k g in
      let rest =
        add_matter_nodes-IsFilled ns next d (AreNew-add n t next first ns o h)
          first.extends.graph in
      record {
        extends = Extends-trans first.extends rest.extends;
        known = (rest.extends.within (show n.node_id) first.known, rest.known);
      }

  index_addresses-IsIndex :
      (nodes : List (MatterNodeData N)) (is : List Text)
      → AreNodes nodes is
      → IsIndex (index_addresses nodes) is
  unfolding index_addresses
  index_addresses-IsIndex [] is h = tt
  index_addresses-IsIndex (n ∷ ns) is (k, h) = elim (Option-cases (thread_string n 63)) [
    | inl missing ↦ rw (index_addresses, missing) (index_addresses-IsIndex ns is h)
    | inr (ext, found) ↦ rw (index_addresses, found) (k, index_addresses-IsIndex ns is h)
  ]

  -- Of nodes that differ in their ids, the topology is a simple graph: no id is there twice, no two nodes are
  -- linked twice in either direction, and both ends of each link are nodes of it; and each node of the
  -- store is one of it, under its id.
  pub build_topology-IsGraph :
      (nodes : List (MatterNodeData N))
      → HaveDistinctIds nodes
      → IsGraph (build_topology as_i64 nodes)
        × All (λ n. has (show n.node_id) (ids (build_topology as_i64 nodes).nodes) ≡ true) nodes
  unfolding build_topology
  build_topology-IsGraph nodes d =
      let start : NetworkTopology = record { nodes = []; connections = [] } in
      let filled =
        add_matter_nodes-IsFilled nodes start d (all_new nodes)
          (record { distinct = tt; simple = tt; anchored = tt }) in
      let t = add_matter_nodes as_i64 nodes start in
      let done =
        add_thread_links-Extends as_i64 (index_addresses nodes) nodes t filled.known
          (index_addresses-IsIndex nodes (ids t.nodes) filled.known) filled.extends.graph in
      (done.graph, AreNodes-widen (ids t.nodes) (ids _) done.within nodes filled.known)
    where
      all_new : (ns : List (MatterNodeData N)) → AreNew ns []
      all_new [] = tt
      all_new (n ∷ ns) = (refl, all_new ns)
