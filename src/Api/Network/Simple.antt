-- ===== src/Api/Network/Simple.antt =====
-- server/src/api/network.rs: the network graph is a simple graph.
use rs_matter_server.Prelude.{
  ℕ, ◌≡◌, refl, Bool, true, Option, none, some, List, [], ◌∷◌, nat_ord, text_ord, any, ◌^◌, find,
  All, arith, Bool-cases, inl, inr, Option-cases,
}
use rs_matter_server.Prelude.Text.{Text, text, show, eq_ignore_ascii_case}
use rs_matter_server.Prelude.Int.{ℤ}
use rs_matter_server.Protocol.Json
use rs_matter_server.Protocol.Json.{Numbers, Value}
use rs_matter_server.Protocol.Model.{MatterNodeData}
use rs_matter_server.Storage.Config.Registrations.{Base64}
use rs_matter_server.Api.Network.{
  NetworkTopologyConnection, NetworkTopologyNode, NetworkTopology, links_same_pair, add_node, low,
}
use rs_matter_server.Api.Network.Nodes.{resolve_target, number_of}
use rs_matter_server.Api.Network.Links.{
  add_neighbour, add_neighbours, add_route, add_routes, add_thread_links, table, route_link,
  address_in,
}
use rs_matter_server.Prelude.Distinct.{has, IsDistinct}
use rs_matter_server.Api.Network.Graph.{
  ids, ends, joined, IsGraph, IsWithin, Extends, Extends-trans, Extends-refl, Extends-link,
  ids-add_node, IsDistinct-with_id, IsWithin-with_id, has-with_id, merge_connection-ends,
  ends-append,
}

-- Each address of the index belongs to a node.
abbrev pub IsIndex : List (Text × Text) → List Text → Type 0
IsIndex by_ext is = All (λ e. has e.1 is ≡ true) by_ext

IsIndex-widen :
    (is more : List Text)
    → IsWithin is more
    → (by_ext : List (Text × Text)) → IsIndex by_ext is
    → IsIndex by_ext more
IsIndex-widen is more w [] h = tt
IsIndex-widen is more w (e ∷ es) (a, h) = (w e.1 a, IsIndex-widen is more w es h)

find-IsIndex :
    (p : Text × Text → Bool) (is : List Text) (by_ext : List (Text × Text)) (e : Text × Text)
    → IsIndex by_ext is
    → find p by_ext ≡ some e
    → has e.1 is ≡ true
find-IsIndex p is [] e h f = cc
find-IsIndex p is (x ∷ xs) e (a, h) f = elim (Bool-cases (p x)) [
  | inl here ↦ ground (arith, here)
  | inr later ↦ find-IsIndex p is xs e h (ground (arith, later))
]

-- The nodes that a resolved address leaves, with its target among them.
record IsResolved (before after : List NetworkTopologyNode) (target : Text) : Type 0 where
  distinct : IsDistinct (ids after)
  within : IsWithin (ids before) (ids after)
  target_known : has target (ids after) ≡ true

links_before :
    (a b : Text) (cs : List NetworkTopologyConnection)
    → any (λ c. links_same_pair c a b) cs ≡ joined a b (ends cs)
unfolding links_same_pair
links_before a b [] = refl
links_before a b (c ∷ cs) = rw (links_before a b cs) refl

add_node-IsResolved :
    (n : NetworkTopologyNode) (nodes : List NetworkTopologyNode)
    → IsDistinct (ids nodes)
    → IsResolved nodes (add_node n nodes) n.id
add_node-IsResolved n nodes d = record {
  distinct = rw (ids-add_node n nodes) (IsDistinct-with_id n.id (ids nodes) d);
  within = rw (ids-add_node n nodes) (IsWithin-with_id n.id (ids nodes));
  target_known = rw (ids-add_node n nodes) (has-with_id n.id (ids nodes));
}

module _ {N : Type 0} ⦃num : Numbers N⦄ where
  resolve_target-IsResolved :
      (ext : Text) (by_ext : List (Text × Text)) (nodes : List NetworkTopologyNode)
      (rloc16 : Option ℕ) (observer : MatterNodeData N)
      → IsIndex by_ext (ids nodes)
      → IsDistinct (ids nodes)
      → IsResolved nodes
          (resolve_target ext by_ext nodes rloc16 observer).1
          (resolve_target ext by_ext nodes rloc16 observer).0
  unfolding resolve_target
  resolve_target-IsResolved ext by_ext nodes rloc16 observer h d =
      elim (Option-cases (find (λ e. eq_ignore_ascii_case e.0 ext) by_ext)) [
        | inl missing ↦ rw (resolve_target, missing) (add_node-IsResolved _ nodes d)
        | inr (e, found) ↦
            rw (resolve_target, found)
              (record {
                distinct = d;
                within = λ id k. k;
                target_known =
                    find-IsIndex (λ e. eq_ignore_ascii_case e.0 ext) (ids nodes) by_ext e h found;
              })
      ]

module _ {N : Type 0} ⦃num : Numbers N⦄ ⦃base64 : Base64⦄ (as_i64 : N → Option ℤ)
    (by_ext : List (Text × Text)) (node : MatterNodeData N) where
  -- The node is one of the graph, and the index speaks of nodes of the graph.
  abbrev IsKnown : NetworkTopology → Type 0
  IsKnown t = IsIndex by_ext (ids t.nodes) × (has (show node.node_id) (ids t.nodes) ≡ true)

  IsKnown-widen :
      (t more : NetworkTopology)
      → IsWithin (ids t.nodes) (ids more.nodes)
      → IsKnown t
      → IsKnown more
  IsKnown-widen t more w (i, k) =
      (IsIndex-widen (ids t.nodes) (ids more.nodes) w by_ext i, w (show node.node_id) k)

  add_neighbour-Extends :
      (v : Value N) (t : NetworkTopology)
      → IsKnown t
      → IsGraph t
      → Extends t (add_neighbour as_i64 by_ext node v t)
  unfolding add_neighbour
  add_neighbour-Extends v t (i, k) g = elim (Option-cases (address_in as_i64 v)) [
    | inl missing ↦ rw (add_neighbour, missing) (Extends-refl t g)
    | inr (ext, found) ↦
        rw (add_neighbour, found)
          (let rloc = low (2 ^ 16) (number_of (Json.get (text "2") v)) in
            let r = resolve_target-IsResolved ext by_ext t.nodes rloc node i g.distinct in
            Extends-link t _ _ (show node.node_id) (resolve_target ext by_ext t.nodes rloc node).0 g
              r.distinct r.within (r.within (show node.node_id) k) r.target_known
              (merge_connection-ends t.connections _))
  ]

  add_neighbours-Extends :
      (vs : List (Value N)) (t : NetworkTopology)
      → IsKnown t
      → IsGraph t
      → Extends t (add_neighbours as_i64 by_ext node vs t)
  unfolding add_neighbours
  add_neighbours-Extends [] t k g = Extends-refl t g
  add_neighbours-Extends (v ∷ vs) t k g =
      let first = add_neighbour-Extends v t k g in
      Extends-trans first (
        add_neighbours-Extends vs (add_neighbour as_i64 by_ext node v t)
          (IsKnown-widen t (add_neighbour as_i64 by_ext node v t) first.within k) first.graph)

  add_route-Extends :
      (v : Value N) (t : NetworkTopology)
      → IsKnown t
      → IsGraph t
      → Extends t (add_route as_i64 by_ext node v t)
  unfolding add_route
  add_route-Extends v t (i, k) g = elim (Option-cases (address_in as_i64 v)) [
    | inl missing ↦ rw (add_route, missing) (Extends-refl t g)
    | inr (ext, found) ↦
        rw (add_route, found)
          (let found = resolve_target ext by_ext t.nodes none node in
            let r = resolve_target-IsResolved ext by_ext t.nodes none node i g.distinct in
            elim (Bool-cases
              (any (λ c. links_same_pair c (show node.node_id) found.0) t.connections)) [
                | inl known ↦ rw known (
                    Extends-link t found.1 t.connections (show node.node_id) found.0 g r.distinct
                      r.within (r.within (show node.node_id) k) r.target_known
                      (rw (← links_before (show node.node_id) found.0 t.connections, known) refl))
                | inr new ↦ rw new (
                    Extends-link t found.1 _ (show node.node_id) found.0 g r.distinct r.within
                      (r.within (show node.node_id) k) r.target_known
                      (rw (← links_before (show node.node_id) found.0 t.connections, new)
                        (ends-append t.connections (route_link as_i64 node v found.0 ∷ []))))
              ])
  ]

  add_routes-Extends :
      (vs : List (Value N)) (t : NetworkTopology)
      → IsKnown t
      → IsGraph t
      → Extends t (add_routes as_i64 by_ext node vs t)
  unfolding add_routes
  add_routes-Extends [] t k g = Extends-refl t g
  add_routes-Extends (v ∷ vs) t k g =
      let first = add_route-Extends v t k g in
      Extends-trans first (
        add_routes-Extends vs (add_route as_i64 by_ext node v t)
          (IsKnown-widen t (add_route as_i64 by_ext node v t) first.within k) first.graph)

module _ {N : Type 0} where
  abbrev pub AreNodes : List (MatterNodeData N) → List Text → Type 0
  AreNodes nodes is = All (λ n. has (show n.node_id) is ≡ true) nodes

  pub AreNodes-widen :
      (is more : List Text)
      → IsWithin is more
      → (nodes : List (MatterNodeData N)) → AreNodes nodes is
      → AreNodes nodes more
  AreNodes-widen is more w [] h = tt
  AreNodes-widen is more w (n ∷ ns) (a, h) = (w (show n.node_id) a, AreNodes-widen is more w ns h)

module _ {N : Type 0} ⦃num : Numbers N⦄ ⦃base64 : Base64⦄ (as_i64 : N → Option ℤ)
    (by_ext : List (Text × Text)) where
  pub add_thread_links-Extends :
      (nodes : List (MatterNodeData N)) (t : NetworkTopology)
      → AreNodes nodes (ids t.nodes)
      → IsIndex by_ext (ids t.nodes)
      → IsGraph t
      → Extends t (add_thread_links as_i64 by_ext nodes t)
  unfolding add_thread_links
  add_thread_links-Extends [] t a i g = Extends-refl t g
  add_thread_links-Extends (n ∷ ns) t (k, a) i g =
      let near = add_neighbours as_i64 by_ext n (table as_i64 n 7) t in
      let far = add_routes as_i64 by_ext n (table as_i64 n 8) near in
      let first = add_neighbours-Extends as_i64 by_ext n (table as_i64 n 7) t (i, k) g in
      let second =
        add_routes-Extends as_i64 by_ext n (table as_i64 n 8) near
          (IsKnown-widen as_i64 by_ext n t near first.within (i, k)) first.graph in
      let both = Extends-trans first second in
      Extends-trans both (
        add_thread_links-Extends ns far
          (AreNodes-widen (ids t.nodes) (ids far.nodes) both.within ns a)
          (IsIndex-widen (ids t.nodes) (ids far.nodes) both.within by_ext i) both.graph)
