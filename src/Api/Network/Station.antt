-- ===== src/Api/Network/Station.antt =====
-- server/src/api/network.rs: one node of the store, and its access point, in the graph.
use mathlib.Core.Path.{subst}
use rs_matter_server.Prelude.{
  ℕ, ◌<◌, ◌≡◌, refl, sym, ◌∙◌, ap, Bool, true, false, ◌&&◌, ◌||◌, Option, none, some, List, [], ◌∷◌,
  ◌++◌, ◌==◌, ==_iff, nat_ord, text_ord, All, arith, Bool-cases, inl, inr, and_then,
}
use rs_matter_server.Prelude.Text.{Text, text, show}
use rs_matter_server.Prelude.Text.Numbers.{show-below, show-injective}
use rs_matter_server.Prelude.Text.Affix.{without}
use rs_matter_server.Prelude.Int.{ℤ}
use rs_matter_server.Protocol.Json.{Numbers}
use rs_matter_server.Protocol.Model.{MatterNodeData}
use rs_matter_server.Storage.Config.Registrations.{Base64}
use rs_matter_server.Api.Network.{NetworkTopologyNode, NetworkTopology, add_node, access_point}
use rs_matter_server.Api.Network.Nodes.{matter_node, wifi_attribute, format_bssid}
use rs_matter_server.Api.Network.Links.{wifi_link, add_station, add_matter_node}
use rs_matter_server.Prelude.Distinct.{has, IsDistinct, has-append, IsDistinct-push}
use rs_matter_server.Api.Network.Graph.{
  ids, ends, joined, IsAnchored, IsGraph, IsWithin, with_id, IsWithin-append, Extends,
  Extends-trans, Extends-link, ids-add_node, IsDistinct-with_id, IsWithin-with_id, has-with_id,
  ends-append, ids-append, has-push, IsAnchored-widen,
}

absent_is_other :
    (p a : Text) (is : List Text) → has p is ≡ true → has a is ≡ false → (p == a) ≡ false
absent_is_other p a is hp ha = elim (Bool-cases (p == a)) [
  | inl same ↦ absurd (true≢false (sym hp ∙ (ap (λ x. has x is) ((==_iff p a).0 same) ∙ ha)))
  | inr other ↦ other
]
  where
    true≢false : true ≡ false → ⊥
    true≢false h = cc

-- A node that is not of the graph is joined to nothing.
unanchored :
    (a b : Text) (is : List Text) (ps : List (Text × Text))
    → has a is ≡ false
    → IsAnchored is ps
    → joined a b ps ≡ false
unanchored a b is [] h k = refl
unanchored a b is (p ∷ ps) h ((k, l), m) =
    rw (absent_is_other p.0 a is k h, absent_is_other p.1 a is l h, unanchored a b is ps h m)
      (neither (p.0 == b))
  where
    neither : (x : Bool) → ((false || (x && false)) || false) ≡ false
    neither true = refl
    neither false = refl

show-other : (a b : ℕ) → (a == b) ≡ false → (show a == show b) ≡ false
show-other a b h = elim (Bool-cases (show a == show b)) [
  | inl same ↦ ground (arith, show-injective a b ((==_iff (show a) (show b)).0 same))
  | inr other ↦ other
]

show_other_access_point : (x : Text) (n : ℕ) → (text "ap_" ++ x == show n) ≡ false
show_other_access_point x n = elim (Bool-cases (text "ap_" ++ x == show n)) [
  | inl same ↦
      let e : All (λ c. c < 58) (text "ap_" ++ x) =
        subst (All (λ c. c < 58)) (sym ((==_iff (text "ap_" ++ x) (show n)).0 same))
          (show-below 58 n (omega arith)) in
      absurd (omega (arith, e.0))
  | inr other ↦ other
]

has-push_other :
    (x i : Text) (is : List Text)
    → (i == x) ≡ false
    → has x is ≡ false
    → has x (is ++ (i ∷ [])) ≡ false
has-push_other x i is o h = rw (has-append x is (i ∷ []), h, o) refl

has-with_id_other :
    (x i : Text) (is : List Text)
    → (i == x) ≡ false
    → has x is ≡ false
    → has x (with_id i is) ≡ false
has-with_id_other x i is o h = elim (Bool-cases (has i is)) [
  | inl known ↦ rw known h
  | inr new ↦ rw new (has-push_other x i is o h)
]

push_node-Extends :
    (n : NetworkTopologyNode) (t : NetworkTopology)
    → has n.id (ids t.nodes) ≡ false
    → IsGraph t
    → Extends t (record t { nodes = t.nodes ++ (n ∷ []) })
push_node-Extends n t h g = record {
  graph = record {
    distinct = rw (ids-append t.nodes (n ∷ [])) (IsDistinct-push n.id (ids t.nodes) h g.distinct);
    simple = g.simple;
    anchored =
        IsAnchored-widen (ids t.nodes) (ids (t.nodes ++ (n ∷ []))) within (ends t.connections)
          g.anchored;
  };
  within = within;
}
  where
    within : IsWithin (ids t.nodes) (ids (t.nodes ++ (n ∷ [])))
    within = rw (ids-append t.nodes (n ∷ [])) (IsWithin-append (ids t.nodes) (n.id ∷ []))

module _ {N : Type 0} ⦃num : Numbers N⦄ ⦃base64 : Base64⦄ (as_i64 : N → Option ℤ) where
  -- A node is added to a graph that lacks it: it is of the graph, and no other node of the store is
  -- unless it was.
  pub record IsAdded (node : MatterNodeData N) (before after : NetworkTopology) : Type 0 where
    pub extends : Extends before after
    pub known : has (show node.node_id) (ids after.nodes) ≡ true
    pub others :
        (m : ℕ)
        → (node.node_id == m) ≡ false
        → has (show m) (ids before.nodes) ≡ false
        → has (show m) (ids after.nodes) ≡ false

  add_station-IsAdded :
      (node : MatterNodeData N) (bssid : Option Text) (t : NetworkTopology)
      → has (show node.node_id) (ids t.nodes) ≡ false
      → IsGraph t
      → IsAdded node t (
          add_station as_i64 node bssid
            (record t { nodes = t.nodes ++ (matter_node node bssid ∷ []) }))
  unfolding add_station matter_node wifi_link
  add_station-IsAdded node none t h g = record {
    extends = push_node-Extends (matter_node node none) t h g;
    known =
        rw (ids-append t.nodes (matter_node node none ∷ []))
          (has-push (show node.node_id) (ids t.nodes));
    others = λ m o k.
        rw (ids-append t.nodes (matter_node node none ∷ [])) (
          has-push_other (show m) (show node.node_id) (ids t.nodes) (show-other node.node_id m o)
            k);
  }
  add_station-IsAdded node (some b) t h g =
      let n = matter_node node (some b) in
      let pushed = t.nodes ++ (n ∷ []) in
      let first = push_node-Extends n t h g in
      let point = access_point b in
      let known : has (show node.node_id) (ids pushed) ≡ true =
        rw (ids-append t.nodes (n ∷ [])) (has-push (show node.node_id) (ids t.nodes)) in
      let distinct : IsDistinct (ids (add_node point pushed)) =
        rw (ids-add_node point pushed)
          (IsDistinct-with_id point.id (ids pushed) first.graph.distinct) in
      let within : IsWithin (ids pushed) (ids (add_node point pushed)) =
        rw (ids-add_node point pushed) (IsWithin-with_id point.id (ids pushed)) in
      let there : has point.id (ids (add_node point pushed)) ≡ true =
        rw (ids-add_node point pushed) (has-with_id point.id (ids pushed)) in
      record {
        extends = Extends-trans first (
            Extends-link (record t { nodes = pushed }) (add_node point pushed) _ (show node.node_id)
              point.id first.graph distinct within (within (show node.node_id) known) there
              (rw
                (unanchored (show node.node_id) point.id (ids t.nodes) (ends t.connections) h
                  g.anchored)
                (ends-append t.connections (wifi_link as_i64 node b ∷ []))));
        known = within (show node.node_id) known;
        others = λ m o k.
            rw (ids-add_node point pushed, ids-append t.nodes (n ∷ []))
              (has-with_id_other (show m) point.id (ids t.nodes ++ (n.id ∷ []))
                (show_other_access_point (without b':' b) m)
                (has-push_other (show m) (show node.node_id) (ids t.nodes)
                  (show-other node.node_id m o) k));
      }

  pub add_matter_node-IsAdded :
      (node : MatterNodeData N) (t : NetworkTopology)
      → has (show node.node_id) (ids t.nodes) ≡ false
      → IsGraph t
      → IsAdded node t (add_matter_node as_i64 node t)
  unfolding add_matter_node
  add_matter_node-IsAdded node t h g =
      add_station-IsAdded node (and_then (wifi_attribute node 0) format_bssid) t h g
