-- ===== src/Api/Network/Graph.antt =====
-- server/src/api/network.rs: a graph by the ids of its nodes and the ends of its links, and that adding
-- to it keeps it simple.
use rs_matter_server.Prelude.{
  ◌≡◌, refl, Bool, true, false, ◌&&◌, ◌||◌, List, [], ◌∷◌, ◌++◌, ◌==◌, ==-refl, nat_ord, text_ord,
  any, if◌then◌else◌, map, All, All-append, Bool-cases, inl, inr,
}
use rs_matter_server.Prelude.Text.{Text}
use rs_matter_server.Prelude.Distinct.{has, IsDistinct, has-append, ==_comm, IsDistinct-push}
use rs_matter_server.Api.Network.{
  NetworkTopologyConnection, NetworkTopologyNode, NetworkTopology, links_same_pair, fold_in,
  merge_connection, add_node,
}

abbrev pub ids : List NetworkTopologyNode → List Text
ids nodes = map (λ n. n.id) nodes

abbrev pub ends : List NetworkTopologyConnection → List (Text × Text)
ends connections = map (λ c. (c.source, c.target)) connections

-- Whether a link with these ends joins the two, in either direction.
abbrev pub joins : Text → Text → Text × Text → Bool
joins a b p = (p.0 == a && p.1 == b) || (p.0 == b && p.1 == a)

abbrev pub joined : Text → Text → List (Text × Text) → Bool
joined a b ps = any (joins a b) ps

-- No two nodes are joined twice.
abbrev pub IsSimple : List (Text × Text) → Type 0
IsSimple [] = Unit {0}
IsSimple (p ∷ ps) = (joined p.0 p.1 ps ≡ false) × IsSimple ps

-- Both ends of each link are nodes.
abbrev pub IsAnchored : List Text → List (Text × Text) → Type 0
IsAnchored is ps = All (λ p. (has p.0 is ≡ true) × (has p.1 is ≡ true)) ps

pub record IsGraph (t : NetworkTopology) : Type 0 where
  pub distinct : IsDistinct (ids t.nodes)
  pub simple : IsSimple (ends t.connections)
  pub anchored : IsAnchored (ids t.nodes) (ends t.connections)

pub joined-append :
    (a b : Text) (ps more : List (Text × Text))
    → joined a b (ps ++ more) ≡ (joined a b ps || joined a b more)
joined-append a b [] more = refl
joined-append a b (p ∷ ps) more =
    rw (joined-append a b ps more) (assoc (joins a b p) (joined a b ps) (joined a b more))
  where
    assoc : (a b c : Bool) → (a || (b || c)) ≡ ((a || b) || c)
    assoc true b c = refl
    assoc false b c = refl

joins_comm : (a b : Text) (p : Text × Text) → joins a b p ≡ joins p.0 p.1 (a, b)
joins_comm a b p =
    rw (==_comm p.0 a, ==_comm p.1 b, ==_comm p.0 b, ==_comm p.1 a)
      (swap (a == p.0) (b == p.1) (b == p.0) (a == p.1))
  where
    swap : (x y z w : Bool) → ((x && y) || (z && w)) ≡ ((x && y) || (w && z))
    swap x y true true = refl
    swap x y true false = refl
    swap x y false true = refl
    swap x y false false = refl

pub IsSimple-push :
    (a b : Text) (ps : List (Text × Text))
    → joined a b ps ≡ false
    → IsSimple ps
    → IsSimple (ps ++ ((a, b) ∷ []))
IsSimple-push a b [] h s = (refl, tt)
IsSimple-push a b (p ∷ ps) h (n, s) = (
  rw (joined-append p.0 p.1 ps ((a, b) ∷ []), n, ← joins_comm a b p)
      (left (joins a b p) (joined a b ps) h),
  IsSimple-push a b ps (right (joins a b p) (joined a b ps) h) s,
)
  where
    left : (x y : Bool) → (x || y) ≡ false → (x || false) ≡ false
    left false y h = refl
    left true y h = cc

    right : (x y : Bool) → (x || y) ≡ false → y ≡ false
    right false y h = h
    right true y h = cc

-- Every id of the first is one of the second.
abbrev pub IsWithin : List Text → List Text → Type 0
IsWithin is more = (id : Text) → has id is ≡ true → has id more ≡ true

pub IsWithin-append : (is more : List Text) → IsWithin is (is ++ more)
IsWithin-append is more id h = rw (has-append id is more, h) refl

pub IsAnchored-widen :
    (is more : List Text)
    → IsWithin is more
    → (ps : List (Text × Text)) → IsAnchored is ps
    → IsAnchored more ps
IsAnchored-widen is more w [] h = tt
IsAnchored-widen is more w (p ∷ ps) ((a, b), h) =
    ((w p.0 a, w p.1 b), IsAnchored-widen is more w ps h)

pub has-ids :
    (id : Text) (nodes : List NetworkTopologyNode)
    → any (λ e. e.id == id) nodes ≡ has id (ids nodes)
has-ids id [] = refl
has-ids id (n ∷ nodes) = rw (has-ids id nodes) refl

pub ids-append :
    (nodes more : List NetworkTopologyNode) → ids (nodes ++ more) ≡ (ids nodes ++ ids more)
ids-append [] more = refl
ids-append (n ∷ nodes) more = rw (ids-append nodes more) refl

pub ends-append :
    (cs more : List NetworkTopologyConnection) → ends (cs ++ more) ≡ (ends cs ++ ends more)
ends-append [] more = refl
ends-append (c ∷ cs) more = rw (ends-append cs more) refl

-- The ids, with one more where it is new.
abbrev pub with_id : Text → List Text → List Text
with_id i is = if has i is then is else is ++ (i ∷ [])

-- The links, with one more where the two are not joined.
abbrev pub with_link : Text → Text → List (Text × Text) → List (Text × Text)
with_link a b ps = if joined a b ps then ps else ps ++ ((a, b) ∷ [])

pub ids-add_node :
    (n : NetworkTopologyNode) (nodes : List NetworkTopologyNode)
    → ids (add_node n nodes) ≡ with_id n.id (ids nodes)
unfolding add_node
ids-add_node n nodes = elim (Bool-cases (has n.id (ids nodes))) [
  | inl h ↦ rw (has-ids n.id nodes, h) refl
  | inr h ↦ rw (has-ids n.id nodes, h) (ids-append nodes (n ∷ []))
]

pub IsDistinct-with_id : (i : Text) (is : List Text) → IsDistinct is → IsDistinct (with_id i is)
IsDistinct-with_id i is d = elim (Bool-cases (has i is)) [
  | inl h ↦ rw h d
  | inr h ↦ rw h (IsDistinct-push i is h d)
]

pub IsWithin-with_id : (i : Text) (is : List Text) → IsWithin is (with_id i is)
IsWithin-with_id i is id k = elim (Bool-cases (has i is)) [
  | inl h ↦ rw h k
  | inr h ↦ rw h (IsWithin-append is (i ∷ []) id k)
]

pub has-push : (i : Text) (is : List Text) → has i (is ++ (i ∷ [])) ≡ true
has-push i [] = rw (==-refl i) refl
has-push i (j ∷ is) = rw (has-push i is) (either (j == i))
  where
    either : (b : Bool) → (b || true) ≡ true
    either true = refl
    either false = refl

pub has-with_id : (i : Text) (is : List Text) → has i (with_id i is) ≡ true
has-with_id i is = elim (Bool-cases (has i is)) [
  | inl h ↦ rw (h, h) refl
  | inr h ↦ rw h (has-push i is)
]

pub IsSimple-with_link :
    (a b : Text) (ps : List (Text × Text)) → IsSimple ps → IsSimple (with_link a b ps)
IsSimple-with_link a b ps s = elim (Bool-cases (joined a b ps)) [
  | inl h ↦ rw h s
  | inr h ↦ rw h (IsSimple-push a b ps h s)
]

pub IsAnchored-with_link :
    (is : List Text) (a b : Text) (ps : List (Text × Text))
    → has a is ≡ true
    → has b is ≡ true
    → IsAnchored is ps
    → IsAnchored is (with_link a b ps)
IsAnchored-with_link is a b ps ha hb s = elim (Bool-cases (joined a b ps)) [
  | inl h ↦ rw h s
  | inr h ↦ rw h (
      All-append (λ p. (has p.0 is ≡ true) × (has p.1 is ≡ true)) ps ((a, b) ∷ []) s ((ha, hb), tt))
]

fold_in-ends :
    (c e : NetworkTopologyConnection)
    → ((fold_in c e).source ≡ e.source) × ((fold_in c e).target ≡ e.target)
unfolding fold_in
fold_in-ends c e = elim (Bool-cases (e.source == c.source)) [
  | inl h ↦ (rw h refl, rw h refl)
  | inr h ↦ (rw h refl, rw h refl)
]

pub merge_connection-ends :
    (cs : List NetworkTopologyConnection) (c : NetworkTopologyConnection)
    → ends (merge_connection cs c) ≡ with_link c.source c.target (ends cs)
unfolding merge_connection links_same_pair
merge_connection-ends [] c = refl
merge_connection-ends (e ∷ cs) c =
    elim (Bool-cases (joins c.source c.target (e.source, e.target))) [
      | inl h ↦ rw (h, (fold_in-ends c e).0, (fold_in-ends c e).1) refl
      | inr h ↦ rw (h, merge_connection-ends cs c) (later (joined c.source c.target (ends cs)))
    ]
  where
    later :
        (b : Bool)
        → ((e.source, e.target) ∷ (if b then ends cs else ends cs ++ ((c.source, c.target) ∷ [])))
          ≡ (if b
              then (e.source, e.target) ∷ ends cs
              else (e.source, e.target) ∷ (ends cs ++ ((c.source, c.target) ∷ [])))
    later true = refl
    later false = refl

-- A graph of which nothing is taken away.
pub record Extends (t more : NetworkTopology) : Type 0 where
  pub graph : IsGraph more
  pub within : IsWithin (ids t.nodes) (ids more.nodes)

pub Extends-trans : {a b c : NetworkTopology} → Extends a b → Extends b c → Extends a c
Extends-trans e f = record { graph = f.graph; within = λ id h. f.within id (e.within id h) }

pub Extends-refl : (t : NetworkTopology) → IsGraph t → Extends t t
Extends-refl t g = record { graph = g; within = λ id h. h }

-- A link is added between nodes, unless the two are joined.
pub Extends-link :
    (t : NetworkTopology) (nodes : List NetworkTopologyNode)
    (connections : List NetworkTopologyConnection) (a b : Text)
    → IsGraph t
    → IsDistinct (ids nodes)
    → IsWithin (ids t.nodes) (ids nodes)
    → has a (ids nodes) ≡ true
    → has b (ids nodes) ≡ true
    → ends connections ≡ with_link a b (ends t.connections)
    → Extends t (record { nodes = nodes; connections = connections })
Extends-link t nodes connections a b g d w ha hb e = record {
  graph = record {
    distinct = d;
    simple = rw e (IsSimple-with_link a b (ends t.connections) g.simple);
    anchored = rw e (
        IsAnchored-with_link (ids nodes) a b (ends t.connections) ha hb
          (IsAnchored-widen (ids t.nodes) (ids nodes) w (ends t.connections) g.anchored));
  };
  within = w;
}
