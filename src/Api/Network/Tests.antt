-- ===== src/Api/Network/Tests.antt =====
-- A home of three: two Thread nodes that hear each other, and a Wi-Fi station.
use rs_matter_server.Prelude.{
  text_cmp, ℕ, ◌≡◌, refl, Bool, true, false, Option, none, some, List, [], ◌∷◌, ◌++◌, nat_ord,
  text_ord, All, length, ◌==◌,
}
use rs_matter_server.Prelude.Text.{Text, text, show}
use rs_matter_server.Prelude.Int.{pos}
use rs_matter_server.Protocol.Json
use rs_matter_server.Protocol.Json.{Numbers, Value, Items, Fields, nat_numbers}
use rs_matter_server.Protocol.Model.{MatterNodeData, AttributesData}
use rs_matter_server.Storage.Config.Registrations.{Base64}
use rs_matter_server.Api.Network.{NetworkTopology}
use rs_matter_server.Api.Network.Links.{build_topology}
use rs_matter_server.Prelude.Distinct.{has}
use rs_matter_server.Api.Network.Graph.{IsGraph, ids}
use rs_matter_server.Api.Network.Build.{HaveDistinctIds, build_topology-IsGraph}
use rs_matter_server.Prelude.Map.{get}

instance numbers : Numbers ℕ
unfolding nat_numbers
numbers = nat_numbers

-- Stands for base64 here: a text is its own encoding.
instance codec : Base64
codec = record { encode = λ bytes. bytes; decode = λ t. some t; decode-encode = λ bytes. refl }

abbrev node_with : ℕ → AttributesData ℕ → MatterNodeData ℕ
node_with id attributes = record {
  node_id = id;
  date_commissioned = [];
  last_interview = [];
  interview_version = 1;
  available = true;
  is_bridge = false;
  attributes = attributes;
  attribute_subscriptions = [];
  matter_version = none;
}

-- A neighbour at an address, heard with full quality.
abbrev neighbour : Text → Value ℕ
neighbour address = Value.array (
    Items.cons
      (Value.object (
        Fields.field (text "0") (Value.string address)
          (Fields.field (text "5") (Value.number 3) Fields.end)))
      Items.nil)

abbrev home : List (MatterNodeData ℕ)
home =
    node_with 1 ((text "0/53/63", Value.string (1 ∷ [])) ∷ (text "0/53/7", neighbour (2 ∷ [])) ∷ [])
    ∷ node_with 2
        ((text "0/53/63", Value.string (2 ∷ [])) ∷ (text "0/53/7", neighbour (1 ∷ [])) ∷ [])
    ∷ node_with 3 ((text "0/54/0", Value.string (1 ∷ 2 ∷ 3 ∷ 4 ∷ 5 ∷ 6 ∷ [])) ∷ [])
    ∷ []

abbrev topology : NetworkTopology
topology = build_topology (λ n. some (pos n)) home

one_link_of_two : length topology.connections ≡ 2
unfolding build_topology get text_cmp show rs_matter_server.Protocol.Json.get codec
    rs_matter_server.Prelude.Text.eq_ignore_ascii_case
    rs_matter_server.Prelude.Text.Hex.to_hex_upper
one_link_of_two = refl

home-HaveDistinctIds : HaveDistinctIds home
home-HaveDistinctIds = ((refl, (refl, tt)), ((refl, tt), (tt, tt)))

build_topology-IsGraph_example :
    IsGraph topology × All (λ n. has (show n.node_id) (ids topology.nodes) ≡ true) home
build_topology-IsGraph_example =
    build_topology-IsGraph (λ n. some (pos n)) home home-HaveDistinctIds
