-- ===== src/Storage/Nodes/Tests.antt =====
-- The store's theorems at one store: a lamp, and a test node.
use rs_matter_server.Prelude.{
  ℕ, ◌≡◌, refl, true, false, none, some, List, [], ◌∷◌, nat_ord, text_ord, is_some, if◌then◌else◌,
}
use rs_matter_server.Prelude.Text.{Text, text}
use rs_matter_server.Prelude.Map.{get, IsSorted}
use rs_matter_server.Protocol.Json.{Numbers, Value, nat_numbers}
use rs_matter_server.Protocol.Model.{AttributesData}
use rs_matter_server.Storage.Nodes.{
  StoredNode, Nodes, partial, InterviewDiff, is_value, merge_attributes,
}
use rs_matter_server.Storage.Nodes.Diffs.{merge_partial}
use rs_matter_server.Storage.Nodes.Invariant.{Op, add, reach, locate, interview, merge}

instance numbers : Numbers ℕ
unfolding nat_numbers
numbers = nat_numbers

abbrev on_off : Text
on_off = text "1/6/0"

abbrev level : Text
level = text "2/8/0"

abbrev held : AttributesData ℕ
held = (on_off, Value.bool false) ∷ (level, Value.number 3) ∷ []

abbrev lamp : StoredNode ℕ
lamp = record {
  node = record {
    node_id = 5;
    date_commissioned = text "2026-01-01";
    last_interview = text "2026-01-02";
    interview_version = 1;
    available = true;
    is_bridge = false;
    attributes = held;
    attribute_subscriptions = [];
    matter_version = none;
  };
  ip_addresses = [];
  device_fabric_index = none;
}

abbrev nodes : Nodes ℕ
nodes = (5, lamp) ∷ []

-- The light was turned on.
abbrev report : AttributesData ℕ
report = (on_off, Value.bool true) ∷ []

found : get 5 nodes ≡ some lamp
unfolding get
found = refl

report-IsSorted : IsSorted report
report-IsSorted = (tt, tt)

merge_partial_example :
    (d : InterviewDiff ℕ) × ((merge_attributes nodes 5 report partial).1 ≡ some d)
    × (get on_off d.node.attributes
        ≡ elim (get on_off report) [ none ↦ get on_off lamp.node.attributes | some v ↦ some v ])
    × (get on_off d.changed_attributes ≡ elim (get on_off report) [
      | none ↦ none
      | some v ↦ if is_value (get on_off lamp.node.attributes) v then none else some v
    ])
    × (d.removed_attributes ≡ [])
    × (d.endpoints_removed ≡ [])
    × (get 5 (merge_attributes nodes 5 report partial).0 ≡ some (record lamp { node = d.node }))
    × (d.node.interview_version ≡ lamp.node.interview_version)
    × (d.node.last_interview ≡ lamp.node.last_interview)
merge_partial_example = merge_partial nodes 5 lamp report on_off 1 found report-IsSorted

abbrev ops : List (Op ℕ)
ops =
    add lamp
    ∷ locate 5 (on_off ∷ [])
    ∷ merge 5 report partial
    ∷ reach 5 false
    ∷ interview 5 held on_off
    ∷ []

nodes-IsSorted : IsSorted nodes
nodes-IsSorted = (tt, tt)

in_store : is_some (get 5 nodes) ≡ true
unfolding get
in_store = refl
