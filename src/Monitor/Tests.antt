-- ===== src/Monitor/Tests.antt =====
-- The monitor at one lamp.
use rs_matter_server.Prelude.{
  ℕ, ◌≡◌, refl, true, false, none, some, [], ◌∷◌, nat_ord, text_ord, text_cmp,
}
use rs_matter_server.Prelude.Text.{
  Text, text, split, parse_uint, strip_plus, parse_digits, to_digit,
}
use rs_matter_server.Prelude.Map.{get}
use rs_matter_server.Protocol.Json.{Numbers, Value, nat_numbers, value_eq}
use rs_matter_server.Protocol.Model.{
  MatterNodeData, AttributesData, endpoints, endpoint_of, insert_sorted,
}
use rs_matter_server.Storage.Nodes.{StoredNode, partial, complete, is_value, changed, difference}
use rs_matter_server.Monitor.{State, publish_changes}
use rs_matter_server.Monitor.Publishing.{
  IsAnnounced, IsSilent, publish_changes_announces, removal-IsSilent,
}

instance numbers : Numbers ℕ
unfolding nat_numbers
numbers = nat_numbers

abbrev on_off : Text
on_off = text "1/6/0"

abbrev level : Text
level = text "1/8/0"

abbrev held : AttributesData ℕ
held = (on_off, Value.bool false) ∷ (level, Value.number 3) ∷ []

abbrev lamp : StoredNode ℕ
lamp = record {
  node = record {
    node_id = 5;
    date_commissioned = on_off;
    last_interview = on_off;
    interview_version = 1;
    available = true;
    is_bridge = false;
    attributes = held;
    attribute_subscriptions = [];
    matter_version = none;
  };
  ip_addresses = [];
  device_fabric_index = none;
}

abbrev state : State ℕ
state = record { nodes = (5, lamp) ∷ []; subscriptions = []; events = []; saves = [] }

-- What is made of a node on the wire.
abbrev wire : MatterNodeData ℕ → Value ℕ
wire node = Value.number node.node_id

abbrev report : AttributesData ℕ
report = (on_off, Value.bool true) ∷ []

-- A read in which the level is missing.
abbrev shorter : AttributesData ℕ
shorter = (on_off, Value.bool false) ∷ []

found : get 5 state.nodes ≡ some lamp
unfolding get
found = refl

turned_on : get on_off report ≡ some (Value.bool true)
unfolding get text_cmp
turned_on = refl

is_new : is_value (get on_off lamp.node.attributes) (Value.bool true) ≡ false
unfolding get is_value value_eq text_cmp
is_new = refl

unchanged : changed lamp.node.attributes shorter ≡ []
unfolding changed is_value value_eq get text_cmp
unchanged = refl

none_added : difference (endpoints shorter) (endpoints lamp.node.attributes) ≡ []
unfolding difference endpoints endpoint_of split parse_uint strip_plus parse_digits to_digit
    insert_sorted
none_added = refl

none_gone : difference (endpoints lamp.node.attributes) (endpoints shorter) ≡ []
unfolding difference endpoints endpoint_of split parse_uint strip_plus parse_digits to_digit
    insert_sorted
none_gone = refl

publish_changes_announces_example :
    IsAnnounced wire state 5 on_off (Value.bool true) (publish_changes wire 5 report partial state)
publish_changes_announces_example =
    publish_changes_announces wire state 5 lamp report partial on_off (Value.bool true) found
      (tt, tt) turned_on is_new

removal-IsSilent_example :
    IsSilent wire state 5 shorter (publish_changes wire 5 shorter complete state)
removal-IsSilent_example =
    removal-IsSilent wire state 5 lamp shorter found unchanged none_added none_gone
