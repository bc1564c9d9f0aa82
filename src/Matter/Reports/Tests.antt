-- ===== src/Matter/Reports/Tests.antt =====
-- The reports of one lamp, and another lamp beside it.
use rs_matter_server.Prelude.{
  ℕ, ◌≡◌, refl, true, false, Option, none, some, List, [], ◌∷◌, arith, nat_ord, text_ord,
}
use rs_matter_server.Prelude.Text.{text}
use rs_matter_server.Protocol.Json.{Numbers, Value, nat_numbers}
use rs_matter_server.Protocol.Model.{MatterNodeData}
use rs_matter_server.Storage.Nodes.{StoredNode}
use rs_matter_server.Matter.Reports.{
  EventData, event_data, epoch_timestamp, MatterNodeEvent, Context, Report, handle_report,
}
use rs_matter_server.Matter.Reports.Delivery.{stamps, Same, handle_report_changes_sender_only}

instance numbers : Numbers ℕ
unfolding nat_numbers
numbers = nat_numbers

abbrev event_of : Option (Value ℕ) → EventData ℕ
event_of data_json = record {
  endpoint = some 1;
  cluster = some 0x3b;
  event = some 1;
  event_number = 7;
  priority = 1;
  timestamp = epoch_timestamp 0;
  data_json = data_json;
}

abbrev pressed : EventData ℕ
pressed = event_of (some (Value.number 1))

abbrev unreadable : EventData ℕ
unreadable = event_of none

abbrev later : List (ℕ × EventData ℕ)
later = (30, unreadable) ∷ (5, pressed) ∷ []

-- The press after the unreadable event keeps its time.
times_of_later : stamps 1000 later ≡ 1035 ∷ []
times_of_later = refl

abbrev lamp : ℕ → StoredNode ℕ
lamp id = record {
  node = record {
    node_id = id;
    date_commissioned = text "2026";
    last_interview = text "2026";
    interview_version = 1;
    available = true;
    is_bridge = false;
    attributes = (text "1/6/0", Value.bool false) ∷ [];
    attribute_subscriptions = [];
    matter_version = none;
  };
  ip_addresses = [];
  device_fabric_index = none;
}

abbrev context : Context ℕ
context = record {
  state = record {
    nodes = (5, lamp 5) ∷ (6, lamp 6) ∷ [];
    subscriptions =
        (5, record { subscription_id = 100; max_interval = 1000; last_report = 0 }) ∷ [];
    events = [];
    saves = [];
  };
  history = [];
}

abbrev switched_on : Report ℕ
switched_on = record {
  subscription_id = some 100;
  attributes = some ((text "1/6/0", Value.bool true) ∷ []);
  event_reports = some (event_data pressed ∷ []);
}

-- What is made of a node and of an event on the wire.
abbrev node_wire : MatterNodeData ℕ → Value ℕ
node_wire node = Value.number node.node_id

abbrev event_wire : MatterNodeEvent ℕ → Value ℕ
event_wire event = Value.number event.event_id

handle_report_changes_sender_only_example :
    Same 6 (handle_report node_wire event_wire 5 20 switched_on context).1.state context.state
handle_report_changes_sender_only_example =
    handle_report_changes_sender_only node_wire event_wire 5 6 20 switched_on context (omega arith)
