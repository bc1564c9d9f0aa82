-- ===== src/Matter/Reports.antt =====
-- server/src/matter/reports.rs: a report that a device sends is applied to that device. What the
-- stack decodes of it is an argument: the attributes, or none where they cannot be decoded, and the
-- event entries; so is what serde makes of a node and of an event.
pub mod Delivery
mod Tests
use Prim.Native.Nat.{min}
use rs_matter_server.Prelude.{
  ℕ, ◌+◌, ◌-◌, ◌^◌, Option, none, some, List, [], ◌∷◌, ◌++◌, Result, ok, err, unwrap_or,
}
use rs_matter_server.Protocol.Json.{Numbers, Value}
use rs_matter_server.Protocol.Model.{MatterNodeData, AttributesData}
use rs_matter_server.Protocol.Events.{node_event}
use rs_matter_server.Storage.Nodes.{partial}
use rs_matter_server.Matter.Subscriptions.{note_report, Verdict, accept, disown, verdict}
use rs_matter_server.Api.Shared.{record_event}
use rs_matter_server.Monitor.{State, publish_changes}

abbrev pub timestamp_system : ℕ
timestamp_system = 0

abbrev pub timestamp_epoch : ℕ
timestamp_epoch = 1

pub data EventDataTimestamp : Type 0 where
  epoch_timestamp system_timestamp delta_epoch_timestamp delta_system_timestamp :
      ℕ → EventDataTimestamp

-- An event as the stack hands it out; its data is none where `tlv_json` cannot turn it into JSON.
pub record EventData (N : Type 0) : Type 0 where
  pub endpoint : Option ℕ
  pub cluster : Option ℕ
  pub event : Option ℕ
  pub event_number : ℕ
  pub priority : ℕ
  pub timestamp : EventDataTimestamp
  pub data_json : Option (Value N)

-- An entry that is a status, or that cannot be read, is declined.
pub data EventEntry (N : Type 0) : Type 0 where
  declined : EventEntry N
  event_data : EventData N → EventEntry N

pub record MatterNodeEvent (N : Type 0) : Type 0 where
  pub node_id : ℕ
  pub endpoint_id : ℕ
  pub cluster_id : ℕ
  pub event_id : ℕ
  pub event_number : ℕ
  pub priority : ℕ
  pub timestamp : ℕ
  pub timestamp_type : ℕ
  pub value : Value N

-- The last epoch and the last system time of the entries before.
pub record LastTimes : Type 0 where
  pub last_epoch : Option ℕ
  pub last_system : Option ℕ

-- `map_or(delta, |base| base.saturating_add(delta))`.
unfoldable pub after_base : Option ℕ → ℕ → ℕ
after_base none delta = delta
after_base (some base) delta = min (base + delta) (2 ^ 64 - 1)

pub record Timed : Type 0 where
  pub time : ℕ
  pub kind : ℕ
  pub times : LastTimes

pub at_epoch : LastTimes → ℕ → Timed
at_epoch last time = record {
  time = time;
  kind = timestamp_epoch;
  times = record last { last_epoch = some time };
}

pub at_system : LastTimes → ℕ → Timed
at_system last time = record {
  time = time;
  kind = timestamp_system;
  times = record last { last_system = some time };
}

unfoldable pub timed : LastTimes → EventDataTimestamp → Timed
unfolding at_epoch at_system
timed last (epoch_timestamp value) = at_epoch last value
timed last (system_timestamp value) = at_system last value
timed last (delta_epoch_timestamp delta) = at_epoch last (after_base last.last_epoch delta)
timed last (delta_system_timestamp delta) = at_system last (after_base last.last_system delta)

module _ {N : Type 0} where
  pub node_event_of : ℕ → EventData N → Timed → Option (Value N) → List (MatterNodeEvent N)
  node_event_of node_id e t none = []
  node_event_of node_id e t (some value) =
      record {
        node_id = node_id;
        endpoint_id = unwrap_or e.endpoint 0;
        cluster_id = unwrap_or e.cluster 0;
        event_id = unwrap_or e.event 0;
        event_number = e.event_number;
        priority = e.priority;
        timestamp = t.time;
        timestamp_type = t.kind;
        value = value;
      }
      ∷ []

  -- An entry whose data cannot be turned into JSON is left out, but its time counts.
  unfoldable pub walk_events : ℕ → LastTimes → List (EventEntry N) → List (MatterNodeEvent N)
  unfolding node_event_of
  walk_events node_id last [] = []
  walk_events node_id last (declined ∷ entries) = walk_events node_id last entries
  walk_events node_id last (event_data e ∷ entries) =
      node_event_of node_id e (timed last e.timestamp) e.data_json
      ++ walk_events node_id (timed last e.timestamp).times entries

  unfoldable pub node_events : ℕ → Option (List (EventEntry N)) → List (MatterNodeEvent N)
  node_events node_id none = []
  node_events node_id (some entries) =
      walk_events node_id (record { last_epoch = none; last_system = none }) entries

-- What the report is answered with where it is not taken.
pub data ImStatusCode : Type 0 where
  invalid_subscription failure : ImStatusCode

-- What the monitor shares, and the history of node events.
pub record Context (N : Type 0) : Type 0 where
  pub state : State N
  pub history : List (MatterNodeEvent N)

pub record Report (N : Type 0) : Type 0 where
  pub subscription_id : Option ℕ
  pub attributes : Option (AttributesData N)
  pub event_reports : Option (List (EventEntry N))

module _ {N : Type 0} ⦃num : Numbers N⦄ (to_value : MatterNodeData N → Value N)
    (event_value : MatterNodeEvent N → Value N) where
  unfoldable pub deliver : List (MatterNodeEvent N) → Context N → Context N
  deliver [] c = c
  deliver (e ∷ es) c = deliver es (record {
    state = record c.state { events = c.state.events ++ (node_event (event_value e) ∷ []) };
    history = record_event e c.history;
  })

  pub apply_attributes : ℕ → AttributesData N → State N → State N
  apply_attributes node_id [] s = s
  apply_attributes node_id (a ∷ attributes) s =
      publish_changes to_value node_id (a ∷ attributes) partial s

  pub alive : ℕ → ℕ → Context N → Context N
  alive node_id now c = record c {
    state = record c.state { subscriptions = note_report c.state.subscriptions node_id now };
  }

  pub taken :
      ℕ → Report N → Option (AttributesData N) → Context N → Result ImStatusCode Unit × Context N
  unfolding apply_attributes
  taken node_id report none c = (err failure, c)
  taken node_id report (some attributes) c = (
    ok tt,
    deliver (node_events node_id report.event_reports)
        (record c { state = apply_attributes node_id attributes c.state }),
  )

  pub judged : ℕ → ℕ → Report N → Context N → Verdict → Result ImStatusCode Unit × Context N
  unfolding taken alive
  judged node_id now report c disown = (err invalid_subscription, c)
  judged node_id now report c accept = taken node_id report report.attributes (alive node_id now c)

  unfoldable pub handle_report : ℕ → ℕ → Report N → Context N → Result ImStatusCode Unit × Context N
  unfolding judged
  handle_report node_id now report c =
      judged node_id now report c (verdict c.state.subscriptions node_id report.subscription_id)
